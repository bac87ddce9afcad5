-- ===== src/Runtime/Connections/Bounded.antt =====
-- services/runtime/src/aegora_runtime/tool_adapters.py: what a request for a session ends with.
use aegora.Prelude.{
  ℕ, suc, ◌≤◌, ◌≡◌, ◌⊎◌, inl, inr, refl, String, Bool, some, List, [], ◌∷◌, map, keep, length,
  Option-cases, arith,
}
use aegora.Prelude.Dict
use aegora.Prelude.Dict.{Dict, get-put_self}
use aegora.Prelude.Result.{Result, Result-cases, ok, err}
use aegora.Runtime.Connections.{
  Connection, McpTool, McpClientSession, Settings, Pool, connection_cache_key, connection_id_of,
  is_idle, is_superseded, close_all, close_where, enforce_session_limit, cleanup_idle_sessions,
  new_session, open_session, get_session,
}
use aegora.Runtime.Connections.Limit.{
  full, IsKeyed, AllLocked, length-pop-le, IsKeyed-pop, length-put-le, length-put_again,
  IsKeyed-put, IsKeyed-get, enforce_session_limit-IsLimited,
}

module _ {C : Type 0} where
  close_all-fewer :
      (keys : List String) (d : Dict (McpClientSession C))
      → IsKeyed d
      → IsKeyed (close_all keys d) × (length (close_all keys d) ≤ length d)
  unfolding close_all
  close_all-fewer [] d h = (h, omega arith)
  close_all-fewer (k ∷ keys) d h =
      let rest = close_all-fewer keys (Dict.pop k d) (IsKeyed-pop k d h) in
      (rest.0, omega (arith, rest.1, length-pop-le k d))

  close_where-fewer :
      (p : String × McpClientSession C → Bool) (d : Dict (McpClientSession C))
      → IsKeyed d
      → IsKeyed (close_where p d) × (length (close_where p d) ≤ length d)
  unfolding close_where
  close_where-fewer p d h = close_all-fewer (map (λ e. e.0) (keep p d)) d h

  module _ (digest : Connection → String) (connect : McpTool → Result C) (settings : Settings)
      (tool : McpTool) where
    -- The pool is keyed and within its limit, and there is a session of the connection, or the client
    -- failed to connect, or the pool is full of sessions that serve a call.
    pub record IsServed (r : Result (McpClientSession C) × Pool C) : Type 0 where
      pub keyed : IsKeyed r.1.sessions
      pub bounded : length r.1.sessions ≤ settings.max_sessions
      pub ended :
          ((s : McpClientSession C) × (r.0 ≡ ok s)
            × (Dict.get (connection_cache_key digest tool) r.1.sessions ≡ some s))
          ⊎ ((message : String) × (r.0 ≡ err message) × (connect tool ≡ err message))
          ⊎ ((r.0 ≡ err full)
              × AllLocked r.1.sessions
              × (settings.max_sessions ≤ length r.1.sessions))

    open_session-IsServed :
        (now : ℕ) (pool : Pool C)
        → IsKeyed pool.sessions
        → length pool.sessions ≤ settings.max_sessions
        → IsServed (open_session digest connect settings tool now pool)
    unfolding open_session new_session
    open_session-IsServed now pool h bound =
        let key = connection_cache_key digest tool in
        let p = is_superseded key (connection_id_of tool) in
        let closed = close_where-fewer p pool.sessions h in
        let current = close_where p pool.sessions in
        let limited =
          enforce_session_limit-IsLimited settings.max_sessions (suc (length current)) current
            (omega arith) closed.0 in
        elim limited.ended [
          | inr (e, locked, most) ↦
              rw (e, open_session)
                (record {
                  keyed = limited.keyed;
                  bounded = omega (arith, limited.fewer, closed.1);
                  ended = inr (inr (refl, locked, most));
                })
          | inl (e, room) ↦ elim (Result-cases (connect tool)) [
            | inr (message, c) ↦
                rw (e, open_session)
                  (rw c (record {
                    keyed = limited.keyed;
                    bounded = omega (arith, room);
                    ended = inr (inl (message, refl, c));
                  }))
            | inl (client, c) ↦
                let s = new_session digest connect settings tool client pool.next_identity now in
                let left =
                  (enforce_session_limit settings.max_sessions (suc (length current)) current).1 in
                rw (e, open_session)
                  (rw c (record {
                    keyed = IsKeyed-put key s left refl limited.keyed;
                    bounded = omega (arith, length-put-le key s left, room);
                    ended = inl (s, refl, get-put_self key {v = s} left);
                  }))
          ]
        ]

    -- A request for a session keeps the pool keyed and within its limit, whatever it answers. It
    -- answers the session that then stands under the connection's key, or the error of a client that
    -- did not connect, or that the pool is full, and then every session serves a call.
    pub get_session-IsServed :
        (now : ℕ) (pool : Pool C)
        → IsKeyed pool.sessions
        → length pool.sessions ≤ settings.max_sessions
        → IsServed (get_session digest connect settings tool now pool)
    unfolding get_session cleanup_idle_sessions
    get_session-IsServed now pool h bound =
        let key = connection_cache_key digest tool in
        let closed = close_where-fewer (is_idle now) pool.sessions h in
        let left = close_where (is_idle now) pool.sessions in
        let less : length left ≤ settings.max_sessions = omega (arith, closed.1, bound) in
        elim (Option-cases (Dict.get key left)) [
          | inl e ↦
              rw (e, get_session)
                (open_session-IsServed now (record pool { sessions = left }) closed.0 less)
          | inr (s, e) ↦
              let used = record s { last_used_at = now } in
              rw (e, get_session)
                (record {
                  keyed = IsKeyed-put key used left (IsKeyed-get key left closed.0 e) closed.0;
                  bounded = rw (length-put_again key used left e) less;
                  ended = inl (used, refl, get-put_self key {v = used} left);
                })
        ]
