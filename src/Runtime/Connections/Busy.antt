-- ===== src/Runtime/Connections/Busy.antt =====
-- services/runtime/src/aegora_runtime/tool_adapters.py: a session that serves a call is not closed for
-- another one.
use aegora.Prelude.{
  ℕ, zero, suc, ◌≡◌, inl, inr, refl, sym, ap, ◌∙◌, String, true, false, none, some, [], ◌∷◌, map,
  keep, length, leb, if◌then◌else◌, Bool-cases, Option-cases, some-injective, arith, ◌==◌, eq_iff,
  eq_refl,
}
use aegora.Prelude.Dict
use aegora.Prelude.Dict.{Dict, get-pop, get-put, get-put_self}
use aegora.Prelude.Result.{Result, Result-cases}
use aegora.Runtime.Connections.{
  Connection, McpTool, McpClientSession, Settings, Pool, connection_cache_key, connection_id_of,
  is_idle, is_superseded, close_where, oldest, enforce_session_limit, cleanup_idle_sessions,
  new_session, open_session, get_session,
}
use aegora.Runtime.Connections.Keys.{
  IsDict, KeysOwn, IsDict-pop, get-close_where, IsDict-close_all, KeysOwn-pop, KeysOwn-close_all,
}

module _ {C : Type 0} where
  -- A lookup passes over an entry with another key.
  get-later :
      (j k : String) (u t : McpClientSession C) (d : Dict (McpClientSession C))
      → Dict.get j d ≡ none
      → Dict.get k d ≡ some t
      → Dict.get k ((j, u) ∷ d) ≡ some t
  unfolding Dict.get
  get-later j k u t d gone found = elim (Bool-cases (j == k)) [
    | inl e ↦ let no = rw ((eq_iff j k).0 e) at gone in cc
    | inr e ↦ rw e found
  ]

  -- The session that the limit closes serves no call.
  oldest-entry :
      (d : Dict (McpClientSession C)) {t : McpClientSession C}
      → IsDict d
      → oldest d ≡ some t
      → (j : String) × (Dict.get j d ≡ some t) × (t.locked ≡ false)
  unfolding oldest Dict.get
  oldest-entry [] h found = cc
  oldest-entry ((j, u) ∷ d) {t} h found = elim (Bool-cases u.locked) [
    | inl e ↦
        let (i, there, free) = oldest-entry d h.1 (rw e at found) in
        (i, get-later j i u t d h.0 there, free)
    | inr e ↦ elim (Option-cases (oldest d)) [
      | inl f ↦
          let same : u ≡ t = some-injective (rw (e, f) at found) in
          (j, rw (eq_refl j) (ap some same), ap (λ x. x.locked) (sym same) ∙ e)
      | inr (v, f) ↦ elim (Bool-cases (leb u.last_used_at v.last_used_at)) [
        | inl g ↦
            let same : u ≡ t = some-injective (rw (e, f, g) at found) in
            (j, rw (eq_refl j) (ap some same), ap (λ x. x.locked) (sym same) ∙ e)
        | inr g ↦
            let same : v ≡ t = some-injective (rw (e, f, g) at found) in
            let (i, there, free) = oldest-entry d h.1 (f ∙ ap some same) in
            (i, get-later j i u t d h.0 there, free)
      ]
    ]
  ]

  enforce-get :
      (max fuel : ℕ) (k : String) (s : McpClientSession C) (d : Dict (McpClientSession C))
      → IsDict d
      → KeysOwn d
      → s.locked ≡ true
      → Dict.get k d ≡ some s
      → Dict.get k (enforce_session_limit max fuel d).1 ≡ some s
  unfolding enforce_session_limit
  enforce-get max zero k s d h own busy found = found
  enforce-get max (suc fuel) k s d h own busy found = elim (Option-cases (oldest d)) [
    | inl e ↦ elim (Bool-cases (leb max (length d))) [
      | inl f ↦ rw (e, enforce_session_limit) (rw f found)
      | inr f ↦ rw (e, enforce_session_limit) (rw f found)
    ]
    | inr (t, e) ↦ elim (Bool-cases (leb max (length d))) [
      | inr f ↦ rw (e, enforce_session_limit) (rw f found)
      | inl f ↦
          let (j, there, free) = oldest-entry d h e in
          let key = own j t there in
          let other : (t.cache_key == k) ≡ false = elim (Bool-cases (t.cache_key == k)) [
            | inr other ↦ other
            | inl same ↦
                let at_k = rw (sym key ∙ (eq_iff t.cache_key k).0 same) at there in
                let both : some s ≡ some t = sym found ∙ at_k in
                let no : s.locked ≡ t.locked = ap (λ x. x.locked) (some-injective both) in cc
          ] in
          rw (e, enforce_session_limit)
            (rw f (
              enforce-get max fuel k s (Dict.pop t.cache_key d) (IsDict-pop t.cache_key d h)
                (KeysOwn-pop t.cache_key d own) busy (rw (get-pop t.cache_key k d, other) found)))
    ]
  ]

  module _ (digest : Connection → String) (connect : McpTool → Result C) (settings : Settings)
      (tool : McpTool) where
    open_session-get :
        (now : ℕ) (k : String) (s : McpClientSession C) (pool : Pool C)
        → IsDict pool.sessions
        → KeysOwn pool.sessions
        → s.locked ≡ true
        → Dict.get k pool.sessions ≡ some s
        → (connection_cache_key digest tool == k) ≡ false
        → Dict.get k (open_session digest connect settings tool now pool).1.sessions ≡ some s
    unfolding open_session close_where
    open_session-get now k s pool h own busy found other =
        let key = connection_cache_key digest tool in
        let p = is_superseded key (connection_id_of tool) in
        let keys = map (λ e. e.0) (keep p pool.sessions) in
        let spared : p (k, s) ≡ false = ground (arith, busy) in
        let current = close_where p pool.sessions in
        let left =
          enforce-get settings.max_sessions (suc (length current)) k s current
            (IsDict-close_all keys pool.sessions h) (KeysOwn-close_all keys pool.sessions own) busy
            (get-close_where p k s pool.sessions h found spared) in
        elim (Result-cases
          (enforce_session_limit settings.max_sessions (suc (length current)) current).0) [
            | inr (message, e) ↦ rw (e, open_session) left
            | inl (made, e) ↦ elim (Result-cases (connect tool)) [
              | inr (message, c) ↦ rw (e, open_session) (rw c left)
              | inl (client, c) ↦
                  let new =
                    new_session digest connect settings tool client pool.next_identity now in
                  let after =
                    (enforce_session_limit settings.max_sessions (suc (length current))
                      current).1 in
                  rw (e, open_session) (rw c (rw (get-put key k new after, other) left))
            ]
          ]

    -- No request for a session closes one that serves a call, neither as idle nor as superseded nor
    -- for room: it stands after the request as before, and only the one that is asked for is noted as
    -- used.
    pub get_session-get :
        (now : ℕ) (k : String) (s : McpClientSession C) (pool : Pool C)
        → IsDict pool.sessions
        → KeysOwn pool.sessions
        → s.locked ≡ true
        → Dict.get k pool.sessions ≡ some s
        → Dict.get k (get_session digest connect settings tool now pool).1.sessions
          ≡ some
              (if connection_cache_key digest tool == k then record s { last_used_at = now } else s)
    unfolding get_session cleanup_idle_sessions close_where
    get_session-get now k s pool h own busy found =
        let key = connection_cache_key digest tool in
        let keys = map (λ e. e.0) (keep (is_idle now) pool.sessions) in
        let left = close_where (is_idle now) pool.sessions in
        let spared : is_idle now (k, s) ≡ false = rw busy refl in
        let stays = get-close_where (is_idle now) k s pool.sessions h found spared in
        elim (Bool-cases (key == k)) [
          | inl e ↦
              let asked : Dict.get key left ≡ some s = rw (← (eq_iff key k).0 e) at stays in
              rw (e, asked, get_session)
                (rw (get-put key k (record s { last_used_at = now }) left, e) refl)
          | inr e ↦ elim (Option-cases (Dict.get key left)) [
            | inl f ↦
                rw (e, f, get_session)
                  (open_session-get now k s (record pool { sessions = left })
                    (IsDict-close_all keys pool.sessions h)
                    (KeysOwn-close_all keys pool.sessions own) busy stays e)
            | inr (t, f) ↦
                rw (e, f, get_session)
                  (rw (get-put key k (record t { last_used_at = now }) left, e) stays)
          ]
        ]
