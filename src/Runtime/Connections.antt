-- ===== src/Runtime/Connections.antt =====
-- services/runtime/src/aegora_runtime/tool_adapters.py: the pool of MCP client sessions. The client
-- library and the digest of a connection are parameters. Each function runs under the lock of the
-- pool, at the time that the clock gives; a session's own lock is held while it serves a call.
pub mod Limit
pub mod Bounded
pub mod Keys
pub mod Busy
use aegora.Prelude.{
  ℕ, zero, suc, ◌+◌, String, Bool, true, false, not, ◌&&◌, Option, none, some, List, [], ◌∷◌, map,
  keep, length, leb, nat_eq, append, or_else, ◌==◌, if◌then◌else◌,
}
use aegora.Prelude.Dict
use aegora.Prelude.Dict.{Dict}
use aegora.Prelude.Result.{Result, ok, err}

-- `tool["mcp_connection"]`, "" for a text that is missing and none for a number that is.
pub record Connection : Type 0 where
  pub connection_id : String
  pub config_hash : String
  pub config_version : String
  pub credential_version : String
  pub idle_ttl_seconds : Option ℕ
  pub discovery_ttl_seconds : Option ℕ

pub record McpTool : Type 0 where
  pub mcp_connection : Option Connection
  pub mcp_connection_id : String
  pub runner_tool_id : String

-- `identity` tells the objects apart; `locked` is `session.lock.locked()`.
pub record McpClientSession (C : Type 0) : Type 0 where
  pub identity : ℕ
  pub client : C
  pub locked : Bool
  pub cache_key : String
  pub connection_id : String
  pub created_at : ℕ
  pub last_used_at : ℕ
  pub idle_ttl_seconds : ℕ
  pub discovery_ttl_seconds : ℕ
  pub discovered_at : ℕ
  pub discovered_tools : Option (List String)

pub record Settings : Type 0 where
  pub idle_ttl : ℕ
  pub discovery_ttl : ℕ
  pub max_sessions : ℕ

pub record Pool (C : Type 0) : Type 0 where
  pub sessions : Dict (McpClientSession C)
  pub next_identity : ℕ

unfoldable pub connection_id_of : McpTool → String
connection_id_of tool = elim tool.mcp_connection [
  | none ↦ or_else tool.mcp_connection_id tool.runner_tool_id
  | some c ↦ or_else c.connection_id (or_else tool.mcp_connection_id tool.runner_tool_id)
]

-- A time to live that a connection gives counts where it is positive.
unfoldable pub ttl_of : Option ℕ → ℕ → ℕ
ttl_of none default = default
ttl_of (some n) default = if leb 1 n then n else default

unfoldable pub connection_cache_key : (Connection → String) → McpTool → String
unfolding connection_id_of
connection_cache_key digest tool = elim tool.mcp_connection [
  | none ↦ tool.runner_tool_id
  | some c ↦ append (connection_id_of tool) (
      append ":" (
        append (or_else c.config_hash (digest c)) (
          append ":" (
            append (or_else c.config_version "0")
              (append ":" (or_else c.credential_version "0"))))))
]

module _ {C : Type 0} where
  -- `now - session.last_used_at >= session.idle_ttl_seconds`, for a session that serves no call
  abbrev pub is_idle : ℕ → String × McpClientSession C → Bool
  is_idle now (key, s) = not s.locked && leb (s.last_used_at + s.idle_ttl_seconds) now

  abbrev pub is_superseded : String → String → String × McpClientSession C → Bool
  is_superseded cache_key connection_id (key, s) =
      not (key == cache_key) && s.connection_id == connection_id && not s.locked

  -- `_close_session_locked` for each key; what the client says to it is ignored.
  unfoldable pub close_all : List String → Dict (McpClientSession C) → Dict (McpClientSession C)
  close_all [] sessions = sessions
  close_all (key ∷ keys) sessions = close_all keys (Dict.pop key sessions)

  unfoldable pub close_where :
      (String × McpClientSession C → Bool) → Dict (McpClientSession C) → Dict (McpClientSession C)
  unfolding close_all
  close_where p sessions = close_all (map (λ e. e.0) (keep p sessions)) sessions

  -- `min(candidates, key=lambda item: item.last_used_at)`, the first of the least
  unfoldable pub oldest : Dict (McpClientSession C) → Option (McpClientSession C)
  oldest [] = none
  oldest ((key, s) ∷ sessions) =
      let rest = oldest sessions in
      if s.locked then rest else elim rest [
        | none ↦ some s
        | some t ↦ if leb s.last_used_at t.last_used_at then some s else some t
      ]

  -- The loop on fuel; an error where every session serves a call.
  unfoldable pub enforce_session_limit :
      ℕ → ℕ → Dict (McpClientSession C) → Result String × Dict (McpClientSession C)
  unfolding oldest
  enforce_session_limit max zero sessions = (err "fuel", sessions)
  enforce_session_limit max (suc fuel) sessions = elim (oldest sessions) [
    | none ↦
        if leb max (length sessions)
        then (err "MCP session cache 已满且连接均在使用", sessions)
        else (ok "", sessions)
    | some s ↦
        let rest = enforce_session_limit max fuel (Dict.pop s.cache_key sessions) in
        if leb max (length sessions) then rest else (ok "", sessions)
  ]

  unfoldable pub cleanup_idle_sessions : ℕ → Pool C → ℕ × Pool C
  unfolding close_where
  cleanup_idle_sessions now pool = (
    length (keep (is_idle now) pool.sessions),
    record pool { sessions = close_where (is_idle now) pool.sessions },
  )

  -- Only the session that was expected is closed.
  unfoldable pub evict_session : String → Option (McpClientSession C) → Pool C → Pool C
  evict_session cache_key expected pool = elim expected [
    | none ↦ record pool { sessions = Dict.pop cache_key pool.sessions }
    | some e ↦ elim (Dict.get cache_key pool.sessions) [
      | none ↦ pool
      | some current ↦
          if nat_eq current.identity e.identity
          then record pool { sessions = Dict.pop cache_key pool.sessions }
          else pool
    ]
  ]

  unfoldable pub close_sessions : Pool C → Pool C
  unfolding close_all
  close_sessions pool = record pool {
    sessions = close_all (map (λ e. e.0) pool.sessions) pool.sessions;
  }

  module _ (digest : Connection → String) (connect : McpTool → Result C) (settings : Settings) where
    unfoldable pub new_session : McpTool → C → ℕ → ℕ → McpClientSession C
    unfolding connection_id_of ttl_of connection_cache_key
    new_session tool client identity now = record {
      identity = identity;
      client = client;
      locked = false;
      cache_key = connection_cache_key digest tool;
      connection_id = connection_id_of tool;
      created_at = now;
      last_used_at = now;
      idle_ttl_seconds =
          ttl_of (elim tool.mcp_connection [ none ↦ none | some c ↦ c.idle_ttl_seconds ])
            settings.idle_ttl;
      discovery_ttl_seconds =
          ttl_of (elim tool.mcp_connection [ none ↦ none | some c ↦ c.discovery_ttl_seconds ])
            settings.discovery_ttl;
      discovered_at = 0;
      discovered_tools = none;
    }

    -- The pool where a session has to be opened: room is made, and the client connected.
    unfoldable pub open_session : McpTool → ℕ → Pool C → Result (McpClientSession C) × Pool C
    unfolding new_session enforce_session_limit close_where
    open_session tool now pool =
        let key = connection_cache_key digest tool in
        let current = close_where (is_superseded key (connection_id_of tool)) pool.sessions in
        let (room, sessions) =
          enforce_session_limit settings.max_sessions (suc (length current)) current in
        elim room [
          | err message ↦ (err message, record pool { sessions = sessions })
          | ok made ↦ elim (connect tool) [
            | err message ↦ (err message, record pool { sessions = sessions })
            | ok client ↦
                let s = new_session tool client pool.next_identity now in
                (
                  ok s,
                  record pool {
                    sessions = Dict.put key s sessions;
                    next_identity = suc pool.next_identity;
                  },
                )
          ]
        ]

    unfoldable pub get_session : McpTool → ℕ → Pool C → Result (McpClientSession C) × Pool C
    unfolding open_session cleanup_idle_sessions
    get_session tool now pool =
        let key = connection_cache_key digest tool in
        let cleaned = (cleanup_idle_sessions now pool).1 in
        elim (Dict.get key cleaned.sessions) [
          | some s ↦
              let used = record s { last_used_at = now } in
              (ok used, record cleaned { sessions = Dict.put key used cleaned.sessions })
          | none ↦ open_session tool now cleaned
        ]
