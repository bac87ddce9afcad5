-- ===== src/Tests/Connections.antt =====
-- A pool of one session that is asked for another one.
use aegora.Prelude.{
  ℕ, refl, none, some, [], ◌∷◌, true, arith, ◌≡◌, Bool-cases, some-injective, ap, sym, ◌∙◌, inl,
  inr, ◌==◌, eq_iff, if◌then◌else◌,
}
use aegora.Prelude.Dict
use aegora.Prelude.Dict.{Dict}
use aegora.Prelude.Result.{ok}
use aegora.Runtime.Connections.{
  McpTool, McpClientSession, Settings, Pool, get_session, connection_cache_key,
}
use aegora.Runtime.Connections.Bounded.{IsServed, get_session-IsServed}
use aegora.Runtime.Connections.Keys.{KeysOwn}
use aegora.Runtime.Connections.Busy.{get_session-get}

abbrev search : McpTool
search = record {
  mcp_connection = none;
  mcp_connection_id = "";
  runner_tool_id = "mcp+http://search";
}

abbrev settings : Settings
settings = record { idle_ttl = 900; discovery_ttl = 300; max_sessions = 1 }

abbrev mail : McpClientSession ℕ
mail = record {
  identity = 0;
  client = 7;
  locked = true;
  cache_key = "mail";
  connection_id = "mail";
  created_at = 1;
  last_used_at = 1;
  idle_ttl_seconds = 900;
  discovery_ttl_seconds = 300;
  discovered_at = 0;
  discovered_tools = none;
}

abbrev busy : Pool ℕ
busy = record { sessions = ("mail", mail) ∷ []; next_identity = 1 }

get_session-IsServed_example :
    IsServed
      (λ c. "digest")
      (λ tool. ok 8)
      settings
      search
      (get_session (λ c. "digest") (λ tool. ok 8) settings search 50 busy)
get_session-IsServed_example =
    get_session-IsServed (λ c. "digest") (λ tool. ok 8) settings search 50 busy (refl, tt)
      (omega arith)

busy-KeysOwn : KeysOwn busy.sessions
unfolding Dict.get
busy-KeysOwn k s found = elim (Bool-cases ("mail" == k)) [
  | inl e ↦
      let same : mail ≡ s = some-injective (rw e at found) in
      ap (λ x. x.cache_key) (sym same) ∙ (eq_iff "mail" k).0 e
  | inr e ↦ let no = rw e at found in cc
]

get_session-get_example :
    Dict.get "mail" (get_session (λ c. "digest") (λ tool. ok 8) settings search 50 busy).1.sessions
    ≡ some (
        if connection_cache_key (λ c. "digest") search == "mail"
        then record mail { last_used_at = 50 }
        else mail)
unfolding Dict.get
get_session-get_example =
    get_session-get (λ c. "digest") (λ tool. ok 8) settings search 50 "mail" mail busy (refl, tt)
      busy-KeysOwn refl refl
