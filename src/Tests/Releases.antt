-- ===== src/Tests/Releases.antt =====
-- An agent whose release is published, run and revoked.
use aegora.Prelude.{
  all, any, keep, strip, inr, ◌≡◌, ◌≢◌, refl, String, true, false, none, some, List, [], ◌∷◌, map,
  mem, is_some, not, ◌&&◌, ◌==◌, ◌↔◌, decimal,
}
use aegora.Prelude.Dict
use aegora.Prelude.Dict.{Dict}
use aegora.Prelude.Result.{ok}
use aegora.Runtime.Cache.{fill_from_redis, get_key, release_key}
use aegora.Runtime.Invalidation.{apply_event}
use aegora.Control.Workflow.{ToolDefinition}
use aegora.Control.Platform.{
  returned, Agent, Release, CacheEvent, Platform, fetch_agent_release, active_tool,
  get_user_role_tool_scopes, user_is_active, user_has_role, active_tool_ids, max_version,
  connection_is_active,
}
use aegora.Control.Access.{
  RunnerAgent, released_agent, active_tool_scopes, keys, release_tools, resolve_release_access,
  require_current_actor, can_manage_agent, pass_gates, agent_is_enabled, can_run_agent,
  released_tools,
}
use aegora.Prelude.Rows.{find}
use aegora.Prelude.Sort.{sort}
use aegora.Control.Authz.{
  scope_is_subset, validate_configured_tools, validate_tool_scopes, sorted_items, merge_tool_scopes,
  merge_rows, add_scope, normalize_scope, finish, scope_at, effective_tools,
}
use aegora.Control.Access.Allowed.{IsRunnable, run_of, resolve_release_access-IsRunnable}
use aegora.Control.Agents.{
  AgentRequest, create_agent, update_agent, save_agent, normalize_agent_tool_request, write_gates,
  create_gates, all_active, ensure_users, saved_members,
}
use aegora.Control.Agents.Granted.{IsDraft, create_agent-IsGranted, update_agent-IsGranted}
use aegora.Runtime.Context.Scope.{covered, sorted_set}
use aegora.Control.Releases.{publish_agent, revoke_agent_release, managed_agent, manifests}
use aegora.Control.Releases.Finality.{Steps}
use aegora.Control.Releases.Publication.{MayManage, IsNewest, publish_agent-IsNewest}
use aegora.Control.Releases.Revocation.{IsRevoked, revoke_agent_release-IsFinal}
use aegora.Control.Releases.Delivery.{payload, payload-IsApplied}
use aegora.Tests.Caches.{json, redis, settings, warm}

abbrev bot : Agent
bot = record {
  owner_user_id = "ann";
  enabled = true;
  name = "Bot";
  icon = "robot";
  system_prompt = "";
  model = none;
  visibility = "private";
  members = "bob" ∷ [];
  tool_scopes = ("search", []) ∷ [];
  snapshot_tools = "search" ∷ [];
  snapshot_version = 1;
  channels = "web" ∷ [];
}

abbrev search_tool : ToolDefinition String
search_tool = record {
  tool_id = "search";
  status = "active";
  source = "local";
  version = "dev";
  mcp_connection_id = none;
  manifest_hash = "sha256:s";
  rest = "";
}

abbrev pub platform : Platform String
platform = record {
  users = ("ann", "active") ∷ ("bob", "active") ∷ [];
  user_sessions = [];
  user_roles = ("bob", "reader") ∷ [];
  roles =
      ("reader", record { name = "Reader"; description = ""; status = "active"; is_system = false })
      ∷ [];
  role_tool_permissions = ("reader", "search", []) ∷ [];
  tools = ("search", search_tool) ∷ [];
  mcp_connections = [];
  agents = ("a1", bot) ∷ [];
  releases = [];
  permission_events = [];
  role_change_events = [];
  cache_events = [];
  now = 7;
}

abbrev released : Platform String
released = (publish_agent (returned "ann") "r1" "a1" "ann" platform).1

publish_agent-IsNewest_example :
    (agent : Agent) × MayManage (returned "ann") "ann" "a1" agent platform
    × IsNewest "r1" "a1" "ann" 1 agent platform released
unfolding publish_agent managed_agent require_current_actor can_manage_agent user_is_active
    manifests active_tool sorted_items sort max_version find fetch_agent_release Dict.get
publish_agent-IsNewest_example =
    publish_agent-IsNewest (returned "ann") "r1" "a1" "ann" 1 platform refl

revoke_agent_release-IsFinal_example :
    let after = (revoke_agent_release (returned "ann") "r1" "a1" "ann" released).1 in
    ((agent : Agent) × MayManage (returned "ann") "ann" "a1" agent released)
    × IsRevoked "r1" "a1" 1 released after
    × ((q : Platform String) (actor channel : String) (agent : RunnerAgent) (allowed : List String)
        → Steps after q
        → (resolve_release_access "a1" "r1" actor channel q).0 ≢ returned (agent, allowed))
unfolding revoke_agent_release publish_agent managed_agent require_current_actor can_manage_agent
    user_is_active manifests active_tool sorted_items sort max_version find fetch_agent_release
    Dict.get
revoke_agent_release-IsFinal_example =
    revoke_agent_release-IsFinal (returned "ann") "r1" "a1" "ann" 1 released refl

-- The agent as the runner of the release is given it.
abbrev released_bot : RunnerAgent
released_bot = record {
  owner_user_id = "ann";
  enabled = true;
  name = "Bot";
  icon = "robot";
  visibility = "private";
  members = "bob" ∷ [];
  system_prompt = "";
  model = none;
  tool_scopes = ("search", []) ∷ [];
  channels = "web" ∷ [];
  release_id = "r1";
  release_version = 1;
}

resolve_release_access-IsRunnable_example :
    (((resolve_release_access "a1" "r1" "bob" "web" released).0
        ≡ returned (released_bot, "search" ∷ []))
      ↔ ((r : Release String) × (fetch_agent_release "a1" "r1" released ≡ some r)
          × IsRunnable "a1" "bob" "web" r released
          × (run_of r "bob" released ≡ (released_bot, "search" ∷ []))))
    × ((t : String) (r : Release String)
        → mem t (release_tools r "bob" released) ≡ (
            mem t (map (λ tool. tool.0.tool_id) r.config_json.tools)
            && not (t == "")
            && is_some (active_tool t released)
            && mem t (keys (get_user_role_tool_scopes "bob" released))))
resolve_release_access-IsRunnable_example =
    resolve_release_access-IsRunnable "a1" "r1" "bob" "web" released_bot ("search" ∷ []) released

-- The release can be run by a member with the tool of their role.
bob_runs :
    (resolve_release_access "a1" "r1" "bob" "web" released).0
    ≡ returned (released_bot, "search" ∷ [])
unfolding resolve_release_access publish_agent managed_agent require_current_actor can_manage_agent
    user_is_active manifests active_tool sorted_items sort max_version find fetch_agent_release
    Dict.get pass_gates agent_is_enabled can_run_agent user_has_role any mem released_tools
    active_tool_ids get_user_role_tool_scopes keep merge_tool_scopes merge_rows add_scope
    normalize_scope finish scope_at Dict.put effective_tools keys connection_is_active
    released_agent active_tool_scopes sorted_set
bob_runs = refl

abbrev revocation : CacheEvent
revocation = record {
  event_type = "release.revoked";
  agent_id = "a1";
  release_id = "r1";
  release_version = 1;
}

payload-IsApplied_example :
    let (applied, metric, after) =
      apply_event json redis settings (ok (payload "e1" "now" revocation)) warm in
    let key = release_key settings "a1" "r1" (decimal 1) in
    (applied ≡ true)
    × (get_key json redis settings key after ≡ fill_from_redis json redis settings key after)
payload-IsApplied_example =
    payload-IsApplied json redis settings "e1" "now" revocation warm (inr refl) refl refl refl

abbrev request : AgentRequest
request = record {
  name = "Bot";
  icon = "robot";
  visibility = "private";
  members = " carl " ∷ "bob" ∷ [];
  system_prompt = "";
  model = some " ";
  tools = ("search", []) ∷ [];
  channels = "web" ∷ [];
}

create_agent-IsGranted_example :
    (user_is_active "bob" platform ≡ true)
    × IsDraft "a2" "bob" request platform
        (create_agent (returned "bob") "a2" "bob" request platform).1
unfolding create_agent update_agent managed_agent require_current_actor can_manage_agent
    sorted_items sort normalize_agent_tool_request pass_gates write_gates create_gates
    user_is_active user_has_role any mem all all_active active_tool_ids active_tool
    connection_is_active get_user_role_tool_scopes keep merge_tool_scopes merge_rows add_scope
    normalize_scope finish scope_at scope_is_subset covered validate_configured_tools
    validate_tool_scopes keys save_agent Dict.get Dict.put
create_agent-IsGranted_example =
    create_agent-IsGranted (returned "bob") "a2" "bob" request ("search" ∷ []) platform refl

abbrev bobs : Platform String
bobs = (create_agent (returned "bob") "a2" "bob" request platform).1

update_agent-IsGranted_example :
    (agent : Agent) × MayManage (returned "bob") "bob" "a2" agent bobs
    × IsDraft "a2" agent.owner_user_id request bobs
        (update_agent (returned "bob") "a2" "bob" request bobs).1
unfolding create_agent update_agent managed_agent require_current_actor can_manage_agent
    sorted_items sort normalize_agent_tool_request pass_gates write_gates create_gates
    user_is_active user_has_role any mem all all_active active_tool_ids active_tool
    connection_is_active get_user_role_tool_scopes keep merge_tool_scopes merge_rows add_scope
    normalize_scope finish scope_at scope_is_subset covered validate_configured_tools
    validate_tool_scopes keys save_agent ensure_users saved_members sorted_set strip Dict.get
    Dict.put
update_agent-IsGranted_example =
    update_agent-IsGranted (returned "bob") "a2" "bob" request ("search" ∷ []) bobs refl
