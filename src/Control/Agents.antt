-- ===== src/Control/Agents.antt =====
-- apps/control-plane/backend/app/api.py and db.py: the drafts of agents. The identifier of an agent is
-- a new UUID, an argument here.
pub mod Granted
use aegora.Prelude.{
  ℕ, suc, String, Bool, true, false, not, ◌&&◌, ◌||◌, Option, none, some, List, [], ◌∷◌, all, mem,
  keep, map, strip, nonempty, ◌==◌, if◌then◌else◌,
}
use aegora.Prelude.Dict
use aegora.Prelude.Dict.{Dict}
use aegora.Runtime.Context.Scope.{Scope, sorted_set}
use aegora.Control.Authz.{merge_tool_scopes, validate_configured_tools, validate_tool_scopes}
use aegora.Control.Platform.{
  Reply, raised, returned, Agent, Platform, user_is_active, user_has_role,
  get_user_role_tool_scopes, active_tool_ids, record_permission_event,
}
use aegora.Control.Access.{
  Gate, platform_admin, keys, can_manage_agent, pass_gates, require_current_platform_admin,
}
use aegora.Control.Releases.{managed_agent}

-- What a request to create or to update an agent says of it.
pub record AgentRequest : Type 0 where
  pub name : String
  pub icon : String
  pub visibility : String
  pub members : List String
  pub system_prompt : String
  pub model : Option String
  pub tools : List (String × Scope)
  pub channels : List String

unfoldable pub normalize_agent_tool_request : AgentRequest → Dict Scope
normalize_agent_tool_request request = merge_tool_scopes request.tools

unfoldable pub normalize_agent_model : Option String → Option String
normalize_agent_model none = none
normalize_agent_model (some model) =
    let stripped = strip model in if nonempty stripped then some stripped else none

-- The members that are saved: without blanks around them, and without the owner where one is given.
unfoldable pub saved_members : Option String → AgentRequest → List String
saved_members owner request =
    if request.visibility == "public"
    then []
    else let named = keep nonempty (map strip request.members) in
      sorted_set (elim owner [ none ↦ named | some o ↦ keep (λ m. not (m == o)) named ])

-- A member without an account is given one.
unfoldable pub ensure_users : List String → Dict String → Dict String
ensure_users [] users = users
ensure_users (member ∷ members) users =
    ensure_users members
      (elim (Dict.get member users) [ none ↦ Dict.put member "active" users | some status ↦ users ])

-- The tools of a request are active, and granted to the owner with their scopes.
abbrev pub subset_of_roles : Dict Scope → Dict Scope → Bool
subset_of_roles tool_scopes role_scopes =
    validate_configured_tools (keys tool_scopes) (keys role_scopes)
    && validate_tool_scopes tool_scopes role_scopes

module _ {J : Type 0} where
  -- `db.active_tool_ids(configured_tools) == configured_tools`
  unfoldable pub all_active : Dict Scope → Platform J → Bool
  all_active tool_scopes p =
      all (λ t. mem t (active_tool_ids (keys tool_scopes) p)) (keys tool_scopes)

  unfoldable pub write_gates : Dict Scope → Dict Scope → Bool → Platform J → List Gate
  unfolding all_active
  write_gates tool_scopes role_scopes needs_role p =
      record {
        failed = not (all_active tool_scopes p);
        code = 422;
        detail = "包含未注册或已关闭工具";
        event = none;
      }
      ∷ record {
        failed = needs_role && (elim role_scopes [ [] ↦ true | item ∷ items ↦ false ]);
        code = 403;
        detail = "创建者缺少角色工具权限";
        event = none;
      }
      ∷ record {
        failed = not (subset_of_roles tool_scopes role_scopes);
        code = 403;
        detail = "工具或 scope 超出角色授权";
        event = some "PermissionError";
      }
      ∷ []

  unfoldable pub create_gates : String → String → Dict Scope → Platform J → List Gate
  unfolding write_gates
  create_gates actor owner tool_scopes p =
      record { failed = not (user_is_active actor p); code = 403; detail = "当前用户不可用"; event = none }
      ∷ record {
        failed = not (actor == owner) && not (user_has_role actor platform_admin p);
        code = 403;
        detail = "当前用户不能代替他人创建 Agent";
        event = none;
      }
      ∷ record {
        failed = not (user_is_active owner p);
        code = 403;
        detail = "创建者不可用";
        event = some "owner inactive";
      }
      ∷ write_gates tool_scopes (get_user_role_tool_scopes owner p) true p

  unfoldable pub save_agent : String → String → AgentRequest → Platform J → Platform J
  save_agent agent_id owner request p =
      let members = saved_members (some owner) request in
      record p {
        users = ensure_users members p.users;
        agents =
            Dict.put agent_id
              (record {
                owner_user_id = owner;
                enabled = true;
                name = request.name;
                icon = request.icon;
                system_prompt = request.system_prompt;
                model = normalize_agent_model request.model;
                visibility = request.visibility;
                members = members;
                tool_scopes = normalize_agent_tool_request request;
                snapshot_tools = keys (get_user_role_tool_scopes owner p);
                snapshot_version = 1;
                channels = sorted_set request.channels;
              })
              p.agents;
      }

  -- The endpoint answers the tools of the new agent.
  unfoldable pub create_agent :
      Reply String → String → String → AgentRequest → Platform J → Reply (List String) × Platform J
  unfolding create_gates save_agent
  create_agent (raised code detail) agent_id owner request p = (raised code detail, p)
  create_agent (returned actor) agent_id owner request p =
      let tool_scopes = normalize_agent_tool_request request in
      let (answer, after) =
        pass_gates (create_gates actor owner tool_scopes p) none owner (keys tool_scopes) p in
      elim answer [
        | raised code detail ↦ (raised code detail, after)
        | returned tools ↦ (returned tools, save_agent agent_id owner request after)
      ]

  unfoldable pub store_update : String → Agent → AgentRequest → Platform J → Platform J
  store_update agent_id agent request p =
      let asked = keep (λ m. not (m == agent.owner_user_id)) request.members in
      let members = saved_members none (record request { members = asked }) in
      record p {
        users = ensure_users members p.users;
        agents =
            Dict.put agent_id
              (record agent {
                name = request.name;
                icon = request.icon;
                system_prompt = request.system_prompt;
                model = normalize_agent_model request.model;
                visibility = request.visibility;
                members = members;
                tool_scopes = normalize_agent_tool_request request;
                snapshot_tools = keys (get_user_role_tool_scopes agent.owner_user_id p);
                snapshot_version = suc agent.snapshot_version;
                channels = sorted_set request.channels;
              })
              p.agents;
      }

  -- The endpoint answers the tools of the draft.
  unfoldable pub update_agent :
      Reply String → String → String → AgentRequest → Platform J → Reply (List String) × Platform J
  unfolding write_gates store_update
  update_agent current_user agent_id claimed request p =
      let tool_scopes = normalize_agent_tool_request request in
      elim (managed_agent current_user agent_id claimed p) [
        | raised code detail ↦ (raised code detail, p)
        | returned (actor, agent) ↦
            let roles = get_user_role_tool_scopes agent.owner_user_id p in
            let (answer, after) =
              pass_gates (write_gates tool_scopes roles false p) (some agent_id) actor
                (keys tool_scopes) p in
            elim answer [
              | raised code detail ↦ (raised code detail, after)
              | returned tools ↦
                  let stored = store_update agent_id agent request after in
                  (
                    returned tools,
                    record_permission_event (some agent_id) actor "agent_updated"
                        "draft configuration" stored,
                  )
            ]
      ]

  -- The switch of the platform's administrators; the answer is the new state.
  unfoldable pub set_agent_status :
      Reply String → String → String → Bool → Platform J → Reply Bool × Platform J
  set_agent_status current_user agent_id claimed enabled p =
      elim (require_current_platform_admin current_user p) [
        | raised code detail ↦ (raised code detail, p)
        | returned actor ↦
            if not (claimed == actor)
            then (raised 403 "请求用户与登录用户不一致", p)
            else elim (Dict.get agent_id p.agents) [
              | none ↦ (raised 404 "Agent 不存在", p)
              | some agent ↦
                  let switched = record p {
                    agents = Dict.put agent_id (record agent { enabled = enabled }) p.agents;
                  } in
                  (
                    returned enabled,
                    record_permission_event (some agent_id) actor "agent_status_updated"
                        (if enabled then "enabled" else "disabled") switched,
                  )
            ]
      ]
