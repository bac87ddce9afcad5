-- ===== src/Control/Access.antt =====
-- apps/control-plane/backend/app/api.py: who may do what, and which tools a run is allowed.
-- `current_user` is what the identity service makes of the request's token.
pub mod Allowed
use aegora.Prelude.{
  ℕ, String, Bool, true, false, not, ◌&&◌, ◌||◌, Option, none, some, List, [], ◌∷◌, mem, map, keep,
  or_else, ◌==◌, if◌then◌else◌,
}
use aegora.Prelude.Dict
use aegora.Prelude.Dict.{Dict}
use aegora.Runtime.Context.Scope.{Scope}
use aegora.Control.Authz.{effective_tools, normalize_scope}
use aegora.Control.Platform.{
  Reply, raised, returned, Agent, Release, Platform, is_published, user_is_active, user_has_role,
  get_user_role_tool_scopes, active_tool_ids, record_permission_event, fetch_agent_release,
}
use aegora.Control.Workflow.{ToolDefinition}

abbrev pub platform_admin : String
platform_admin = "platform_admin"

-- The keys of a dict.
unfoldable pub keys {ℓ} : {V : Type ℓ} → Dict V → List String
keys [] = []
keys ((k, v) ∷ d) = k ∷ keys d

-- The agent that a runner is given for a release; its `tools` and `snapshot_tools` are the keys of
-- `tool_scopes`.
pub record RunnerAgent : Type 0 where
  pub owner_user_id : String
  pub enabled : Bool
  pub name : String
  pub icon : String
  pub visibility : String
  pub members : List String
  pub system_prompt : String
  pub model : Option String
  pub tool_scopes : Dict Scope
  pub channels : List String
  pub release_id : String
  pub release_version : ℕ

-- A test that raises, with the event that is recorded first, if one is; of the details of both, what
-- names tools and scopes is left out.
pub record Gate : Type 0 where
  pub failed : Bool
  pub code : ℕ
  pub detail : String
  pub event : Option String

module _ {J : Type 0} where
  unfoldable pub can_manage_agent : String → Agent → Platform J → Bool
  can_manage_agent actor agent p =
      actor == agent.owner_user_id || user_has_role actor platform_admin p

  -- Of the agent are given its visibility, its owner and its members.
  unfoldable pub can_run_agent : String → String → String → List String → Platform J → Bool
  can_run_agent actor visibility owner_user_id members p =
      if visibility == "public"
      then true
      else (actor == owner_user_id || mem actor members || user_has_role actor platform_admin p)

  unfoldable pub require_current_actor : Reply String → String → Platform J → Reply String
  require_current_actor (raised code detail) claimed p = raised code detail
  require_current_actor (returned actor) claimed p =
      if not (actor == claimed)
      then raised 403 "请求用户与登录用户不一致"
      else if not (user_is_active actor p)
      then raised 403 "当前用户不可用"
      else returned actor

  unfoldable pub require_current_platform_admin : Reply String → Platform J → Reply String
  require_current_platform_admin (raised code detail) p = raised code detail
  require_current_platform_admin (returned actor) p =
      if not (user_is_active actor p) || not (user_has_role actor platform_admin p)
      then raised 403 "需要 platform_admin 角色"
      else returned actor

  -- What is answered where no test of the row raises.
  unfoldable pub pass_gates :
      {A : Type 0} → List Gate → Option String → String → A → Platform J → Reply A × Platform J
  pass_gates [] agent_id actor answer p = (returned answer, p)
  pass_gates (gate ∷ gates) agent_id actor answer p =
      let rest = pass_gates gates agent_id actor answer p in
      let noted : Platform J = elim gate.event [
        | none ↦ p
        | some detail ↦ record_permission_event agent_id actor "tool_denied" detail p
      ] in
      if gate.failed then (raised gate.code gate.detail, noted) else rest

  -- `set(release["config_json"]["tools"])`, those that are active now
  unfoldable pub released_tools : Release J → Platform J → List String
  released_tools r p =
      active_tool_ids (keep (λ t. not (t == "")) (map (λ tool. tool.0.tool_id) r.config_json.tools))
        p

  -- `agent_is_enabled(agent_id) is True`
  unfoldable pub agent_is_enabled : String → Platform J → Bool
  agent_is_enabled agent_id p = elim (Dict.get agent_id p.agents) [
    | none ↦ false
    | some agent ↦ agent.enabled
  ]

  unfoldable pub agent_gates : Agent → String → String → Platform J → List Gate
  agent_gates agent actor channel p =
      record {
        failed = not agent.enabled || not (user_is_active actor p);
        code = 403;
        detail = "Agent 或创建者不可用";
        event = some "agent or owner inactive";
      }
      ∷ record {
        failed = not (can_run_agent actor agent.visibility agent.owner_user_id agent.members p);
        code = 403;
        detail = "当前用户不能执行该 Agent";
        event = some "actor cannot run agent";
      }
      ∷ record {
        failed = not (mem channel agent.channels);
        code = 403;
        detail = "渠道未授权";
        event = some "channel not allowed";
      }
      ∷ []

  unfoldable pub agent_tools : Agent → String → Platform J → List String
  agent_tools agent actor p =
      active_tool_ids
        (effective_tools (keys agent.tool_scopes) agent.snapshot_tools
          (keys (get_user_role_tool_scopes actor p)))
        p

  -- The agent with the tools that a run of its draft may use.
  unfoldable pub resolve_agent_access :
      String → String → String → Platform J → Reply (Agent × List String) × Platform J
  unfolding agent_gates agent_tools
  resolve_agent_access agent_id actor channel p = elim (Dict.get agent_id p.agents) [
    | none ↦ (raised 404 "Agent 不存在", p)
    | some agent ↦
        pass_gates (agent_gates agent actor channel p) (some agent_id) actor
          (agent, agent_tools agent actor p) p
  ]

  -- The scopes of the released tools that are active, by their ids; of two with one id the later.
  unfoldable pub active_tool_scopes :
      List (ToolDefinition J × Scope) → List String → Dict Scope → Dict Scope
  active_tool_scopes [] active scopes = scopes
  active_tool_scopes ((tool, scope) ∷ tools) active scopes = active_tool_scopes tools active (
      if mem tool.tool_id active
      then Dict.put tool.tool_id (normalize_scope scope) scopes
      else scopes)

  -- `runner_agent_from_context` of what `build_runtime_context` makes of the release
  unfoldable pub released_agent : Release J → Platform J → RunnerAgent
  unfolding active_tool_scopes released_tools
  released_agent r p =
      let agent = r.config_json.agent in
      record {
        owner_user_id = agent.owner_user_id;
        enabled = agent.enabled;
        name = or_else agent.name "released-agent";
        icon = or_else agent.icon "robot";
        visibility = or_else agent.visibility "private";
        members = agent.members;
        system_prompt = agent.system_prompt;
        model = agent.model;
        tool_scopes = active_tool_scopes r.config_json.tools (released_tools r p) [];
        channels = agent.channels;
        release_id = r.release_id;
        release_version = r.version;
      }

  unfoldable pub release_gates : String → Release J → String → String → Platform J → List Gate
  release_gates agent_id r actor channel p =
      let agent = released_agent r p in
      record { failed = not (is_published r.status); code = 409; detail = "发布版本不可运行"; event = none }
      ∷ record {
        failed = not (agent_is_enabled agent_id p);
        code = 403;
        detail = "Agent 已被平台停用";
        event = some "agent disabled";
      }
      ∷ record {
        failed = not (can_run_agent actor agent.visibility agent.owner_user_id agent.members p);
        code = 403;
        detail = "当前用户不能执行该发布版本";
        event = some "actor cannot run release";
      }
      ∷ record {
        failed = not agent.enabled || not (user_is_active actor p);
        code = 403;
        detail = "Agent 或执行用户不可用";
        event = some "release agent or actor inactive";
      }
      ∷ record {
        failed = not (mem channel agent.channels);
        code = 403;
        detail = "渠道未授权";
        event = some "channel not allowed";
      }
      ∷ []

  unfoldable pub release_tools : Release J → String → Platform J → List String
  release_tools r actor p =
      let released = released_tools r p in
      effective_tools released released (keys (get_user_role_tool_scopes actor p))

  -- The release's agent with the tools that a run of the release may use.
  unfoldable pub resolve_release_access :
      String
      → String
      → String
      → String
      → Platform J
      → Reply (RunnerAgent × List String) × Platform J
  unfolding release_gates release_tools
  resolve_release_access agent_id release_id actor channel p =
      elim (fetch_agent_release agent_id release_id p) [
        | none ↦ (raised 404 "发布版本不存在", p)
        | some r ↦
            pass_gates (release_gates agent_id r actor channel p) (some agent_id) actor
              (released_agent r p, release_tools r actor p) p
      ]
