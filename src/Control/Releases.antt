-- ===== src/Control/Releases.antt =====
-- apps/control-plane/backend/app/api.py and db.py: the releases of agents. The identifier of a release
-- is a new UUID, an argument here.
pub mod Finality
pub mod Snapshot
pub mod Publication
pub mod Revocation
pub mod Delivery
use aegora.Prelude.{
  ℕ, suc, String, Bool, true, false, not, ◌&&◌, Option, none, some, List, [], ◌∷◌, ◌==◌,
  if◌then◌else◌,
}
use aegora.Prelude.Dict
use aegora.Prelude.Dict.{Dict}
use aegora.Prelude.Rows.{find, update_where}
use aegora.Runtime.Context.Scope.{Scope, sorted_set}
use aegora.Control.Authz.{sorted_items}
use aegora.Control.Workflow.{ToolDefinition}
use aegora.Control.Platform.{
  Reply, raised, returned, Agent, Release, ReleaseConfig, CacheEvent, Platform, published, revoked,
  is_published, is_release, active_tool, get_user_roles, get_user_role_tool_scopes,
  fetch_agent_release, max_version,
}
use aegora.Control.Access.{can_manage_agent, require_current_actor}

module _ {J : Type 0} where
  -- The manifests of all tools with their scopes; none where one of the tools is not active.
  unfoldable pub manifests : Dict Scope → Platform J → Option (List (ToolDefinition J × Scope))
  manifests [] p = some []
  manifests ((tool_id, scope) ∷ tools) p =
      let rest = manifests tools p in
      elim (active_tool tool_id p) [
        | none ↦ none
        | some manifest ↦ elim rest [ none ↦ none | some more ↦ some ((manifest, scope) ∷ more) ]
      ]

  unfoldable pub release_config_snapshot :
      String → Agent → String → Platform J → Reply (ReleaseConfig J)
  unfolding manifests
  release_config_snapshot agent_id agent actor p =
      elim (manifests (sorted_items agent.tool_scopes) p) [
        | none ↦ raised 422 "发布工具不存在或已停用"
        | some tools ↦ returned (record {
          agent = record {
            id = agent_id;
            name = agent.name;
            icon = agent.icon;
            visibility = agent.visibility;
            members = sorted_set agent.members;
            owner_user_id = agent.owner_user_id;
            system_prompt = agent.system_prompt;
            model = agent.model;
            channels = sorted_set agent.channels;
            enabled = agent.enabled;
          };
          tools = tools;
          published_by = actor;
          published_by_roles = sorted_set (get_user_roles actor p);
          role_tool_scopes = get_user_role_tool_scopes actor p;
        })
      ]

  unfoldable pub next_release_version : String → Platform J → ℕ
  next_release_version agent_id p = suc (max_version agent_id p.releases)

  unfoldable pub save_agent_release :
      String → String → ℕ → ReleaseConfig J → String → Platform J → Platform J
  save_agent_release release_id agent_id version config_json actor p = record p {
    releases =
        record {
          release_id = release_id;
          agent_id = agent_id;
          version = version;
          status = published;
          config_json = config_json;
          published_by = actor;
          published_at = p.now;
          revoked_at = none;
        }
        ∷ p.releases;
  }

  unfoldable pub publish_event : String → String → String → ℕ → Platform J → Platform J
  publish_event event_type agent_id release_id version p = record p {
    cache_events =
        record {
          event_type = event_type;
          agent_id = agent_id;
          release_id = release_id;
          release_version = version;
        }
        ∷ p.cache_events;
  }

  -- An agent that the actor may manage.
  unfoldable pub managed_agent :
      Reply String → String → String → Platform J → Reply (String × Agent)
  managed_agent current_user agent_id claimed p =
      elim (require_current_actor current_user claimed p) [
        | raised code detail ↦ raised code detail
        | returned actor ↦ elim (Dict.get agent_id p.agents) [
          | none ↦ raised 404 "Agent 不存在"
          | some agent ↦
              if can_manage_agent actor agent p
              then returned (actor, agent)
              else raised 403 "当前用户不能管理该 Agent"
        ]
      ]

  -- The endpoint answers the version of the new release.
  unfoldable pub publish_agent :
      Reply String → String → String → String → Platform J → Reply ℕ × Platform J
  unfolding release_config_snapshot next_release_version save_agent_release publish_event
  publish_agent current_user release_id agent_id claimed p =
      elim (managed_agent current_user agent_id claimed p) [
        | raised code detail ↦ (raised code detail, p)
        | returned (actor, agent) ↦ elim (release_config_snapshot agent_id agent actor p) [
          | raised code detail ↦ (raised code detail, p)
          | returned config ↦
              let version = next_release_version agent_id p in
              let saved = save_agent_release release_id agent_id version config actor p in
              (
                returned version,
                publish_event "release.published" agent_id release_id version saved,
              )
        ]
      ]

  unfoldable pub revoke : ℕ → Release J → Release J
  revoke now r = record r { status = revoked; revoked_at = some now }

  -- `id = %s AND agent_id = %s AND status = 'published'`
  abbrev pub is_revocable : String → String → Release J → Bool
  is_revocable agent_id release_id r = is_release agent_id release_id r && is_published r.status

  -- The endpoint answers the version of the release that it revoked.
  unfoldable pub revoke_agent_release :
      Reply String → String → String → String → Platform J → Reply ℕ × Platform J
  unfolding publish_event
  revoke_agent_release current_user release_id agent_id claimed p =
      elim (managed_agent current_user agent_id claimed p) [
        | raised code detail ↦ (raised code detail, p)
        | returned (actor, agent) ↦ elim (fetch_agent_release agent_id release_id p) [
          | none ↦ (raised 404 "发布版本不存在", p)
          | some r ↦
              let gone = record p {
                releases =
                    update_where (is_revocable agent_id release_id) (revoke p.now) p.releases;
              } in
              if is_published r.status
              then (
                returned r.version,
                publish_event "release.revoked" agent_id release_id r.version gone,
              )
              else (raised 409 "发布版本已撤销", p)
        ]
      ]
