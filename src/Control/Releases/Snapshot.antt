-- ===== src/Control/Releases/Snapshot.antt =====
-- apps/control-plane/backend/app/api.py: what `release_config_snapshot` freezes.
use aegora.Prelude.{◌≡◌, refl, String, some, List, [], ◌∷◌, Option-cases, inl, inr}
use aegora.Prelude.Dict.{Dict}
use aegora.Runtime.Context.Scope.{Scope, sorted_set}
use aegora.Control.Workflow.{ToolDefinition}
use aegora.Control.Platform.{
  returned, returned-injective, Agent, ReleaseConfig, Platform, active_tool, get_user_roles,
  get_user_role_tool_scopes,
}
use aegora.Control.Authz.{sorted_items}
use aegora.Control.Releases.{manifests, release_config_snapshot}

module _ {J : Type 0} where
  -- The tools of a release: the manifest of each tool of the agent, which is active, with its scope.
  pub data Frozen (p : Platform J) : Dict Scope → List (ToolDefinition J × Scope) → Type 0 where
    no_tools : Frozen p [] []
    pinned :
        (tool_id : String) (scope : Scope) (manifest : ToolDefinition J) (scopes : Dict Scope)
        (tools : List (ToolDefinition J × Scope))
        → active_tool tool_id p ≡ some manifest
        → Frozen p scopes tools
        → Frozen p ((tool_id, scope) ∷ scopes) ((manifest, scope) ∷ tools)

  manifests-Frozen :
      (scopes : Dict Scope) (p : Platform J) {tools : List (ToolDefinition J × Scope)}
      → manifests scopes p ≡ some tools
      → Frozen p scopes tools
  unfolding manifests
  manifests-Frozen [] p {tools} h = let same : [] ≡ tools = cc in rw (← same) no_tools
  manifests-Frozen ((tool_id, scope) ∷ scopes) p {tools} h =
      elim (Option-cases (active_tool tool_id p)) [
        | inl absent ↦ let no = rw (absent, manifests) at h in cc
        | inr (manifest, active) ↦
            let one = rw (active, manifests) at h in
            elim (Option-cases (manifests scopes p)) [
              | inl missing ↦ let no = rw missing at one in cc
              | inr (more, found) ↦
                  let two : some ((manifest, scope) ∷ more) ≡ some tools = rw found at one in
                  let same : (manifest, scope) ∷ more ≡ tools = cc in
                  rw (← same) (
                    pinned tool_id scope manifest scopes more active
                      (manifests-Frozen scopes p found))
            ]
      ]

  -- What the release holds: the agent without its tools and its snapshot, the tools as they are now,
  -- and the publisher with their roles and what these grant.
  pub record IsSnapshot (agent_id claimed : String) (agent : Agent) (p : Platform J)
      (config : ReleaseConfig J) : Type 0 where
    pub frozen : config.agent ≡ record {
      id = agent_id;
      name = agent.name;
      icon = agent.icon;
      visibility = agent.visibility;
      members = sorted_set agent.members;
      owner_user_id = agent.owner_user_id;
      system_prompt = agent.system_prompt;
      model = agent.model;
      channels = sorted_set agent.channels;
      enabled = agent.enabled;
    }
    pub tools : Frozen p (sorted_items agent.tool_scopes) config.tools
    pub published_by : config.published_by ≡ claimed
    pub published_by_roles : config.published_by_roles ≡ sorted_set (get_user_roles claimed p)
    pub role_tool_scopes : config.role_tool_scopes ≡ get_user_role_tool_scopes claimed p

  pub release_config_snapshot-IsSnapshot :
      (agent_id actor : String) (agent : Agent) (p : Platform J) {config : ReleaseConfig J}
      → release_config_snapshot agent_id agent actor p ≡ returned config
      → IsSnapshot agent_id actor agent p config
  unfolding release_config_snapshot
  release_config_snapshot-IsSnapshot agent_id actor agent p h =
      elim (Option-cases (manifests (sorted_items agent.tool_scopes) p)) [
        | inl absent ↦ let no = rw (absent, release_config_snapshot) at h in cc
        | inr (tools, found) ↦
            let same = returned-injective (rw (found, release_config_snapshot) at h) in
            rw (← same) (record {
              frozen = refl;
              tools = manifests-Frozen (sorted_items agent.tool_scopes) p found;
              published_by = refl;
              published_by_roles = refl;
              role_tool_scopes = refl;
            })
      ]
