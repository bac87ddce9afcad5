-- ===== src/Control/Platform.antt =====
-- apps/control-plane/backend/app/db.py: the tables that the endpoints read and write, and the queries
-- on them. A table is a dict from ids or the list of its rows, the newest first. An agent's row stands
-- with its rows in the tables of members, tools, channels and permission snapshots. The database
-- answers: the 503 of an endpoint whose database fails is left out.
use aegora.Prelude.{
  ℕ, String, Bool, true, false, ◌&&◌, Option, none, some, List, [], ◌∷◌, any, leb, keep, map,
  is_some, ◌≡◌, refl, ◌⊎◌, inl, inr, ◌==◌, if◌then◌else◌,
}
use aegora.Prelude.Dict
use aegora.Prelude.Dict.{Dict}
use aegora.Prelude.Rows.{find}
use aegora.Runtime.Context.Scope.{Scope}
use aegora.Control.Authz.{merge_tool_scopes}
use aegora.Control.Workflow.{ToolDefinition}

-- What an endpoint answers: a value, or an HTTPException's status code and detail.
pub data Reply (A : Type 0) : Type 0 where
  raised : ℕ → String → Reply A
  returned : A → Reply A

-- To split on a computed answer and keep the equation.
pub Reply-cases :
    {A : Type 0} (r : Reply A)
    → ((a : A) × (r ≡ returned a)) ⊎ ((code : ℕ) × (detail : String) × (r ≡ raised code detail))
Reply-cases (returned a) = inl (a, refl)
Reply-cases (raised code detail) = inr (code, detail, refl)

pub returned-injective : {A : Type 0} {a b : A} → returned a ≡ returned b → a ≡ b
returned-injective h = cc

-- An agent as `load_agent` reads it, with the number of its last permission snapshot.
pub record Agent : Type 0 where
  pub owner_user_id : String
  pub enabled : Bool
  pub name : String
  pub icon : String
  pub system_prompt : String
  pub model : Option String
  pub visibility : String
  pub members : List String
  pub tool_scopes : Dict Scope
  pub snapshot_tools : List String
  pub snapshot_version : ℕ
  pub channels : List String

pub record Role : Type 0 where
  pub name : String
  pub description : String
  pub status : String
  pub is_system : Bool

-- `config_json["agent"]` of a release.
pub record AgentConfig : Type 0 where
  pub id : String
  pub name : String
  pub icon : String
  pub visibility : String
  pub members : List String
  pub owner_user_id : String
  pub system_prompt : String
  pub model : Option String
  pub channels : List String
  pub enabled : Bool

-- The `config_json` of a release; a tool is its manifest with its scope.
pub record ReleaseConfig (J : Type 0) : Type 0 where
  pub agent : AgentConfig
  pub tools : List (ToolDefinition J × Scope)
  pub published_by : String
  pub published_by_roles : List String
  pub role_tool_scopes : Dict Scope

pub data ReleaseStatus : Type 0 where
  published revoked : ReleaseStatus

abbrev pub is_published : ReleaseStatus → Bool
is_published published = true
is_published revoked = false

-- A row of `agent_releases`.
pub record Release (J : Type 0) : Type 0 where
  pub release_id : String
  pub agent_id : String
  pub version : ℕ
  pub status : ReleaseStatus
  pub config_json : ReleaseConfig J
  pub published_by : String
  pub published_at : ℕ
  pub revoked_at : Option ℕ

-- A row of `agent_permission_events`.
pub record PermissionEvent : Type 0 where
  pub agent_id : Option String
  pub user_id : String
  pub event_type : String
  pub detail : String

-- A row of `user_sessions`.
pub record UserSession : Type 0 where
  pub token_hash : String
  pub user_id : String
  pub revoked_at : Option ℕ

-- A row of `role_change_events`.
pub record RoleChangeEvent : Type 0 where
  pub role_id : String
  pub actor_id : String
  pub event_type : String
  pub status : String
  pub permissions : Dict Scope

-- What is handed to the publisher of cache events.
pub record CacheEvent : Type 0 where
  pub event_type : String
  pub agent_id : String
  pub release_id : String
  pub release_version : ℕ

pub record Platform (J : Type 0) : Type 0 where
  pub users : Dict String
  pub user_sessions : List UserSession
  pub user_roles : List (String × String)
  pub roles : Dict Role
  pub role_tool_permissions : List (String × String × Scope)
  pub tools : Dict (ToolDefinition J)
  pub mcp_connections : Dict String
  pub agents : Dict Agent
  pub releases : List (Release J)
  pub permission_events : List PermissionEvent
  pub role_change_events : List RoleChangeEvent
  pub cache_events : List CacheEvent
  pub now : ℕ

module _ {J : Type 0} where
  unfoldable pub user_is_active : String → Platform J → Bool
  user_is_active user_id p = elim (Dict.get user_id p.users) [
    | none ↦ false
    | some status ↦ status == "active"
  ]

  unfoldable pub user_has_role : String → String → Platform J → Bool
  user_has_role user_id role_id p = any (λ row. row.0 == user_id && row.1 == role_id) p.user_roles

  -- The role of a permission is active and the user has it.
  unfoldable pub applies : String → Platform J → String × String × Scope → Bool
  unfolding user_has_role
  applies user_id p row = elim (Dict.get row.0 p.roles) [
    | none ↦ false
    | some role ↦ role.status == "active" && user_has_role user_id row.0 p
  ]

  unfoldable pub get_user_role_tool_scopes : String → Platform J → Dict Scope
  unfolding applies
  get_user_role_tool_scopes user_id p =
      merge_tool_scopes
        (map (λ row. (row.1, row.2)) (keep (applies user_id p) p.role_tool_permissions))

  unfoldable pub get_user_roles : String → Platform J → List String
  get_user_roles user_id p = map (λ row. row.1) (keep (λ row. row.0 == user_id) p.user_roles)

  -- `connection.status == "active"` of the connection of a tool that has one
  unfoldable pub connection_is_active : Option String → Platform J → Bool
  connection_is_active none p = true
  connection_is_active (some id) p = elim (Dict.get id p.mcp_connections) [
    | none ↦ false
    | some status ↦ status == "active"
  ]

  -- The manifest of a tool that is active, as its connection is.
  unfoldable pub active_tool : String → Platform J → Option (ToolDefinition J)
  unfolding connection_is_active
  active_tool tool_id p = elim (Dict.get tool_id p.tools) [
    | none ↦ none
    | some tool ↦
        if tool.status == "active" && connection_is_active tool.mcp_connection_id p
        then some tool
        else none
  ]

  unfoldable pub active_tool_ids : List String → Platform J → List String
  unfolding active_tool
  active_tool_ids tool_ids p = keep (λ t. is_some (active_tool t p)) tool_ids

  unfoldable pub record_permission_event :
      Option String → String → String → String → Platform J → Platform J
  record_permission_event agent_id user_id event_type detail p = record p {
    permission_events =
        record { agent_id = agent_id; user_id = user_id; event_type = event_type; detail = detail }
        ∷ p.permission_events;
  }

  abbrev pub is_release : String → String → Release J → Bool
  is_release agent_id release_id r = r.release_id == release_id && r.agent_id == agent_id

  unfoldable pub fetch_agent_release : String → String → Platform J → Option (Release J)
  fetch_agent_release agent_id release_id p = find (is_release agent_id release_id) p.releases

  -- `COALESCE(MAX(version), 0)` over the releases of an agent
  unfoldable pub max_version : String → List (Release J) → ℕ
  max_version agent_id [] = 0
  max_version agent_id (r ∷ rs) =
      let rest = max_version agent_id rs in
      if r.agent_id == agent_id then (if leb rest r.version then r.version else rest) else rest
