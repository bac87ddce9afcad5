-- ===== src/Control/Roles.antt =====
-- apps/control-plane/backend/app/api.py and db.py: the roles, what they grant, and who has them. The
-- schema of a tool's scopes is read off its manifest by `scope_schema`.
pub mod Edit
pub mod Kept
pub mod Protected
pub mod Assigned
use aegora.Prelude.{
  String, Bool, true, false, not, ◌&&◌, Option, none, some, List, [], ◌∷◌, ◌++◌, map, all, any, mem,
  keep, is_some, ◌==◌, if◌then◌else◌,
}
use aegora.Prelude.Dict
use aegora.Prelude.Dict.{Dict}
use aegora.Runtime.Context.Scope.{Scope, sorted_set, covered}
use aegora.Control.Authz.{normalize_scope, merge_tool_scopes}
use aegora.Control.Platform.{
  Reply, raised, returned, Platform, Role, active_tool, user_is_active, record_permission_event,
}
use aegora.Control.Access.{
  Gate, keys, pass_gates, require_current_platform_admin, resolve_agent_access,
}
use aegora.Control.Identity.{upsert_user}

pub record RoleUpsertRequest : Type 0 where
  pub actor_id : String
  pub role_id : String
  pub name : String
  pub description : String
  pub status : String
  pub permissions : List (String × Scope)

-- Whether the scope of a tool is one that the tool declares; it raises a ValueError where not.
unfoldable pub validate_tool_scope : Scope → Option Scope → Bool
validate_tool_scope scope none = false
validate_tool_scope [] (some schema) = elim schema [ [] ↦ true | item ∷ items ↦ false ]
validate_tool_scope (item ∷ scope) (some schema) = elim schema [
  | [] ↦ false
  | declared ∷ more ↦ covered (normalize_scope (item ∷ scope)) (declared ∷ more)
]

module _ {J : Type 0} where
  unfoldable pub role_exists : String → Platform J → Bool
  role_exists role_id p = is_some (Dict.get role_id p.roles)

  unfoldable pub tool_ids_exist : List String → Platform J → Bool
  tool_ids_exist tool_ids p = all (λ t. is_some (Dict.get t p.tools)) tool_ids

  unfoldable pub roles_exist : List String → Platform J → Bool
  unfolding role_exists
  roles_exist role_ids p = all (λ r. role_exists r p) role_ids

  unfoldable pub create_role_row : RoleUpsertRequest → Platform J → Platform J
  create_role_row request p = record p {
    roles =
        Dict.put request.role_id
          (record {
            name = request.name;
            description = request.description;
            status = request.status;
            is_system = false;
          })
          p.roles;
  }

  -- None where there is no such row that is not a system role.
  unfoldable pub update_role_row : RoleUpsertRequest → Platform J → Option (Platform J)
  update_role_row request p = elim (Dict.get request.role_id p.roles) [
    | none ↦ none
    | some role ↦
        if role.is_system
        then none
        else some (record p {
          roles =
              Dict.put request.role_id
                (record role {
                  name = request.name;
                  description = request.description;
                  status = request.status;
                })
                p.roles;
        })
  ]

  unfoldable pub replace_role_tool_permissions : String → Dict Scope → Platform J → Platform J
  replace_role_tool_permissions role_id permissions p = record p {
    role_tool_permissions =
        map (λ item. (role_id, item.0, normalize_scope item.1)) permissions
        ++ keep (λ row. not (row.0 == role_id)) p.role_tool_permissions;
  }

  unfoldable pub record_role_change_event :
      String → RoleUpsertRequest → String → Dict Scope → Platform J → Platform J
  record_role_change_event actor request event_type permissions p = record p {
    role_change_events =
        record {
          role_id = request.role_id;
          actor_id = actor;
          event_type = event_type;
          status = request.status;
          permissions = permissions;
        }
        ∷ p.role_change_events;
  }

  unfoldable pub replace_user_roles : String → List String → Platform J → Platform J
  replace_user_roles user_id role_ids p = record p {
    user_roles =
        map (λ r. (user_id, r)) role_ids ++ keep (λ row. not (row.0 == user_id)) p.user_roles;
  }

  -- The endpoint answers the roles, sorted. A user that is not active is made active.
  unfoldable pub set_user_roles :
      Reply String → String → String → List String → Platform J → Reply (List String) × Platform J
  unfolding roles_exist replace_user_roles
  set_user_roles current_user user_id claimed roles p =
      elim (require_current_platform_admin current_user p) [
        | raised code detail ↦ (raised code detail, p)
        | returned actor ↦
            let role_ids = sorted_set roles in
            if not (claimed == actor)
            then (raised 403 "请求用户与登录用户不一致", p)
            else if not (roles_exist role_ids p)
            then (raised 422 "包含未注册角色", p)
            else (
              returned role_ids,
              replace_user_roles user_id role_ids
                  (if user_is_active user_id p then p else upsert_user user_id "active" p),
            )
      ]

  -- Whether an actor may use a tool of an agent's draft, with the tools that it overrides.
  unfoldable pub authorize_tool :
      String
      → String
      → String
      → String
      → List String
      → Platform J
      → Reply (List String) × Platform J
  authorize_tool agent_id actor channel tool_id override_tools p =
      let (access, after) = resolve_agent_access agent_id actor channel p in
      elim access [
        | raised code detail ↦ (raised code detail, after)
        | returned (agent, allowed) ↦
            if all (λ t. mem t allowed) (tool_id ∷ override_tools)
            then (returned (sorted_set allowed), after)
            else (
              raised 403 "工具未获授权",
              record_permission_event (some agent_id) actor "tool_denied" "requested" after,
            )
      ]

  module _ (scope_schema : J → Scope) where
    -- `fetch_tool_scope_schemas(…).get(tool_id)`
    unfoldable pub scope_schema_of : String → Platform J → Option Scope
    scope_schema_of tool_id p = elim (active_tool tool_id p) [
      | none ↦ none
      | some tool ↦ some (scope_schema tool.rest)
    ]

    unfoldable pub valid_permissions : Dict Scope → Platform J → Bool
    unfolding validate_tool_scope scope_schema_of
    valid_permissions permissions p =
        all (λ item. validate_tool_scope item.1 (scope_schema_of item.0 p)) permissions

    -- The tests that both endpoints end with; the details of a ValueError are left out.
    unfoldable pub permission_gates : Dict Scope → Platform J → List Gate
    unfolding valid_permissions tool_ids_exist
    permission_gates permissions p =
        record {
          failed = not (valid_permissions permissions p);
          code = 422;
          detail = "工具 scope 不合法";
          event = none;
        }
        ∷ record {
          failed = not (tool_ids_exist (keys permissions) p);
          code = 422;
          detail = "包含未注册工具";
          event = none;
        }
        ∷ []
