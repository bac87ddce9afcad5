-- ===== src/Control/Roles/Edit.antt =====
-- apps/control-plane/backend/app/api.py: the endpoints that create and change a role.
use aegora.Prelude.{String, false, not, Option, none, some, List, [], ◌∷◌, ◌++◌, is_some, ◌==◌}
use aegora.Prelude.Dict
use aegora.Prelude.Dict.{Dict}
use aegora.Runtime.Context.Scope.{Scope}
use aegora.Control.Authz.{merge_tool_scopes}
use aegora.Control.Platform.{Reply, raised, returned, Platform, Role}
use aegora.Control.Access.{Gate, pass_gates, require_current_platform_admin}
use aegora.Control.Roles.{
  RoleUpsertRequest, role_exists, create_role_row, update_role_row, replace_role_tool_permissions,
  record_role_change_event, permission_gates,
}

-- The two tests of `role_is_system`.
abbrev pub editable_gates : Option Role → List Gate
editable_gates found =
    record { failed = not (is_some found); code = 404; detail = "角色不存在"; event = none }
    ∷ record {
      failed = elim found [ none ↦ false | some role ↦ role.is_system ];
      code = 403;
      detail = "系统角色不允许编辑";
      event = none;
    }
    ∷ []

module _ {J : Type 0} (scope_schema : J → Scope) where
  unfoldable pub create_role_gates :
      String → RoleUpsertRequest → Dict Scope → Platform J → List Gate
  unfolding role_exists permission_gates
  create_role_gates actor request permissions p =
      record {
        failed = not (request.actor_id == actor);
        code = 403;
        detail = "请求用户与登录用户不一致";
        event = none;
      }
      ∷ record {
        failed = role_exists request.role_id p;
        code = 409;
        detail = "角色 ID 已存在";
        event = none;
      }
      ∷ permission_gates scope_schema permissions p

  -- The endpoint answers what the role grants.
  unfoldable pub create_custom_role :
      Reply String → RoleUpsertRequest → Platform J → Reply (Dict Scope) × Platform J
  unfolding create_role_gates create_role_row replace_role_tool_permissions record_role_change_event
  create_custom_role current_user request p =
      let permissions = merge_tool_scopes request.permissions in
      elim (require_current_platform_admin current_user p) [
        | raised code detail ↦ (raised code detail, p)
        | returned actor ↦
            let (answer, after) =
              pass_gates (create_role_gates actor request permissions p) none actor permissions p in
            elim answer [
              | raised code detail ↦ (raised code detail, after)
              | returned granted ↦ (
                returned granted,
                record_role_change_event actor request "role_created" granted (
                    replace_role_tool_permissions request.role_id granted
                      (create_role_row request after)),
              )
            ]
      ]

  unfoldable pub update_role_gates :
      String → String → RoleUpsertRequest → Dict Scope → Platform J → List Gate
  unfolding permission_gates
  update_role_gates actor role_id request permissions p =
      record {
        failed = not (request.actor_id == actor);
        code = 403;
        detail = "请求用户与登录用户不一致";
        event = none;
      }
      ∷ record {
        failed = not (request.role_id == role_id);
        code = 422;
        detail = "角色 ID 不允许修改";
        event = none;
      }
      ∷ (editable_gates (Dict.get role_id p.roles) ++ permission_gates scope_schema permissions p)

  -- The endpoint answers what the role grants.
  unfoldable pub update_custom_role :
      Reply String → String → RoleUpsertRequest → Platform J → Reply (Dict Scope) × Platform J
  unfolding update_role_gates update_role_row replace_role_tool_permissions record_role_change_event
  update_custom_role current_user role_id request p =
      let permissions = merge_tool_scopes request.permissions in
      elim (require_current_platform_admin current_user p) [
        | raised code detail ↦ (raised code detail, p)
        | returned actor ↦
            let (answer, after) =
              pass_gates (update_role_gates actor role_id request permissions p) none actor
                permissions p in
            elim answer [
              | raised code detail ↦ (raised code detail, after)
              | returned granted ↦ elim (update_role_row request after) [
                | none ↦ (raised 404 "角色不存在", after)
                | some stored ↦ (
                  returned granted,
                  record_role_change_event actor request "role_updated" granted
                      (replace_role_tool_permissions role_id granted stored),
                )
              ]
            ]
      ]
