-- ===== src/Tests/Accounts.antt =====
-- A user who logs in and out, and roles that are assigned and changed.
use aegora.Prelude.{
  String, ◌≡◌, ◌≢◌, refl, true, false, Option, some, [], ◌∷◌, any, all, keep, strip, starts_with,
  inr,
}
use aegora.Prelude.Dict
use aegora.Prelude.Dict.{Dict}
use aegora.Prelude.Rows.{find}
use aegora.Runtime.Context.Scope.{sorted_set}
use aegora.Control.Platform.{
  Reply, raised, returned, Platform, user_is_active, user_has_role, get_user_roles,
  get_user_role_tool_scopes, applies,
}
use aegora.Prelude.Sort.{sort}
use aegora.Control.Authz.{merge_tool_scopes, merge_rows, sorted_items, finish}
use aegora.Control.Access.{platform_admin, require_current_platform_admin}
use aegora.Control.Identity.{
  UserProfile, after_space, extract_bearer_token, get_session_user, user_profile, login, logout,
  current_user_id, create_user_session,
}
use aegora.Control.Identity.Login.{login-current_user_id}
use aegora.Control.Identity.Logout.{here, logout-IsFinal}
use aegora.Control.Roles.{RoleUpsertRequest, roles_exist, role_exists, set_user_roles}
use aegora.Control.Roles.Edit.{create_custom_role, update_custom_role}
use aegora.Control.Roles.Kept.{RoleKept}
use aegora.Control.Roles.Protected.{endpoints-RoleKept}
use aegora.Control.Roles.Assigned.{IsAssigned, set_user_roles-IsAssigned}
use aegora.Tests.Releases.{platform}

abbrev same : String → String
same s = s

abbrev elsewhere : String → Reply String
elsewhere token = raised 401 "OA 登录已失效"

abbrev header : Option String
header = some "bearer t1"

abbrev entered : Platform String
entered = (login same same "local" elsewhere "t1" "ann" platform).1

abbrev profile : UserProfile
profile = record {
  user_id = "ann";
  status = "active";
  roles = [];
  role_tool_scopes = [];
  is_platform_admin = false;
}

login-current_user_id_example :
    (◌≡◌ {A = String} "t1" "t1")
    × (profile.user_id ≡ "ann")
    × (current_user_id same same "local" elsewhere header entered ≡ (returned "ann", entered))
    × ((other : Option String) (t : String)
        → extract_bearer_token same other ≡ returned t
        → t ≢ "t1"
        → (current_user_id same same "local" elsewhere other entered).0
          ≡ (current_user_id same same "local" elsewhere other platform).0)
unfolding login user_profile user_is_active user_has_role any Dict.get get_user_roles
    get_user_role_tool_scopes applies keep merge_tool_scopes merge_rows sorted_items sort finish
    sorted_set create_user_session extract_bearer_token after_space strip starts_with
login-current_user_id_example =
    login-current_user_id same same "local" elsewhere "t1" "ann" "t1" profile header platform refl
      refl

logout-IsFinal_example :
    let left = (logout same same "local" elsewhere header entered).1 in
    current_user_id same same "local" elsewhere header left ≡ (raised 401 "登录已失效", left)
unfolding login current_user_id get_session_user find user_profile user_is_active user_has_role any
    Dict.get get_user_roles get_user_role_tool_scopes applies keep merge_tool_scopes merge_rows
    sorted_items sort finish sorted_set create_user_session extract_bearer_token after_space strip
    starts_with
logout-IsFinal_example =
    logout-IsFinal same same "local" elsewhere header header "t1" "t1" "ann" entered
      (logout same same "local" elsewhere header entered).1 refl refl refl here refl refl

abbrev governed : Platform String
governed = record platform {
  user_roles = ("ann", "platform_admin") ∷ ("bob", "reader") ∷ [];
  roles =
      (
        "platform_admin",
        record { name = ""; description = ""; status = "active"; is_system = true },
      )
      ∷ platform.roles;
}

abbrev change : RoleUpsertRequest
change = record {
  actor_id = "ann";
  role_id = "platform_admin";
  name = "Anyone";
  description = "";
  status = "active";
  permissions = [];
}

endpoints-RoleKept_example :
    RoleKept "platform_admin" governed
      (create_custom_role (λ j. []) (returned "ann") change governed).1
    × RoleKept "platform_admin" governed
        (update_custom_role (λ j. []) (returned "ann") "platform_admin" change governed).1
unfolding Dict.get
endpoints-RoleKept_example =
    endpoints-RoleKept (λ j. []) (returned "ann") change governed "platform_admin" "platform_admin"
      (inr (_, refl, refl))

set_user_roles-IsAssigned_example :
    (◌≡◌ {A = Reply String} (returned "ann") (returned "ann"))
    × (user_is_active "ann" governed ≡ true)
    × (user_has_role "ann" platform_admin governed ≡ true)
    × IsAssigned "bob"
        ("reader" ∷ "platform_admin" ∷ [])
        governed
        (set_user_roles (returned "ann") "bob" "ann" ("reader" ∷ "platform_admin" ∷ []) governed).1
unfolding set_user_roles require_current_platform_admin user_is_active user_has_role any roles_exist
    role_exists all sorted_set Dict.get
set_user_roles-IsAssigned_example =
    set_user_roles-IsAssigned (returned "ann") "bob" "ann" ("reader" ∷ "platform_admin" ∷ [])
      ("platform_admin" ∷ "reader" ∷ []) governed refl
