-- ===== src/Control/Identity.antt =====
-- apps/control-plane/backend/app/identity.py, with the sessions of db.py and the endpoints on them of
-- api.py: who a request comes from. The digest of a token, `str.lower` and the service that
-- authenticates the users of other environments are parameters.
pub mod Login
pub mod Logout
use Prim.Native.Char.{code}
use Prim.Native.String
use aegora.Prelude.{
  ℕ, String, Bool, not, ◌&&◌, Option, none, some, List, ◌∷◌, [], any, mem, nat_eq, is_some, strip,
  starts_with, nonempty, ◌==◌, if◌then◌else◌,
}
use aegora.Prelude.Dict
use aegora.Prelude.Dict.{Dict}
use aegora.Prelude.Rows.{find, update_where}
use aegora.Runtime.Context.Scope.{Scope, sorted_set}
use aegora.Control.Platform.{
  Reply, raised, returned, Platform, UserSession, user_is_active, user_has_role, get_user_roles,
  get_user_role_tool_scopes,
}
use aegora.Control.Access.{platform_admin}

pub record UserProfile : Type 0 where
  pub user_id : String
  pub status : String
  pub roles : List String
  pub role_tool_scopes : Dict Scope
  pub is_platform_admin : Bool

-- `s.split(" ", 1)[1]`; a header that is split begins with a word and a space.
unfoldable pub after_space : String → String
after_space String.[] = String.[]
after_space (String.◌∷◌ c s) = if nat_eq (code c) 32 then s else after_space s

-- `token_hash = %s AND revoked_at IS NULL`
abbrev pub is_open : String → UserSession → Bool
is_open token_hash s = s.token_hash == token_hash && not (is_some s.revoked_at)

abbrev pub has_hash : String → UserSession → Bool
has_hash token_hash s = s.token_hash == token_hash

unfoldable pub revoke_at : ℕ → UserSession → UserSession
revoke_at now s = record s { revoked_at = some now }

module _ (lower : String → String) where
  unfoldable pub extract_bearer_token : Option String → Reply String
  unfolding after_space
  extract_bearer_token none = raised 401 "缺少登录 token"
  extract_bearer_token (some authorization) =
      let token = strip (after_space authorization) in
      if not (nonempty authorization && starts_with (lower authorization) "bearer ")
      then raised 401 "缺少登录 token"
      else if not (nonempty token)
      then raised 401 "缺少登录 token"
      else returned token

module _ {J : Type 0} where
  -- A new user is added, and one that is there keeps its status.
  unfoldable pub ensure_user_exists : String → Platform J → Platform J
  ensure_user_exists user_id p = record p {
    users = elim (Dict.get user_id p.users) [
      | none ↦ Dict.put user_id "active" p.users
      | some status ↦ p.users
    ];
  }

  unfoldable pub upsert_user : String → String → Platform J → Platform J
  upsert_user user_id status p = record p { users = Dict.put user_id status p.users }

  unfoldable pub user_profile : String → Platform J → Reply UserProfile
  user_profile user_id p = elim (Dict.get user_id p.users) [
    | none ↦ raised 404 "用户不存在"
    | some status ↦ returned (record {
      user_id = user_id;
      status = status;
      roles = sorted_set (get_user_roles user_id p);
      role_tool_scopes = get_user_role_tool_scopes user_id p;
      is_platform_admin = user_has_role user_id platform_admin p;
    })
  ]

  -- The endpoint that sets the status of a user answers it.
  unfoldable pub set_user : String → String → Platform J → Reply String × Platform J
  unfolding upsert_user
  set_user user_id status p =
      if not (mem status ("active" ∷ "disabled" ∷ []))
      then (raised 422 "status 只能是 active 或 disabled", p)
      else (returned status, upsert_user user_id status p)

  module _ (hash_session_token : String → String) where
    unfoldable pub create_user_session : String → String → Platform J → Platform J
    create_user_session token user_id p = record p {
      user_sessions =
          record { token_hash = hash_session_token token; user_id = user_id; revoked_at = none }
          ∷ p.user_sessions;
    }

    unfoldable pub get_session_user : String → Platform J → Option String
    get_session_user token p = elim (find (is_open (hash_session_token token)) p.user_sessions) [
      | none ↦ none
      | some s ↦ if user_is_active s.user_id p then some s.user_id else none
    ]

    unfoldable pub revoke_user_session : String → Platform J → Platform J
    unfolding revoke_at
    revoke_user_session token p = record p {
      user_sessions =
          update_where (is_open (hash_session_token token)) (revoke_at p.now) p.user_sessions;
    }

    module _ (lower : String → String) (auth_mode : String)
        (fetch_oa_current_user : String → Reply String) where
      -- `token` is the new random one. A digest that is in the table violates its primary key.
      unfoldable pub login :
          String → String → Platform J → Reply (String × UserProfile) × Platform J
      unfolding create_user_session user_profile
      login token user_id p =
          let after = create_user_session token user_id p in
          if not (auth_mode == "local")
          then (raised 403 "当前环境使用 OA 登录", p)
          else if not (user_is_active user_id p)
          then (raised 403 "用户不存在或不可用", p)
          else if any (has_hash (hash_session_token token)) p.user_sessions
          then (raised 503 "数据库不可用或未配置", p)
          else elim (user_profile user_id after) [
            | raised code detail ↦ (raised code detail, after)
            | returned profile ↦ (returned (token, profile), after)
          ]

      unfoldable pub logout : Option String → Platform J → Reply String × Platform J
      unfolding extract_bearer_token revoke_user_session
      logout authorization p = elim (extract_bearer_token lower authorization) [
        | raised code detail ↦ (raised code detail, p)
        | returned token ↦
            (returned "ok", if auth_mode == "local" then revoke_user_session token p else p)
      ]

      unfoldable pub current_user_id : Option String → Platform J → Reply String × Platform J
      unfolding extract_bearer_token get_session_user ensure_user_exists
      current_user_id authorization p = elim (extract_bearer_token lower authorization) [
        | raised code detail ↦ (raised code detail, p)
        | returned token ↦
            if auth_mode == "local"
            then elim (get_session_user token p) [
              | none ↦ (raised 401 "登录已失效", p)
              | some user_id ↦ (returned user_id, p)
            ]
            else elim (fetch_oa_current_user token) [
              | raised code detail ↦ (raised code detail, p)
              | returned uid ↦
                  let known = ensure_user_exists uid p in
                  if user_is_active uid known
                  then (returned uid, known)
                  else (raised 403 "当前用户不可用", known)
            ]
      ]
