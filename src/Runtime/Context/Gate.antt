-- ===== src/Runtime/Context/Gate.antt =====
-- runtime_context.py: `validate_runtime_context`, the last test before a released agent runs, and the
-- read of the release's configuration through the cache.
pub mod Admission
pub mod ReadThrough
use aegora.Prelude.{
  ℕ, String, Bool, true, false, not, ◌&&◌, Option, none, some, List, [], ◌∷◌, mem, nonempty, opt_eq,
  truthy, or_str, ◌==◌, if◌then◌else◌,
}
use aegora.Prelude.Result.{Result, ok, err}
use aegora.Runtime.Cache.{RuntimeCacheSettings, Redis, Json, Cache, get, set}

-- The entries of the context that the tests read. A channel that is None is no authorised one.
pub record RuntimeContext : Type 0 where
  pub status : String
  pub release_visibility : Option String
  pub enabled : Bool
  pub owner_user_id : Option String
  pub channels : List String
  pub actor_id : Option String
  pub channel : Option String

-- The two queries about users.
pub record Users : Type 0 where
  pub user_is_active : String → Bool
  pub user_has_role : String → String → Bool

pub record RuntimeContextError : Type 0 where
  pub message : String
  pub status_code : ℕ

-- A row of `if test: raise RuntimeContextError(message, status_code=code)`.
unfoldable pub first_failure : List (Bool × String × ℕ) → Option RuntimeContextError
first_failure [] = none
first_failure ((failed, message, code) ∷ gates) =
    let later = first_failure gates in
    if failed then some (record { message = message; status_code = code }) else later

abbrev pub channel_in : Option String → List String → Bool
channel_in none channels = false
channel_in (some channel) channels = mem channel channels

-- The actor may run an agent that is not public when they own it or administer the platform.
abbrev pub may_run : RuntimeContext → Users → String → Bool
may_run context users actor =
    if or_str context.release_visibility "private" == "public"
    then true
    else if opt_eq (some actor) context.owner_user_id
    then true
    else users.user_has_role actor "platform_admin"

unfoldable pub gates_for : RuntimeContext → Users → Option String → List (Bool × String × ℕ)
gates_for context users none = (true, "actor_id 缺失", 401) ∷ []
gates_for context users (some actor) =
    (not (nonempty actor), "actor_id 缺失", 401)
    ∷ (not (users.user_is_active actor), "执行用户不可用", 403)
    ∷ (not (may_run context users actor), "当前用户不能执行该发布版本", 403)
    ∷ (not (channel_in context.channel context.channels), "渠道未授权", 403)
    ∷ []

-- The tests, in their order.
unfoldable pub all_gates : RuntimeContext → Users → List (Bool × String × ℕ)
unfolding gates_for
all_gates context users =
    (not (context.status == "published"), "发布版本不可运行", 409)
    ∷ (not context.enabled, "Agent 不可用", 403)
    ∷ gates_for context users context.actor_id

-- None when the context passes.
unfoldable pub validate_runtime_context : RuntimeContext → Users → Option RuntimeContextError
unfolding first_failure all_gates
validate_runtime_context context users = first_failure (all_gates context users)

module _ {V R : Type 0} (json : Json V) (redis : Redis R) (settings : RuntimeCacheSettings) where
  -- What `_release_config_json` does when the cache has nothing: `row` is the configuration in the
  -- database, and none where there is no row or it is no dict.
  unfoldable pub read_row : Option V → String → String → String → Cache V R → Result V × Cache V R
  read_row none agent_id release_id version c = (err "release config_json 不合法", c)
  read_row (some config) agent_id release_id version c =
      (ok config, set json redis settings config agent_id release_id version c)

  unfoldable pub release_config_json :
      Option V → String → String → String → Cache V R → Result V × Cache V R
  release_config_json row agent_id release_id version c =
      let (cached, after) = get json redis settings agent_id release_id version c in
      elim cached [
        | some config ↦ (ok config, after)
        | none ↦ read_row row agent_id release_id version after
      ]
