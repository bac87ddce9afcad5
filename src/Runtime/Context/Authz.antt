-- ===== src/Runtime/Context/Authz.antt =====
-- runtime_context.py: which of a release's tools a run may use. A tool is kept when it is configured,
-- was granted when the release was made, is granted now, and asks for no more than both grants.
pub mod Narrowing
use Prim.Native.Nat.{Ordering}
use Prim.Native.String.{compare}
use mathlib.Core.Option
use aegora.Prelude.{
  String, Bool, true, false, not, ◌&&◌, Option, none, some, List, [], ◌∷◌, map, mem, keep, nonempty,
  truthy, if◌then◌else◌, is_some,
}
use aegora.Prelude.Dict
use aegora.Prelude.Dict.{Dict}
use aegora.Prelude.Result.{Result, ok, err, ◌>>=◌}
use aegora.Prelude.Sort.{sort}
use aegora.Runtime.Context.Scope.{
  Scope, RawScope, normalize_scope, scope_is_subset, as_raw, sorted_set,
}

-- A tool of the release, as `normalize_tool_config` leaves it. `policy` is what the code carries.
pub record Tool (P : Type 0) : Type 0 where
  pub tool_id : String
  pub scope : Scope
  pub policy : P

pub record AuthzPolicy : Type 0 where
  pub runtime_authz_filtered : List String
  pub scope_denied_tools : List String
  pub runtime_authz_reason : Option String
  pub runtime_authz_source : Option String

pub record Authz (P : Type 0) : Type 0 where
  pub tools : List (Tool P)
  pub policy : AuthzPolicy

-- `set(scopes)`
unfoldable pub ids_of : Dict Scope → List String
ids_of [] = []
ids_of ((id, scope) ∷ scopes) = id ∷ ids_of scopes

-- `configured_tools & created_at_capabilities & current_capabilities`
unfoldable pub effective_tools : List String → List String → List String → List String
unfolding keep mem
effective_tools configured created current =
    keep (λ id. mem id created && mem id current) configured

-- `snapshot_role_tool_scopes`, where a scope that is no object is none. A snapshot without the entry
-- `role_tool_scopes` has no scopes.
unfoldable pub snapshot_role_tool_scopes : Dict (Option RawScope) → Result (Dict Scope)
snapshot_role_tool_scopes [] = ok []
snapshot_role_tool_scopes ((tool_id, none) ∷ scopes) = do
  rest ← snapshot_role_tool_scopes scopes
  ok ((tool_id, []) ∷ rest)
snapshot_role_tool_scopes ((tool_id, some raw) ∷ scopes) = do
  scope ← normalize_scope raw
  rest ← snapshot_role_tool_scopes scopes
  ok ((tool_id, scope) ∷ rest)

-- `set(created_scopes) if created_scopes else set(configured_tool_ids)`
unfoldable pub capabilities : Dict Scope → List String → List String
capabilities [] configured = configured
capabilities (entry ∷ scopes) configured = ids_of (entry ∷ scopes)

-- The order of `sorted` on texts.
unfoldable pub text_before : String → String → Bool
text_before s t = elim (compare s t) [ Ordering.lt ↦ true | _ ↦ false ]

pub data Verdict : Type 0 where
  ineffective : Verdict
  denied : Verdict
  allowed : Verdict

-- Whether the tool is effective, and whether its scope is within each grant, in the code's order.
unfoldable pub verdict : Bool → Result Bool → Result Bool → Result Verdict
verdict is_effective within_created within_current =
    if not is_effective
    then ok Verdict.ineffective
    else within_created >>= λ in_created.
        if not in_created
        then ok Verdict.denied
        else within_current >>= λ in_current.
            if not in_current then ok Verdict.denied else ok Verdict.allowed

module _ {P : Type 0} where
  unfoldable pub tool_ids : List (Tool P) → List String
  tool_ids [] = []
  tool_ids (tool ∷ tools) = tool.tool_id ∷ tool_ids tools

  -- `created_scopes and not scope_is_subset(requested, created_scopes.get(tool_id))`, negated
  unfoldable pub within_created : Dict Scope → Tool P → Result Bool
  within_created [] tool = ok true
  within_created (entry ∷ scopes) tool =
      scope_is_subset (some (as_raw tool.scope))
        (Option.map as_raw (Dict.get tool.tool_id (entry ∷ scopes)))

  unfoldable pub within_current : Dict Scope → Tool P → Result Bool
  within_current current tool =
      scope_is_subset (some (as_raw tool.scope)) (Option.map as_raw (Dict.get tool.tool_id current))

  -- One turn of the loop over the tools.
  unfoldable pub judge : List String → Dict Scope → Dict Scope → Tool P → Result Verdict
  judge effective created current tool =
      verdict (mem tool.tool_id effective) (within_created created tool)
        (within_current current tool)

  -- A verdict puts its tool among the allowed ones, its id among the denied ones, or nowhere.
  unfoldable pub file_under :
      Verdict → Tool P → List (Tool P) × List String → List (Tool P) × List String
  file_under Verdict.ineffective tool sorted = sorted
  file_under Verdict.denied tool sorted = (sorted.0, tool.tool_id ∷ sorted.1)
  file_under Verdict.allowed tool sorted = (tool ∷ sorted.0, sorted.1)

  unfoldable pub judge_all :
      List String → Dict Scope → Dict Scope → List (Tool P) → Result (List (Tool P) × List String)
  judge_all effective created current [] = ok ([], [])
  judge_all effective created current (tool ∷ tools) = do
    verdict ← judge effective created current tool
    rest ← judge_all effective created current tools
    ok (file_under verdict tool rest)

  -- What follows the test for the actor. `current` is the grants that the actor's roles have now.
  unfoldable pub authorise : List (Tool P) → Dict (Option RawScope) → Dict Scope → Result (Authz P)
  authorise tools snapshot current = do
    created ← snapshot_role_tool_scopes snapshot
    let configured = tool_ids tools
    let effective = effective_tools configured (capabilities created configured) (ids_of current)
    judged ← judge_all effective created current tools
    ok (record {
      tools = judged.0;
      policy = record {
        runtime_authz_filtered =
            sorted_set (keep (λ id. not (mem id (tool_ids judged.0))) configured);
        scope_denied_tools = sorted_set judged.1;
        runtime_authz_reason = none;
        runtime_authz_source = some "role_tool_permissions";
      };
    })

  unfoldable pub unauthorised : List (Tool P) → Authz P
  unfolding tool_ids
  unauthorised tools = record {
    tools = [];
    policy = record {
      runtime_authz_filtered = sort text_before (tool_ids tools);
      scope_denied_tools = [];
      runtime_authz_reason = some "missing_actor_id";
      runtime_authz_source = none;
    };
  }

  -- `current_of` is `get_user_role_tool_scopes`.
  unfoldable pub apply_runtime_tool_authz :
      List (Tool P)
      → Option String
      → Dict (Option RawScope)
      → (String → Dict Scope)
      → Result (Authz P)
  apply_runtime_tool_authz tools none snapshot current_of = ok (unauthorised tools)
  apply_runtime_tool_authz tools (some actor_id) snapshot current_of =
      if not (nonempty actor_id)
      then ok (unauthorised tools)
      else authorise tools snapshot (current_of actor_id)
