-- ===== src/Control/Authz.antt =====
-- apps/control-plane/backend/app/authz.py: the scopes of tools by role and by agent. The requests and
-- the database hold scopes of texts only, so a scope is a dict of lists of texts; a set is a list,
-- which `sorted` makes a sorted list without repetition.
pub mod Merged
use Prim.Native.Nat.{Ordering}
use Prim.Native.String.{compare}
use aegora.Prelude.{
  String, Bool, true, false, not, ◌&&◌, Option, none, some, List, [], ◌∷◌, ◌++◌, map, all, mem,
  is_some, keep, if◌then◌else◌,
}
use aegora.Prelude.Dict
use aegora.Prelude.Dict.{Dict}
use aegora.Prelude.Sort.{sort}
use aegora.Runtime.Context.Scope.{Scope, sorted_set, values_of, covered}

-- The order of `sorted(items)` on a dict, by its keys.
abbrev pub key_before {ℓ} : {V : Type ℓ} → String × V → String × V → Bool
key_before a b = elim (compare a.0 b.0) [ Ordering.lt ↦ true | _ ↦ false ]

unfoldable pub sorted_items {ℓ} : {V : Type ℓ} → Dict V → Dict V
sorted_items d = sort key_before d

unfoldable pub normalize_scope : Scope → Scope
normalize_scope [] = []
normalize_scope ((key, values) ∷ scope) = (key, sorted_set values) ∷ normalize_scope scope

-- `merged.get(tool_id, {})`
unfoldable pub scope_at : String → Dict Scope → Scope
scope_at tool_id merged = elim (Dict.get tool_id merged) [ none ↦ [] | some scope ↦ scope ]

-- `tool_scope.setdefault(scope_key, set()).update(values)`, for each item of a scope
unfoldable pub add_scope : Scope → Scope → Scope
add_scope [] tool_scope = tool_scope
add_scope ((key, values) ∷ scope) tool_scope =
    add_scope scope (Dict.put key (values_of key tool_scope ++ values) tool_scope)

-- The loop over the rows.
unfoldable pub merge_rows : List (String × Scope) → Dict Scope → Dict Scope
merge_rows [] merged = merged
merge_rows ((tool_id, raw_scope) ∷ rows) merged =
    merge_rows rows
      (Dict.put tool_id (add_scope (normalize_scope raw_scope) (scope_at tool_id merged)) merged)

-- `{key: sorted(values) for key, values in sorted(scope.items())}`, for each tool
unfoldable pub finish : Dict Scope → Dict Scope
finish [] = []
finish ((tool_id, scope) ∷ merged) = (tool_id, normalize_scope (sorted_items scope)) ∷ finish merged

unfoldable pub merge_tool_scopes : List (String × Scope) → Dict Scope
merge_tool_scopes rows = finish (sorted_items (merge_rows rows []))

-- A scope that is None is normalised as the empty one is.
unfoldable pub scope_is_subset : Scope → Option Scope → Bool
scope_is_subset requested none = covered (normalize_scope requested) []
scope_is_subset requested (some allowed) =
    covered (normalize_scope requested) (normalize_scope allowed)

-- `configured_tools - current_capabilities` is empty.
unfoldable pub validate_configured_tools : List String → List String → Bool
validate_configured_tools configured capabilities = all (λ t. mem t capabilities) configured

-- `validate_tool_scope_subset` for every tool of a request raises nothing.
unfoldable pub validate_tool_scopes : Dict Scope → Dict Scope → Bool
validate_tool_scopes [] role_scopes = true
validate_tool_scopes ((tool_id, scope) ∷ tools) role_scopes =
    scope_is_subset scope (Dict.get tool_id role_scopes) && validate_tool_scopes tools role_scopes

unfoldable pub effective_tools : List String → List String → List String → List String
effective_tools configured created_at current =
    keep (λ t. mem t created_at && mem t current) configured
