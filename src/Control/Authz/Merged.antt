-- ===== src/Control/Authz/Merged.antt =====
-- authz.py of the control plane: what the merged scopes of several roles allow.
use aegora.Prelude.{
  ◌≡◌, refl, ap, ◌∙◌, String, Bool, true, false, ◌&&◌, ◌||◌, some, List, [], ◌∷◌, ◌++◌, any, mem,
  arith, eq_iff, ◌==◌, if◌then◌else◌, Bool-cases, inl, inr,
}
use aegora.Prelude.Dict
use aegora.Prelude.Dict.{Dict, get-put}
use aegora.Prelude.Sort.{sort, insert_sorted}
use aegora.Runtime.Context.Scope.{Scope, sorted_set, values_of}
use aegora.Runtime.Context.Scope.Subset.{mem-sorted_set, values_of-cons}
use aegora.Control.Authz.{
  key_before, sorted_items, normalize_scope, scope_at, add_scope, merge_rows, finish,
  merge_tool_scopes,
}

-- A scope has the value under the key.
abbrev pub holds : String → String → Scope → Bool
holds key value scope = any (λ item. item.0 == key && mem value item.1) scope

-- A row gives the tool the value under the key.
abbrev pub grants : String → String → String → String × Scope → Bool
grants tool key value row = row.0 == tool && holds key value row.1

abbrev allows : String → String → String → Dict Scope → Bool
allows tool key value scopes = mem value (values_of key (scope_at tool scopes))

mem-append : (v : String) (xs ys : List String) → mem v (xs ++ ys) ≡ (mem v xs || mem v ys)
unfolding mem
mem-append v [] ys = refl
mem-append v (x ∷ xs) ys = ground (arith, mem-append v xs ys)

module _ {ℓ} {V : Type ℓ} where
  -- Sorting by the keys is stable, so a lookup finds what it found.
  get-insert_sorted :
      (k : String) (item : String × V) (d : Dict V)
      → Dict.get k (insert_sorted key_before item d)
        ≡ (if item.0 == k then some item.1 else Dict.get k d)
  unfolding insert_sorted Dict.get
  get-insert_sorted k (j, v) [] = refl
  get-insert_sorted k (j, v) ((i, w) ∷ d) =
      ground (arith, eq_iff i j, eq_iff j k, eq_iff i k, get-insert_sorted k (j, v) d)

  get-sorted_items : (k : String) (d : Dict V) → Dict.get k (sorted_items d) ≡ Dict.get k d
  unfolding sorted_items sort Dict.get
  get-sorted_items k [] = refl
  get-sorted_items k ((j, v) ∷ d) =
      get-insert_sorted k (j, v) (sort key_before d)
      ∙ ap (λ rest. if j == k then some v else rest) (get-sorted_items k d)

pub mem-normalize_scope :
    (k v : String) (scope : Scope)
    → mem v (values_of k (normalize_scope scope)) ≡ mem v (values_of k scope)
unfolding normalize_scope values_of Dict.get
mem-normalize_scope k v [] = refl
mem-normalize_scope k v ((j, values) ∷ scope) = elim (Bool-cases (j == k)) [
  | inl e ↦
      rw
        (
          values_of-cons j k (sorted_set values) (normalize_scope scope),
          values_of-cons j k values scope,
          e,
        )
        (mem-sorted_set v values)
  | inr e ↦
      rw
        (
          values_of-cons j k (sorted_set values) (normalize_scope scope),
          values_of-cons j k values scope,
          e,
        )
        (mem-normalize_scope k v scope)
]

values_of-put :
    (j k : String) (values : List String) (scope : Scope)
    → values_of k (Dict.put j values scope) ≡ (if j == k then values else values_of k scope)
unfolding values_of
values_of-put j k values scope = ground (arith, get-put j k values scope)

values_of-sorted_items :
    (k : String) (scope : Scope) → values_of k (sorted_items scope) ≡ values_of k scope
unfolding values_of
values_of-sorted_items k scope = rw (get-sorted_items k scope, values_of)

holds-normalize_scope :
    (k v : String) (scope : Scope) → holds k v (normalize_scope scope) ≡ holds k v scope
unfolding normalize_scope any
holds-normalize_scope k v [] = refl
holds-normalize_scope k v ((j, values) ∷ scope) =
    rw (mem-sorted_set v values, holds-normalize_scope k v scope)

mem-add_scope :
    (k v : String) (scope tool_scope : Scope)
    → mem v (values_of k (add_scope scope tool_scope))
      ≡ (holds k v scope || mem v (values_of k tool_scope))
unfolding add_scope any
mem-add_scope k v [] tool_scope = refl
mem-add_scope k v ((j, values) ∷ scope) tool_scope =
    mem-add_scope k v scope (Dict.put j (values_of j tool_scope ++ values) tool_scope)
    ∙ ground (
      arith,
      eq_iff j k,
      values_of-put j k (values_of j tool_scope ++ values) tool_scope,
      mem-append v (values_of j tool_scope) values,
    )

scope_at-put :
    (t u : String) (scope : Scope) (merged : Dict Scope)
    → scope_at u (Dict.put t scope merged) ≡ (if t == u then scope else scope_at u merged)
unfolding scope_at
scope_at-put t u scope merged = ground (arith, get-put t u scope merged)

allows-merge_rows :
    (t k v : String) (rows : List (String × Scope)) (merged : Dict Scope)
    → allows t k v (merge_rows rows merged) ≡ (any (grants t k v) rows || allows t k v merged)
unfolding merge_rows any
allows-merge_rows t k v [] merged = refl
allows-merge_rows t k v ((u, raw) ∷ rows) merged =
    let scope = normalize_scope raw in
    allows-merge_rows t k v rows (Dict.put u (add_scope scope (scope_at u merged)) merged)
    ∙ ground (
      arith,
      eq_iff u t,
      scope_at-put u t (add_scope scope (scope_at u merged)) merged,
      mem-add_scope k v scope (scope_at u merged),
      holds-normalize_scope k v raw,
    )

allows-finish :
    (t k v : String) (merged : Dict Scope) → allows t k v (finish merged) ≡ allows t k v merged
unfolding finish scope_at Dict.get
allows-finish t k v [] = refl
allows-finish t k v ((u, scope) ∷ merged) = elim (Bool-cases (u == t)) [
  | inl e ↦
      rw (e, scope_at)
        (mem-normalize_scope k v (sorted_items scope) ∙ ap (mem v) (values_of-sorted_items k scope))
  | inr e ↦ rw (e, scope_at) (allows-finish t k v merged)
]

scope_at-sorted_items :
    (t : String) (merged : Dict Scope) → scope_at t (sorted_items merged) ≡ scope_at t merged
unfolding scope_at
scope_at-sorted_items t merged = rw (get-sorted_items t merged, scope_at)

or_false : (b : Bool) → (b || false) ≡ b
or_false true = refl
or_false false = refl

-- The merged scopes allow a tool a value under a key exactly when one of the rows does: roles add up,
-- and nothing else is allowed.
pub merge_tool_scopes-any :
    (t k v : String) (rows : List (String × Scope))
    → mem v (values_of k (scope_at t (merge_tool_scopes rows))) ≡ any (grants t k v) rows
unfolding merge_tool_scopes scope_at values_of Dict.get mem
merge_tool_scopes-any t k v rows =
    allows-finish t k v (sorted_items (merge_rows rows []))
    ∙ ap (λ scope. mem v (values_of k scope)) (scope_at-sorted_items t (merge_rows rows []))
    ∙ allows-merge_rows t k v rows []
    ∙ or_false (any (grants t k v) rows)
