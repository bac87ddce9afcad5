-- ===== src/Runtime/Context/Scope/Subset.antt =====
-- runtime_context.py: theorems on `scope_is_subset`.
use mathlib.Core.Option
use aegora.Prelude.{
  ◌≡◌, refl, sym, ap, ◌∙◌, String, Bool, true, ◌||◌, Option, none, some, List, [], ◌∷◌, map, all,
  mem, if◌then◌else◌, arith, eq_iff, ◌==◌,
}
use aegora.Prelude.Dict
use aegora.Prelude.Dict.{Dict}
use aegora.Prelude.Result.{ok, ok-injective}
use aegora.Runtime.Context.Scope.{
  Scope, RawValues, insert_text, sorted_set, clean_values, normalize_scope, values_of, covered,
  raw_or_empty, scope_is_subset, as_raw,
}

-- To split on how two texts compare, and keep what `==` says of it.
mem-insert_text :
    (z x : String) (ys : List String) → mem z (insert_text x ys) ≡ (z == x || mem z ys)
unfolding mem insert_text
mem-insert_text z x [] = refl
mem-insert_text z x (y ∷ ys) =
    ground (arith, eq_iff x y, eq_iff z x, eq_iff z y, mem-insert_text z x ys)

pub mem-sorted_set : (z : String) (xs : List String) → mem z (sorted_set xs) ≡ mem z xs
unfolding mem sorted_set
mem-sorted_set z [] = refl
mem-sorted_set z (x ∷ xs) =
    mem-insert_text z x (sorted_set xs) ∙ ap (◌||◌ (z == x)) (mem-sorted_set z xs)

-- What every element of a list passes, an element of it passes.
pub all-mem :
    (p : String → Bool) (v : String) (xs : List String)
    → all p xs ≡ true
    → mem v xs ≡ true
    → p v ≡ true
unfolding all mem
all-mem p v [] h m = cc
all-mem p v (x ∷ xs) h m = ground (arith, eq_iff v x, all-mem p v xs)

pub values_of-cons :
    (j k : String) (values : List String) (scope : Scope)
    → values_of k ((j, values) ∷ scope) ≡ (if j == k then values else values_of k scope)
unfolding values_of Dict.get
values_of-cons j k values scope = ground arith

pub covered-mem :
    (requested allowed : Scope) (k v : String)
    → covered requested allowed ≡ true
    → mem v (values_of k requested) ≡ true
    → mem v (values_of k allowed) ≡ true
unfolding covered mem values_of Dict.get
covered-mem [] allowed k v h m = cc
covered-mem ((j, values) ∷ requested) allowed k v h m = ground (
  arith,
  eq_iff j k,
  values_of-cons j k values requested,
  all-mem (λ x. mem x (values_of j allowed)) v values,
  covered-mem requested allowed k v,
)

-- A normalised scope, normalised again.
cleaned : Scope → Scope
cleaned [] = []
cleaned ((k, values) ∷ scope) = (k, sorted_set values) ∷ cleaned scope

clean_values-some :
    (values : List String) → clean_values (RawValues.listed (map some values)) ≡ ok values
unfolding clean_values
clean_values-some [] = refl
clean_values-some (v ∷ values) = rw (clean_values-some values)

normalize_scope-as_raw : (scope : Scope) → normalize_scope (as_raw scope) ≡ ok (cleaned scope)
unfolding normalize_scope as_raw cleaned
normalize_scope-as_raw [] = refl
normalize_scope-as_raw ((k, values) ∷ scope) =
    rw (clean_values-some values) (rw (normalize_scope-as_raw scope))

values_of-cleaned :
    (k v : String) (scope : Scope) → mem v (values_of k (cleaned scope)) ≡ mem v (values_of k scope)
unfolding values_of cleaned Dict.get
values_of-cleaned k v [] = refl
values_of-cleaned k v ((j, values) ∷ scope) =
    ground (arith, mem-sorted_set v values, values_of-cleaned k v scope)

-- What may be None is read as the empty scope.
abbrev pub scope_or_empty : Option Scope → Scope
scope_or_empty none = []
scope_or_empty (some scope) = scope

raw_or_empty_lem :
    (o : Option Scope)
    → normalize_scope (raw_or_empty (Option.map as_raw o)) ≡ ok (cleaned (scope_or_empty o))
unfolding raw_or_empty as_raw
raw_or_empty_lem none = normalize_scope-as_raw []
raw_or_empty_lem (some scope) = normalize_scope-as_raw scope

-- When `scope_is_subset` answers yes, every value that the requested scope asks for, under any key,
-- is a value that the allowed scope has under that key.
pub scope_is_subset-mem :
    (requested : Scope) (allowed : Option Scope) (k v : String)
    → scope_is_subset (some (as_raw requested)) (Option.map as_raw allowed) ≡ ok true
    → mem v (values_of k requested) ≡ true
    → mem v (values_of k (scope_or_empty allowed)) ≡ true
unfolding scope_is_subset
scope_is_subset-mem requested allowed k v h asked =
    let both = rw (raw_or_empty_lem (some requested), raw_or_empty_lem allowed) at h in
    sym (values_of-cleaned k v (scope_or_empty allowed))
    ∙ covered-mem (cleaned requested) (cleaned (scope_or_empty allowed)) k v (ok-injective both)
        (values_of-cleaned k v requested ∙ asked)
