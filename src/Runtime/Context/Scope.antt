-- ===== src/Runtime/Context/Scope.antt =====
-- runtime_context.py: the scopes of tools. A scope names, for each kind of resource, the values that
-- a tool may be used with. A raw scope is a JSON object, whose keys are texts.
pub mod Subset
use Prim.Native.Nat.{Ordering}
use Prim.Native.String.{compare}
use aegora.Prelude.{
  String, Bool, true, false, not, ◌&&◌, Option, none, some, List, [], ◌∷◌, map, all, mem, is_some,
  if◌then◌else◌,
}
use aegora.Prelude.Dict
use aegora.Prelude.Dict.{Dict}
use aegora.Prelude.Result.{Result, ok, err, ◌>>=◌}

abbrev pub Scope : Type 0
Scope = Dict (List String)

-- A value of a raw scope: a list, with `none` for an element that is no text, or something else.
pub data RawValues : Type 0 where
  listed : List (Option String) → RawValues
  unlisted : RawValues

abbrev pub RawScope : Type 0
RawScope = Dict RawValues

-- `sorted(set(values))`
unfoldable pub insert_text : String → List String → List String
insert_text x [] = x ∷ []
insert_text x (y ∷ ys) = elim (compare x y) [
  | Ordering.lt ↦ x ∷ y ∷ ys
  | Ordering.eq ↦ y ∷ ys
  | Ordering.gt ↦ y ∷ insert_text x ys
]

unfoldable pub sorted_set : List String → List String
unfolding insert_text
sorted_set [] = []
sorted_set (x ∷ xs) = insert_text x (sorted_set xs)

unfoldable pub clean_values : RawValues → Result (List String)
clean_values RawValues.unlisted = err "scope 只支持 dict[str, list[str]]"
clean_values (RawValues.listed []) = ok []
clean_values (RawValues.listed (none ∷ values)) = err "scope 只支持字符串列表"
clean_values (RawValues.listed (some value ∷ values)) = do
  rest ← clean_values (RawValues.listed values)
  ok (value ∷ rest)

unfoldable pub normalize_scope : RawScope → Result Scope
unfolding clean_values sorted_set
normalize_scope [] = ok []
normalize_scope ((key, values) ∷ scope) = do
  clean ← clean_values values
  rest ← normalize_scope scope
  ok ((key, sorted_set clean) ∷ rest)

-- `allowed_scope.get(key, [])`
unfoldable pub values_of : String → Scope → List String
unfolding Dict.get
values_of key scope = elim (Dict.get key scope) [ none ↦ [] | some values ↦ values ]

-- The loop of `scope_is_subset`.
unfoldable pub covered : Scope → Scope → Bool
unfolding values_of all mem
covered [] allowed = true
covered ((key, values) ∷ requested) allowed =
    all (λ v. mem v (values_of key allowed)) values && covered requested allowed

-- The two arguments are None or a raw scope; None is normalised as the empty scope is.
unfoldable pub raw_or_empty : Option RawScope → RawScope
raw_or_empty none = []
raw_or_empty (some scope) = scope

unfoldable pub scope_is_subset : Option RawScope → Option RawScope → Result Bool
scope_is_subset requested allowed = do
  requested_scope ← normalize_scope (raw_or_empty requested)
  allowed_scope ← normalize_scope (raw_or_empty allowed)
  ok (covered requested_scope allowed_scope)

-- A scope that is already normalised, as a JSON object.
unfoldable pub as_raw : Scope → RawScope
as_raw [] = []
as_raw ((key, values) ∷ scope) = (key, RawValues.listed (map some values)) ∷ as_raw scope
