-- ===== src/Prelude/Text/Strip.antt =====
-- The laws of `str.strip` that the records' checks need.
use Prim.Native.Char.{Char, code}
use Prim.Native.String.{String}
use mathlib.Core.Path.{◌≡◌, refl, ap, ◌∙◌}
use mathlib.Core.Logic.{inl, inr}
use mathlib.Core.Bool.{false}
use aegora.Prelude.Tests.{Bool-cases}
use aegora.Prelude.Text.{is_space, lstrip, rstrip, rstrip_onto, strip}

rstrip_onto_idem :
    (c : Char) (s : String) → rstrip s ≡ s → rstrip (rstrip_onto c s) ≡ rstrip_onto c s
unfolding rstrip rstrip_onto
rstrip_onto_idem c String.[] h = elim (Bool-cases (is_space (code c))) [
  | inl e ↦ rw e
  | inr e ↦ rw e (rw e)
]
rstrip_onto_idem c (String.◌∷◌ d s) h = ap (rstrip_onto c) h

rstrip_idem : (s : String) → rstrip (rstrip s) ≡ rstrip s
unfolding rstrip
rstrip_idem String.[] = refl
rstrip_idem (String.◌∷◌ c s) = rstrip_onto_idem c (rstrip s) (rstrip_idem s)

-- A text whose first character is no space, or the empty text.
abbrev Starts : String → Type 0
Starts String.[] = Unit
Starts (String.◌∷◌ c s) = is_space (code c) ≡ false

lstrip-Starts : (s : String) → Starts (lstrip s)
unfolding lstrip
lstrip-Starts String.[] = tt
lstrip-Starts (String.◌∷◌ c s) = elim (Bool-cases (is_space (code c))) [
  | inl e ↦ rw e (lstrip-Starts s)
  | inr e ↦ rw e e
]

lstrip_of_Starts : (s : String) → Starts s → lstrip s ≡ s
unfolding lstrip
lstrip_of_Starts String.[] h = refl
lstrip_of_Starts (String.◌∷◌ c s) h = rw h

rstrip_onto-Starts : (c : Char) (s : String) → is_space (code c) ≡ false → Starts (rstrip_onto c s)
unfolding rstrip_onto
rstrip_onto-Starts c String.[] h = rw h h
rstrip_onto-Starts c (String.◌∷◌ d s) h = h

rstrip-Starts : (s : String) → Starts s → Starts (rstrip s)
unfolding rstrip
rstrip-Starts String.[] h = tt
rstrip-Starts (String.◌∷◌ c s) h = rstrip_onto-Starts c (rstrip s) h

pub strip_idem : (s : String) → strip (strip s) ≡ strip s
unfolding strip
strip_idem s =
    ap rstrip (lstrip_of_Starts _ (rstrip-Starts _ (lstrip-Starts s))) ∙ rstrip_idem (lstrip s)
