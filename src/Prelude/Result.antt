-- ===== src/Prelude/Result.antt =====
-- What a call that may raise returns: its value, or the exception's message.
use Prim.Native.String.{String}
use mathlib.Core.Logic.{◌⊎◌, inl, inr}
use mathlib.Core.Path.{◌≡◌, refl}
use mathlib.Core.List.{List, [], ◌∷◌}
use aegora.Prelude.Tests.{if◌then◌else◌}
use aegora.Prelude.Lists.{All}
use mathlib.Core.Bool.{Bool, true, false}

pub data Result {ℓ} (A : Type ℓ) : Type ℓ where
  err : String → Result A
  ok : A → Result A

pub ok-injective {ℓ} : {A : Type ℓ} {a b : A} → ok a ≡ ok b → a ≡ b
ok-injective h = cc

-- What follows a call runs only if the call has returned.
infixl 5 ◌>>=◌
abbrev pub ◌>>=◌ {ℓ κ} : {A : Type ℓ} {B : Type κ} → Result A → (A → Result B) → Result B
err message >>= next = err message
ok a >>= next = next a

-- A row of `if test: raise ValueError(message)`, then `return a`.
unfoldable pub raise_first {ℓ} : {A : Type ℓ} → List (Bool × String) → A → Result A
raise_first [] a = ok a
raise_first ((failed, message) ∷ checks) a =
    let rest = raise_first checks a in if failed then err message else rest

-- A block that returned passed every check, and returned its value.
pub raise_first-ok {ℓ} :
    {A : Type ℓ} (checks : List (Bool × String)) (a : A) {b : A}
    → raise_first checks a ≡ ok b
    → All (λ check. check.0 ≡ false) checks × (a ≡ b)
unfolding raise_first
raise_first-ok [] a h = (tt, ok-injective h)
raise_first-ok ((true, message) ∷ checks) a h = cc
raise_first-ok ((false, message) ∷ checks) a h =
    let (passed, same) = raise_first-ok checks a h in ((refl, passed), same)

-- A block that returned got a value from its first call, and returned what followed on it.
pub >>=-eq-ok {ℓ κ} :
    {A : Type ℓ} {B : Type κ} (first : Result A) (next : A → Result B) {last : B}
    → (first >>= next) ≡ ok last
    → (a : A) × (first ≡ ok a) × (next a ≡ ok last)
>>=-eq-ok (err message) next h = cc
>>=-eq-ok (ok a) next h = (a, refl, h)

-- To split on a computed result and keep the equation.
pub Result-cases {ℓ} :
    {A : Type ℓ} (r : Result A) → ((a : A) × (r ≡ ok a)) ⊎ ((e : String) × (r ≡ err e))
Result-cases (ok a) = inl (a, refl)
Result-cases (err e) = inr (e, refl)
