-- ===== src/Prelude/Rows.antt =====
-- Rows of a table as a list: what SELECT, UPDATE and count make of a WHERE clause, and their laws.
use Prim.Native.Nat.{ℕ, ◌+◌, ◌≤◌}
use mathlib.Core.Path.{◌≡◌, refl, ap}
use mathlib.Core.Logic.{inl, inr}
use mathlib.Core.Bool.{Bool, true, false}
use mathlib.Core.Option
use mathlib.Core.Option.{Option, none, some}
use mathlib.Core.List.{List, [], ◌∷◌}
use native.Mathlib.Omega.{arith}
use aegora.Prelude.Tests.{Bool-cases, if◌then◌else◌}
use aegora.Prelude.Lists.{All, keep}

module _ {ℓ} {A : Type ℓ} where
  -- The first row that a WHERE clause admits.
  unfoldable pub find : (A → Bool) → List A → Option A
  find p [] = none
  find p (r ∷ rs) = if p r then some r else find p rs

  -- `UPDATE … WHERE`
  unfoldable pub update_where : (A → Bool) → (A → A) → List A → List A
  update_where p f [] = []
  update_where p f (r ∷ rs) = (if p r then f r else r) ∷ update_where p f rs

  -- How many rows a WHERE clause admits.
  unfoldable pub count : (A → Bool) → List A → ℕ
  count p [] = 0
  count p (r ∷ rs) = (if p r then 1 else 0) + count p rs

  pub find_sound : (p : A → Bool) (rs : List A) {c : A} → find p rs ≡ some c → p c ≡ true
  unfolding find
  find_sound p [] h = cc
  find_sound p (r ∷ rs) h = elim (Bool-cases (p r)) [
    | inl e ↦ ground arith
    | inr e ↦ find_sound p rs (ground arith)
  ]

  pub count_of_find-none : (p : A → Bool) (rs : List A) → find p rs ≡ none → count p rs ≡ 0
  unfolding find count
  count_of_find-none p [] h = refl
  count_of_find-none p (r ∷ rs) h = ground (arith, count_of_find-none p rs)

  -- The same row is found by a narrower clause that it meets.
  pub find_narrower :
      (p q : A → Bool)
      → ((r : A) → q r ≡ true → p r ≡ true)
      → (rs : List A) {c : A} → find p rs ≡ some c
      → q c ≡ true
      → find q rs ≡ some c
  unfolding find
  find_narrower p q narrow [] h t = cc
  find_narrower p q narrow (r ∷ rs) {c} h t =
      ground (arith, narrow r, find_narrower p q narrow rs {c = c})

  -- What holds of every value holds of the elements; two facts about the elements join.
  pub All-of : {P : A → Type ℓ} → ((x : A) → P x) → (xs : List A) → All P xs
  All-of f [] = tt
  All-of f (x ∷ xs) = (f x, All-of f xs)

  pub All-map : {P Q : A → Type ℓ} → ((x : A) → P x → Q x) → (xs : List A) → All P xs → All Q xs
  All-map f [] h = tt
  All-map f (x ∷ xs) h = (f x h.0, All-map f xs h.1)

  pub All-join :
      {P Q R : A → Type ℓ}
      → ((x : A) → P x → Q x → R x)
      → (xs : List A) → All P xs
      → All Q xs
      → All R xs
  All-join f [] h k = tt
  All-join f (x ∷ xs) h k = (f x h.0 k.0, All-join f xs h.1 k.1)

  pub update_where_none :
      (p : A → Bool) (f : A → A) (rs : List A)
      → All (λ r. p r ≡ false) rs
      → update_where p f rs ≡ rs
  unfolding update_where
  update_where_none p f [] h = refl
  update_where_none p f (r ∷ rs) h = rw (h.0, update_where_none p f rs h.1)

  module _ (p q : A → Bool) (f : A → A) where
    -- An UPDATE that can only take rows away from a clause.
    pub count-update_where-le :
        ((r : A) → q (f r) ≡ true → q r ≡ true)
        → (rs : List A) → count q (update_where p f rs) ≤ count q rs
    unfolding count update_where
    count-update_where-le h [] = omega arith
    count-update_where-le h (r ∷ rs) = ground (arith, h r, count-update_where-le h rs)

    module _ (gone : (r : A) → q (f r) ≡ false) where
      -- An UPDATE of rows that a clause does not admit, before or after, is not seen by it.
      pub find-update_where_frame :
          (rs : List A)
          → All (λ r. p r ≡ true → q r ≡ false) rs
          → find q (update_where p f rs) ≡ find q rs
      unfolding find update_where
      find-update_where_frame [] h = refl
      find-update_where_frame (r ∷ rs) h =
          ground (arith, h.0, gone r, find-update_where_frame rs h.1)

      pub keep-update_where_frame :
          (rs : List A)
          → All (λ r. p r ≡ true → q r ≡ false) rs
          → keep q (update_where p f rs) ≡ keep q rs
      unfolding keep update_where
      keep-update_where_frame [] h = refl
      keep-update_where_frame (r ∷ rs) h =
          ground (arith, h.0, gone r, keep-update_where_frame rs h.1)

  -- A clause admits at most the rows that a wider one does.
  pub count-le :
      (p q : A → Bool) (rs : List A)
      → All (λ r. p r ≡ true → q r ≡ true) rs
      → count p rs ≤ count q rs
  unfolding count
  count-le p q [] h = omega arith
  count-le p q (r ∷ rs) h = ground (arith, h.0, count-le p q rs h.1)

  -- Clauses that agree on the rows find the same row.
  pub find_agree : (p q : A → Bool) (rs : List A) → All (λ r. p r ≡ q r) rs → find p rs ≡ find q rs
  unfolding find
  find_agree p q [] h = refl
  find_agree p q (r ∷ rs) h = rw (h.0, find_agree p q rs h.1)

  -- What holds of the rows after an UPDATE, changed and unchanged.
  pub All-update_where {κ} :
      (P : A → Type κ) (p : A → Bool) (f : A → A) (rs : List A)
      → All (λ r. (p r ≡ true → P (f r)) × (p r ≡ false → P r)) rs
      → All P (update_where p f rs)
  unfolding update_where
  All-update_where P p f [] h = tt
  All-update_where P p f (r ∷ rs) h = elim (Bool-cases (p r)) [
    | inl e ↦ rw e (h.0.0 e, All-update_where P p f rs h.1)
    | inr e ↦ rw e (h.0.1 e, All-update_where P p f rs h.1)
  ]

  module _ (p q : A → Bool) (f : A → A) (same : (r : A) → p r ≡ true → q (f r) ≡ q r) where
    -- An UPDATE that leaves the columns of a clause alone.
    pub count-update_where_same : (rs : List A) → count q (update_where p f rs) ≡ count q rs
    unfolding count update_where
    count-update_where_same [] = refl
    count-update_where_same (r ∷ rs) = ground (arith, same r, count-update_where_same rs)

    pub find-update_where_same {κ} :
        {B : Type κ} (g : A → B)
        → ((r : A) → g (f r) ≡ g r)
        → (rs : List A) → Option.map g (find q (update_where p f rs)) ≡ Option.map g (find q rs)
    unfolding find update_where
    find-update_where_same g kept [] = refl
    find-update_where_same g kept (r ∷ rs) = elim (Bool-cases (p r)) [
      | inl e ↦ elim (Bool-cases (q r)) [
        | inl t ↦ rw (e, same r e, t) (ap some (kept r))
        | inr t ↦ rw (e, same r e, t) (find-update_where_same g kept rs)
      ]
      | inr e ↦ elim (Bool-cases (q r)) [
        | inl t ↦ rw (e, t)
        | inr t ↦ rw (e, t) (find-update_where_same g kept rs)
      ]
    ]

    -- The row that a clause finds after the UPDATE is the one it found before, changed if it was.
    pub find-update_where_at :
        (rs : List A) {c : A}
        → find q rs ≡ some c
        → find q (update_where p f rs) ≡ some (if p c then f c else c)
    unfolding find update_where
    find-update_where_at [] h = cc
    find-update_where_at (r ∷ rs) {c} h = elim (Bool-cases (q r)) [
      | inl t ↦
          let e : r ≡ c = ground (arith, rw t at h) in
          rw (← e) (elim (Bool-cases (p r)) [ inl u ↦ rw (u, same r u, t) | inr u ↦ rw (u, t) ])
      | inr t ↦
          let later = find-update_where_at rs (rw t at h) in
          elim (Bool-cases (p r)) [ inl u ↦ rw (u, same r u, t) later | inr u ↦ rw (u, t) later ]
    ]
