-- ===== src/Memory/NativePg/Rows.antt =====
-- memory/native_pg.py: lemmas on the rows of `memory_items`, whose identifiers fall from the newest
-- row to the oldest.
use mathlib.Core.Bool.{false≢true}
use aegora.Prelude.{
  ℕ, ◌+◌, ◌≤◌, ◌<◌, ◌≡◌, Bool, true, false, some, List, [], ◌∷◌, arith, All, keep, any, nat_eq,
  Bool-cases, inl, inr,
}
use aegora.Memory.NativePg.Table.{Row, find, update_where}
use aegora.Memory.NativePg.Expire.{among}
unfoldable pub use aegora.Prelude.Rows.{count}
pub use aegora.Prelude.Rows.{
  update_where_none, find_sound, count_of_find-none, find_narrower, All-of, All-map, All-join,
  count-update_where-le, find-update_where_frame, keep-update_where_frame,
}

module _ {F : Type 0} where
  -- Identifiers fall from the newest row to the oldest, all below `n`.
  abbrev pub Ordered : ℕ → List (Row F) → Type 0
  Ordered n [] = Unit
  Ordered n (r ∷ rs) = (r.id < n) × Ordered r.id rs

  pub Ordered-update_where :
      (p : Row F → Bool) (f : Row F → Row F)
      → ((r : Row F) → (f r).id ≡ r.id)
      → (n : ℕ) (rs : List (Row F)) → Ordered n rs
      → Ordered n (update_where p f rs)
  unfolding update_where
  Ordered-update_where p f same n [] h = tt
  Ordered-update_where p f same n (r ∷ rs) h =
      let rest = Ordered-update_where p f same r.id rs h.1 in
      elim (Bool-cases (p r)) [ inl e ↦ rw (e, same r) (h.0, rest) | inr e ↦ rw e (h.0, rest) ]

  Ordered-mono : {m n : ℕ} → m ≤ n → (rs : List (Row F)) → Ordered m rs → Ordered n rs
  Ordered-mono le [] h = tt
  Ordered-mono le (r ∷ rs) h = (omega arith, h.1)

  Ordered-below : (n : ℕ) (rs : List (Row F)) → Ordered n rs → All (λ r. r.id < n) rs
  Ordered-below n [] h = tt
  Ordered-below n (r ∷ rs) h = (h.0, Ordered-below n rs (Ordered-mono (omega arith) rs h.1))

  find-below :
      (p : Row F → Bool) (n : ℕ) (rs : List (Row F)) {c : Row F}
      → Ordered n rs
      → find p rs ≡ some c
      → c.id < n
  unfolding find
  find-below p n [] o h = cc
  find-below p n (r ∷ rs) {c} o h = ground (arith, find-below p r.id rs {c = c} o.1)

  -- A row that a search found is the only one with its identifier.
  pub found_only :
      (p : Row F → Bool) (n : ℕ) (rs : List (Row F)) {c : Row F}
      → Ordered n rs
      → find p rs ≡ some c
      → All (λ r. nat_eq r.id c.id ≡ true → p r ≡ true) rs
  unfolding find
  found_only p n [] o h = tt
  found_only p n (r ∷ rs) {c} o h = elim (Bool-cases (p r)) [
    | inl e ↦
        let here : r.id ≡ c.id = ground arith in
        (λ _. e, All-map (λ s below same. absurd (ground arith)) rs (Ordered-below r.id rs o.1))
    | inr e ↦
        let later : find p rs ≡ some c = ground arith in
        let below : c.id < r.id = find-below p r.id rs o.1 later in
        (λ same. absurd (ground arith), found_only p r.id rs o.1 later)
  ]

  -- The first UPDATE of `remember`: the one row that held the clause holds it no more.
  pub count-update_where_found :
      (p : Row F → Bool) (f : Row F → Row F) (n : ℕ) (rs : List (Row F)) {c : Row F}
      → ((r : Row F) → p (f r) ≡ false)
      → Ordered n rs
      → find p rs ≡ some c
      → count p (update_where (λ r. nat_eq r.id c.id) f rs) + 1 ≡ count p rs
  unfolding find count update_where
  count-update_where_found p f n [] gone o h = cc
  count-update_where_found p f n (r ∷ rs) {c} gone o h = elim (Bool-cases (p r)) [
    | inl e ↦
        let here : r.id ≡ c.id = ground arith in
        let others : All (λ s. nat_eq s.id c.id ≡ false) rs =
          All-map (λ s below. ground arith) rs (Ordered-below r.id rs o.1) in
        ground (arith, gone r, update_where_none (λ s. nat_eq s.id c.id) f rs others)
    | inr e ↦
        let later : find p rs ≡ some c = ground arith in
        let below : c.id < r.id = find-below p r.id rs o.1 later in
        ground (arith, count-update_where_found p f r.id rs {c = c} gone o.1 later)
  ]

  -- What is due is told from the other rows by its identifier.
  abbrev pub Tells : (Row F → Bool) → ℕ → List (Row F) → Row F → Type 0
  Tells p n rs t = (t.id < n) × All (λ r. nat_eq r.id t.id ≡ true → p r ≡ true) rs

  Tells-cons :
      (p : Row F → Bool) (n : ℕ) (r : Row F) (rs : List (Row F))
      → r.id < n
      → (t : Row F) → Tells p r.id rs t
      → Tells p n (r ∷ rs) t
  Tells-cons p n r rs h t k = (omega arith, (λ same. absurd (ground arith), k.1))

  pub keep-Tells :
      (p : Row F → Bool) (n : ℕ) (rs : List (Row F)) → Ordered n rs → All (Tells p n rs) (keep p rs)
  unfolding keep
  keep-Tells p n [] o = tt
  keep-Tells p n (r ∷ rs) o =
      let rest = All-map (Tells-cons p n r rs o.0) (keep p rs) (keep-Tells p r.id rs o.1) in
      elim (Bool-cases (p r)) [
        | inl e ↦ rw e (
          (
            o.0,
            (
              λ _. e,
              All-map (λ s below same. absurd (ground arith)) rs (Ordered-below r.id rs o.1),
            ),
          ),
          rest,
        )
        | inr e ↦ rw e rest
      ]

  -- A row with the identifier of a taken row meets the clause that the taken rows met.
  pub among_sound :
      (p : Row F → Bool) (n : ℕ) (rs taken : List (Row F))
      → All (Tells p n rs) taken
      → All (λ r. among taken r ≡ true → p r ≡ true) rs
  unfolding any
  among_sound p n rs [] h = All-of (λ r e. absurd (false≢true e)) rs
  among_sound p n rs (t ∷ taken) h =
      All-join (λ r one more e. ground (arith, one, more)) rs h.0.1 (among_sound p n rs taken h.1)
