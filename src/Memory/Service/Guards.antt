-- ===== src/Memory/Service/Guards.antt =====
-- memory/service.py: theorems on what the facade serves and writes.
use Prim.Native.String.{String}
use mathlib.Core.Path.{subst}
use aegora.Prelude.{
  ℕ, zero, suc, ◌*◌, ◌≤◌, ◌≡◌, refl, Bool, true, false, Option, none, some, List, [], ◌∷◌, arith,
  strip, slice_to, len, take, length, length-take-le, All, Bool-cases, Option-cases, ◌⊎◌, inl, inr,
  if◌then◌else◌, ◌==◌, not,
}
use aegora.Prelude.Result.{Result, ok, err, >>=-eq-ok, ok-injective}
use aegora.Prelude.Sort.{All-take}
use aegora.Memory.Models.{Builtins, MemoryItem, MemoryScope, MemoryWrite}
use aegora.Memory.Policy.{
  MemoryGovernance, can_recall, recall_under, can_recall_shared, keep_if, filter_recalled_items,
}
use aegora.Memory.Provider.{MemoryProvider}
use aegora.Memory.Ranking.{rank_memory_items, All-rank_memory_items}
use aegora.Memory.Service.{
  MemoryService, sanitize, filter_by, recall_from, serve, max_of, recall, remember, forget,
  expire_due,
}

len-slice_to-le : (n : ℕ) (s : String) → len (slice_to n s) ≤ n
unfolding len slice_to
len-slice_to-le zero s = omega arith
len-slice_to-le (suc n) String.[] = omega arith
len-slice_to-le (suc n) (String.◌∷◌ c s) = omega (arith, len-slice_to-le n s)

module _ {F : Type 0} (g : MemoryGovernance) where
  keep_if-Admitted :
      (item : MemoryItem F) (allowed : Bool) (items : List (MemoryItem F))
      → can_recall item g ≡ ok allowed
      → All (λ i. can_recall i g ≡ ok true) items
      → All (λ i. can_recall i g ≡ ok true) (keep_if item allowed items)
  keep_if-Admitted item true items e h = (e, h)
  keep_if-Admitted item false items e h = h

  filter_recalled_items-Admitted :
      (items : List (MemoryItem F)) {rest : List (MemoryItem F)}
      → filter_recalled_items items g ≡ ok rest
      → All (λ i. can_recall i g ≡ ok true) rest
  unfolding filter_recalled_items
  filter_recalled_items-Admitted [] h = subst (All _) (ok-injective h) tt
  filter_recalled_items-Admitted (item ∷ items) h =
      let (allowed, e, h1) = >>=-eq-ok (can_recall item g) _ h in
      let (kept, e2, h2) = >>=-eq-ok (filter_recalled_items items g) _ h1 in
      subst (All _) (ok-injective h2)
        (keep_if-Admitted item allowed kept e (filter_recalled_items-Admitted items e2))

  -- What a caller of `recall` relies on for each item.
  abbrev pub IsServed : ℕ → MemoryItem F → Type 0
  IsServed max_chars item = (can_recall item g ≡ ok true) × (len item.content ≤ max_chars)

  sanitize-IsServed :
      (max_chars : ℕ) (items : List (MemoryItem F))
      → All (λ i. can_recall i g ≡ ok true) items
      → All (IsServed max_chars) (sanitize max_chars items)
  unfolding sanitize can_recall recall_under can_recall_shared
  sanitize-IsServed max_chars [] h = tt
  sanitize-IsServed max_chars (item ∷ items) h = elim (Bool-cases (strip item.content == "")) [
    | inl e ↦ rw e (sanitize-IsServed max_chars items h.1)
    | inr e ↦ rw e (
      (h.0, len-slice_to-le max_chars (strip item.content)),
      sanitize-IsServed max_chars items h.1,
    )
  ]

  pub filter_by-Admitted :
      (items : List (MemoryItem F)) {rest : List (MemoryItem F)}
      → filter_by (some g) items ≡ ok rest
      → All (λ i. can_recall i g ≡ ok true) rest
  unfolding filter_by
  filter_by-Admitted items h = filter_recalled_items-Admitted items h

length-sanitize-le :
    {F : Type 0} (max_chars : ℕ) (items : List (MemoryItem F))
    → length (sanitize max_chars items) ≤ length items
unfolding sanitize
length-sanitize-le max_chars [] = omega arith
length-sanitize-le max_chars (item ∷ items) = ground (arith, length-sanitize-le max_chars items)

module _ {F S : Type 0} (py : Builtins F) (g : MemoryGovernance) where
  -- What a caller relies on for the whole answer.
  abbrev pub Served : MemoryService F S → List (MemoryItem F) → Type 0
  Served service out =
      All (IsServed g service.max_item_chars) out × (length out ≤ service.recall_limit)

  serve-Served :
      (service : MemoryService F S) (query : String) (result : Result (List (MemoryItem F)))
      → ((items : List (MemoryItem F))
          → result ≡ ok items
          → All (λ i. can_recall i g ≡ ok true) items)
      → Served service (serve py service query result)
  unfolding serve
  serve-Served service query (err e) h = (tt, omega arith)
  serve-Served service query (ok items) h =
      let ranked = rank_memory_items py query items in
      (
        sanitize-IsServed g service.max_item_chars _ (
            All-take _ service.recall_limit ranked
              (All-rank_memory_items py _ query items (h items refl))),
        omega (
          arith,
          length-sanitize-le service.max_item_chars (take service.recall_limit ranked),
          length-take-le service.recall_limit ranked,
        ),
      )

  recall_from-Admitted :
      (provider : MemoryProvider F S) (limit : ℕ) (scope : MemoryScope) (query : String) (s : S)
      (items : List (MemoryItem F))
      → recall_from provider limit scope query (some g) s ≡ ok items
      → All (λ i. can_recall i g ≡ ok true) items
  unfolding recall_from
  recall_from-Admitted provider limit scope query s items h =
      let (raw, _, filtered) =
        >>=-eq-ok (provider.recall scope query (max_of (limit * 4) limit) s) (filter_by (some g))
          h in
      filter_by-Admitted g raw filtered

  if-Served :
      (service : MemoryService F S) (off : Bool) (out : List (MemoryItem F))
      → Served service out
      → Served service (if off then [] else out)
  if-Served service true out h = (tt, omega arith)
  if-Served service false out h = h

  -- Recall under a governance serves at most `recall_limit` memories, each of which the governance
  -- admits for this agent and each cut to `max_item_chars` characters, whatever the provider
  -- returns and also when it raises.
  pub recall-Served :
      (service : MemoryService F S) (scope : MemoryScope) (query : String) (s : S)
      → Served service (recall py service scope query (some g) s)
  unfolding recall
  recall-Served service scope query s = elim (Option-cases service.provider) [
    | inl e ↦ rw (e, recall) (tt, omega arith)
    | inr (provider, e) ↦
        rw (e, recall)
          (if-Served service (not service.recall_enabled) _ (
            serve-Served service query _
              (recall_from-Admitted provider service.recall_limit scope query s)))
  ]

module _ {F S : Type 0} where
  -- A service whose writes are disabled, or that has no provider, never changes the backend, and
  -- says so: nothing is saved, forgotten or expired.
  writes_disabled :
      (service : MemoryService F S) (s : S)
      → (service.provider ≡ none) ⊎ (service.write_enabled ≡ false)
      → ((scope : MemoryScope) (memory : MemoryWrite F)
          → ((remember service scope memory s).1 ≡ s)
            × ((remember service scope memory s).0.saved ≡ false))
        × ((scope : MemoryScope) (key : String) (reason trace : Option String) (kind : String)
            → forget service scope key reason trace kind s ≡ (false, s))
        × ((tenant : Option String) (limit : ℕ) → expire_due service tenant limit s ≡ (0, s))
  unfolding remember forget expire_due
  writes_disabled service s off = (
    λ scope memory. ground (arith, off),
    λ scope key reason trace kind. ground (arith, off),
    λ tenant limit. ground (arith, off),
  )
