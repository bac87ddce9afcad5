-- ===== src/Memory/Ranking.antt =====
-- memory/service.py: `memory_terms` and `rank_memory_items`, the lexical order of recalled memories.
-- The code divides the number of common terms by the number of the query's terms, which is the same
-- for all items, so the quotients are compared here by their numerators.
use Prim.Native.Char.{Char, code}
use mathlib.Core.List.{Perm}
use mathlib.Core.List.Perm
use mathlib.Core.Path.{subst}
use aegora.Prelude.{
  ℕ, suc, String, ◌≡◌, refl, ap, All, Bool, true, false, not, ◌&&◌, ◌||◌, Option, none, some, List,
  [], ◌∷◌, ◌++◌, map, leb, ltb, nat_eq, append, len, mem, keep, ◌==◌, if◌then◌else◌, Bool-cases,
  inl, inr, length,
}
use aegora.Prelude.Sort.{sort, sort-perm, All-sort}
use aegora.Memory.Models.{Builtins, MemoryItem}

-- The classes `[a-z0-9_]` and `[㐀-鿿]`.
abbrev is_word : ℕ → Bool
is_word c = (leb b'a' c && leb c b'z') || (leb b'0' c && leb c b'9') || nat_eq c b'_'

abbrev is_cjk : ℕ → Bool
is_cjk c = leb 0x3400 c && leb c 0x9fff

snoc : String → Char → String
snoc String.[] d = String.◌∷◌ d String.[]
snoc (String.◌∷◌ c s) d = String.◌∷◌ c (snoc s d)

abbrev flush : String → List String
flush run = if run == "" then [] else run ∷ []

-- The maximal runs of a class, from left to right; `run` is the one that is being read.
runs : (ℕ → Bool) → String → String → List String
unfolding snoc
runs p run String.[] = flush run
runs p run (String.◌∷◌ c s) =
    (if p (code c) then [] else flush run) ++ runs p (if p (code c) then snoc run c else "") s

-- The characters of a run, and its pairs of neighbours.
letters : String → List String
letters String.[] = []
letters (String.◌∷◌ c s) = String.◌∷◌ c String.[] ∷ letters s

pairs : String → List String
pairs String.[] = []
pairs (String.◌∷◌ c String.[]) = []
pairs (String.◌∷◌ c (String.◌∷◌ d s)) =
    String.◌∷◌ c (String.◌∷◌ d String.[]) ∷ pairs (String.◌∷◌ d s)

-- `set(…)`, as a list in which no term stands twice
distinct : List String → List String
distinct [] = []
distinct (t ∷ ts) = let rest = distinct ts in if mem t rest then rest else t ∷ rest

cjk_terms : List String → List String
unfolding letters pairs
cjk_terms [] = []
cjk_terms (run ∷ rest) = run ∷ (letters run ++ (pairs run ++ cjk_terms rest))

module _ {F : Type 0} (py : Builtins F) where
  unfoldable pub memory_terms : String → List String
  unfolding runs cjk_terms distinct
  memory_terms text =
      let normalized = py.lower text in
      distinct (
        keep (λ run. leb 2 (len run)) (runs is_word "" normalized)
        ++ cjk_terms (runs is_cjk "" normalized))

  -- One row of `scored`, with the number of common terms.
  pub record Scored : Type 0 where
    pub common : ℕ
    pub importance : F
    pub confidence : F
    pub index : ℕ
    pub item : MemoryItem F

  abbrev or_float : Option F → F → F
  or_float none default = default
  or_float (some x) default = x

  unfoldable pub score : List String → ℕ → List (MemoryItem F) → List Scored
  unfolding append memory_terms
  score terms index [] = []
  score terms index (item ∷ items) =
      record {
        common =
            length
              (keep (λ t. mem t (memory_terms (append item.key (append " " item.content)))) terms);
        importance = or_float item.metadata.importance py.half_float;
        confidence = or_float item.metadata.confidence py.one_float;
        index = index;
        item = item;
      }
      ∷ score terms (suc index) items

  -- `row[:5]` in the reverse order of tuples: a hit first, then the overlap, the importance, the
  -- confidence, and the earlier item.
  unfoldable pub score_before : Scored → Scored → Bool
  score_before a b =
      if ltb 0 a.common && not (ltb 0 b.common)
      then true
      else if ltb 0 b.common && not (ltb 0 a.common)
      then false
      else if ltb b.common a.common
      then true
      else if ltb a.common b.common
      then false
      else if py.float_lt b.importance a.importance
      then true
      else if py.float_lt a.importance b.importance
      then false
      else if py.float_lt b.confidence a.confidence
      then true
      else if py.float_lt a.confidence b.confidence
      then false
      else ltb a.index b.index

  unfoldable pub rank_memory_items : String → List (MemoryItem F) → List (MemoryItem F)
  unfolding memory_terms
  rank_memory_items query items =
      let terms = memory_terms query in
      if nat_eq (length terms) 0
      then items
      else map (λ row. row.item) (sort score_before (score terms 0 items))

  items-score :
      (terms : List String) (index : ℕ) (items : List (MemoryItem F))
      → map (λ row. row.item) (score terms index items) ≡ items
  unfolding score
  items-score terms index [] = refl
  items-score terms index (item ∷ items) = ap (◌∷◌ item) (items-score terms (suc index) items)

  -- Ranking neither drops nor adds nor repeats a memory: it is a permutation of what was recalled.
  rank_memory_items-perm :
      (query : String) (items : List (MemoryItem F)) → Perm (rank_memory_items query items) items
  unfolding rank_memory_items
  rank_memory_items-perm query items = elim (Bool-cases (nat_eq (length (memory_terms query)) 0)) [
    | inl e ↦ rw e (Perm.refl items)
    | inr e ↦ rw e (
        subst (Perm _) (items-score (memory_terms query) 0 items) (
          Perm.map (λ row. row.item) (sort-perm score_before (score (memory_terms query) 0 items))))
  ]

  All-score :
      (P : MemoryItem F → Type 0) (terms : List String) (index : ℕ) (items : List (MemoryItem F))
      → All P items
      → All (λ row. P row.item) (score terms index items)
  unfolding score
  All-score P terms index [] h = tt
  All-score P terms index (item ∷ items) h = (h.0, All-score P terms (suc index) items h.1)

  All-items :
      (P : MemoryItem F → Type 0) (rows : List Scored)
      → All (λ row. P row.item) rows
      → All P (map (λ row. row.item) rows)
  All-items P [] h = tt
  All-items P (row ∷ rows) h = (h.0, All-items P rows h.1)

  pub All-rank_memory_items :
      (P : MemoryItem F → Type 0) (query : String) (items : List (MemoryItem F))
      → All P items
      → All P (rank_memory_items query items)
  unfolding rank_memory_items
  All-rank_memory_items P query items h =
      let terms = memory_terms query in
      elim (Bool-cases (nat_eq (length terms) 0)) [
        | inl e ↦ rw e h
        | inr e ↦ rw e (
            All-items P _ (
              All-sort (λ row. P row.item) score_before (score terms 0 items)
                (All-score P terms 0 items h)))
      ]
