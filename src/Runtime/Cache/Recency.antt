-- ===== src/Runtime/Cache/Recency.antt =====
-- runtime_cache.py: theorems on the size of L1 and the order of its entries.
use aegora.Prelude.{
  ℕ, suc, ◌-◌, ◌≤◌, ◌<◌, ◌≡◌, refl, ap, String, none, some, [], ◌∷◌, ◌++◌, arith, length,
  length-append, ltb, Bool-cases, Option-cases, inl, inr,
}
use aegora.Prelude.Dict
use aegora.Prelude.Dict.{Dict, get-pop}
use aegora.Prelude.Result.{Result-cases, ◌>>=◌}
use aegora.Runtime.Cache.{
  RuntimeCacheSettings, Redis, Json, Cache, to_end, evict, l1_set, l1_get, fill_from_redis, get_key,
  set_key, delete, release_key, decode,
}

module _ {V : Type 0} where
  length-pop-le : (k : String) (l : Dict V) → length (Dict.pop k l) ≤ length l
  unfolding Dict.pop
  length-pop-le k [] = omega arith
  length-pop-le k ((j, v) ∷ l) = ground (arith, length-pop-le k l)

  length-pop-lt :
      (k : String) (l : Dict V) (v : V) → Dict.get k l ≡ some v → length (Dict.pop k l) < length l
  unfolding Dict.pop Dict.get
  length-pop-lt k [] v h = cc
  length-pop-lt k ((j, w) ∷ l) v h = ground (arith, length-pop-le k l, length-pop-lt k l v)

  -- A hit moves an entry, and adds none.
  hit-length-le :
      (k : String) (l : Dict V) (v : V) {n : ℕ}
      → Dict.get k l ≡ some v
      → length l ≤ n
      → length (to_end k v l) ≤ n
  unfolding to_end
  hit-length-le k l v found h =
      omega (arith, h, length-pop-lt k l v found, length-append {0} (Dict.pop k l) ((k, v) ∷ []))

  length-evict-le : (n : ℕ) (l : Dict V) → length (evict n l) ≤ n
  unfolding evict
  length-evict-le n [] = omega arith
  length-evict-le n (e ∷ l) = ground (arith, length-evict-le n l)

  pub evict-append :
      (n : ℕ) (l : Dict V) (e : String × V) → evict (suc n) (l ++ e ∷ []) ≡ evict n l ++ e ∷ []
  unfolding evict
  evict-append n [] e = ground arith
  evict-append n (d ∷ l) e = ground (arith, evict-append n l e, length-append {0} l (e ∷ []))

  -- What is evicted is a first part of the list, and no longer than need be.
  evict_prefix :
      (n : ℕ) (l : Dict V)
      → (dropped : Dict V) × (l ≡ dropped ++ evict n l) × (length dropped ≡ length l - n)
  unfolding evict
  evict_prefix n [] = ([], refl, omega arith)
  evict_prefix n (e ∷ l) = elim (Bool-cases (ltb n (suc (length l)))) [
    | inr fits ↦ ([], rw fits, ground arith)
    | inl over ↦
        let (dropped, whole, many) = evict_prefix n l in
        (e ∷ dropped, rw over (ap (◌∷◌ e) whole), ground (arith, many))
  ]

  -- Writing an entry keeps exactly the most recent entries: the list with the entry at its end is
  -- some dropped entries, the least recent ones, before what is kept, the entry is the last of what
  -- is kept, and no more is dropped than the limit asks.
  pub l1_set_recency :
      (n : ℕ) (key : String) (value : V) (l1 : Dict V)
      → (dropped : Dict V) × (Dict.pop key l1 ++ (key, value) ∷ []
          ≡ dropped ++ l1_set (suc n) key value l1)
        × (l1_set (suc n) key value l1 ≡ evict n (Dict.pop key l1) ++ (key, value) ∷ [])
        × (length dropped ≡ length (Dict.pop key l1) - n)
  unfolding l1_set to_end
  l1_set_recency n key value l1 =
      let l = Dict.pop key l1 in
      let (dropped, whole, many) = evict_prefix (suc n) (l ++ (key, value) ∷ []) in
      (
        dropped,
        whole,
        evict-append n l (key, value),
        omega (arith, many, length-append {0} l ((key, value) ∷ [])),
      )

module _ {V R : Type 0} (json : Json V) (redis : Redis R) (settings : RuntimeCacheSettings) where
  abbrev pub IsBounded : Cache V R → Type 0
  IsBounded c = length c.l1 ≤ settings.l1_max_entries

  fill_from_redis-IsBounded :
      (key : String) (c : Cache V R)
      → IsBounded c
      → IsBounded (fill_from_redis json redis settings key c).1
  unfolding fill_from_redis l1_set
  fill_from_redis-IsBounded key c h = elim (Result-cases (redis.get key c.redis >>= decode json)) [
    | inr (e, failed) ↦ rw (failed, fill_from_redis) h
    | inl (none, missed) ↦ rw (missed, fill_from_redis) h
    | inl (some value, found) ↦
        rw (found, fill_from_redis)
          (length-evict-le settings.l1_max_entries (to_end key value c.l1))
  ]

  get_key-IsBounded :
      (key : String) (c : Cache V R) → IsBounded c → IsBounded (get_key json redis settings key c).1
  unfolding get_key l1_get
  get_key-IsBounded key c h = elim (Bool-cases settings.enabled) [
    | inr off ↦ rw off h
    | inl on ↦ elim (Option-cases (Dict.get key c.l1)) [
      | inl missed ↦ rw on (rw (missed, get_key) (fill_from_redis-IsBounded key c h))
      | inr (value, found) ↦
          rw on (rw (found, get_key) (rw found (hit-length-le key c.l1 value found h)))
    ]
  ]

  -- The L1 cache never holds more entries than its limit, after any call.
  operations-IsBounded :
      (c : Cache V R)
      → IsBounded c
      → ((key : String) → IsBounded (get_key json redis settings key c).1)
        × ((key : String) (value : V) → IsBounded (set_key json redis settings key value c))
        × ((agent release version : String)
            → IsBounded (delete json redis settings agent release version c))
  unfolding set_key delete l1_set
  operations-IsBounded c h = (
    λ key. get_key-IsBounded key c h,
    λ key value. ground (arith, length-evict-le settings.l1_max_entries (to_end key value c.l1)),
    λ agent release version.
        ground (arith, length-pop-le (release_key settings agent release version) c.l1),
  )
