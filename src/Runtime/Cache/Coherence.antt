-- ===== src/Runtime/Cache/Coherence.antt =====
-- runtime_cache.py: theorems on reads after a write, a removal and a write by another process.
use aegora.Prelude.{
  ℕ, suc, ap, ◌≡◌, refl, ◌∙◌, String, true, none, some, [], ◌∷◌, ◌++◌, Option, arith, Option-cases,
  inl, inr, eq_refl, nonempty,
}
use aegora.Prelude.Dict
use aegora.Prelude.Dict.{Dict, get-pop}
use aegora.Prelude.Result.{ok, ◌>>=◌, Result-cases}
use aegora.Runtime.Cache.{
  RuntimeCacheSettings, Redis, Json, Cache, to_end, evict, l1_set, l1_get, fill_from_redis, get_key,
  set_key, delete, release_key, decode,
}
use aegora.Runtime.Cache.Recency.{l1_set_recency}

module _ {V : Type 0} where
  get_of_append :
      (k : String) (v : V) (l : Dict V)
      → Dict.get k l ≡ none
      → Dict.get k (l ++ (k, v) ∷ []) ≡ some v
  unfolding Dict.get
  get_of_append k v [] h = rw (eq_refl k)
  get_of_append k v ((j, w) ∷ l) h = ground (arith, get_of_append k v l)

  get_of_evict :
      (n : ℕ) (k : String) (l : Dict V) → Dict.get k l ≡ none → Dict.get k (evict n l) ≡ none
  unfolding Dict.get evict
  get_of_evict n k [] h = refl
  get_of_evict n k ((j, w) ∷ l) h = ground (arith, get_of_evict n k l)

  get_pop_same : (k : String) (l : Dict V) → Dict.get k (Dict.pop k l) ≡ none
  get_pop_same k l = get-pop k k l ∙ rw (eq_refl k)

  get-to_end : (k : String) (v : V) (l : Dict V) → Dict.get k (to_end k v l) ≡ some v
  unfolding to_end
  get-to_end k v l = get_of_append k v _ (get_pop_same k l)

  get-l1_set :
      (n : ℕ) (k : String) (v : V) (l : Dict V) → Dict.get k (l1_set (suc n) k v l) ≡ some v
  get-l1_set n k v l =
      let (dropped, whole, last, many) = l1_set_recency n k v l in
      rw last (get_of_append k v _ (get_of_evict n k _ (get_pop_same k l)))

module _ {V R : Type 0} (json : Json V) (redis : Redis R) (settings : RuntimeCacheSettings) where
  get_key-missed :
      (key : String) (c : Cache V R)
      → settings.enabled ≡ true
      → Dict.get key c.l1 ≡ none
      → get_key json redis settings key c ≡ fill_from_redis json redis settings key c
  unfolding get_key l1_get
  get_key-missed key c on missed = simp (on, missed)

  payload-reads :
      (key payload : String) (value : V) (c : Cache V R)
      → redis.get key c.redis ≡ ok (some payload)
      → nonempty payload ≡ true
      → json.loads payload ≡ ok (some value)
      → (redis.get key c.redis >>= decode json) ≡ ok (some value)
  payload-reads key payload value c accepted text reads = rw accepted (rw text reads)

  fill_from_redis-found :
      (key : String) (value : V) (c : Cache V R)
      → (redis.get key c.redis >>= decode json) ≡ ok (some value)
      → fill_from_redis json redis settings key c
        ≡ (some value, record c { l1 = l1_set settings.l1_max_entries key value c.l1 })
  unfolding fill_from_redis
  fill_from_redis-found key value c found = rw (found, fill_from_redis)

  delete-l1 :
      (agent release version : String) (c : Cache V R)
      → settings.enabled ≡ true
      → (delete json redis settings agent release version c).l1
        ≡ Dict.pop (release_key settings agent release version) c.l1
  unfolding delete
  delete-l1 agent release version c on = simp on

  -- A configuration that this process has just cached is read back, whether or not Redis answered,
  -- when the cache is on and keeps at least one entry.
  pub get_key-set_key :
      (key : String) (value : V) (c : Cache V R) (n : ℕ)
      → settings.enabled ≡ true
      → settings.l1_max_entries ≡ suc n
      → (get_key json redis settings key (set_key json redis settings key value c)).0 ≡ some value
  unfolding get_key set_key l1_get
  get_key-set_key key value c n on limit =
      let kept = get-l1_set n key value c.l1 in rw (on, limit) (rw (kept, get_key))

  -- What the code relies on in Redis: a text that it has accepted is read back.
  abbrev pub KeepsAccepted : Type 0
  KeepsAccepted =
      (key payload : String) (ttl : ℕ) (r : R)
      → (redis.set key payload ttl r).0 ≡ ok tt
      → redis.get key (redis.set key payload ttl r).1 ≡ ok (some payload)

  set_key-redis :
      (key : String) (value : V) (c : Cache V R)
      → settings.enabled ≡ true
      → (set_key json redis settings key value c).redis
        ≡ (redis.set key (json.dumps value) settings.ttl_seconds c.redis).1
  unfolding set_key
  set_key-redis key value c on = simp on

  -- A configuration that another process has cached is read from Redis by a process that has no
  -- entry for it, and that process then keeps it, when the cache is on, when Redis has accepted the
  -- write and gives back what it has accepted, and when the value's text is not empty and is read
  -- back as the value.
  pub get_key-across :
      (key : String) (value : V) (writer : Cache V R) (l1 : Dict V)
      → settings.enabled ≡ true
      → Dict.get key l1 ≡ none
      → KeepsAccepted
      → (redis.set key (json.dumps value) settings.ttl_seconds writer.redis).0 ≡ ok tt
      → nonempty (json.dumps value) ≡ true
      → json.loads (json.dumps value) ≡ ok (some value)
      → let reader = record (set_key json redis settings key value writer) { l1 = l1 } in
        get_key json redis settings key reader
        ≡ (some value, record reader { l1 = l1_set settings.l1_max_entries key value l1 })
  get_key-across key value writer l1 on missed keeps accepted text reads =
      let reader = record (set_key json redis settings key value writer) { l1 = l1 } in
      let payload = json.dumps value in
      let held =
        ap (redis.get key) (set_key-redis key value writer on)
        ∙ keeps key payload settings.ttl_seconds writer.redis accepted in
      get_key-missed key reader on missed
      ∙ fill_from_redis-found key value reader
          (payload-reads key payload value reader held text reads)

  -- After a removal, a read never returns what this process had cached: it returns what Redis
  -- holds by then, when the cache is on.
  pub get_key-delete :
      (agent release version : String) (c : Cache V R)
      → settings.enabled ≡ true
      → let key = release_key settings agent release version in
        let removed = delete json redis settings agent release version c in
        get_key json redis settings key removed ≡ fill_from_redis json redis settings key removed
  get_key-delete agent release version c on = get_key-missed _ _ on (
      rw (delete-l1 agent release version c on)
        (get_pop_same (release_key settings agent release version) c.l1))

  fill_from_redis-kept :
      (key : String) (value : V) (c : Cache V R) (n : ℕ)
      → settings.l1_max_entries ≡ suc n
      → (fill_from_redis json redis settings key c).0 ≡ some value
      → Dict.get key (fill_from_redis json redis settings key c).1.l1 ≡ some value
  unfolding fill_from_redis
  fill_from_redis-kept key value c n limit h =
      elim (Result-cases (redis.get key c.redis >>= decode json)) [
        | inr (e, failed) ↦ let no = rw (failed, fill_from_redis) at h in cc
        | inl (none, missed) ↦ let no = rw (missed, fill_from_redis) at h in cc
        | inl (some found, hit) ↦
            let same = rw (hit, fill_from_redis) at h in
            rw (hit, fill_from_redis) (rw limit (get-l1_set n key found c.l1) ∙ same)
      ]

  get_key-hit :
      (key : String) (value : V) (c : Cache V R)
      → settings.enabled ≡ true
      → Dict.get key c.l1 ≡ some value
      → get_key json redis settings key c ≡ (some value, record c { l1 = to_end key value c.l1 })
  unfolding get_key l1_get
  get_key-hit key value c on hit = simp (on, hit)

  get_key-kept :
      (key : String) (value : V) (c : Cache V R) (n : ℕ)
      → settings.enabled ≡ true
      → settings.l1_max_entries ≡ suc n
      → (get_key json redis settings key c).0 ≡ some value
      → Dict.get key (get_key json redis settings key c).1.l1 ≡ some value
  unfolding get_key l1_get
  get_key-kept key value c n on limit h = elim (Option-cases (Dict.get key c.l1)) [
    | inl missed ↦
        let same = get_key-missed key c on missed in
        rw same (fill_from_redis-kept key value c n limit (rw same at h))
    | inr (found, hit) ↦
        let same = get_key-hit key found c on hit in
        rw same (get-to_end key found c.l1 ∙ (rw same at h))
  ]

  -- A configuration that was read is read again, whether or not Redis answers, when the cache is on
  -- and keeps at least one entry.
  pub get_key_again :
      (key : String) (value : V) (c : Cache V R) (n : ℕ)
      → settings.enabled ≡ true
      → settings.l1_max_entries ≡ suc n
      → (get_key json redis settings key c).0 ≡ some value
      → (get_key json redis settings key (get_key json redis settings key c).1).0 ≡ some value
  get_key_again key value c n on limit h =
      ap (λ (x : Option V × Cache V R). x.0)
        (get_key-hit key value _ on (get_key-kept key value c n on limit h))
