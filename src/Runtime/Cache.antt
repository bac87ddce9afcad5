-- ===== src/Runtime/Cache.antt =====
-- runtime_cache.py: the two-level cache of immutable release configurations. L1 is the ordered dict
-- of the process, the least recently used entry first; L2 is Redis, which is a parameter, as is the
-- JSON library. A value is whatever `json.loads` reads as a dict. A version is given by its text,
-- as the keys' f-strings put it.
pub mod Recency
pub mod Coherence
use aegora.Prelude.{
  ℕ, zero, suc, String, Bool, true, false, not, Option, none, some, List, [], ◌∷◌, ◌++◌, ltb,
  length, append, decimal, nonempty, truthy, if◌then◌else◌,
}
use aegora.Prelude.Dict
use aegora.Prelude.Dict.{Dict}
use aegora.Prelude.Result.{Result, ok, err, ◌>>=◌}

pub record RuntimeCacheSettings : Type 0 where
  pub enabled : Bool
  pub key_prefix : String
  pub ttl_seconds : ℕ
  pub l1_max_entries : ℕ

-- The Redis client, over the state of the server. A failure is an exception.
pub record Redis (R : Type 0) : Type 0 where
  pub get : String → R → Result (Option String)
  pub set : String → String → ℕ → R → Result (Unit {0}) × R
  pub delete : String → R → Result (Unit {0}) × R

-- `json.dumps`, and `json.loads` with the test that the value is a dict.
pub record Json (V : Type 0) : Type 0 where
  pub dumps : V → String
  pub loads : String → Result (Option V)

pub record Cache (V R : Type 0) : Type 0 where
  pub l1 : Dict V
  pub redis : R

-- `_key`
unfoldable pub release_key : RuntimeCacheSettings → String → String → String → String
unfolding append
release_key settings agent_id release_id version = append settings.key_prefix (
    append ":agent:"
      (append agent_id (append ":release:" (append release_id (append ":version:" version)))))

-- `_artifact_key`
unfoldable pub artifact_key :
    RuntimeCacheSettings → String → String → String → String → String → String
unfolding append
artifact_key settings artifact_type artifact_version agent_id release_id version =
    append settings.key_prefix (
      append ":artifact:" (
        append artifact_type (
          append ":" (
            append artifact_version (
              append ":agent:" (
                append agent_id
                  (append ":release:" (append release_id (append ":version:" version)))))))))

module _ {V : Type 0} where
  -- `move_to_end` after the entry is written
  unfoldable pub to_end : String → V → Dict V → Dict V
  to_end key value l1 = Dict.pop key l1 ++ (key, value) ∷ []

  -- `while len(self._l1) > max_entries: self._l1.popitem(last=False)`
  unfoldable pub evict : ℕ → Dict V → Dict V
  evict max_entries [] = []
  evict max_entries (entry ∷ l1) =
      let fewer = evict max_entries l1 in
      if ltb max_entries (suc (length l1)) then fewer else entry ∷ l1

  unfoldable pub l1_set : ℕ → String → V → Dict V → Dict V
  unfolding to_end
  l1_set max_entries key value l1 = evict max_entries (to_end key value l1)

  -- A hit becomes the most recent entry.
  abbrev touch : Option V → String → Dict V → Dict V
  touch none key l1 = l1
  touch (some value) key l1 = to_end key value l1

  unfoldable pub l1_get : String → Dict V → Option V × Dict V
  l1_get key l1 = let found = Dict.get key l1 in (found, touch found key l1)

  -- `if not payload: return None`, then the text read as a dict.
  abbrev decode : Json V → Option String → Result (Option V)
  decode json none = ok none
  decode json (some payload) = if nonempty payload then json.loads payload else ok none

module _ {V R : Type 0} (json : Json V) (redis : Redis R) (settings : RuntimeCacheSettings) where
  -- The `try` block of `get`: what L2 holds, which L1 then holds too. Its `except` clause returns
  -- nothing and has written nothing.
  unfoldable pub fill_from_redis : String → Cache V R → Option V × Cache V R
  fill_from_redis key c = elim (do payload ← redis.get key c.redis; decode json payload) [
    | err e ↦ (none, c)
    | ok found ↦ elim found [
      | none ↦ (none, c)
      | some value ↦ (some value, record c { l1 = l1_set settings.l1_max_entries key value c.l1 })
    ]
  ]

  -- `get` and `get_artifact`, from their key on.
  unfoldable pub get_key : String → Cache V R → Option V × Cache V R
  get_key key c =
      if not settings.enabled
      then (none, c)
      else let (found, l1) = l1_get key c.l1 in
        elim found [
          | some value ↦ (some value, record c { l1 = l1 })
          | none ↦ fill_from_redis key c
        ]

  unfoldable pub get : String → String → String → Cache V R → Option V × Cache V R
  get agent_id release_id version c = get_key (release_key settings agent_id release_id version) c

  unfoldable pub get_artifact :
      String → String → String → String → String → Cache V R → Option V × Cache V R
  get_artifact artifact_type artifact_version agent_id release_id version c =
      get_key (artifact_key settings artifact_type artifact_version agent_id release_id version) c

  -- `set` and `set_artifact`: L1 is written first, and a failure of Redis is passed over.
  unfoldable pub set_key : String → V → Cache V R → Cache V R
  set_key key value c = if not settings.enabled then c else record c {
    l1 = l1_set settings.l1_max_entries key value c.l1;
    redis = (redis.set key (json.dumps value) settings.ttl_seconds c.redis).1;
  }

  unfoldable pub set : V → String → String → String → Cache V R → Cache V R
  set value agent_id release_id version c =
      set_key (release_key settings agent_id release_id version) value c

  unfoldable pub set_artifact :
      V → String → String → String → String → String → Cache V R → Cache V R
  set_artifact value artifact_type artifact_version agent_id release_id version c =
      set_key (artifact_key settings artifact_type artifact_version agent_id release_id version)
        value c

  unfoldable pub delete : String → String → String → Cache V R → Cache V R
  delete agent_id release_id version c =
      let key = release_key settings agent_id release_id version in
      if not settings.enabled
      then c
      else record c { l1 = Dict.pop key c.l1; redis = (redis.delete key c.redis).1 }
