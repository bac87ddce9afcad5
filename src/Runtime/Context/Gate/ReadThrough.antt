-- ===== src/Runtime/Context/Gate/ReadThrough.antt =====
-- runtime_context.py: theorems on repeated reads of a configuration.
use aegora.Prelude.{suc, ◌≡◌, ◌∙◌, ap, String, true, Option, none, some, ℕ, Option-cases, inl, inr}
use aegora.Prelude.Result.{Result, ok, ok-injective}
use aegora.Runtime.Cache.{RuntimeCacheSettings, Redis, Json, Cache, get, set}
use aegora.Runtime.Cache.Coherence.{get_key-set_key, get_key_again}
use aegora.Runtime.Context.Gate.{read_row, release_config_json}

module _ {V R : Type 0} (json : Json V) (redis : Redis R) (settings : RuntimeCacheSettings) where
  abbrev read : Option V → String → String → String → Cache V R → Result V × Cache V R
  read = release_config_json json redis settings

  cached_lem :
      (row : Option V) (agent release version : String) (c : Cache V R) (config : V)
      → (get json redis settings agent release version c).0 ≡ some config
      → read row agent release version c
        ≡ (ok config, (get json redis settings agent release version c).1)
  unfolding release_config_json
  cached_lem row agent release version c config h = rw (h, release_config_json)

  uncached_lem :
      (row : Option V) (agent release version : String) (c : Cache V R)
      → (get json redis settings agent release version c).0 ≡ none
      → read row agent release version c
        ≡ read_row json redis settings row agent release version
            (get json redis settings agent release version c).1
  unfolding release_config_json
  uncached_lem row agent release version c h = rw (h, release_config_json)

  -- What was read from the database has been cached.
  kept_row :
      (row : Option V) (agent release version : String) (c : Cache V R) (config : V) (n : ℕ)
      → settings.enabled ≡ true
      → settings.l1_max_entries ≡ suc n
      → (read_row json redis settings row agent release version c).0 ≡ ok config
      → (get json redis settings agent release version
          (read_row json redis settings row agent release version c).1).0
        ≡ some config
  unfolding get set read_row
  kept_row none agent release version c config n on limit h = cc
  kept_row (some found) agent release version c config n on limit h =
      get_key-set_key json redis settings _ found c n on limit ∙ ap some (ok-injective h)

  kept :
      (row : Option V) (agent release version : String) (c : Cache V R) (config : V) (n : ℕ)
      → settings.enabled ≡ true
      → settings.l1_max_entries ≡ suc n
      → (read row agent release version c).0 ≡ ok config
      → (get json redis settings agent release version (read row agent release version c).1).0
        ≡ some config
  unfolding get
  kept row agent release version c config n on limit h =
      elim (Option-cases (get json redis settings agent release version c).0) [
        | inr (found, hit) ↦
            let step = cached_lem row agent release version c found hit in
            let same = rw step at h in
            rw step (
              get_key_again json redis settings _ found c n on limit hit
              ∙ ap some (ok-injective same))
        | inl missed ↦
            let step = uncached_lem row agent release version c missed in
            rw step (kept_row row agent release version _ config n on limit (rw step at h))
      ]

  -- After a read that returned a configuration, this process reads the same one again, whatever the
  -- database and Redis then hold, when the cache is on and keeps at least one entry.
  release_config_json_again :
      (row later_row : Option V) (agent release version : String) (c : Cache V R) (config : V)
      (n : ℕ)
      → settings.enabled ≡ true
      → settings.l1_max_entries ≡ suc n
      → (release_config_json json redis settings row agent release version c).0 ≡ ok config
      → (release_config_json json redis settings later_row agent release version
          (release_config_json json redis settings row agent release version c).1).0
        ≡ ok config
  unfolding get
  release_config_json_again row later_row agent release version c config n on limit h =
      ap (λ (x : Result V × Cache V R). x.0)
        (cached_lem later_row agent release version _ config
          (kept row agent release version c config n on limit h))
