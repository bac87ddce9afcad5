-- ===== src/Tests/Caches.antt =====
-- The cache, over a Redis that is a dict and that keeps every text it is given.
use aegora.Prelude.{◌≡◌, refl, ◌∙◌, String, true, some, [], ◌∷◌, eq_refl, ap}
use aegora.Prelude.Dict
use aegora.Prelude.Dict.{Dict, get-put}
use aegora.Prelude.Result.{ok}
use aegora.Runtime.Cache.{RuntimeCacheSettings, Redis, Json, Cache, l1_set, get_key, set_key}
use aegora.Runtime.Cache.Coherence.{KeepsAccepted, get_key-across}
use aegora.Runtime.Invalidation.{Value}

-- A configuration is its text.
abbrev pub json : Json String
json = record { dumps = λ v. v; loads = λ s. ok (some s) }

abbrev pub redis : Redis (Dict String)
redis = record {
  get = λ key r. ok (Dict.get key r);
  set = λ key payload ttl r. (ok tt, Dict.put key payload r);
  delete = λ key r. (ok tt, Dict.pop key r);
}

abbrev pub settings : RuntimeCacheSettings
settings = record { enabled = true; key_prefix = "aegora"; ttl_seconds = 60; l1_max_entries = 2 }

abbrev cold : Cache String (Dict String)
cold = record { l1 = []; redis = [] }

abbrev pub warm : Cache String (Dict String)
warm = record { l1 = ("a", "one") ∷ ("b", "two") ∷ []; redis = [] }

redis-KeepsAccepted : KeepsAccepted json redis settings
redis-KeepsAccepted key payload ttl r accepted =
    ap ok (get-put key key payload r ∙ rw (eq_refl key))

get_key-across_example :
    let reader = record (set_key json redis settings "c" "three" cold) { l1 = warm.l1 } in
    get_key json redis settings "c" reader
    ≡ (some "three", record reader { l1 = l1_set 2 "c" "three" warm.l1 })
unfolding Dict.get
get_key-across_example =
    get_key-across json redis settings "c" "three" cold warm.l1 refl refl redis-KeepsAccepted refl
      refl refl

abbrev event : Dict Value
event =
    ("schema_version", Value.natural 1)
    ∷ ("event_type", Value.text "release.revoked")
    ∷ ("release_id", Value.text "r1")
    ∷ ("release_version", Value.natural 3)
    ∷ ("agent_id", Value.text "bot")
    ∷ []
