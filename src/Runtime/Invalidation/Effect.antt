-- ===== src/Runtime/Invalidation/Effect.antt =====
-- runtime_invalidation.py: theorems on `apply_event` and the cache after it.
use aegora.Prelude.{◌≡◌, refl, ◌∙◌, String, true, false, not, ◌||◌, mem, Bool-cases, inl, inr}
use aegora.Prelude.Dict.{Dict}
use aegora.Prelude.Result.{Result, ok, err}
use aegora.Runtime.Cache.{
  RuntimeCacheSettings, Redis, Json, Cache, fill_from_redis, get_key, release_key,
}
use aegora.Runtime.Cache.Coherence.{get_key-delete}
use aegora.Runtime.Invalidation.{
  Value, str, field, names_release, event_type_of, is_one, supported_events, forget_release,
  apply_event,
}

module _ {V R : Type 0} (json : Json V) (redis : Redis R) (settings : RuntimeCacheSettings) where
  -- The entry of the cache that an event is about.
  abbrev pub key_of : Dict Value → String
  key_of payload =
      release_key settings (str (field "agent_id" payload)) (str (field "release_id" payload))
        (str (field "release_version" payload))

  applied_lem :
      (payload : Dict Value) (c : Cache V R)
      → (apply_event json redis settings (ok payload) c).0 ≡ true
      → (apply_event json redis settings (ok payload) c).2
        ≡ forget_release json redis settings payload c
  unfolding apply_event
  applied_lem payload c h =
      elim (Bool-cases (
        not (is_one (field "schema_version" payload))
        || not (mem (event_type_of payload) supported_events))) [
          | inl e ↦ let no = rw e at h in cc
          | inr e ↦ rw e
        ]

  -- An event that is not applied leaves the cache as it is.
  pub apply_event-ignored :
      (raw : Result (Dict Value)) (c : Cache V R)
      → (apply_event json redis settings raw c).0 ≡ false
      → (apply_event json redis settings raw c).2 ≡ c
  unfolding apply_event
  apply_event-ignored (err e) c h = refl
  apply_event-ignored (ok payload) c h =
      elim (Bool-cases (
        not (is_one (field "schema_version" payload))
        || not (mem (event_type_of payload) supported_events))) [
          | inl e ↦ rw e
          | inr e ↦ let no = rw e at h in cc
        ]

  -- After an event that is applied and names a release in full, a read of that release's
  -- configuration never returns what this process had cached: it returns what Redis holds by then,
  -- when the cache is on.
  pub get_key-apply_event :
      (payload : Dict Value) (c : Cache V R)
      → settings.enabled ≡ true
      → (apply_event json redis settings (ok payload) c).0 ≡ true
      → names_release payload ≡ true
      → let after = (apply_event json redis settings (ok payload) c).2 in
        get_key json redis settings (key_of payload) after
        ≡ fill_from_redis json redis settings (key_of payload) after
  unfolding forget_release
  get_key-apply_event payload c on applied named =
      let same = applied_lem payload c applied ∙ rw named in
      rw same (get_key-delete json redis settings _ _ _ c on)
