-- ===== src/Control/Releases/Delivery.antt =====
-- apps/control-plane/backend/app/cache_events.py: the event that the control plane hands to Redis, and
-- what it does to the cache of a runtime process that is given it. Redis may lose an event, and what
-- follows is about one that arrives.
use aegora.Prelude.{◌⊎◌, decimal, ◌≡◌, String, true, [], ◌∷◌, mem, nonempty, inl, inr}
use aegora.Prelude.Dict
use aegora.Prelude.Dict.{Dict}
use aegora.Prelude.Result.{ok}
use aegora.Runtime.Cache.{
  RuntimeCacheSettings, Redis, Json, Cache, fill_from_redis, get_key, release_key,
}
use aegora.Runtime.Invalidation.{
  Value, null, natural, text, str, field, truth, is_int, is_one, names_release, event_type_of,
  apply_event,
}
use aegora.Runtime.Invalidation.Effect.{get_key-apply_event}
use aegora.Control.Platform.{CacheEvent}

-- The payload of an event on a release, with its own identifier and time.
unfoldable pub payload : String → String → CacheEvent → Dict Value
payload event_id occurred_at e =
    ("schema_version", natural 1)
    ∷ ("event_id", text event_id)
    ∷ ("event_type", text e.event_type)
    ∷ ("occurred_at", text occurred_at)
    ∷ ("agent_id", text e.agent_id)
    ∷ ("release_id", text e.release_id)
    ∷ ("release_version", natural e.release_version)
    ∷ ("tool_id", null)
    ∷ ("reason", null)
    ∷ []

module _ {V R : Type 0} (json : Json V) (redis : Redis R) (settings : RuntimeCacheSettings)
    (event_id occurred_at : String) (e : CacheEvent) where
  abbrev pub AboutRelease : Type 0
  AboutRelease = (e.event_type ≡ "release.published") ⊎ (e.event_type ≡ "release.revoked")

  payload-event_type : AboutRelease → event_type_of (payload event_id occurred_at e) ≡ e.event_type
  unfolding payload event_type_of field truth str Dict.get
  payload-event_type (inl h) = rw h
  payload-event_type (inr h) = rw h

  payload-applied :
      (c : Cache V R)
      → AboutRelease
      → (apply_event json redis settings (ok (payload event_id occurred_at e)) c).0 ≡ true
  unfolding payload apply_event field is_one Dict.get mem
  payload-applied c (inl h) = rw (payload-event_type (inl h), h)
  payload-applied c (inr h) = rw (payload-event_type (inr h), h)

  payload-named :
      nonempty e.agent_id ≡ true
      → nonempty e.release_id ≡ true
      → names_release (payload event_id occurred_at e) ≡ true
  unfolding payload names_release field truth is_int Dict.get
  payload-named agent release = rw (agent, release)

  -- What the control plane announces of a release is understood by the runtime: the event is applied,
  -- and when the cache is on, the process reads the configuration of that release no more from its
  -- own memory, but as Redis holds it by then.
  pub payload-IsApplied :
      (c : Cache V R)
      → AboutRelease
      → nonempty e.agent_id ≡ true
      → nonempty e.release_id ≡ true
      → settings.enabled ≡ true
      → let (applied, metric, after) =
          apply_event json redis settings (ok (payload event_id occurred_at e)) c in
        let key = release_key settings e.agent_id e.release_id (decimal e.release_version) in
        (applied ≡ true)
        × (get_key json redis settings key after ≡ fill_from_redis json redis settings key after)
  unfolding payload field str Dict.get
  payload-IsApplied c about agent release on =
      let applied = payload-applied c about in
      (
        applied,
        get_key-apply_event json redis settings (payload event_id occurred_at e) c on applied
            (payload-named agent release),
      )
