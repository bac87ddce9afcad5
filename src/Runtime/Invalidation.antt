-- ===== src/Runtime/Invalidation.antt =====
-- runtime_invalidation.py: the events by which one process tells the others that a release's
-- configuration has changed.
pub mod Effect
use aegora.Prelude.{
  ℕ, suc, ◌≡◌, refl, ◌∙◌, String, Bool, true, false, not, ◌&&◌, ◌||◌, Option, none, some, List, [],
  ◌∷◌, append, decimal, nonempty, mem, nat_eq, if◌then◌else◌, Bool-cases, inl, inr,
}
use aegora.Prelude.Dict
use aegora.Prelude.Dict.{Dict}
use aegora.Prelude.Result.{Result, ok, err}
use aegora.Runtime.Cache.{RuntimeCacheSettings, Redis, Json, Cache, delete}

-- A value of a JSON object. What is neither null, a truth value, an integer nor a text has its
-- truth and its text, by `bool` and `str`.
pub data Value : Type 0 where
  null : Value
  boolean : Bool → Value
  natural : ℕ → Value
  negative : ℕ → Value
  text : String → Value
  other : Bool → String → Value

-- `str(value)`; `negative n` is the integer -(n + 1).
unfoldable pub str : Value → String
unfolding append decimal
str null = "None"
str (boolean b) = if b then "True" else "False"
str (natural n) = decimal n
str (negative n) = append "-" (decimal (suc n))
str (text s) = s
str (other b s) = s

unfoldable pub truth : Value → Bool
truth null = false
truth (boolean b) = b
truth (natural n) = not (nat_eq n 0)
truth (negative n) = true
truth (text s) = nonempty s
truth (other b s) = b

-- `isinstance(value, int)`, which holds of a truth value
unfoldable pub is_int : Value → Bool
is_int (boolean b) = true
is_int (natural n) = true
is_int (negative n) = true
is_int _ = false

-- `value == 1`, which holds of `True`
unfoldable pub is_one : Value → Bool
is_one (boolean b) = b
is_one (natural n) = nat_eq n 1
is_one _ = false

-- `payload.get(key)`
unfoldable pub field : String → Dict Value → Value
unfolding Dict.get
field key payload = elim (Dict.get key payload) [ none ↦ null | some v ↦ v ]

-- `str(payload.get("event_type") or "unknown")`
unfoldable pub event_type_of : Dict Value → String
unfolding field str truth
event_type_of payload = let v = field "event_type" payload in if truth v then str v else "unknown"

abbrev supported_events : List String
supported_events = "release.published" ∷ "release.revoked" ∷ "tool.policy.changed" ∷ []

-- What `record_runtime_invalidation_event` is told.
pub record Metric : Type 0 where
  pub event_type : String
  pub outcome : String

-- `release_id and isinstance(version, int) and agent_id`
unfoldable pub names_release : Dict Value → Bool
unfolding field truth is_int
names_release payload =
    truth (field "release_id" payload)
    && (is_int (field "release_version" payload) && truth (field "agent_id" payload))

module _ {V R : Type 0} (json : Json V) (redis : Redis R) (settings : RuntimeCacheSettings) where
  -- The removal of the release that an event names in full.
  unfoldable pub forget_release : Dict Value → Cache V R → Cache V R
  forget_release payload c =
      if names_release payload
      then delete json redis settings (str (field "agent_id" payload))
          (str (field "release_id" payload)) (str (field "release_version" payload)) c
      else c

  -- `apply_event`: the answer, what is counted, and the cache after it. The text is already read:
  -- a failure of `json.loads` is an error here.
  unfoldable pub apply_event : Result (Dict Value) → Cache V R → Bool × Metric × Cache V R
  apply_event (err e) c = (false, record { event_type = "unknown"; outcome = "invalid" }, c)
  apply_event (ok payload) c =
      let event_type = event_type_of payload in
      let applied = forget_release payload c in
      if not (is_one (field "schema_version" payload)) || not (mem event_type supported_events)
      then (false, record { event_type = event_type; outcome = "ignored" }, c)
      else (true, record { event_type = event_type; outcome = "applied" }, applied)
