-- ===== src/Runtime/Context/Gate/Admission.antt =====
-- runtime_context.py: theorems on `validate_runtime_context`.
use aegora.Prelude.{
  ◌≡◌, refl, String, Bool, true, false, not, Option, none, some, List, [], ◌∷◌, nonempty, ◌↔◌, All,
  eq_iff, ℕ,
}
use aegora.Runtime.Context.Gate.{
  RuntimeContext, Users, first_failure, channel_in, may_run, gates_for, all_gates,
  validate_runtime_context,
}

-- The conditions under which an agent may run, in words: the release is published, the agent is
-- enabled, the actor is known and active, the actor may use the agent, and the channel is listed.
abbrev pub IsAdmitted : RuntimeContext → Users → Type 0
IsAdmitted context users =
    (context.status ≡ "published")
    × (context.enabled ≡ true)
    × ((actor : String) × (context.actor_id ≡ some actor)
        × (nonempty actor ≡ true)
        × (users.user_is_active actor ≡ true)
        × (may_run context users actor ≡ true))
    × (channel_in context.channel context.channels ≡ true)

-- No gate fails exactly when each of them passes.
first_failure-none :
    (gates : List (Bool × String × ℕ))
    → first_failure gates ≡ none
    → All (λ gate. gate.0 ≡ false) gates
unfolding first_failure
first_failure-none [] h = tt
first_failure-none ((true, message, code) ∷ gates) h = cc
first_failure-none ((false, message, code) ∷ gates) h = (refl, first_failure-none gates h)

first_failure_of_All :
    (gates : List (Bool × String × ℕ))
    → All (λ gate. gate.0 ≡ false) gates
    → first_failure gates ≡ none
unfolding first_failure
first_failure_of_All [] h = refl
first_failure_of_All ((failed, message, code) ∷ gates) h = rw (h.0) (first_failure_of_All gates h.1)

true_of_not : (b : Bool) → not b ≡ false → b ≡ true
true_of_not true h = refl
true_of_not false h = cc

gates_for-All :
    (context : RuntimeContext) (users : Users) (actor_id : Option String)
    → All (λ gate. gate.0 ≡ false) (gates_for context users actor_id)
    → ((actor : String) × (actor_id ≡ some actor)
        × (nonempty actor ≡ true)
        × (users.user_is_active actor ≡ true)
        × (may_run context users actor ≡ true))
      × (channel_in context.channel context.channels ≡ true)
unfolding gates_for
gates_for-All context users none (known, h) = cc
gates_for-All context users (some actor) (known, (active, (may, (listed, h)))) = (
  (actor, refl, true_of_not _ known, true_of_not _ active, true_of_not _ may),
  true_of_not _ listed,
)

-- A context passes the test exactly when it is admitted.
pub validate_runtime_context-IsAdmitted :
    (context : RuntimeContext) (users : Users)
    → (validate_runtime_context context users ≡ none) ↔ IsAdmitted context users
unfolding validate_runtime_context all_gates gates_for
validate_runtime_context-IsAdmitted context users = (
  λ h.
      let (published, (enabled, gates)) = first_failure-none (all_gates context users) h in
      let (actor, listed) = gates_for-All context users context.actor_id gates in
      (
        (eq_iff context.status "published").0 (true_of_not _ published),
        true_of_not _ enabled,
        actor,
        listed,
      ),
  λ h.
      let (published, enabled, (actor, known, named, active, may), listed) = h in
      first_failure_of_All (all_gates context users) (
        rw published refl,
        (
          rw enabled refl,
          rw known (rw named refl, (rw active refl, (rw may refl, (rw listed refl, tt)))),
        ),
      ),
)
