-- ===== src/Memory/Models/Checks.antt =====
-- memory/models.py: theorems on the records that a `__post_init__` has accepted.
use aegora.Prelude.{
  ℕ, ◌≤◌, ◌≡◌, true, false, ◌&&◌, not, Option, none, some, [], ◌∷◌, arith, mem, All, truthy, ◌==◌,
}
use mathlib.Core.Path.{subst}
use aegora.Prelude.Text.Strip.{strip_idem}
use aegora.Prelude.Result.{ok, raise_first-ok}
use aegora.Memory.Models.{
  Builtins, MemoryScope, MemoryWrite, MemoryCandidate, make_scope, make_write, make_candidate,
  candidate_checks, normalize_candidate, in_unit, ttl_out_of_range,
}

-- A scope names a user, one of the three visibilities, and an agent if it is the agent's own.
pub record ScopeIsValid (s : MemoryScope) : Type 0 where
  pub named : (s.user_id == "") ≡ false
  pub known : mem s.memory_scope ("user_global" ∷ "user_agent" ∷ "tenant_user" ∷ []) ≡ true
  pub owned : s.memory_scope == "user_agent" && not (truthy s.agent_id) ≡ false

pub make_scope-ScopeIsValid :
    (s : MemoryScope) {t : MemoryScope} → make_scope s ≡ ok t → ScopeIsValid t
unfolding make_scope
make_scope-ScopeIsValid s h = ground arith

-- Checking a scope that was accepted gives the same scope.
pub make_scope_idem :
    (s : MemoryScope) {t : MemoryScope} → make_scope s ≡ ok t → make_scope t ≡ ok t
unfolding make_scope
make_scope_idem s h = ground (arith, strip_idem s.user_id)

-- The range of `ttl_days`.
abbrev pub TtlInRange : Option ℕ → Type 0
TtlInRange none = Unit
TtlInRange (some d) = (1 ≤ d) × (d ≤ 365)

ttl-InRange : (o : Option ℕ) → ttl_out_of_range o ≡ false → TtlInRange o
ttl-InRange none h = tt
ttl-InRange (some d) h = (ground arith, ground arith)

module _ {F : Type 0} (py : Builtins F) where
  -- Checking a write that was accepted gives the same write.
  pub make_write_idem :
      (w : MemoryWrite F) {v : MemoryWrite F} → make_write py w ≡ ok v → make_write py v ≡ ok v
  unfolding make_write
  make_write_idem w h = ground (arith, strip_idem w.key, strip_idem w.value)

  pub record CandidateIsValid (c : MemoryCandidate F) : Type 0 where
    pub known : mem c.operation ("upsert" ∷ "forget" ∷ []) ≡ true
    pub keyed : (c.key == "") ≡ false
    pub placed : (c.namespace == "") ≡ false
    pub valued : c.operation == "upsert" && not (truthy c.value) ≡ false
    pub certain : in_unit py c.confidence ≡ true
    pub timed : TtlInRange c.ttl_days

  checks-CandidateIsValid :
      (c : MemoryCandidate F)
      → All (λ check. check.0 ≡ false) (candidate_checks py c)
      → CandidateIsValid c
  unfolding candidate_checks
  checks-CandidateIsValid c passed = record {
    known = ground arith;
    keyed = ground arith;
    placed = ground arith;
    valued = ground arith;
    certain = ground arith;
    timed = ttl-InRange c.ttl_days (ground arith);
  }

  -- A candidate that the checks accept has a known operation, a namespace and a key, a value if it
  -- is an upsert, a confidence within [0, 1] and a lifetime of 1 to 365 days, if any.
  make_candidate-CandidateIsValid :
      (c : MemoryCandidate F) {d : MemoryCandidate F}
      → make_candidate py c ≡ ok d
      → CandidateIsValid d
  unfolding make_candidate
  make_candidate-CandidateIsValid c h =
      let d = normalize_candidate py c in
      let (passed, same) = raise_first-ok (candidate_checks py d) d h in
      subst CandidateIsValid {x = d} same (checks-CandidateIsValid d passed)
