-- ===== src/Memory/Lifecycle.antt =====
-- memory/lifecycle.py: whether an extracted candidate is applied to the memory, and with what
-- result. A function returns the new state of the backend beside its decision; a ValueError of a
-- record's check ends it, with the backend as it stands.
pub mod Gates
pub mod Effects
use aegora.Prelude.{
  ℕ, ◌+◌, ◌*◌, String, Bool, true, false, not, ◌&&◌, ◌||◌, Option, none, some, List, [], ◌∷◌, any,
  contains, or_str, or_opt, truthy, opt_eq, is_some, ◌==◌, if◌then◌else◌,
}
use aegora.Prelude.Result.{Result, ok, err, ◌>>=◌}
use aegora.Memory.Models.{
  Builtins, MemoryItem, MemoryScope, MemoryWrite, MemoryWriteResult, MemoryCandidate,
  MemoryCandidateDecision, make_scope, make_write,
}
use aegora.Memory.Policy.{
  MemoryGovernance, MemoryNamespacePolicy, tenant_required, policy_for, write_scope_for,
  scope_of_mode,
}
use aegora.Memory.Service
use aegora.Memory.Service.{MemoryService}
use aegora.Memory.Decision.{
  decide, write_of, saved_decision, effective_scope, contains_sensitive_memory, conflict_with,
}

module _ {F S : Type 0} where
  unfoldable pub apply_upsert :
      MemoryService F S
      → MemoryScope
      → MemoryCandidate F
      → Result (MemoryWrite F)
      → S
      → Result (MemoryCandidateDecision F) × S
  apply_upsert service scope c (err e) s = (err e, s)
  apply_upsert service scope c (ok write) s =
      let (result, s') = Service.remember service scope write s in
      (ok (saved_decision c result), s')

  unfoldable pub apply_forget :
      MemoryService F S → MemoryScope → MemoryCandidate F → S → MemoryCandidateDecision F × S
  apply_forget service scope c s =
      let (changed, s') =
        Service.forget service scope c.key (some "automatic_explicit_forget") c.source_trace_id
          "automatic" s in
      (
        decide c (if changed then "applied" else "needs_review")
            (if changed then "automatic_explicit_forget" else "provider_forget_failed") none,
        s',
      )

  -- A decision that was reached without an exception.
  abbrev pub decided : MemoryCandidateDecision F × S → Result (MemoryCandidateDecision F) × S
  decided (d, s) = (ok d, s)

module _ {F S : Type 0} (py : Builtins F) where
  unfoldable pub resolve_upsert_candidate :
      MemoryService F S
      → MemoryScope
      → MemoryCandidate F
      → F
      → ℕ
      → S
      → Result (MemoryCandidateDecision F) × S
  resolve_upsert_candidate service scope c threshold now s =
      if py.float_lt c.confidence threshold
      then (ok (decide c "needs_review" "below_auto_apply_threshold" none), s)
      else elim (conflict_with py c threshold (Service.get_current service scope c.key s)) [
        | some decision ↦ (ok decision, s)
        | none ↦ apply_upsert service scope c (make_write py (write_of scope c now)) s
      ]

  unfoldable pub resolve_forget_candidate :
      MemoryService F S → MemoryScope → MemoryCandidate F → F → S → MemoryCandidateDecision F × S
  resolve_forget_candidate service scope c threshold s =
      if not (c.evidence_type == "explicit_instruction")
      then (decide c "rejected" "forget_requires_explicit_instruction" none, s)
      else if py.float_lt c.confidence threshold
      then (decide c "needs_review" "forget_below_threshold" none, s)
      else elim (Service.get_current service scope c.key s) [
        | none ↦ (decide c "skipped" "memory_already_absent" none, s)
        | some current ↦
            if current.source_kind == "tenant"
            then (decide c "rejected" "cannot_forget_tenant_memory" (some current), s)
            else apply_forget service scope c s
      ]

  -- The `if`/`elif` chain of `resolve_memory_candidate`, in its effective scope.
  unfoldable pub resolve_in_scope :
      MemoryService F S
      → MemoryScope
      → MemoryNamespacePolicy
      → MemoryCandidate F
      → F
      → F
      → ℕ
      → S
      → Result (MemoryCandidateDecision F) × S
  resolve_in_scope service scope policy c auto_apply_threshold forget_threshold now s =
      if policy.mode == tenant_required
      then (ok (decide c "rejected" "tenant_managed_namespace" none), s)
      else if c.evidence_type == "inferred"
      then (ok (decide c "rejected" "inferred_memory_not_auto_applied" none), s)
      else if contains_sensitive_memory py c
      then (ok (decide c "rejected" "sensitive_memory_blocked" none), s)
      else if c.operation == "forget"
      then decided (resolve_forget_candidate service scope c forget_threshold s)
      else resolve_upsert_candidate service scope c auto_apply_threshold now s

  -- The rest of `resolve_memory_candidate` once the policy is known; `make_scope` may raise.
  unfoldable pub resolve_under :
      MemoryService F S
      → MemoryScope
      → MemoryGovernance
      → MemoryNamespacePolicy
      → MemoryCandidate F
      → F
      → F
      → ℕ
      → S
      → Result (MemoryCandidateDecision F) × S
  resolve_under service scope g policy c auto_apply_threshold forget_threshold now s =
      if scope_of_mode policy.mode == "user_agent" && not (truthy g.agent_id)
      then (ok (decide c "rejected" "agent_private_memory_requires_agent_id" none), s)
      else elim (make_scope (effective_scope scope g c (scope_of_mode policy.mode))) [
        | err e ↦ (err e, s)
        | ok effective ↦
            resolve_in_scope service effective policy c auto_apply_threshold forget_threshold now s
      ]

  unfoldable pub resolve_memory_candidate :
      MemoryService F S
      → MemoryScope
      → MemoryGovernance
      → MemoryCandidate F
      → F
      → F
      → ℕ
      → S
      → Result (MemoryCandidateDecision F) × S
  resolve_memory_candidate service scope g c auto_apply_threshold forget_threshold now s =
      elim (policy_for g c.namespace) [
        | err e ↦ (err e, s)
        | ok policy ↦
            resolve_under service scope g policy c auto_apply_threshold forget_threshold now s
      ]
