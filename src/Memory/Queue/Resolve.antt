-- ===== src/Memory/Queue/Resolve.antt =====
-- memory/lifecycle.py: `resolve_memory_candidate` with a store, which writes the decision back into
-- the queue.
use aegora.Prelude.{ℕ, ◌≡◌, String, not, ◌&&◌, some, truthy, nat_eq, ◌==◌, if◌then◌else◌}
use aegora.Prelude.Result.{Result, ok, err}
use aegora.Memory.Models.{
  Builtins, MemoryScope, MemoryCandidate, MemoryCandidateDecision, make_scope,
}
use aegora.Memory.Policy.{MemoryGovernance, policy_for, scope_of_mode}
use aegora.Memory.NativePg.Table.{find}
use aegora.Memory.Service.{MemoryService, or_on_error}
use aegora.Memory.Decision.{effective_scope}
use aegora.Memory.Lifecycle.{resolve_memory_candidate}
use aegora.Memory.Queue.{CandidateRow, Queue, enqueue, mark_decision}
use aegora.Memory.Queue.Decided.{mark_decision-enqueue}

module _ {F : Type 0} where
  -- The scope in which a decision is marked: the effective one, once it is known.
  unfoldable pub marked_in : MemoryScope → MemoryGovernance → MemoryCandidate F → MemoryScope
  marked_in scope g c = elim (policy_for g c.namespace) [
    | err message ↦ scope
    | ok policy ↦
        if scope_of_mode policy.mode == "user_agent" && not (truthy g.agent_id)
        then scope
        else or_on_error (make_scope (effective_scope scope g c (scope_of_mode policy.mode))) scope
  ]

  -- What a resolution with a store writes back: a decision that was reached is marked.
  abbrev pub marked :
      MemoryScope → MemoryCandidate F → Result (MemoryCandidateDecision F) → Queue F → Queue F
  marked scope c (err message) q = q
  marked scope c (ok d) q = mark_decision scope c d q

module _ {F S : Type 0} (py : Builtins F) where
  -- `resolve_memory_candidate` with a store.
  unfoldable pub resolve_queued_candidate :
      MemoryService F S
      → MemoryScope
      → MemoryGovernance
      → MemoryCandidate F
      → F
      → F
      → ℕ
      → S × Queue F
      → Result (MemoryCandidateDecision F) × S × Queue F
  resolve_queued_candidate service scope g c auto_apply_threshold forget_threshold now (s, q) =
      let (decision, s') =
        resolve_memory_candidate py service scope g c auto_apply_threshold forget_threshold now s in
      (decision, s', marked (marked_in scope g c) c decision q)

  -- When a queued candidate is resolved and no check raises, the decision stands in the candidate's
  -- row: under the identifier that queueing gave it there is a row with the decision's status and
  -- reason.
  pub resolve_queued_candidate-IsMarked :
      (service : MemoryService F S) (scope : MemoryScope) (g : MemoryGovernance)
      (c : MemoryCandidate F) (p : String) (auto_apply forget : F) (now : ℕ) (s : S) (q : Queue F)
      (d : MemoryCandidateDecision F)
      → let queued = enqueue scope c p q in
        let after =
          resolve_queued_candidate service scope g queued.0 auto_apply forget now (s, queued.1) in
        after.0 ≡ ok d
        → (id : ℕ) × (r : CandidateRow F) × (queued.0.candidate_id ≡ some id)
          × (find (λ x. nat_eq x.id id) after.2.rows ≡ some r)
          × (r.status ≡ d.status)
          × (r.decision_reason ≡ some d.reason)
  unfolding resolve_queued_candidate
  resolve_queued_candidate-IsMarked service scope g c p auto_apply forget now s q d h =
      rw h (mark_decision-enqueue scope (marked_in scope g (enqueue scope c p q).0) c p d q)
