-- ===== src/Memory/Lifecycle/Gates.antt =====
-- memory/lifecycle.py: theorems on the candidates that reach the backend.
use aegora.Prelude.{
  ℕ, String, ◌≡◌, refl, Bool, true, false, not, ◌&&◌, Option, none, ◌==◌, if◌then◌else◌, ◌⊎◌, inl,
  inr, Bool-cases, truthy,
}
use aegora.Prelude.Result.{Result, ok, err, Result-cases}
use aegora.Memory.Models.{
  Builtins, MemoryItem, MemoryScope, MemoryCandidate, MemoryCandidateDecision, make_scope,
}
use aegora.Memory.Policy.{
  MemoryGovernance, MemoryNamespacePolicy, tenant_required, policy_for, scope_of_mode,
}
use aegora.Memory.Service.{MemoryService}
use aegora.Memory.Decision.{decide, contains_sensitive_memory, effective_scope}
use aegora.Memory.Lifecycle.{
  decided, resolve_upsert_candidate, resolve_forget_candidate, resolve_in_scope, resolve_under,
  resolve_memory_candidate,
}

module _ {F : Type 0} (py : Builtins F) where
  -- What a candidate has shown when it reaches the backend.
  pub record IsGated (policy : MemoryNamespacePolicy) (c : MemoryCandidate F)
      (auto_apply forget : F) : Type 0 where
    pub unmanaged : (policy.mode == tenant_required) ≡ false
    pub stated : (c.evidence_type == "inferred") ≡ false
    pub harmless : contains_sensitive_memory py c ≡ false
    pub asked : c.operation == "forget" && not (c.evidence_type == "explicit_instruction") ≡ false
    pub certain :
        py.float_lt c.confidence (if c.operation == "forget" then forget else auto_apply) ≡ false

-- Whether the decision is that the candidate was applied.
abbrev pub applied : {F : Type 0} → Result (MemoryCandidateDecision F) → Bool
applied (ok d) = d.status == "applied"
applied (err e) = false

module _ {F S : Type 0} where
  -- The backend is as before, and the decision is not that the candidate was applied.
  pub record IsUntouched (after : Result (MemoryCandidateDecision F) × S) (s : S) : Type 0 where
    pub same : after.1 ≡ s
    pub unapplied : applied after.0 ≡ false

  pub refused :
      (c : MemoryCandidate F) (status reason : String) (item : Option (MemoryItem F)) (s : S)
      → (status == "applied") ≡ false
      → IsUntouched (ok (decide c status reason item), s) s
  unfolding decide
  refused c status reason item s h = record { same = refl; unapplied = h }

  raised : (e : String) (s : S) → IsUntouched (err e, s) s
  raised e s = record { same = refl; unapplied = refl }

module _ {F S : Type 0} (py : Builtins F) where
  module _ (service : MemoryService F S) (scope : MemoryScope) (policy : MemoryNamespacePolicy)
      (c : MemoryCandidate F) (auto_apply forget : F) (now : ℕ) (s : S)
      (unmanaged : (policy.mode == tenant_required) ≡ false)
      (stated : (c.evidence_type == "inferred") ≡ false)
      (harmless : contains_sensitive_memory py c ≡ false) where
    forget-IsGated :
        (c.operation == "forget") ≡ true
        → IsGated py policy c auto_apply forget
          ⊎ IsUntouched (decided (resolve_forget_candidate py service scope c forget s)) s
    unfolding resolve_forget_candidate
    forget-IsGated op = elim (Bool-cases (c.evidence_type == "explicit_instruction")) [
      | inr e ↦ inr (rw e (refused c _ _ none s refl))
      | inl e ↦ elim (Bool-cases (py.float_lt c.confidence forget)) [
        | inl low ↦ inr (rw (e, low) (refused c _ _ none s refl))
        | inr sure ↦ inl (record {
          unmanaged = unmanaged;
          stated = stated;
          harmless = harmless;
          asked = rw (op, e);
          certain = rw op sure;
        })
      ]
    ]

    upsert-IsGated :
        (c.operation == "forget") ≡ false
        → IsGated py policy c auto_apply forget
          ⊎ IsUntouched (resolve_upsert_candidate py service scope c auto_apply now s) s
    unfolding resolve_upsert_candidate
    upsert-IsGated op = elim (Bool-cases (py.float_lt c.confidence auto_apply)) [
      | inl low ↦ inr (rw low (refused c _ _ none s refl))
      | inr sure ↦ inl (record {
        unmanaged = unmanaged;
        stated = stated;
        harmless = harmless;
        asked = rw op;
        certain = rw op sure;
      })
    ]

  module _ (service : MemoryService F S) (scope : MemoryScope) (c : MemoryCandidate F)
      (auto_apply forget : F) (now : ℕ) (s : S) where
    in_scope-IsGated :
        (effective : MemoryScope) (policy : MemoryNamespacePolicy)
        → IsGated py policy c auto_apply forget
          ⊎ IsUntouched (resolve_in_scope py service effective policy c auto_apply forget now s) s
    unfolding resolve_in_scope
    in_scope-IsGated effective policy = elim (Bool-cases (policy.mode == tenant_required)) [
      | inl e ↦ inr (rw e (refused c _ _ none s refl))
      | inr open_ ↦ elim (Bool-cases (c.evidence_type == "inferred")) [
        | inl e ↦ inr (rw (open_, e) (refused c _ _ none s refl))
        | inr stated ↦ elim (Bool-cases (contains_sensitive_memory py c)) [
          | inl e ↦ inr (rw (open_, stated, e) (refused c _ _ none s refl))
          | inr harmless ↦ elim (Bool-cases (c.operation == "forget")) [
            | inl op ↦
                rw (open_, stated, harmless, op)
                  (forget-IsGated service effective policy c auto_apply forget now s open_ stated
                    harmless op)
            | inr op ↦
                rw (open_, stated, harmless, op)
                  (upsert-IsGated service effective policy c auto_apply forget now s open_ stated
                    harmless op)
          ]
        ]
      ]
    ]

    under-IsGated :
        (g : MemoryGovernance) (policy : MemoryNamespacePolicy)
        → IsGated py policy c auto_apply forget
          ⊎ IsUntouched (resolve_under py service scope g policy c auto_apply forget now s) s
    unfolding resolve_under
    under-IsGated g policy =
        elim (Bool-cases (scope_of_mode policy.mode == "user_agent" && not (truthy g.agent_id))) [
          | inl e ↦ inr (rw e (refused c _ _ none s refl))
          | inr owned ↦
              elim (Result-cases
                (make_scope (effective_scope scope g c (scope_of_mode policy.mode)))) [
                  | inl (effective, e) ↦ rw (owned, e) (in_scope-IsGated effective policy)
                  | inr (e, failed) ↦ inr (rw (owned, failed) (raised e s))
                ]
        ]

    -- A candidate changes the backend or is applied only past every gate: its namespace is not the
    -- tenant's, its evidence is not inferred, no sensitive term occurs in it, a request to forget
    -- is an explicit instruction, and its confidence reaches the threshold of its operation. In
    -- every other case, also where a check raises, the backend is as before and nothing is applied.
    pub resolve_memory_candidate-IsGated :
        (g : MemoryGovernance)
        → ((policy : MemoryNamespacePolicy) × (policy_for g c.namespace ≡ ok policy)
            × IsGated py policy c auto_apply forget)
          ⊎ IsUntouched (resolve_memory_candidate py service scope g c auto_apply forget now s) s
    unfolding resolve_memory_candidate
    resolve_memory_candidate-IsGated g = elim (Result-cases (policy_for g c.namespace)) [
      | inr (e, failed) ↦ inr (rw (failed, resolve_memory_candidate) (raised e s))
      | inl (policy, found) ↦ elim (under-IsGated g policy) [
        | inl gated ↦ inl (policy, found, gated)
        | inr same ↦ inr (rw (found, resolve_memory_candidate) same)
      ]
    ]
