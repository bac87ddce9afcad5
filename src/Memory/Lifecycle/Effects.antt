-- ===== src/Memory/Lifecycle/Effects.antt =====
-- memory/lifecycle.py: theorems on a candidate and the memory that it names.
use aegora.Prelude.{
  ℕ, ◌≡◌, refl, Bool, true, false, not, none, some, arith, ◌==◌, eq_iff, if◌then◌else◌, ◌⊎◌, inl,
  inr, Bool-cases, Option-cases,
}
use aegora.Prelude.Result.{Result}
use aegora.Memory.Models.{
  Builtins, MemoryItem, MemoryScope, MemoryCandidate, MemoryCandidateDecision,
}
use aegora.Memory.Policy.{MemoryNamespacePolicy, tenant_required}
use aegora.Memory.Service
use aegora.Memory.Service.{MemoryService}
use aegora.Memory.Decision.{decide, contains_sensitive_memory, upsert_conflict}
use aegora.Memory.Lifecycle.{
  decided, resolve_upsert_candidate, resolve_forget_candidate, resolve_in_scope,
}
use aegora.Memory.Lifecycle.Gates.{IsUntouched, refused}

-- A memory that a candidate may not change: the tenant's, or one that the user stated and that the
-- candidate neither says it updates nor asks to forget.
abbrev IsProtected : {F : Type 0} → MemoryCandidate F → MemoryItem F → Type 0
IsProtected c current =
    ((current.source_kind == "tenant") ≡ true)
    ⊎ (((current.source_kind == "explicit") ≡ true)
        × (c.update_intent ≡ false)
        × ((c.operation == "forget") ≡ false))

if-IsUntouched :
    {F S : Type 0} (b : Bool) (s : S) {x y : Result (MemoryCandidateDecision F) × S}
    → IsUntouched x s
    → IsUntouched y s
    → IsUntouched (if b then x else y) s
if-IsUntouched true s h k = h
if-IsUntouched false s h k = k

module _ {F : Type 0} (py : Builtins F) (c : MemoryCandidate F) (threshold : F) where
  upsert_conflict_unapplied :
      (current : MemoryItem F) (d : MemoryCandidateDecision F)
      → upsert_conflict py c threshold current ≡ some d
      → (d.status == "applied") ≡ false
  unfolding upsert_conflict decide
  upsert_conflict_unapplied current d h = ground (
    arith,
    eq_iff d.status "applied",
    eq_iff "skipped" "applied",
    eq_iff "rejected" "applied",
    eq_iff "needs_review" "applied",
  )

  upsert_conflict-IsProtected :
      (current : MemoryItem F)
      → (c.operation == "forget") ≡ false
      → IsProtected c current
      → upsert_conflict py c threshold current ≡ none
      → ⊥
  unfolding upsert_conflict
  upsert_conflict-IsProtected current op h e = ground arith

module _ {F S : Type 0} (py : Builtins F) (service : MemoryService F S) (scope : MemoryScope)
    (c : MemoryCandidate F) (s : S) (current : MemoryItem F)
    (found : Service.get_current service scope c.key s ≡ some current) where
  upsert-IsUntouched :
      (auto_apply : F) (now : ℕ)
      → (c.operation == "forget") ≡ false
      → IsProtected c current
      → IsUntouched (resolve_upsert_candidate py service scope c auto_apply now s) s
  unfolding resolve_upsert_candidate
  upsert-IsUntouched auto_apply now op h = elim (Bool-cases (py.float_lt c.confidence auto_apply)) [
    | inl low ↦ rw low (refused c _ _ none s refl)
    | inr sure ↦ elim (Option-cases (upsert_conflict py c auto_apply current)) [
      | inl none_ ↦ absurd (upsert_conflict-IsProtected py c auto_apply current op h none_)
      | inr (d, e) ↦
          rw (sure, found, e, resolve_upsert_candidate)
            (record {
              same = refl;
              unapplied = upsert_conflict_unapplied py c auto_apply current d e;
            })
    ]
  ]

  forget-IsUntouched :
      (threshold : F)
      → (current.source_kind == "tenant") ≡ true
      → IsUntouched (decided (resolve_forget_candidate py service scope c threshold s)) s
  unfolding resolve_forget_candidate
  forget-IsUntouched threshold tenant =
      elim (Bool-cases (not (c.evidence_type == "explicit_instruction"))) [
        | inl e ↦ rw e (refused c _ _ none s refl)
        | inr asked ↦ elim (Bool-cases (py.float_lt c.confidence threshold)) [
          | inl low ↦ rw (asked, low) (refused c _ _ none s refl)
          | inr sure ↦
              rw (asked, sure, found, resolve_forget_candidate, tenant)
                (refused c _ _ (some current) s refl)
        ]
      ]

  by_operation :
      (auto_apply forget : F) (now : ℕ)
      → IsProtected c current
      → IsUntouched
          (if c.operation == "forget"
            then decided (resolve_forget_candidate py service scope c forget s)
            else resolve_upsert_candidate py service scope c auto_apply now s)
          s
  by_operation auto_apply forget now h = elim (Bool-cases (c.operation == "forget")) [
    | inl op ↦ rw op (forget-IsUntouched forget (ground arith))
    | inr op ↦ rw op (upsert-IsUntouched auto_apply now op h)
  ]

  -- A memory of the tenant's under a candidate's key is left as it is, and the candidate not applied,
  -- whatever it asks for. So is a memory that the user stated, where the candidate does not say that
  -- it updates it and does not ask to forget it; one that asks to forget is not covered here.
  pub resolve_in_scope-IsProtected :
      (policy : MemoryNamespacePolicy) (auto_apply forget : F) (now : ℕ)
      → ((current.source_kind == "tenant") ≡ true)
        ⊎ (((current.source_kind == "explicit") ≡ true)
            × (c.update_intent ≡ false)
            × ((c.operation == "forget") ≡ false))
      → IsUntouched (resolve_in_scope py service scope policy c auto_apply forget now s) s
  unfolding resolve_in_scope
  resolve_in_scope-IsProtected policy auto_apply forget now h =
      if-IsUntouched (policy.mode == tenant_required) s (refused c _ _ none s refl) (
        if-IsUntouched (c.evidence_type == "inferred") s (refused c _ _ none s refl) (
          if-IsUntouched (contains_sensitive_memory py c) s (refused c _ _ none s refl)
            (by_operation auto_apply forget now h)))
