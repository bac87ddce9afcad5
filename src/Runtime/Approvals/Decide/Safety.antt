-- ===== src/Runtime/Approvals/Decide/Safety.antt =====
-- configured_runner.py: theorems on `decide_approval` over any store that keeps the contract.
use mathlib.Core.Path.{subst}
use aegora.Prelude.{
  ℕ, ◌≡◌, refl, sym, ap, ◌∙◌, String, true, false, Option, none, some, [], ◌∷◌, mem, ◌==◌, arith,
  eq_iff, eq_refl, and_true, Bool-cases, Option-cases, inl, inr, ◌&&◌, ◌||◌, not,
}
use aegora.Prelude.Result.{Result, ok, err, ok-injective}
use aegora.Runtime.Approvals.{
  ApprovalRecord, ApprovalDecision, ApprovalStore, Check, Laws, answer, check, decided, executed,
  next,
}
use aegora.Runtime.Approvals.Decide.{
  Readings, Outcome, has_result, executed_result, retry, approval_execution_engine, act,
  decide_approval,
}

module _ {S J T : Type 0} (store : ApprovalStore S J T) (laws : Laws store)
    (tests : Readings S J) where
  -- What the answer and the record after `decide_approval` are, by what the store had.
  decision_lem :
      (id : String) (d : ApprovalDecision) (now later : ℕ) (t : T)
      → mem d.decision ("approved" ∷ "rejected" ∷ []) ≡ true
      → let found = check now (store.get id t) in
        let left = next d later found (store.get id t) in
        ((decide_approval store tests id d now later t).0
          ≡ act store tests d (answer d later found) left)
        × (store.get id (decide_approval store tests id d now later t).1 ≡ left)
  unfolding decide_approval
  decision_lem id d now later t valid =
      let (said, read) = laws.decide id d now later t id in
      let left = read ∙ rw (eq_refl id) in rw valid (rw (said, left) refl, left)

  refused :
      (id : String) (d : ApprovalDecision) (now later : ℕ) (t : T)
      → mem d.decision ("approved" ∷ "rejected" ∷ []) ≡ false
      → decide_approval store tests id d now later t ≡ (err "审批决定只支持 approved 或 rejected", t)
  unfolding decide_approval
  refused id d now later t h = rw h

  -- What the decision and the record in the store are, by what the runner does next.
  abbrev pub IsAllowed : ApprovalDecision → Option (ApprovalRecord S J) → Outcome S J → Type 0
  IsAllowed d left (Outcome.reject r) =
      (d.decision ≡ "rejected")
      × (r.status ≡ "rejected")
      × (left ≡ some r)
      × ((approval_execution_engine store tests r == "langgraph") ≡ false)
  IsAllowed d left (Outcome.resume_rejected r) =
      (d.decision ≡ "rejected")
      × (r.status ≡ "rejected")
      × (left ≡ some r)
      × ((approval_execution_engine store tests r == "langgraph") ≡ true)
  IsAllowed d left (Outcome.resume r) =
      (d.decision ≡ "approved") × (r.status ≡ "approved") × (left ≡ some r)
  IsAllowed d left (Outcome.cached result r) =
      (d.decision ≡ "approved")
      × (r.status ≡ "executed")
      × (left ≡ some r)
      × (r.result ≡ some result)

  executed_result-IsAllowed :
      (d : ApprovalDecision) (message : String) (s : ApprovalRecord S J) (o : Outcome S J)
      → d.decision ≡ "approved"
      → executed_result store tests message s ≡ ok o
      → IsAllowed d (some s) o
  executed_result-IsAllowed d message s o approves h = elim (Option-cases s.result) [
    | inl e ↦ let none_given = rw e at h in cc
    | inr (result, e) ↦ elim (Bool-cases (s.status == "executed" && tests.is_dict result)) [
      | inr b ↦ let none_given = rw (e, b) at h in cc
      | inl b ↦
          let executed = (eq_iff s.status "executed").0 (and_true _ _ b).0 in
          subst (IsAllowed d (some s)) (ok-injective (rw (e, b) at h))
            (approves, executed, ap (λ x. some (record s { result = x })) e, refl)
    ]
  ]

  retry-IsAllowed :
      (d : ApprovalDecision) (message : String) (left : Option (ApprovalRecord S J))
      (o : Outcome S J)
      → retry store tests d message left ≡ ok o
      → IsAllowed d left o
  unfolding retry
  retry-IsAllowed d message none o h = cc
  retry-IsAllowed d message (some s) o h =
      elim (Bool-cases (not (d.decision == "approved") || not (message == "审批请求已处理"))) [
        | inl e ↦ let none_given = rw e at h in cc
        | inr e ↦
            let approves : d.decision ≡ "approved" =
              (eq_iff d.decision "approved").0 (ground (arith, e)) in
            elim (Bool-cases (s.status == "approved" && not (has_result store tests s.result))) [
              | inl f ↦
                  let approved = (eq_iff s.status "approved").0 (and_true _ _ f).0 in
                  subst (IsAllowed d (some s)) (ok-injective (rw (e, f) at h))
                    (approves, approved, refl)
              | inr f ↦ executed_result-IsAllowed d message s o approves (rw (e, f) at h)
            ]
      ]

  act-IsAllowed :
      (d : ApprovalDecision) (later : ℕ) (found : Check (ApprovalRecord S J))
      (left : Option (ApprovalRecord S J)) (o : Outcome S J)
      → mem d.decision ("approved" ∷ "rejected" ∷ []) ≡ true
      → act store tests d (answer d later found) (next d later found left) ≡ ok o
      → IsAllowed d (next d later found left) o
  unfolding act answer next decided mem
  act-IsAllowed d later Check.missing left o valid h = retry-IsAllowed d "审批请求不存在" left o h
  act-IsAllowed d later Check.processed left o valid h = retry-IsAllowed d "审批请求已处理" left o h
  act-IsAllowed d later (Check.expired s) left o valid h = retry-IsAllowed d "审批请求已过期" _ o h
  act-IsAllowed d later (Check.open_request s) left o valid h =
      elim (Bool-cases (d.decision == "rejected")) [
        | inl e ↦
            let rejects = (eq_iff d.decision "rejected").0 e in
            elim (Bool-cases (approval_execution_engine store tests s == "langgraph")) [
              | inl f ↦
                  subst (IsAllowed d _) (ok-injective (rw (e, f) at h)) (rejects, rejects, refl, f)
              | inr f ↦
                  subst (IsAllowed d _) (ok-injective (rw (e, f) at h)) (rejects, rejects, refl, f)
            ]
        | inr e ↦
            let approves : d.decision ≡ "approved" =
              (eq_iff d.decision "approved").0 (ground (arith, valid, e)) in
            subst (IsAllowed d _) (ok-injective (rw e at h)) (approves, approves, refl)
      ]

  -- Whatever the runner does next is what the decision and the store allow. The tool's call is resumed
  -- only by an approval of a request that the store then holds as approved; a rejection ends the run,
  -- or resumes it with the rejection where its engine is LangGraph, and the store then holds the
  -- request as rejected; and an earlier result is given back only to an approval of a request that
  -- the store holds as executed with that result.
  pub decide_approval-IsAllowed :
      (id : String) (d : ApprovalDecision) (now later : ℕ) (t : T) (o : Outcome S J)
      → (decide_approval store tests id d now later t).0 ≡ ok o
      → IsAllowed d (store.get id (decide_approval store tests id d now later t).1) o
  decide_approval-IsAllowed id d now later t o h =
      elim (Bool-cases (mem d.decision ("approved" ∷ "rejected" ∷ []))) [
        | inr e ↦
            let same = ap (λ (x : Result (Outcome S J) × T). x.0) (refused id d now later t e) in cc
        | inl e ↦
            let (said, left) = decision_lem id d now later t e in
            rw left (
              act-IsAllowed d later (check now (store.get id t)) (store.get id t) o e
                (sym said ∙ h))
      ]

  closed-check :
      (now : ℕ) (o : Option (ApprovalRecord S J)) (r : ApprovalRecord S J)
      → o ≡ some r
      → (r.status == "pending") ≡ false
      → check now o ≡ Check.processed
  unfolding check
  closed-check now o r has closed = rw has (rw closed)

  -- A request that is not pending is not decided again, and stays as it is.
  closed_lem :
      (id : String) (d : ApprovalDecision) (now later : ℕ) (t : T) (r : ApprovalRecord S J)
      → mem d.decision ("approved" ∷ "rejected" ∷ []) ≡ true
      → store.get id t ≡ some r
      → (r.status == "pending") ≡ false
      → ((decide_approval store tests id d now later t).0 ≡ retry store tests d "审批请求已处理" (some r))
        × (store.get id (decide_approval store tests id d now later t).1 ≡ some r)
  unfolding act answer next
  closed_lem id d now later t r valid has closed =
      let (said, left) = decision_lem id d now later t valid in
      let processed = closed-check now _ r has closed in
      (said ∙ rw processed (rw has), left ∙ rw processed has)

  executed_result-rejected :
      (message : String) (r : ApprovalRecord S J)
      → r.status ≡ "rejected"
      → executed_result store tests message r ≡ err message
  executed_result-rejected message r rejected = elim (Option-cases r.result) [
    | inl e ↦ rw e
    | inr (result, e) ↦ rw e (rw rejected)
  ]

  retry-rejected :
      (d : ApprovalDecision) (message : String) (r : ApprovalRecord S J)
      → r.status ≡ "rejected"
      → retry store tests d message (some r) ≡ err message
  unfolding retry
  retry-rejected d message r rejected =
      let last = executed_result-rejected message r rejected in
      ground (arith, eq_iff r.status "approved", eq_iff "rejected" "approved")

  -- A request that is stored as rejected is never resumed by a later call: each is an error and leaves
  -- it as it is.
  pub rejected-IsFinal :
      (id : String) (d : ApprovalDecision) (now later : ℕ) (t : T) (r : ApprovalRecord S J)
      → store.get id t ≡ some r
      → r.status ≡ "rejected"
      → ((message : String) × ((decide_approval store tests id d now later t).0 ≡ err message))
        × (store.get id (decide_approval store tests id d now later t).1 ≡ some r)
  rejected-IsFinal id d now later t r has rejected =
      elim (Bool-cases (mem d.decision ("approved" ∷ "rejected" ∷ []))) [
        | inr e ↦
            let same = refused id d now later t e in
            ((_, ap (λ (x : Result (Outcome S J) × T). x.0) same), rw same has)
        | inl e ↦
            let (said, left) = closed_lem id d now later t r e has (rw rejected refl) in
            ((_, said ∙ retry-rejected d _ r rejected), left)
      ]

  -- Once the result of an approved request is stored, a further approval gives the result back and
  -- runs nothing, when the result is a dict.
  approve-mark_executed :
      (id : String) (d : ApprovalDecision) (now later : ℕ) (result : J) (t : T)
      (r : ApprovalRecord S J)
      → store.get id t ≡ some r
      → d.decision ≡ "approved"
      → tests.is_dict result ≡ true
      → let after = store.mark_executed id result t in
        ((decide_approval store tests id d now later after).0
          ≡ ok (Outcome.cached result (executed result r)))
        × (store.get id (decide_approval store tests id d now later after).1
            ≡ some (executed result r))
  unfolding executed mem retry
  approve-mark_executed id d now later result t r has approves dict =
      let marked = laws.mark id result t id ∙ rw (eq_refl id) (rw has) in
      let (said, left) =
        closed_lem id d now later _ (executed result r) (rw approves refl) marked refl in
      (said ∙ rw approves (rw dict), left)

  -- An approved request whose result is not stored yet is resumed again by a further approval: the
  -- store cannot tell a run that has failed from one that is still running.
  pub resume_again :
      (id : String) (first second : ApprovalDecision) (now later next_now next_later : ℕ) (t : T)
      (r : ApprovalRecord S J)
      → (decide_approval store tests id first now later t).0 ≡ ok (Outcome.resume r)
      → r.result ≡ none
      → second.decision ≡ "approved"
      → let after = (decide_approval store tests id first now later t).1 in
        (decide_approval store tests id second next_now next_later after).0 ≡ ok (Outcome.resume r)
  unfolding mem retry
  resume_again id first second now later next_now next_later t r h fresh approves =
      let (by_approval, status, kept) =
        decide_approval-IsAllowed id first now later t (Outcome.resume r) h in
      let (said, left) =
        closed_lem id second next_now next_later _ r (rw approves refl) kept (rw status refl) in
      said ∙ rw approves (rw status (rw fresh))
