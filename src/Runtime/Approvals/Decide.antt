-- ===== src/Runtime/Approvals/Decide.antt =====
-- configured_runner.py: `decide_approval`, which decides a request and then rejects it, resumes the
-- run with the tool's call or with the rejection, or gives back the result of an earlier resumption.
-- What the runner then does is told by the outcome.
pub mod Safety
use aegora.Prelude.{
  ℕ, String, Bool, true, false, not, ◌&&◌, ◌||◌, Option, none, some, List, [], ◌∷◌, mem, or_else,
  ◌==◌, if◌then◌else◌,
}
use aegora.Prelude.Result.{Result, ok, err}
use aegora.Runtime.Approvals.{ApprovalRecord, ApprovalDecision, ApprovalStore}

-- What the code reads off a stored result, its truth and whether it is a dict, and off a snapshot: the
-- text at `metadata`, `execution_engine`, "" where it is missing.
pub record Readings (S J : Type 0) : Type 0 where
  pub truth : J → Bool
  pub is_dict : J → Bool
  pub execution_engine : S → String

pub data Outcome (S J : Type 0) : Type 0 where
  -- `rejected_approval_response`, `resume_rejected_langgraph_approval`, `resume_approved_approval`
  -- and the result that is stored
  reject : ApprovalRecord S J → Outcome S J
  resume_rejected : ApprovalRecord S J → Outcome S J
  resume : ApprovalRecord S J → Outcome S J
  cached : J → ApprovalRecord S J → Outcome S J

module _ {S J T : Type 0} (store : ApprovalStore S J T) (tests : Readings S J) where
  abbrev pub has_result : Option J → Bool
  has_result none = false
  has_result (some result) = tests.truth result

  -- The `elif` of the handler: the result of a request that has run, if it is a dict.
  abbrev pub executed_result : String → ApprovalRecord S J → Result (Outcome S J)
  executed_result message r = elim r.result [
    | none ↦ err message
    | some result ↦
        if r.status == "executed" && tests.is_dict result
        then ok (Outcome.cached result r)
        else err message
  ]

  -- The `except ApprovalError` clause, with what the store has for the id.
  unfoldable pub retry :
      ApprovalDecision → String → Option (ApprovalRecord S J) → Result (Outcome S J)
  retry d message none = err message
  retry d message (some r) =
      if not (d.decision == "approved") || not (message == "审批请求已处理")
      then err message
      else if r.status == "approved" && not (has_result r.result)
      then ok (Outcome.resume r)
      else executed_result message r

  unfoldable pub approval_execution_engine : ApprovalRecord S J → String
  approval_execution_engine r = or_else (tests.execution_engine r.carried) "pocoflow"

  -- What follows a decision that the store has taken.
  unfoldable pub act :
      ApprovalDecision
      → Result (ApprovalRecord S J)
      → Option (ApprovalRecord S J)
      → Result (Outcome S J)
  unfolding retry approval_execution_engine
  act d (ok r) existing =
      if d.decision == "rejected"
      then (if approval_execution_engine r == "langgraph"
          then ok (Outcome.resume_rejected r)
          else ok (Outcome.reject r))
      else ok (Outcome.resume r)
  act d (err message) existing = retry d message existing

  unfoldable pub decide_approval : String → ApprovalDecision → ℕ → ℕ → T → Result (Outcome S J) × T
  decide_approval id d now later t =
      let (answer, after) = store.decide id d now later t in
      if not (mem d.decision ("approved" ∷ "rejected" ∷ []))
      then (err "审批决定只支持 approved 或 rejected", t)
      else (act d answer (store.get id after), after)
