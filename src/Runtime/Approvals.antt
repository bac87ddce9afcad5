-- ===== src/Runtime/Approvals.antt =====
-- runtime_approvals.py: the records of approval requests, and the contract of a store of them. Times
-- are seconds. What a record only carries (the run, the tool, its arguments, its policy, the snapshot)
-- and the result, already lowered to JSON, are parameters of its type. The id of a new request is the
-- caller's, or a fresh one that is chosen outside; `create_pending` answers the record, of which the
-- code shows a part.
pub mod InMemory
pub mod Postgres
pub mod Decide
pub mod Gate
use aegora.Prelude.{
  ℕ, ◌+◌, ◌≡◌, String, Bool, true, false, not, Option, none, some, leb, ◌==◌, if◌then◌else◌,
}
use mathlib.Core.Option
use aegora.Prelude.Result.{Result, ok, err}

pub record ApprovalRecord (S J : Type 0) : Type 0 where
  pub approval_id : String
  pub carried : S
  pub status : String
  pub requested_at : ℕ
  pub expires_at : Option ℕ
  pub decided_at : Option ℕ
  pub decided_by : Option String
  pub decision_comment : Option String
  pub result : Option J

pub record ApprovalDecision : Type 0 where
  pub decision : String
  pub decided_by : String
  pub comment : Option String

-- What the two stores find when they look at a request, in their order.
pub data Check (A : Type 0) : Type 0 where
  missing : Check A
  processed : Check A
  expired : A → Check A
  open_request : A → Check A

module _ {S J : Type 0} where
  -- `is_expired`, at the time `now`
  unfoldable pub is_expired : ℕ → ApprovalRecord S J → Bool
  is_expired now r = elim r.expires_at [ none ↦ false | some expires ↦ leb expires now ]

  -- The record that `create_pending` stores.
  unfoldable pub new_record : String → S → ℕ → ℕ → ApprovalRecord S J
  new_record approval_id carried ttl_seconds now = record {
    approval_id = approval_id;
    carried = carried;
    status = "pending";
    requested_at = now;
    expires_at = some (now + ttl_seconds);
    decided_at = none;
    decided_by = none;
    decision_comment = none;
    result = none;
  }

  -- The record after a decision, after its time has passed, and after the tool has run.
  unfoldable pub decided : ApprovalDecision → ℕ → ApprovalRecord S J → ApprovalRecord S J
  decided d later r = record r {
    status = d.decision;
    decided_at = some later;
    decided_by = some d.decided_by;
    decision_comment = d.comment;
  }

  unfoldable pub lapsed : ApprovalRecord S J → ApprovalRecord S J
  lapsed r = record r { status = "expired" }

  unfoldable pub executed : J → ApprovalRecord S J → ApprovalRecord S J
  executed result r = record r { status = "executed"; result = some result }

  unfoldable pub check : ℕ → Option (ApprovalRecord S J) → Check (ApprovalRecord S J)
  check now none = Check.missing
  check now (some r) =
      if not (r.status == "pending")
      then Check.processed
      else if is_expired now r
      then Check.expired r
      else Check.open_request r

-- The protocol. `decide` reads the clock twice: to test that the request is still open, and to
-- stamp the decision.
pub record ApprovalStore (S J T : Type 0) : Type 0 where
  pub create_pending : String → S → ℕ → ℕ → T → Result (ApprovalRecord S J) × T
  pub get : String → T → Option (ApprovalRecord S J)
  pub decide : String → ApprovalDecision → ℕ → ℕ → T → Result (ApprovalRecord S J) × T
  pub mark_executed : String → J → T → T

module _ {S J : Type 0} where
  -- What a decision answers, and the record it leaves, by what the store had.
  unfoldable pub answer :
      ApprovalDecision → ℕ → Check (ApprovalRecord S J) → Result (ApprovalRecord S J)
  answer d later Check.missing = err "审批请求不存在"
  answer d later Check.processed = err "审批请求已处理"
  answer d later (Check.expired r) = err "审批请求已过期"
  answer d later (Check.open_request r) = ok (decided d later r)

  unfoldable pub next :
      ApprovalDecision
      → ℕ
      → Check (ApprovalRecord S J)
      → Option (ApprovalRecord S J)
      → Option (ApprovalRecord S J)
  next d later Check.missing old = old
  next d later Check.processed old = old
  next d later (Check.expired r) old = some (lapsed r)
  next d later (Check.open_request r) old = some (decided d later r)

  -- A request with a new id is stored and answered, and the others stay. Nothing is asked of an id
  -- that is taken: one store replaces the record, and the other fails.
  abbrev pub Created :
      Option (ApprovalRecord S J)
      → Option (ApprovalRecord S J)
      → Bool
      → ApprovalRecord S J
      → Result (ApprovalRecord S J)
      → Option (ApprovalRecord S J)
      → Type 0
  Created (some taken) old is_id r said new = Unit
  Created none old is_id r said new = (said ≡ ok r) × (new ≡ (if is_id then some r else old))

  -- The contract of a store, by what it gives back for each id.
  pub record Laws {T : Type 0} (store : ApprovalStore S J T) : Type 0 where
    pub create :
        (id : String) (carried : S) (ttl now : ℕ) (t : T) (j : String)
        → Created
            (store.get id t)
            (store.get j t)
            (id == j)
            (new_record id carried ttl now)
            (store.create_pending id carried ttl now t).0
            (store.get j (store.create_pending id carried ttl now t).1)
    pub decide :
        (id : String) (d : ApprovalDecision) (now later : ℕ) (t : T) (j : String)
        → ((store.decide id d now later t).0 ≡ answer d later (check now (store.get id t)))
          × (store.get j (store.decide id d now later t).1 ≡ (
              if id == j
              then next d later (check now (store.get id t)) (store.get id t)
              else store.get j t))
    pub mark :
        (id : String) (result : J) (t : T) (j : String)
        → store.get j (store.mark_executed id result t)
          ≡ (if id == j then Option.map (executed result) (store.get id t) else store.get j t)
