-- ===== src/Runtime/Approvals/InMemory.antt =====
-- runtime_approvals.py: InMemoryApprovalStore, a dict of records by approval id.
use mathlib.Core.Option
use aegora.Prelude.{
  Option-cases, inl, inr, ℕ, ◌≡◌, refl, String, none, some, arith, eq_iff, ◌==◌, if◌then◌else◌,
}
use aegora.Prelude.Dict
use aegora.Prelude.Dict.{Dict, get-put}
use aegora.Prelude.Result.{Result, ok, err}
use aegora.Runtime.Approvals.{
  ApprovalRecord, ApprovalDecision, ApprovalStore, Check, Created, Laws, answer, check, decided,
  executed, lapsed, new_record, next,
}

module _ {S J : Type 0} where
  unfoldable pub create_pending :
      String
      → S
      → ℕ
      → ℕ
      → Dict (ApprovalRecord S J)
      → Result (ApprovalRecord S J) × Dict (ApprovalRecord S J)
  create_pending id carried ttl now records =
      let r = new_record id carried ttl now in (ok r, Dict.put id r records)

  -- What `decide` does with what it found.
  abbrev settle :
      String
      → ApprovalDecision
      → ℕ
      → Check (ApprovalRecord S J)
      → Dict (ApprovalRecord S J)
      → Result (ApprovalRecord S J) × Dict (ApprovalRecord S J)
  settle id d later Check.missing records = (err "审批请求不存在", records)
  settle id d later Check.processed records = (err "审批请求已处理", records)
  settle id d later (Check.expired r) records = (err "审批请求已过期", Dict.put id (lapsed r) records)
  settle id d later (Check.open_request r) records =
      (ok (decided d later r), Dict.put id (decided d later r) records)

  unfoldable pub decide :
      String
      → ApprovalDecision
      → ℕ
      → ℕ
      → Dict (ApprovalRecord S J)
      → Result (ApprovalRecord S J) × Dict (ApprovalRecord S J)
  decide id d now later records = settle id d later (check now (Dict.get id records)) records

  unfoldable pub mark_executed : String → J → Dict (ApprovalRecord S J) → Dict (ApprovalRecord S J)
  mark_executed id result records = elim (Dict.get id records) [
    | none ↦ records
    | some r ↦ Dict.put id (executed result r) records
  ]

  abbrev pub in_memory : ApprovalStore S J (Dict (ApprovalRecord S J))
  in_memory = record {
    create_pending = create_pending;
    get = Dict.get;
    decide = decide;
    mark_executed = mark_executed;
  }

  same_key :
      (id j : String) (records : Dict (ApprovalRecord S J))
      → Dict.get j records ≡ (if id == j then Dict.get id records else Dict.get j records)
  same_key id j records = ground (arith, eq_iff id j)

  settle_lem :
      (id : String) (d : ApprovalDecision) (later : ℕ) (found : Check (ApprovalRecord S J))
      (records : Dict (ApprovalRecord S J)) (j : String)
      → ((settle id d later found records).0 ≡ answer d later found)
        × (Dict.get j (settle id d later found records).1
            ≡ (if id == j then next d later found (Dict.get id records) else Dict.get j records))
  unfolding answer next
  settle_lem id d later Check.missing records j = (refl, same_key id j records)
  settle_lem id d later Check.processed records j = (refl, same_key id j records)
  settle_lem id d later (Check.expired r) records j = (refl, get-put id j _ records)
  settle_lem id d later (Check.open_request r) records j = (refl, get-put id j _ records)

  mark_lem :
      (id : String) (result : J) (records : Dict (ApprovalRecord S J)) (j : String)
      → Dict.get j (mark_executed id result records) ≡ (
          if id == j
          then Option.map (executed result) (Dict.get id records)
          else Dict.get j records)
  unfolding mark_executed
  mark_lem id result records j = elim (Option-cases (Dict.get id records)) [
    | inl e ↦ rw (e, mark_executed) (ground (arith, eq_iff id j))
    | inr (r, e) ↦ rw (e, mark_executed) (get-put id j _ records)
  ]

  create_lem :
      (id : String) (carried : S) (ttl now : ℕ) (t : Dict (ApprovalRecord S J)) (j : String)
      → Created
          (Dict.get id t)
          (Dict.get j t)
          (id == j)
          (new_record id carried ttl now)
          (create_pending id carried ttl now t).0
          (Dict.get j (create_pending id carried ttl now t).1)
  unfolding create_pending
  create_lem id carried ttl now t j = elim (Option-cases (Dict.get id t)) [
    | inr (r, e) ↦ rw e tt
    | inl e ↦ rw e (refl, get-put id j _ t)
  ]

  -- The store of the process keeps the contract of a store.
  pub in_memory-Laws : Laws in_memory
  unfolding decide
  in_memory-Laws = record {
    create = create_lem;
    decide = λ id d now later t j. settle_lem id d later (check now (Dict.get id t)) t j;
    mark = mark_lem;
  }
