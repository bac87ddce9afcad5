-- ===== src/Tests/Approved.antt =====
-- Approvals in the store of the process, and a race in the store of the database.
use aegora.Prelude.{any, false, List, ◌≡◌, refl, String, true, none, some, [], ◌∷◌, mem}
use aegora.Prelude.Dict
use aegora.Prelude.Dict.{Dict}
use aegora.Prelude.Result.{Result, ok, err}
use aegora.Runtime.Approvals.{ApprovalRecord, ApprovalDecision, Laws, check, decided, is_expired}
use aegora.Agent.Flow.{ToolCall}
use aegora.Runtime.Approvals.Gate.{
  GatedTool, Gated, needs_approval, tool_requires_approval, run_many, run_many-IsGated,
}
use aegora.Runtime.Approvals.InMemory.{in_memory, in_memory-Laws}
use aegora.Runtime.Approvals.InMemory
use aegora.Runtime.Approvals.Postgres.{postgres, postgres-Laws, settle, decide_race}
use aegora.Runtime.Approvals.Decide.{
  Readings, Outcome, approval_execution_engine, act, retry, decide_approval,
}
use aegora.Runtime.Approvals.Decide.Safety.{
  IsAllowed, decide_approval-IsAllowed, rejected-IsFinal, resume_again,
}

abbrev Request : Type 0
Request = ApprovalRecord String String

abbrev tests : Readings String String
tests = record { truth = λ r. true; is_dict = λ r. true; execution_engine = λ s. s }

abbrev pending : Request
pending = record {
  approval_id = "appr_1";
  carried = "delete the file";
  status = "pending";
  requested_at = 0;
  expires_at = some 1800;
  decided_at = none;
  decided_by = none;
  decision_comment = none;
  result = none;
}

abbrev approve : ApprovalDecision
approve = record { decision = "approved"; decided_by = "eve"; comment = none }

abbrev reject : ApprovalDecision
reject = record { decision = "rejected"; decided_by = "bob"; comment = some "no" }

abbrev requests : Dict Request
requests = ("appr_1", pending) ∷ []

abbrev approved : Request
approved = record pending { status = "approved"; decided_at = some 11; decided_by = some "eve" }

abbrev rejected : Request
rejected = record pending { status = "rejected" }

in_memory-Laws_example : Laws (in_memory {S = String} {J = String})
in_memory-Laws_example = in_memory-Laws {S = String} {J = String}

postgres-Laws_example : Laws (postgres {S = String} {J = String})
postgres-Laws_example = postgres-Laws {S = String} {J = String}

approves :
    (decide_approval in_memory tests "appr_1" approve 10 11 requests).0
    ≡ ok (Outcome.resume approved)
unfolding decide_approval InMemory.decide act retry check is_expired decided Dict.get mem
approves = refl

abbrev on_langgraph : Request
on_langgraph = record pending { carried = "langgraph" }

abbrev waiting : Dict Request
waiting = ("appr_1", on_langgraph) ∷ []

abbrev refusal : Request
refusal = record on_langgraph {
  status = "rejected";
  decided_at = some 11;
  decided_by = some "bob";
  decision_comment = some "no";
}

decide_approval-IsAllowed_example :
    IsAllowed in_memory in_memory-Laws tests reject
      (Dict.get "appr_1" (decide_approval in_memory tests "appr_1" reject 10 11 waiting).1)
      (Outcome.resume_rejected refusal)
unfolding decide_approval InMemory.decide act approval_execution_engine check is_expired decided
    Dict.get mem
decide_approval-IsAllowed_example =
    decide_approval-IsAllowed in_memory in_memory-Laws tests "appr_1" reject 10 11 waiting
      (Outcome.resume_rejected refusal) refl

rejected-IsFinal_example :
    let after =
      decide_approval in_memory tests "appr_1" approve 20 21 (("appr_1", rejected) ∷ []) in
    ((message : String) × (after.0 ≡ err message)) × (Dict.get "appr_1" after.1 ≡ some rejected)
unfolding Dict.get
rejected-IsFinal_example =
    rejected-IsFinal in_memory in_memory-Laws tests "appr_1" approve 20 21
      (("appr_1", rejected) ∷ []) rejected refl refl

resume_again_example :
    let after = (decide_approval in_memory tests "appr_1" approve 10 11 requests).1 in
    (decide_approval in_memory tests "appr_1" approve 12 13 after).0 ≡ ok (Outcome.resume approved)
resume_again_example =
    resume_again in_memory in_memory-Laws tests "appr_1" approve approve 10 11 12 13 requests
      approved approves refl refl

decide_race_example :
    let found = check 10 (Dict.get "appr_1" requests) in
    let one = settle "appr_1" approve 11 found requests in
    let two = settle "appr_1" reject 12 found one.1 in
    (one.0 ≡ ok (decided approve 11 pending))
    × (two.0 ≡ ok (decided reject 12 pending))
    × (Dict.get "appr_1" two.1 ≡ some (decided reject 12 pending))
unfolding check is_expired Dict.get
decide_race_example = decide_race "appr_1" approve reject 10 11 12 requests pending refl

abbrev gated_tools : Dict GatedTool
gated_tools =
    ("search", record { tool_id = "search"; requires_approval = false; side_effect_level = none })
    ∷ (
      "remove",
      record {
        tool_id = "remove";
        requires_approval = false;
        side_effect_level = some "destructive";
      },
    )
    ∷ []

abbrev batch : List (ToolCall String)
batch =
    record { call_id = "c1"; tool_name = "search"; tool_args = "tea"; reason = none }
    ∷ record { call_id = "c2"; tool_name = "remove"; tool_args = "file"; reason = none }
    ∷ []

abbrev carried : ToolCall String → String
carried call = call.tool_args

abbrev run_tools : List (ToolCall String) → Result String
run_tools calls = ok "ran"

run_many-IsGated_example :
    let after = run_many gated_tools carried run_tools (some in_memory) batch "appr_2" 5 requests in
    (r : Request) × (after.0 ≡ Gated.pending (ok r))
    × (r.status ≡ "pending")
    × (Dict.get "appr_2" after.1 ≡ some r)
unfolding any needs_approval tool_requires_approval Dict.get mem
run_many-IsGated_example =
    run_many-IsGated gated_tools carried run_tools in_memory in_memory-Laws batch "appr_2" 5
      requests refl refl
