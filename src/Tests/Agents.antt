-- ===== src/Tests/Agents.antt =====
-- A run of the planner flow that would call a tool forever, and candidates in the queue.
use aegora.Prelude.{
  ℕ, zero, suc, ◌≡◌, refl, String, true, none, some, [], nat_eq, if◌then◌else◌, mem, strip,
}
use aegora.Prelude.Dict
use aegora.Prelude.Dict.{Dict}
use aegora.Prelude.Result.{Result, ok, err, raise_first}
use aegora.Agent.Flow.{Route, AgentDecision, Store, AgentDependencies, FlowNode, successor}
use aegora.Agent.Tools.{ToolSpec, ToolLifecycleHooks, fire, try_once, attempts}
use aegora.Agent.Tools.Retries.{RunEnds, attempts-RunEnds}
use aegora.Agent.Loop.{Ending, WalksGraph, step, run_agent}
use aegora.Agent.Loop.Ends.{EndsChecked, run_agent-EndsChecked}
use aegora.Memory.Models.{MemoryCandidate, MemoryCandidateDecision, make_scope}
use aegora.Memory.Policy.{policy_for, make_policy}
use aegora.Memory.Decision.{decide, effective_scope}
use aegora.Memory.Lifecycle.{resolve_memory_candidate, resolve_under, resolve_in_scope}
use aegora.Memory.NativePg.Table.{find}
use aegora.Memory.Queue.{CandidateRow, Queue, enqueue, enqueue_over, mark_decision}
use aegora.Memory.Queue.Decided.{enqueue_again}
use aegora.Memory.Queue.Resolve.{resolve_queued_candidate, resolve_queued_candidate-IsMarked}
use aegora.Tests.Data.{py, ann, coffee, empty_db, service, governance}

abbrev search_again : AgentDecision String
search_again = record {
  route = Route.tool_call;
  answer = none;
  tool_name = some "search_faq";
  tool_args = "";
  reason = none;
  tool_calls = [];
}

abbrev deps : AgentDependencies String String
deps = record {
  load_context = ok "context";
  load_skills = none;
  pre_guard = none;
  think = λ s. ok search_again;
  run_tool = λ name args s. ok (some "ok", some "found", none);
  run_tools = none;
  self_check = λ s. ok (record { passed = true; reason = none; revised_answer = none });
}

abbrev fresh : Store String String
fresh = record {
  context = none;
  skill_retrieval = none;
  intent = none;
  loop_count = 0;
  decision = none;
  route = none;
  answer = none;
  status = "running";
  tool_observations = [];
  approval_requests = [];
  errors = [];
}

-- An engine that walks the graph.
walk : ℕ → FlowNode → Store String String → Ending String String
walk zero node s = Ending.exhausted
walk (suc steps) node s = elim (step "" 3 deps node s) [
  | err message ↦ Ending.raised message
  | ok (a, t) ↦ elim (successor node a) [
    | none ↦ Ending.finished node t
    | some next ↦ walk steps next t
  ]
]

walk-WalksGraph : WalksGraph "" 3 deps walk
unfolding walk
walk-WalksGraph = record {
  raising = λ steps node s message e. rw (e, walk) refl;
  stopping = λ steps node s t a e stop. rw (e, walk) (rw (stop, walk) refl);
  moving = λ steps node next s t a e to. rw (e, walk) (rw (to, walk) refl);
}

run_agent-EndsChecked_example : EndsChecked (run_agent "" 3 deps walk fresh)
run_agent-EndsChecked_example = run_agent-EndsChecked "" 3 deps walk walk-WalksGraph fresh

abbrev queue : Queue ℕ
queue = record { rows = []; next_id = 7; events = []; extractions = []; now = 1000 }

abbrev inferred : MemoryCandidate ℕ
inferred = record coffee { evidence_type = "inferred" }

abbrev rejection : MemoryCandidateDecision ℕ
rejection = record {
  status = "rejected";
  reason = "inferred_memory_not_auto_applied";
  candidate_id = some 7;
  item = none;
}

enqueue_again_example :
    let first = enqueue ann coffee "user_global" queue in
    let decided = mark_decision ann first.0 rejection first.1 in
    let second = enqueue ann coffee "user_global" decided in
    (second.0 ≡ first.0) × (second.1.rows ≡ decided.rows)
enqueue_again_example =
    enqueue_again ann ann coffee (enqueue ann coffee "user_global" queue).0 "user_global" rejection
      queue

resolve_queued_candidate-IsMarked_example :
    let start = enqueue ann inferred "user_global" queue in
    let after =
      resolve_queued_candidate py service ann governance start.0 80 90 1000 (empty_db, start.1) in
    (id : ℕ) × (r : CandidateRow ℕ) × (start.0.candidate_id ≡ some id)
    × (find (λ x. nat_eq x.id id) after.2.rows ≡ some r)
    × (r.status ≡ rejection.status)
    × (r.decision_reason ≡ some rejection.reason)
unfolding enqueue enqueue_over find resolve_queued_candidate resolve_memory_candidate resolve_under
    resolve_in_scope decide policy_for make_policy make_scope raise_first strip effective_scope
    Dict.get mem
resolve_queued_candidate-IsMarked_example =
    resolve_queued_candidate-IsMarked py service ann governance inferred "user_global" 80 90 1000
      empty_db queue rejection refl

-- A tool that is busy at its first two calls; the world counts the calls.
abbrev busy_twice : Dict String → ℕ → Result String × ℕ
busy_twice args calls = if nat_eq calls 2 then (ok "done", suc calls) else (err "busy", suc calls)

abbrev flaky : ToolSpec String String ℕ
flaky = record {
  name = "search_faq";
  input_schema = [];
  handler = busy_twice;
  max_retries = 3;
  read_only = true;
  parallel_safe = true;
}

abbrev quiet : ToolLifecycleHooks String ℕ
quiet = record { before_call = []; after_call = []; on_error = [] }

attempts-RunEnds_example : RunEnds quiet flaky [] 1 3 0 (ok ("done", 3), 3)
unfolding attempts try_once fire
attempts-RunEnds_example = attempts-RunEnds quiet flaky [] 3 1 0
