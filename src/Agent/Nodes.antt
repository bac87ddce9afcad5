-- ===== src/Agent/Nodes.antt =====
-- agent_loop.py: what the nodes of the planner flow do, apart from the calls that may raise.
use aegora.Prelude.{
  suc, String, Bool, false, Option, none, some, List, [], ◌∷◌, ◌++◌, map, any, truthy, nonempty,
  or_str, ◌==◌, if◌then◌else◌,
}
use aegora.Prelude.Result.{Result, ok, err}
use aegora.Agent.Flow.{
  Route, ToolCall, AgentDecision, ToolResult, ToolBatch, SelfCheckResult, Store, AgentDependencies,
  Action, ok_action, error_action, pending_approval_action, route_name,
}

-- `decision_tool_calls`
unfoldable pub decision_tool_calls : {A : Type 0} → AgentDecision A → List (ToolCall A)
decision_tool_calls d = elim d.tool_calls [
  | call ∷ calls ↦ call ∷ calls
  | [] ↦ elim d.tool_name [
    | none ↦ []
    | some name ↦
        if nonempty name
        then record {
          call_id = "tool-call-1";
          tool_name = name;
          tool_args = d.tool_args;
          reason = d.reason;
        }
          ∷ []
        else []
  ]
]

unfoldable pub too_many_iterations : {A : Type 0} → A → AgentDecision A
too_many_iterations no_args = record {
  route = Route.handoff;
  answer = some "当前问题需要人工进一步处理。";
  tool_name = none;
  tool_args = no_args;
  reason = some "max_iterations_exceeded";
  tool_calls = [];
}

abbrev pub has_status : String → Option String → Bool
has_status name none = false
has_status name (some status) = status == name

abbrev pub calls_of : {A : Type 0} → Option (AgentDecision A) → List (ToolCall A)
calls_of none = []
calls_of (some d) = d.tool_calls

module _ {A J : Type 0} where
  -- `ThinkNode.post`
  unfoldable pub decided : AgentDecision A → Store A J → Store A J
  decided d s = record s {
    loop_count = suc s.loop_count;
    decision = some (record d { tool_calls = decision_tool_calls d });
    route = some (route_name d.route);
    answer = if truthy d.answer then d.answer else s.answer;
  }

  -- `run_tool_safely`
  unfoldable pub run_tool_safely : AgentDependencies A J → Store A J → ToolCall A → ToolResult A J
  run_tool_safely deps s call = elim (deps.run_tool call.tool_name call.tool_args s) [
    | ok reported ↦ record {
      call_id = call.call_id;
      tool_name = call.tool_name;
      args = call.tool_args;
      status = reported.0;
      output = reported.1;
      error = reported.2;
    }
    | err message ↦ record {
      call_id = call.call_id;
      tool_name = call.tool_name;
      args = call.tool_args;
      status = some "error";
      output = none;
      error = some message;
    }
  ]

  -- `ExecuteToolNode.exec`, on the calls of the decision
  unfoldable pub execute :
      AgentDependencies A J → Store A J → List (ToolCall A) → Result (ToolBatch A J)
  execute deps s [] = err "tool_call decision missing tool call"
  execute deps s (call ∷ calls) = elim deps.run_tools [
    | some run_tools ↦ run_tools (call ∷ calls) s
    | none ↦ ok (record {
      status = none;
      answer = none;
      approval_requests = [];
      results = map (run_tool_safely deps s) (call ∷ calls);
    })
  ]

  -- `ExecuteToolNode.post`
  unfoldable pub observed : ToolBatch A J → Store A J → Action × Store A J
  observed batch s =
      let seen = record s { tool_observations = s.tool_observations ++ batch.results } in
      if has_status "pending_approval" batch.status
      then (
        pending_approval_action,
        record seen {
          status = "pending_approval";
          route = some "approval_required";
          answer = some (or_str batch.answer "该操作需要审批后继续执行。");
          approval_requests = batch.approval_requests;
        },
      )
      else (
        (if any (λ result. has_status "error" result.status) batch.results
            then error_action
            else ok_action),
        seen,
      )

  -- `SelfCheckNode.post`, where no approval is pending
  unfoldable pub checked : SelfCheckResult → Store A J → Store A J
  checked result s =
      let revised = record s {
        answer = if truthy result.revised_answer then result.revised_answer else s.answer;
      } in
      if result.passed then record revised { status = "completed" } else record revised {
        status = "failed";
        errors = s.errors ++ or_str result.reason "self_check_failed" ∷ [];
      }

  -- `LoadContextNode`
  abbrev pub with_context : Store A J → Result J → Result (Action × Store A J)
  with_context s (ok context) = ok (ok_action, record s { context = some context })
  with_context s (err message) = err message

  -- `LoadSkillsNode`, which keeps the error of a loader that raised
  unfoldable pub with_skills : AgentDependencies A J → Store A J → Store A J
  with_skills deps s = elim deps.load_skills [
    | none ↦ record s { skill_retrieval = none }
    | some load ↦ record s { skill_retrieval = some (load s.context) }
  ]

  abbrev pub with_intent : Store A J → Result J → Result (Action × Store A J)
  with_intent s (ok intent) = ok (ok_action, record s { intent = some intent })
  with_intent s (err message) = err message

  -- `PreGuardNode`
  unfoldable pub guarded : AgentDependencies A J → Store A J → Result (Action × Store A J)
  guarded deps s = elim deps.pre_guard [
    | none ↦ ok (ok_action, record s { intent = none })
    | some guard ↦ with_intent s (guard s.context)
  ]
