-- ===== src/Agent/Loop.antt =====
-- agent_loop.py: one step of the planner flow, and its run by an engine, which is a parameter, up to
-- the number of steps that `build_planner_flow` gives the engine.
pub mod Steps
pub mod Ends
use aegora.Prelude.{
  ℕ, ◌≡◌, zero, suc, ◌+◌, ◌*◌, String, Bool, true, false, Option, none, some, List, [], ◌∷◌, ltb,
  ◌==◌, if◌then◌else◌,
}
use aegora.Prelude.Result.{Result, ok, err}
use aegora.Agent.Flow.{
  AgentDecision, ToolBatch, SelfCheckResult, Store, AgentDependencies, FlowNode, load_context_node,
  load_skills_node, pre_guard_node, think_node, execute_tool_node, self_check_node, Action,
  ok_action, done_action, successor, route_action,
}
use aegora.Agent.Nodes.{
  too_many_iterations, decided, execute, observed, checked, with_context, with_skills, guarded,
  calls_of,
}

-- How a run of the engine ends: at a node with no edge for its action, by an exception, or because
-- the number of steps is used up.
pub data Ending (A J : Type 0) : Type 0 where
  finished : FlowNode → Store A J → Ending A J
  raised : String → Ending A J
  exhausted : Ending A J

-- `max(8, max_iterations * 4 + 8)`
abbrev pub max_steps : ℕ → ℕ
max_steps max_iterations = if ltb 8 (max_iterations * 4 + 8) then max_iterations * 4 + 8 else 8

module _ {A J : Type 0} (no_args : A) (max_iterations : ℕ) (deps : AgentDependencies A J) where
  -- `ThinkNode.exec`
  unfoldable pub think : Store A J → Result (AgentDecision A)
  think s =
      if ltb max_iterations (suc s.loop_count)
      then ok (too_many_iterations no_args)
      else deps.think s

  abbrev pub after_thought : Store A J → Result (AgentDecision A) → Result (Action × Store A J)
  after_thought s (ok d) = ok (route_action d.route, decided d s)
  after_thought s (err message) = err message

  abbrev pub after_tools : Store A J → Result (ToolBatch A J) → Result (Action × Store A J)
  after_tools s (ok batch) = ok (observed batch s)
  after_tools s (err message) = err message

  abbrev pub after_check : Store A J → Result SelfCheckResult → Result (Action × Store A J)
  after_check s (ok result) = ok (done_action, checked result s)
  after_check s (err message) = err message

  -- One node: what it answers and the store after it, or the exception that it raised.
  unfoldable pub step : FlowNode → Store A J → Result (Action × Store A J)
  step load_context_node s = with_context s deps.load_context
  step load_skills_node s = ok (ok_action, with_skills deps s)
  step pre_guard_node s = guarded deps s
  step think_node s = after_thought s (think s)
  step execute_tool_node s = after_tools s (execute deps s (calls_of s.decision))
  step self_check_node s =
      if s.status == "pending_approval"
      then ok (done_action, s)
      else after_check s (deps.self_check s)

  -- What the flow relies on in the engine, PocoFlow: given a number of steps, a node and a store, it
  -- runs the node, stops on an exception, stops where the action has no edge, and else goes on at the
  -- edge's node with a step less.
  pub record WalksGraph (walk : ℕ → FlowNode → Store A J → Ending A J) : Type 0 where
    pub raising :
        (steps : ℕ) (node : FlowNode) (s : Store A J) (message : String)
        → step node s ≡ err message
        → walk (suc steps) node s ≡ raised message
    pub stopping :
        (steps : ℕ) (node : FlowNode) (s t : Store A J) (a : Action)
        → step node s ≡ ok (a, t)
        → successor node a ≡ none
        → walk (suc steps) node s ≡ finished node t
    pub moving :
        (steps : ℕ) (node next : FlowNode) (s t : Store A J) (a : Action)
        → step node s ≡ ok (a, t)
        → successor node a ≡ some next
        → walk (suc steps) node s ≡ walk steps next t

  -- `flow.run`, from the store of `make_store` with the entries of an earlier run
  unfoldable pub run_agent : (ℕ → FlowNode → Store A J → Ending A J) → Store A J → Ending A J
  run_agent walk s = walk (max_steps max_iterations) load_context_node s
