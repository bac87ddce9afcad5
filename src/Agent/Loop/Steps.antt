-- ===== src/Agent/Loop/Steps.antt =====
-- agent_loop.py: theorems on one step of the planner flow, and the steps that are left after it.
use aegora.Prelude.{
  ℕ, suc, ◌+◌, ◌-◌, ◌*◌, ◌≤◌, ◌<◌, ◌≡◌, refl, ap, ◌∙◌, String, none, some, ltb, ◌==◌, arith, eq_iff,
  Bool-cases, Option-cases, inl, inr, ◌⊎◌, any,
}
use aegora.Prelude.Result.{ok, err, ok-injective, Result-cases}
use aegora.Agent.Flow.{
  AgentDecision, ToolBatch, SelfCheckResult, Store, AgentDependencies, FlowNode, load_context_node,
  load_skills_node, pre_guard_node, think_node, execute_tool_node, self_check_node, Action,
  ok_action, done_action, pending_approval_action, error_action, tool_call_action, answer_action,
  clarify_action, handoff_action, chat_action, successor, route_action, Route,
}
use aegora.Agent.Nodes.{
  too_many_iterations, decided, execute, observed, checked, with_skills, guarded, calls_of,
  has_status,
}
use aegora.Agent.Loop.{think, step}

-- The steps that a run can still take from a node.
abbrev pub steps_left : ℕ → FlowNode → ℕ → ℕ
steps_left most load_context_node count = (most - count) * 2 + 5
steps_left most load_skills_node count = (most - count) * 2 + 4
steps_left most pre_guard_node count = (most - count) * 2 + 3
steps_left most think_node count = (most - count) * 2 + 2
steps_left most execute_tool_node count = (most - count) * 2 + 3
steps_left most self_check_node count = 1

pub steps_left-positive : (most : ℕ) (node : FlowNode) (count : ℕ) → 1 ≤ steps_left most node count
steps_left-positive most load_context_node count = omega arith
steps_left-positive most load_skills_node count = omega arith
steps_left-positive most pre_guard_node count = omega arith
steps_left-positive most think_node count = omega arith
steps_left-positive most execute_tool_node count = omega arith
steps_left-positive most self_check_node count = omega arith

pub successor-self_check : (a : Action) → successor self_check_node a ≡ none
unfolding successor
successor-self_check ok_action = refl
successor-self_check error_action = refl
successor-self_check tool_call_action = refl
successor-self_check answer_action = refl
successor-self_check clarify_action = refl
successor-self_check handoff_action = refl
successor-self_check chat_action = refl
successor-self_check pending_approval_action = refl
successor-self_check done_action = refl

-- Every route leads on: to the tools or to the check.
successor-think :
    (r : Route)
    → ((route_action r ≡ tool_call_action)
        × (successor think_node (route_action r) ≡ some execute_tool_node))
      ⊎ (successor think_node (route_action r) ≡ some self_check_node)
unfolding successor
successor-think Route.faq_answer = inr refl
successor-think Route.answer = inr refl
successor-think Route.tool_call = inl (refl, refl)
successor-think Route.clarify = inr refl
successor-think Route.handoff = inr refl
successor-think Route.chat = inr refl

-- What the store says once the check has run.
abbrev pub IsChecked : {A J : Type 0} → Store A J → Type 0
IsChecked t = (t.status ≡ "pending_approval") ⊎ (t.status ≡ "completed") ⊎ (t.status ≡ "failed")

module _ {A J : Type 0} (no_args : A) (most : ℕ) (deps : AgentDependencies A J) where
  observed-loop_count :
      (batch : ToolBatch A J) (s : Store A J) → (observed batch s).1.loop_count ≡ s.loop_count
  unfolding observed
  observed-loop_count batch s = ground arith

  -- Tools are called only while another iteration is left.
  think-tool_call :
      (s : Store A J) {d : AgentDecision A}
      → think no_args most deps s ≡ ok d
      → route_action d.route ≡ tool_call_action
      → s.loop_count < most
  unfolding think too_many_iterations
  think-tool_call s h called = elim (Bool-cases (ltb most (suc s.loop_count))) [
    | inr within ↦ ground (arith, within)
    | inl over ↦
        let same = ap (λ (x : AgentDecision A). x.route) (ok-injective (rw over at h)) in
        let clash = ap route_action same ∙ called in cc
  ]

  observed-next :
      (batch : ToolBatch A J) (s : Store A J)
      → (successor execute_tool_node (observed batch s).0 ≡ some think_node)
        ⊎ (successor execute_tool_node (observed batch s).0 ≡ some self_check_node)
  unfolding observed successor
  observed-next batch s = elim (Bool-cases (has_status "pending_approval" batch.status)) [
    | inl e ↦ inr (rw e)
    | inr e ↦ elim (Bool-cases (any (λ result. has_status "error" result.status) batch.results)) [
      | inl f ↦ inl (rw (e, f))
      | inr f ↦ inl (rw (e, f))
    ]
  ]

  -- A node raises, or leads on with fewer steps left, or is the check, which ends the run.
  pub data Progress (node : FlowNode) (s : Store A J) : Type 0 where
    raises : (m : String) → step no_args most deps node s ≡ err m → Progress node s
    leads :
        (a : Action) (t : Store A J) (next : FlowNode)
        → step no_args most deps node s ≡ ok (a, t)
        → successor node a ≡ some next
        → suc (steps_left most next t.loop_count) ≤ steps_left most node s.loop_count
        → Progress node s
    ends :
        (t : Store A J)
        → step no_args most deps node s ≡ ok (done_action, t)
        → node ≡ self_check_node
        → IsChecked t
        → Progress node s

  checked-IsChecked : (result : SelfCheckResult) (s : Store A J) → IsChecked (checked result s)
  unfolding checked
  checked-IsChecked result s = elim (Bool-cases result.passed) [
    | inl e ↦ inr (inl (rw e))
    | inr e ↦ inr (inr (rw e))
  ]

  with_skills-loop_count : (s : Store A J) → (with_skills deps s).loop_count ≡ s.loop_count
  unfolding with_skills
  with_skills-loop_count s = elim (Option-cases deps.load_skills) [
    | inl e ↦ rw (e, with_skills) refl
    | inr (load, e) ↦ rw (e, with_skills) refl
  ]

  guard-Progress : (s : Store A J) → Progress pre_guard_node s
  unfolding step guarded successor
  guard-Progress s = elim (Option-cases deps.pre_guard) [
    | inl e ↦
        Progress.leads ok_action (record s { intent = none }) think_node (rw (e, guarded) refl) refl
          (omega arith)
    | inr (guard, e) ↦ elim (Result-cases (guard s.context)) [
      | inr (m, failed) ↦ Progress.raises m (rw (e, guarded) (rw failed refl))
      | inl (intent, guards) ↦
          Progress.leads ok_action (record s { intent = some intent }) think_node
            (rw (e, guarded) (rw guards refl)) refl (omega arith)
    ]
  ]

  check-Progress : (s : Store A J) → Progress self_check_node s
  unfolding step
  check-Progress s = elim (Bool-cases (s.status == "pending_approval")) [
    | inl e ↦ Progress.ends s (rw e refl) refl (inl ((eq_iff s.status "pending_approval").0 e))
    | inr e ↦ elim (Result-cases (deps.self_check s)) [
      | inr (m, failed) ↦ Progress.raises m (rw e (rw failed refl))
      | inl (result, done) ↦
          Progress.ends (checked result s) (rw e (rw done refl)) refl (checked-IsChecked result s)
    ]
  ]

  tools-Progress : (s : Store A J) → Progress execute_tool_node s
  unfolding step
  tools-Progress s = elim (Result-cases (execute deps s (calls_of s.decision))) [
    | inr (m, failed) ↦ Progress.raises m (rw failed refl)
    | inl (batch, ran) ↦ elim (observed-next batch s) [
      | inr to_check ↦
          Progress.leads (observed batch s).0 (observed batch s).1 self_check_node (rw ran refl)
            to_check (omega arith)
      | inl to_think ↦
          Progress.leads (observed batch s).0 (observed batch s).1 think_node (rw ran refl) to_think
            (omega (arith, observed-loop_count batch s))
    ]
  ]

  think-Progress : (s : Store A J) → Progress think_node s
  unfolding step decided
  think-Progress s = elim (Result-cases (think no_args most deps s)) [
    | inr (m, failed) ↦ Progress.raises m (rw failed refl)
    | inl (d, thought) ↦ elim (successor-think d.route) [
      | inr to_check ↦
          Progress.leads (route_action d.route) (decided d s) self_check_node (rw thought refl)
            to_check (omega arith)
      | inl (called, to_tools) ↦
          Progress.leads (route_action d.route) (decided d s) execute_tool_node (rw thought refl)
            to_tools (omega (arith, think-tool_call s thought called))
    ]
  ]

  pub step-Progress : (node : FlowNode) (s : Store A J) → Progress node s
  unfolding step with_skills successor
  step-Progress load_context_node s = elim (Result-cases deps.load_context) [
    | inr (m, failed) ↦ Progress.raises m (rw failed refl)
    | inl (c, loaded) ↦
        Progress.leads ok_action (record s { context = some c }) load_skills_node (rw loaded refl)
          refl (omega arith)
  ]
  step-Progress load_skills_node s =
      Progress.leads ok_action (with_skills deps s) pre_guard_node refl refl
        (omega (arith, with_skills-loop_count s))
  step-Progress pre_guard_node s = guard-Progress s
  step-Progress think_node s = think-Progress s
  step-Progress execute_tool_node s = tools-Progress s
  step-Progress self_check_node s = check-Progress s
