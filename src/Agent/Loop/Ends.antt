-- ===== src/Agent/Loop/Ends.antt =====
-- agent_loop.py: theorems on the end of a run of the planner flow.
use aegora.Prelude.{ℕ, zero, suc, ◌≤◌, ◌≡◌, ap, ◌∙◌, String, arith, inl, inr, ◌⊎◌}
use aegora.Agent.Flow.{
  Store, AgentDependencies, FlowNode, load_context_node, self_check_node, done_action, successor,
}
use aegora.Agent.Loop.{Ending, finished, raised, WalksGraph, max_steps, run_agent}
use aegora.Agent.Loop.Steps.{
  steps_left, steps_left-positive, successor-self_check, IsChecked, raises, leads, ends,
  step-Progress,
}

-- How a run ends that has enough steps.
abbrev pub EndsChecked : {A J : Type 0} → Ending A J → Type 0
EndsChecked {A = A} {J = J} ending =
    ((t : Store A J) × (ending ≡ finished self_check_node t) × IsChecked t)
    ⊎ ((message : String) × (ending ≡ raised message))

module _ {A J : Type 0} (no_args : A) (most : ℕ) (deps : AgentDependencies A J)
    (walk : ℕ → FlowNode → Store A J → Ending A J) (laws : WalksGraph no_args most deps walk) where
  walk-EndsChecked :
      (steps : ℕ) (node : FlowNode) (s : Store A J)
      → steps_left most node s.loop_count ≤ steps
      → EndsChecked (walk steps node s)
  walk-EndsChecked zero node s enough =
      absurd (omega (arith, enough, steps_left-positive most node s.loop_count))
  walk-EndsChecked (suc steps) node s enough = elim (step-Progress no_args most deps node s) [
    | raises m e ↦ inr (m, laws.raising steps node s m e)
    | leads a t next e to less ↦
        rw (laws.moving steps node next s t a e to)
          (walk-EndsChecked steps next t (omega (arith, less, enough)))
    | ends t e here done ↦
        let last = ap (λ n. successor n done_action) here ∙ successor-self_check done_action in
        inl (t, laws.stopping steps node s t done_action e last ∙ ap (λ n. finished n t) here, done)
  ]

  -- Every run of the flow ends by itself within the steps that the engine is given, from any store,
  -- also one that resumes an earlier run, when the engine walks the graph: it raises what a node
  -- raised, or it ends at the self check with a store that says completed, failed or pending approval.
  pub run_agent-EndsChecked : (s : Store A J) → EndsChecked (run_agent no_args most deps walk s)
  unfolding run_agent
  run_agent-EndsChecked s = walk-EndsChecked (max_steps most) load_context_node s (ground arith)
