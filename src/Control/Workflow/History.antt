-- ===== src/Control/Workflow/History.antt =====
-- db.py of the control plane: any sequence of publications, retirements and changes of a status.
use aegora.Prelude.{
  ℕ, ◌≡◌, refl, String, false, Option, List, [], ◌∷◌, Bool-cases, Option-cases, inl, inr, ◌==◌, mem,
}
use mathlib.Core.Option
use aegora.Prelude.Dict
use aegora.Prelude.Rows.{find, update_where}
use aegora.Control.Workflow.{
  WorkflowVersion, ToolDefinition, Registry, is_version, retire, publish_rows, upsert_tool,
  publish_workflow_version, retire_workflow_version, update_tool_status, hash_of, changed,
}
use aegora.Control.Workflow.Lifecycle.{IsWellFormed, activate-IsWellFormed, retire-IsWellFormed}

-- A call of one of the operations, with the clock by then.
pub data Operation (J : Type 0) : Type 0 where
  publish : ToolDefinition J → String → ℕ → Operation J
  retire_version : String → String → String → ℕ → Operation J
  set_status : String → String → Operation J

-- The hash of the content of a version.
abbrev pub hash_at : {J : Type 0} → String → String → List (WorkflowVersion J) → Option String
hash_at w v rows = Option.map (λ r. r.manifest_hash) (find (is_version w v) rows)

module _ {J : Type 0} (digest : ToolDefinition J → String) where
  unfoldable pub perform : Operation J → Registry J → Registry J
  perform (publish tool actor now) db =
      (publish_workflow_version digest tool actor (record db { now = now })).1
  perform (retire_version w v actor now) db =
      (retire_workflow_version w v actor (record db { now = now })).1
  perform (set_status tool_id status) db = (update_tool_status tool_id status db).1

  unfoldable pub perform_all : List (Operation J) → Registry J → Registry J
  perform_all [] db = db
  perform_all (op ∷ ops) db = perform_all ops (perform op db)

  -- What an operation makes of the versions, and no more is used of it below.
  pub data Rewritten (rows : List (WorkflowVersion J)) : List (WorkflowVersion J) → Type 0 where
    left_alone : Rewritten rows rows
    published :
        (w v : String) (manifest : ToolDefinition J) (hash actor : String) (now : ℕ)
        → changed (find (is_version w v) rows) hash ≡ false
        → Rewritten rows (publish_rows w v manifest hash actor now rows)
    retired_by_hand :
        (w v actor : String) (now : ℕ)
        → Rewritten rows (update_where (is_version w v) (retire actor now) rows)

  pub perform-Rewritten :
      (op : Operation J) (db : Registry J)
      → Rewritten db.workflow_versions (perform op db).workflow_versions
  unfolding perform publish_workflow_version retire_workflow_version update_tool_status upsert_tool
  perform-Rewritten (publish tool actor now) db = elim (Bool-cases (tool.source == "workflow")) [
    | inl wf ↦
        elim (Bool-cases (
          changed (find (is_version tool.tool_id tool.version) db.workflow_versions)
            (hash_of digest tool))) [
              | inl c ↦ rw (wf, perform) (rw c left_alone)
              | inr c ↦ rw (wf, perform) (rw c (published _ _ _ _ actor now c))
            ]
    | inr other ↦ rw (other, perform) left_alone
  ]
  perform-Rewritten (retire_version w v actor now) db =
      elim (Option-cases (find (is_version w v) db.workflow_versions)) [
        | inl absent ↦ rw (absent, perform) left_alone
        | inr (r, found) ↦ rw (found, perform) (retired_by_hand w v actor now)
      ]
  perform-Rewritten (set_status tool_id status) db =
      elim (Bool-cases (mem status ("active" ∷ "disabled" ∷ []))) [
        | inl e ↦ elim (Option-cases (Dict.get tool_id db.tools)) [
          | inl absent ↦ rw (e, perform) (rw absent left_alone)
          | inr (tool, found) ↦ rw (e, perform) (rw found left_alone)
        ]
        | inr e ↦ rw (e, perform) left_alone
      ]

  Rewritten-IsWellFormed :
      {rows after : List (WorkflowVersion J)}
      → Rewritten rows after
      → IsWellFormed rows
      → IsWellFormed after
  unfolding publish_rows
  Rewritten-IsWellFormed left_alone well = well
  Rewritten-IsWellFormed {rows} (published w v manifest hash actor now same) well =
      activate-IsWellFormed w v actor now manifest hash rows well _ refl
  Rewritten-IsWellFormed {rows} (retired_by_hand w v actor now) well =
      retire-IsWellFormed w v actor now rows well

  -- Whatever is published, retired, enabled or disabled, and in any order, the table has one row for
  -- each version of a workflow and one active version of each workflow at most.
  pub perform_all-IsWellFormed :
      (ops : List (Operation J)) (db : Registry J)
      → IsWellFormed db.workflow_versions
      → IsWellFormed (perform_all ops db).workflow_versions
  unfolding perform_all
  perform_all-IsWellFormed [] db well = well
  perform_all-IsWellFormed (op ∷ ops) db well =
      perform_all-IsWellFormed ops (perform op db)
        (Rewritten-IsWellFormed (perform-Rewritten op db) well)
