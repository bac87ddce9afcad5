-- ===== src/Control/Workflow/Published.antt =====
-- db.py of the control plane: what a publication and a retirement leave behind.
use mathlib.Core.Option
use aegora.Prelude.{
  ℕ, ◌≡◌, refl, ◌∙◌, ap, String, true, false, not, ◌||◌, ◌⊎◌, Option, some, List, All, arith,
  nonempty, append, len, Bool-cases, Option-cases, inl, inr, ◌==◌, eq_iff, eq_refl,
}
use aegora.Prelude.Dict
use aegora.Prelude.Dict.{Dict, get-put}
use aegora.Prelude.Result.{ok, err}
use aegora.Prelude.Rows.{
  find, find-update_where_same, find_agree, All-update_where, All-join, All-of, find_sound,
}
use aegora.Control.Workflow.{
  WorkflowVersion, ToolDefinition, Registry, is_version, is_active_version, is_superseded,
  supersede, reactivate, new_version, activate, publish_rows, upsert_tool, publish_workflow_version,
  hash_of, changed, compute_tool_manifest_hash,
}
use aegora.Control.Workflow.Lifecycle.{
  superseded, reactivated, superseded-OnlyThis, reactivated-OnlyThis,
}
use aegora.Control.Workflow.History.{hash_at}

-- The version of a workflow that is active.
abbrev pub active_version : {J : Type 0} → String → List (WorkflowVersion J) → Option String
active_version w rows = Option.map (λ r. r.version) (find (is_active_version w) rows)

module _ {J : Type 0} (w v actor : String) (now : ℕ) (rows : List (WorkflowVersion J)) where
  -- After the version was activated again, to be it and to be active are the same.
  reactivated_agree :
      All
        (λ r. is_active_version w r ≡ is_version w v r)
        (reactivated w v actor now (superseded w v actor now rows))
  unfolding reactivate
  reactivated_agree =
      let before = superseded w v actor now rows in
      All-join (λ r only known. ground (arith, only, known)) (reactivated w v actor now before)
        (reactivated-OnlyThis w v actor now before (superseded-OnlyThis w v actor now rows))
        (All-update_where (λ r. is_version w v r ≡ true → is_active_version w r ≡ true)
          (is_version w v) (reactivate actor now) before
          (All-of (λ r. (λ e h. ground arith, λ e h. ground (arith, e, h))) before))

  found_again :
      {B : Type 0} (g : WorkflowVersion J → B)
      → ((r : WorkflowVersion J) → g (supersede actor now r) ≡ g r)
      → ((r : WorkflowVersion J) → g (reactivate actor now r) ≡ g r)
      → Option.map g
          (find (is_version w v) (reactivated w v actor now (superseded w v actor now rows)))
        ≡ Option.map g (find (is_version w v) rows)
  unfolding supersede reactivate
  found_again g one two =
      find-update_where_same (is_version w v) (is_version w v) (reactivate actor now) (λ r e. refl)
        g two (superseded w v actor now rows)
      ∙ find-update_where_same (is_superseded w v) (is_version w v) (supersede actor now)
          (λ r e. refl) g one rows

  find_version : {r : WorkflowVersion J} → find (is_version w v) rows ≡ some r → r.version ≡ v
  find_version {r} found =
      let yes = find_sound (is_version w v) rows found in (eq_iff r.version v).0 (ground arith)

  publish_rows_lem :
      (manifest : ToolDefinition J) (hash : String)
      → changed (find (is_version w v) rows) hash ≡ false
      → (hash_at w v (publish_rows w v manifest hash actor now rows) ≡ some hash)
        × (active_version w (publish_rows w v manifest hash actor now rows) ≡ some v)
  unfolding publish_rows activate find new_version changed supersede reactivate
  publish_rows_lem manifest hash same = elim (Option-cases (find (is_version w v) rows)) [
    | inl absent ↦ rw absent (rw (eq_refl w, eq_refl v) (refl, refl))
    | inr (r, found) ↦
        let kept : r.manifest_hash ≡ hash =
          (eq_iff r.manifest_hash hash).0 (ground (arith, rw found at same)) in
        let named = find_version found in
        rw found (
          found_again (λ r. r.manifest_hash) (λ r. refl) (λ r. refl) ∙ rw found (ap some kept),
          ap (Option.map (λ r. r.version))
                (find_agree (is_active_version w) (is_version w v) _ reactivated_agree)
              ∙ found_again (λ r. r.version) (λ r. refl) (λ r. refl)
              ∙ rw found (ap some named),
        )
  ]

module _ {J : Type 0} (digest : ToolDefinition J → String) (tool : ToolDefinition J)
    (actor : String) (db : Registry J) where
  -- What a publication that succeeds leaves behind.
  pub record IsPublished (after : Registry J) : Type 0 where
    pub recorded :
        hash_at tool.tool_id tool.version after.workflow_versions ≡ some (hash_of digest tool)
    pub activated : active_version tool.tool_id after.workflow_versions ≡ some tool.version
    pub registered :
        Dict.get tool.tool_id after.tools
        ≡ some (record tool { manifest_hash = hash_of digest tool })

  nonempty-compute : nonempty (compute_tool_manifest_hash digest tool) ≡ true
  unfolding compute_tool_manifest_hash append len
  nonempty-compute = elim (Bool-cases (compute_tool_manifest_hash digest tool == "")) [
    | inl gone ↦
        absurd (omega (arith, ap len ((eq_iff (compute_tool_manifest_hash digest tool) "").0 gone)))
    | inr there ↦ rw there
  ]

  nonempty-hash_of : nonempty (hash_of digest tool) ≡ true
  unfolding hash_of
  nonempty-hash_of = elim (Bool-cases (nonempty tool.manifest_hash)) [
    | inl given ↦ rw given given
    | inr missing ↦ rw missing nonempty-compute
  ]

  hash_of_again :
      hash_of digest (record tool { manifest_hash = hash_of digest tool }) ≡ hash_of digest tool
  unfolding hash_of
  hash_of_again = rw (nonempty-hash_of, hash_of)

  registered_lem :
      (tools : Dict (ToolDefinition J))
      → Dict.get tool.tool_id
          (upsert_tool digest false
            (record tool { manifest_hash = hash_of digest tool })
            (record db { tools = tools })).tools
        ≡ some (record tool { manifest_hash = hash_of digest tool })
  unfolding upsert_tool
  registered_lem tools = elim (Option-cases (Dict.get tool.tool_id tools)) [
    | inl absent ↦ rw absent (rw (hash_of_again, get-put, eq_refl tool.tool_id))
    | inr (old, found) ↦ rw found (rw (hash_of_again, get-put, eq_refl tool.tool_id))
  ]

  rows_after :
      changed
          (find (is_version tool.tool_id tool.version) db.workflow_versions)
          (hash_of digest tool)
        ≡ false
      → IsPublished (
          upsert_tool digest false
            (record tool { manifest_hash = hash_of digest tool })
            (record db {
              workflow_versions =
                  publish_rows tool.tool_id tool.version
                    (record tool { manifest_hash = hash_of digest tool })
                    (hash_of digest tool)
                    actor
                    db.now
                    db.workflow_versions;
            }))
  unfolding upsert_tool
  rows_after same =
      let (hash, active) =
        publish_rows_lem tool.tool_id tool.version actor db.now db.workflow_versions
          (record tool { manifest_hash = hash_of digest tool }) (hash_of digest tool) same in
      record { recorded = hash; activated = active; registered = registered_lem db.tools }

  -- A publication is refused exactly when the tool is no workflow or the version stands with another
  -- content, and then nothing is changed. Otherwise the version stands with the hash of the tool's
  -- content, it is the active one of its workflow, and the tool is registered as it was given, with
  -- that hash.
  pub publish_workflow_version-IsPublished :
      let (said, after) = publish_workflow_version digest tool actor db in
      let refused =
        not (tool.source == "workflow")
        || changed
            (find (is_version tool.tool_id tool.version) db.workflow_versions)
            (hash_of digest tool) in
      ((refused ≡ true) × (after ≡ db) × ((message : String) × (said ≡ err message)))
      ⊎ ((refused ≡ false)
          × IsPublished after
          × ((summary : Option (WorkflowVersion J)) × (said ≡ ok summary)))
  unfolding publish_workflow_version
  publish_workflow_version-IsPublished = elim (Bool-cases (tool.source == "workflow")) [
    | inr other ↦ rw other (inl (refl, refl, (_, refl)))
    | inl wf ↦
        elim (Bool-cases (
          changed (find (is_version tool.tool_id tool.version) db.workflow_versions)
            (hash_of digest tool))) [
              | inl clash ↦ rw (wf, clash) (inl (refl, refl, (_, refl)))
              | inr same ↦ rw (wf, same) (inr (refl, rows_after same, (_, refl)))
            ]
  ]
