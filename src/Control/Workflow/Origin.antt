-- ===== src/Control/Workflow/Origin.antt =====
-- db.py of the control plane: where a registered tool comes from.
use aegora.Prelude.{
  ◌≡◌, refl, sym, ap, ◌∙◌, String, false, ◌&&◌, some, [], ◌∷◌, Bool-cases, Option-cases, inl, inr,
  ◌⊎◌, ◌==◌, eq_iff, mem,
}
use aegora.Prelude.Dict
use aegora.Prelude.Dict.{Dict, get-put}
use aegora.Prelude.Rows.{find}
use aegora.Control.Workflow.{
  ToolDefinition, Registry, is_version, is_active, upsert_tool, publish_workflow_version,
  disable_version, retire_workflow_version, update_tool_status, hash_of, changed,
}
use aegora.Control.Workflow.History.{
  Operation, publish, retire_version, set_status, hash_at, perform,
}
use aegora.Control.Workflow.Published.{publish_workflow_version-IsPublished}

module _ {J : Type 0} (digest : ToolDefinition J → String) where
  -- The tool under the id was there, with another status at most.
  pub record WasThere (w : String) (t : ToolDefinition J) (tools : Dict (ToolDefinition J))
      : Type 0 where
    pub old : ToolDefinition J
    pub stored : Dict.get w tools ≡ some old
    pub source : old.source ≡ t.source
    pub version : old.version ≡ t.version
    pub hash : old.manifest_hash ≡ t.manifest_hash

  there :
      (w : String) (t : ToolDefinition J) (tools : Dict (ToolDefinition J))
      → Dict.get w tools ≡ some t
      → WasThere w t tools
  there w t tools h = record { old = t; stored = h; source = refl; version = refl; hash = refl }

  put_status-WasThere :
      (id w status : String) (old t : ToolDefinition J) (tools : Dict (ToolDefinition J))
      → Dict.get id tools ≡ some old
      → Dict.get w (Dict.put id (record old { status = status }) tools) ≡ some t
      → WasThere w t tools
  put_status-WasThere id w status old t tools found h = elim (Bool-cases (id == w)) [
    | inl e ↦
        let f : some (record old { status = status }) ≡ some t = rw (get-put, e) at h in
        let same : record old { status = status } ≡ t = cc in
        record {
          old = old;
          stored = rw (← (eq_iff id w).0 e) found;
          source = ap (λ x. x.source) same;
          version = ap (λ x. x.version) same;
          hash = ap (λ x. x.manifest_hash) same;
        }
    | inr e ↦ there w t tools (rw (get-put, e) at h)
  ]

  disable_version-WasThere :
      (x v w : String) (t : ToolDefinition J) (tools : Dict (ToolDefinition J))
      → Dict.get w (disable_version x v tools) ≡ some t
      → WasThere w t tools
  unfolding disable_version
  disable_version-WasThere x v w t tools h = elim (Option-cases (Dict.get x tools)) [
    | inl absent ↦ there w t tools (rw (absent, disable_version) at h)
    | inr (old, stored) ↦
        let one = rw (stored, disable_version) at h in
        elim (Bool-cases (old.source == "workflow" && old.version == v)) [
          | inr off ↦ there w t tools (rw off at one)
          | inl on ↦ put_status-WasThere x w "disabled" old t tools stored (rw on at one)
        ]
  ]

  publish_others :
      (tool : ToolDefinition J) (actor w : String) (db : Registry J)
      → (tool.tool_id == w) ≡ false
      → Dict.get w (publish_workflow_version digest tool actor db).1.tools ≡ Dict.get w db.tools
  unfolding publish_workflow_version upsert_tool
  publish_others tool actor w db other = elim (Bool-cases (tool.source == "workflow")) [
    | inr e ↦ rw e refl
    | inl e ↦
        elim (Bool-cases (
          changed (find (is_version tool.tool_id tool.version) db.workflow_versions)
            (hash_of digest tool))) [
              | inl c ↦ rw (e, c) refl
              | inr c ↦ rw (e, c) (rw (get-put, other) refl)
            ]
  ]

  -- Where a registered tool comes from.
  pub origin :
      (op : Operation J) (db : Registry J) (w : String) (t : ToolDefinition J)
      → Dict.get w (perform digest op db).tools ≡ some t
      → WasThere w t db.tools
        ⊎ (hash_at w t.version (perform digest op db).workflow_versions ≡ some t.manifest_hash)
  unfolding perform retire_workflow_version update_tool_status
  origin (publish tool actor now) db w t h =
      let at_now = record db { now = now } in
      elim (publish_workflow_version-IsPublished digest tool actor at_now) [
        | inl (refused, same, said) ↦ inl (there w t db.tools (rw same at h))
        | inr (accepted, done, said) ↦ elim (Bool-cases (tool.tool_id == w)) [
          | inr other ↦
              inl (there w t db.tools (sym (publish_others tool actor w at_now other) ∙ h))
          | inl here ↦
              let e : tool.tool_id ≡ w = (eq_iff tool.tool_id w).0 here in
              let put = rw e at done.registered in
              let same : record tool { manifest_hash = hash_of digest tool } ≡ t = cc in
              inr (rw (← same, ← e) done.recorded)
        ]
      ]
  origin (retire_version x v actor now) db w t h =
      elim (Option-cases (find (is_version x v) db.workflow_versions)) [
        | inl absent ↦ inl (there w t db.tools (rw (absent, perform) at h))
        | inr (r, found) ↦
            let one = rw (found, perform) at h in
            elim (Bool-cases (is_active r.lifecycle_status)) [
              | inr off ↦ inl (there w t db.tools (rw off at one))
              | inl on ↦ inl (disable_version-WasThere x v w t db.tools (rw on at one))
            ]
      ]
  origin (set_status id status) db w t h =
      elim (Bool-cases (mem status ("active" ∷ "disabled" ∷ []))) [
        | inr e ↦ inl (there w t db.tools (rw (e, perform) at h))
        | inl e ↦
            let one = rw (e, perform) at h in
            elim (Option-cases (Dict.get id db.tools)) [
              | inl absent ↦ inl (there w t db.tools (rw absent at one))
              | inr (old, stored) ↦
                  inl (put_status-WasThere id w status old t db.tools stored (rw stored at one))
            ]
      ]
