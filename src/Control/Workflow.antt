-- ===== src/Control/Workflow.antt =====
-- apps/control-plane/backend/app/db.py: the versions of a workflow and the tool that stands for it in
-- the registry. The table `workflow_versions` is the list of its rows and `tools` a dict from ids. A
-- method is one transaction, which the advisory lock makes the only one on its workflow.
pub mod Lifecycle
pub mod History
pub mod Published
pub mod Origin
pub mod Content
use aegora.Prelude.{
  ℕ, String, Bool, true, false, not, ◌&&◌, Option, none, some, List, [], ◌∷◌, mem, or_else, append,
  ◌==◌, if◌then◌else◌,
}
use aegora.Prelude.Dict
use aegora.Prelude.Dict.{Dict}
use aegora.Prelude.Result.{Result, ok, err}
use aegora.Prelude.Rows.{find, update_where}

pub data LifecycleStatus : Type 0 where
  active retired : LifecycleStatus

abbrev pub is_active : LifecycleStatus → Bool
is_active active = true
is_active retired = false

-- A tool's manifest; `rest` is what no operation here reads.
pub record ToolDefinition (J : Type 0) : Type 0 where
  pub tool_id : String
  pub status : String
  pub source : String
  pub version : String
  pub mcp_connection_id : Option String
  pub manifest_hash : String
  pub rest : J

-- A row of `workflow_versions`; its `manifest_json` is the published tool as it was dumped.
pub record WorkflowVersion (J : Type 0) : Type 0 where
  pub workflow_id : String
  pub version : String
  pub lifecycle_status : LifecycleStatus
  pub manifest_json : ToolDefinition J
  pub manifest_hash : String
  pub created_by : String
  pub created_at : ℕ
  pub activated_by : String
  pub activated_at : ℕ
  pub retired_by : Option String
  pub retired_at : Option ℕ

pub record Registry (J : Type 0) : Type 0 where
  pub workflow_versions : List (WorkflowVersion J)
  pub tools : Dict (ToolDefinition J)
  pub now : ℕ

-- `workflow_id = %s AND version = %s`
abbrev pub is_version : {J : Type 0} → String → String → WorkflowVersion J → Bool
is_version workflow_id version r = r.workflow_id == workflow_id && r.version == version

-- `workflow_id = %s AND lifecycle_status = 'active'`
abbrev pub is_active_version : {J : Type 0} → String → WorkflowVersion J → Bool
is_active_version workflow_id r = r.workflow_id == workflow_id && is_active r.lifecycle_status

-- `workflow_id = %s AND lifecycle_status = 'active' AND version <> %s`
abbrev pub is_superseded : {J : Type 0} → String → String → WorkflowVersion J → Bool
is_superseded workflow_id version r = is_active_version workflow_id r && not (r.version == version)

-- `COALESCE(a, b)` for a value that is there
abbrev pub or_new : {A : Type 0} → Option A → A → Option A
or_new none b = some b
or_new (some a) b = some a

-- The SET clauses: what supersedes, what activates again, and what retires by hand.
unfoldable pub supersede : {J : Type 0} → String → ℕ → WorkflowVersion J → WorkflowVersion J
supersede actor now r = record r {
  lifecycle_status = retired;
  retired_by = some actor;
  retired_at = some now;
}

unfoldable pub reactivate : {J : Type 0} → String → ℕ → WorkflowVersion J → WorkflowVersion J
reactivate actor now r = record r {
  lifecycle_status = active;
  activated_by = actor;
  activated_at = now;
  retired_by = none;
  retired_at = none;
}

unfoldable pub retire : {J : Type 0} → String → ℕ → WorkflowVersion J → WorkflowVersion J
retire actor now r = record r {
  lifecycle_status = retired;
  retired_by = or_new r.retired_by actor;
  retired_at = or_new r.retired_at now;
}

unfoldable pub new_version :
    {J : Type 0} → String → String → ToolDefinition J → String → String → ℕ → WorkflowVersion J
new_version workflow_id version manifest hash actor now = record {
  workflow_id = workflow_id;
  version = version;
  lifecycle_status = active;
  manifest_json = manifest;
  manifest_hash = hash;
  created_by = actor;
  created_at = now;
  activated_by = actor;
  activated_at = now;
  retired_by = none;
  retired_at = none;
}

-- The statement on the version itself, after the others of its workflow were superseded.
unfoldable pub activate :
    {J : Type 0}
    → Option (WorkflowVersion J)
    → String
    → String
    → ToolDefinition J
    → String
    → String
    → ℕ
    → List (WorkflowVersion J)
    → List (WorkflowVersion J)
activate none workflow_id version manifest hash actor now rows =
    new_version workflow_id version manifest hash actor now ∷ rows
activate (some existing) workflow_id version manifest hash actor now rows =
    update_where (is_version workflow_id version) (reactivate actor now) rows

-- Whether the version was published with another content.
unfoldable pub changed : {J : Type 0} → Option (WorkflowVersion J) → String → Bool
changed none hash = false
changed (some existing) hash = not (existing.manifest_hash == hash)

-- The rows after the transaction's test has passed.
unfoldable pub publish_rows :
    {J : Type 0}
    → String
    → String
    → ToolDefinition J
    → String
    → String
    → ℕ
    → List (WorkflowVersion J)
    → List (WorkflowVersion J)
publish_rows workflow_id version manifest hash actor now rows =
    activate (find (is_version workflow_id version) rows) workflow_id version manifest hash actor
      now (update_where (is_superseded workflow_id version) (supersede actor now) rows)

module _ {J : Type 0} (hexdigest : ToolDefinition J → String) where
  -- `hexdigest` is the SHA-256 of the manifest as JSON, without the hash that it holds.
  unfoldable pub compute_tool_manifest_hash : ToolDefinition J → String
  unfolding append
  compute_tool_manifest_hash tool =
      append "sha256:" (hexdigest (record tool { manifest_hash = "" }))

  -- `tool.manifest_hash or compute_tool_manifest_hash(tool)`
  unfoldable pub hash_of : ToolDefinition J → String
  unfolding compute_tool_manifest_hash
  hash_of tool = or_else tool.manifest_hash (compute_tool_manifest_hash tool)

  -- `_upsert_tool`; with `preserve_status` a tool that is there keeps its status.
  unfoldable pub upsert_tool : Bool → ToolDefinition J → Registry J → Registry J
  unfolding hash_of
  upsert_tool preserve_status tool db =
      let hashed = record tool { manifest_hash = hash_of tool } in
      let stored : ToolDefinition J = elim (Dict.get tool.tool_id db.tools) [
        | none ↦ hashed
        | some old ↦ if preserve_status then record hashed { status = old.status } else hashed
      ] in
      record db { tools = Dict.put tool.tool_id stored db.tools }

  unfoldable pub publish_workflow_version :
      ToolDefinition J → String → Registry J → Result (Option (WorkflowVersion J)) × Registry J
  unfolding hash_of changed publish_rows
  publish_workflow_version tool actor db =
      let immutable = record tool { manifest_hash = hash_of tool } in
      let existing = find (is_version tool.tool_id tool.version) db.workflow_versions in
      let rows =
        publish_rows tool.tool_id tool.version immutable immutable.manifest_hash actor db.now
          db.workflow_versions in
      if not (tool.source == "workflow")
      then (err "仅 workflow 工具支持版本发布", db)
      else if changed existing immutable.manifest_hash
      then (err "已发布且内容不可变", db)
      else (
        ok (find (is_version tool.tool_id tool.version) rows),
        upsert_tool false immutable (record db { workflow_versions = rows }),
      )

module _ {J : Type 0} where
  -- `UPDATE tools SET status = 'disabled' WHERE id = … AND source = 'workflow' AND version = …`
  unfoldable pub disable_version :
      String → String → Dict (ToolDefinition J) → Dict (ToolDefinition J)
  disable_version workflow_id version tools = elim (Dict.get workflow_id tools) [
    | none ↦ tools
    | some tool ↦
        if tool.source == "workflow" && tool.version == version
        then Dict.put workflow_id (record tool { status = "disabled" }) tools
        else tools
  ]

  -- None where there is no such version.
  unfoldable pub retire_workflow_version :
      String → String → String → Registry J → Option (Option (WorkflowVersion J)) × Registry J
  unfolding disable_version
  retire_workflow_version workflow_id version actor db =
      let here = is_version workflow_id version in
      let rows = update_where here (retire actor db.now) db.workflow_versions in
      elim (find here db.workflow_versions) [
        | none ↦ (none, db)
        | some row ↦
            let tools : Dict (ToolDefinition J) =
              if is_active row.lifecycle_status
              then disable_version workflow_id version db.tools
              else db.tools in
            (some (find here rows), record db { workflow_versions = rows; tools = tools })
      ]

  -- True where a tool has the id.
  unfoldable pub update_tool_status : String → String → Registry J → Result Bool × Registry J
  update_tool_status tool_id status db =
      if not (mem status ("active" ∷ "disabled" ∷ []))
      then (err "status 只能是 active 或 disabled", db)
      else elim (Dict.get tool_id db.tools) [
        | none ↦ (ok false, db)
        | some tool ↦
            let tools = Dict.put tool_id (record tool { status = status }) db.tools in
            (ok true, record db { tools = tools })
      ]
