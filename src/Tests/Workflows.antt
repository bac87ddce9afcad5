-- ===== src/Tests/Workflows.antt =====
-- A workflow with a version that is published again, changed, and followed by another.
use aegora.Prelude.{
  ◌≡◌, String, true, false, Option, none, List, [], ◌∷◌, ◌⊎◌, not, ◌||◌, any, mem, arith, ◌==◌,
}
use aegora.Prelude.Dict
use aegora.Prelude.Result.{ok, err}
use aegora.Prelude.Rows.{find, count}
use aegora.Runtime.Context.Scope.{Scope, values_of}
use aegora.Control.Workflow.{
  ToolDefinition, Registry, WorkflowVersion, hash_of, changed, publish_workflow_version, is_version,
}
use aegora.Control.Workflow.Lifecycle.{IsWellFormed}
use aegora.Control.Workflow.History.{Operation, perform_all, perform_all-IsWellFormed}
use aegora.Control.Workflow.Published.{IsPublished, publish_workflow_version-IsPublished}
use aegora.Control.Authz.{scope_at, merge_tool_scopes}
use aegora.Control.Authz.Merged.{grants, merge_tool_scopes-any}

abbrev digest : ToolDefinition String → String
digest tool = tool.rest

abbrev workflow : String → String → ToolDefinition String
workflow version content = record {
  tool_id = "refund";
  status = "active";
  source = "workflow";
  version = version;
  mcp_connection_id = none;
  manifest_hash = "";
  rest = content;
}

abbrev empty_registry : Registry String
empty_registry = record { workflow_versions = []; tools = []; now = 0 }

abbrev first : Operation String
first = Operation.publish (workflow "v1" "a") "ann" 1

abbrev later : List (Operation String)
later =
    Operation.publish (workflow "v1" "b") "ann" 2
    ∷ Operation.publish (workflow "v2" "c") "ann" 3
    ∷ Operation.retire_version "refund" "v2" "bob" 4
    ∷ Operation.publish (workflow "v1" "a") "ann" 5
    ∷ []

abbrev one_version : Registry String
one_version = perform_all digest (first ∷ []) empty_registry

empty-IsWellFormed : IsWellFormed {J = String} []
unfolding count
empty-IsWellFormed = record { keyed = λ w v. omega arith; one_active = λ w. omega arith }

perform_all-IsWellFormed_example :
    IsWellFormed (perform_all digest (first ∷ later) empty_registry).workflow_versions
perform_all-IsWellFormed_example =
    perform_all-IsWellFormed digest (first ∷ later) empty_registry empty-IsWellFormed

publish_workflow_version-IsPublished_example :
    let tool = workflow "v2" "c" in
    let (said, after) = publish_workflow_version digest tool "ann" one_version in
    let refused =
      not (tool.source == "workflow")
      || changed
          (find (is_version tool.tool_id tool.version) one_version.workflow_versions)
          (hash_of digest tool) in
    ((refused ≡ true) × (after ≡ one_version) × ((message : String) × (said ≡ err message)))
    ⊎ ((refused ≡ false)
        × IsPublished digest tool "ann" one_version after
        × ((summary : Option (WorkflowVersion String)) × (said ≡ ok summary)))
publish_workflow_version-IsPublished_example =
    publish_workflow_version-IsPublished digest (workflow "v2" "c") "ann" one_version

abbrev rows : List (String × Scope)
rows =
    ("search", ("product", "tea" ∷ []) ∷ [])
    ∷ ("search", ("product", "milk" ∷ "tea" ∷ []) ∷ [])
    ∷ ("remove", [])
    ∷ []

merge_tool_scopes-any_example :
    mem "milk" (values_of "product" (scope_at "search" (merge_tool_scopes rows)))
    ≡ any (grants "search" "product" "milk") rows
merge_tool_scopes-any_example = merge_tool_scopes-any "search" "product" "milk" rows
