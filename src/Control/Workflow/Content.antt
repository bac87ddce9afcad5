-- ===== src/Control/Workflow/Content.antt =====
-- db.py of the control plane: what a published version holds, and the tool that stands for it.
use mathlib.Core.Option
use aegora.Prelude.{◌≡◌, String, true, Option, some, List, ◌==◌}
use aegora.Prelude.Dict
use aegora.Prelude.Dict.{Dict, get-put}
use aegora.Prelude.Rows.{find}
use aegora.Control.Workflow.{WorkflowVersion, ToolDefinition, Registry, is_version}
use aegora.Control.Workflow.History.{hash_at}

-- The hash and the manifest of a version.
abbrev pub content_at :
    {J : Type 0} → String → String → List (WorkflowVersion J) → Option (String × ToolDefinition J)
content_at w v rows =
    Option.map (λ r. (r.manifest_hash, r.manifest_json)) (find (is_version w v) rows)

-- A registered workflow has the hash of the version that it names.
abbrev pub Agrees : {J : Type 0} → Registry J → Type 0
Agrees {J} db =
    (w : String) (t : ToolDefinition J)
    → Dict.get w db.tools ≡ some t
    → (t.source == "workflow") ≡ true
    → hash_at w t.version db.workflow_versions ≡ some t.manifest_hash
