-- ===== src/Tests/Contexts.antt =====
-- Who may run an agent, and with which tools.
use aegora.Prelude.{◌≡◌, ◌↔◌, refl, String, true, false, Option, none, some, [], ◌∷◌, mem, All}
use aegora.Prelude.Dict
use aegora.Prelude.Dict.{Dict}
use aegora.Prelude.Result.{ok}
use aegora.Runtime.Context.Scope.{
  Scope, RawScope, RawValues, insert_text, sorted_set, clean_values, normalize_scope, values_of,
  covered, raw_or_empty, scope_is_subset, as_raw,
}
use aegora.Runtime.Context.Authz.{
  Tool, Authz, ids_of, effective_tools, snapshot_role_tool_scopes, capabilities, tool_ids,
  within_created, within_current, verdict, judge, file_under, judge_all, authorise,
  apply_runtime_tool_authz,
}
use aegora.Runtime.Context.Authz.Narrowing.{Granted, grants, apply_runtime_tool_authz-IsNarrow}
use aegora.Runtime.Context.Gate.{RuntimeContext, Users, validate_runtime_context}
use aegora.Runtime.Context.Gate.Admission.{IsAdmitted, validate_runtime_context-IsAdmitted}

abbrev search_tool : Tool String
search_tool = record {
  tool_id = "search";
  scope = ("product", "aicoin" ∷ []) ∷ [];
  policy = "read";
}

abbrev refund_tool : Tool String
refund_tool = record { tool_id = "refund"; scope = []; policy = "write" }

abbrev role_scopes : String → Dict Scope
role_scopes user = ("search", ("product", "aicoin" ∷ "kiosk" ∷ []) ∷ []) ∷ []

abbrev snapshot : Dict (Option RawScope)
snapshot =
    ("search", some (("product", RawValues.listed (some "aicoin" ∷ [])) ∷ []))
    ∷ ("refund", none)
    ∷ []

abbrev created : Dict Scope
created = ("search", ("product", "aicoin" ∷ []) ∷ []) ∷ ("refund", []) ∷ []

abbrev result : Authz String
result = record {
  tools = search_tool ∷ [];
  policy = record {
    runtime_authz_filtered = "refund" ∷ [];
    scope_denied_tools = [];
    runtime_authz_reason = none;
    runtime_authz_source = some "role_tool_permissions";
  };
}

created_lem : snapshot_role_tool_scopes snapshot ≡ ok created
unfolding snapshot_role_tool_scopes normalize_scope clean_values sorted_set insert_text
created_lem = refl

result_lem :
    apply_runtime_tool_authz (search_tool ∷ refund_tool ∷ []) (some "ann") snapshot role_scopes
    ≡ ok result
unfolding apply_runtime_tool_authz authorise snapshot_role_tool_scopes normalize_scope clean_values
    sorted_set insert_text tool_ids effective_tools capabilities ids_of judge_all judge verdict
    file_under within_created within_current scope_is_subset raw_or_empty as_raw covered values_of
    Dict.get mem
result_lem = refl

apply_runtime_tool_authz-IsNarrow_example :
    All (Granted created (grants (some "ann") role_scopes)) (search_tool ∷ [])
apply_runtime_tool_authz-IsNarrow_example =
    apply_runtime_tool_authz-IsNarrow (search_tool ∷ refund_tool ∷ []) (some "ann") snapshot
      role_scopes created result result_lem created_lem

abbrev context : RuntimeContext
context = record {
  status = "published";
  release_visibility = some "private";
  enabled = true;
  owner_user_id = some "ann";
  channels = "web" ∷ [];
  actor_id = some "ann";
  channel = some "web";
}

abbrev users : Users
users = record { user_is_active = λ user. true; user_has_role = λ user role. false }

validate_runtime_context-IsAdmitted_example :
    (validate_runtime_context context users ≡ none) ↔ IsAdmitted context users
validate_runtime_context-IsAdmitted_example = validate_runtime_context-IsAdmitted context users
