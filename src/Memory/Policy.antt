-- ===== src/Memory/Policy.antt =====
-- memory/policy.py: which memories an agent may recall, and where it writes. A lookup of a policy
-- can raise, since a default policy of a blank namespace is refused.
pub mod Recall
use aegora.Prelude.{
  ℕ, String, Bool, true, false, not, ◌&&◌, ◌||◌, Option, none, some, List, [], ◌∷◌, strip, truthy,
  nonempty, or_str, or_opt, opt_eq, mem, ◌==◌, if◌then◌else◌,
}
use aegora.Prelude.Dict
use aegora.Prelude.Dict.{Dict}
use aegora.Prelude.Result.{Result, ok, err, ◌>>=◌, raise_first}
use aegora.Memory.Models.{MemoryItem}

abbrev pub tenant_required : String
tenant_required = "tenant_required"

abbrev pub user_controlled : String
user_controlled = "user_controlled"

abbrev pub agent_private : String
agent_private = "agent_private"

pub record MemoryNamespacePolicy : Type 0 where
  pub namespace : String
  pub mode : String
  pub allow_public_agents : Bool

pub record MemoryGovernance : Type 0 where
  pub tenant_id : String
  pub agent_id : Option String
  pub agent_visibility : String
  pub namespace_policies : Dict MemoryNamespacePolicy
  pub user_preferences : Dict Bool

unfoldable pub make_policy : MemoryNamespacePolicy → Result MemoryNamespacePolicy
unfolding raise_first
make_policy p =
    let namespace = strip p.namespace in
    raise_first
      ((namespace == "", "memory namespace is required")
        ∷ (
          not (mem p.mode (tenant_required ∷ user_controlled ∷ agent_private ∷ [])),
          "unsupported memory policy mode",
        )
        ∷ [])
      (record p { namespace = namespace })

unfoldable pub policy_for : MemoryGovernance → String → Result MemoryNamespacePolicy
unfolding make_policy
policy_for g namespace = elim (Dict.get namespace g.namespace_policies) [
  | some policy ↦ ok policy
  | none ↦
      if namespace == "preferences"
      then make_policy (record {
        namespace = "preferences";
        mode = user_controlled;
        allow_public_agents = false;
      })
      else make_policy
          (record { namespace = namespace; mode = agent_private; allow_public_agents = false })
]

unfoldable pub share_enabled : MemoryGovernance → String → Option Bool
share_enabled g namespace = Dict.get namespace g.user_preferences

-- What the runtime context holds of the governance, its values read as texts and flags: a part
-- that is no dict is absent, and so is a value that is missing.
pub record RawPolicy : Type 0 where
  pub mode : Option String
  pub allow_public_agents : Bool

pub record RawGovernance : Type 0 where
  pub agent_identifier : Option String
  pub release_agent_id : Option String
  pub release_visibility : Option String
  pub agent_visibility : Option String
  pub raw_agent_visibility : Option String
  pub tenant_id : Option String
  pub namespace_policies : Dict (Option RawPolicy)
  pub user_preferences : Dict Bool

-- One round of the loop over `namespace_policies`: an entry that is no dict, or whose policy is
-- refused, is passed over.
add_policy :
    String → Result MemoryNamespacePolicy → Dict MemoryNamespacePolicy → Dict MemoryNamespacePolicy
add_policy namespace (ok policy) policies = Dict.put namespace policy policies
add_policy namespace (err e) policies = policies

unfoldable pub collect_policies :
    Dict (Option RawPolicy) → Dict MemoryNamespacePolicy → Dict MemoryNamespacePolicy
unfolding add_policy make_policy
collect_policies [] policies = policies
collect_policies ((namespace, none) ∷ rest) policies = collect_policies rest policies
collect_policies ((namespace, some item) ∷ rest) policies = collect_policies rest (
    add_policy namespace
      (make_policy (record {
        namespace = namespace;
        mode = or_str item.mode user_controlled;
        allow_public_agents = item.allow_public_agents;
      }))
      policies)

-- `str(value or "").strip()`
abbrev stripped : Option String → Option String
stripped none = none
stripped (some s) = some (strip s)

-- `value or None`
abbrev or_none : Option String → Option String
or_none s = or_opt s none

unfoldable pub governance_from_runtime_context : RawGovernance → Option String → MemoryGovernance
unfolding collect_policies
governance_from_runtime_context raw agent_id = record {
  tenant_id = or_str raw.tenant_id "default";
  agent_id =
      or_opt agent_id
        (or_opt (stripped raw.agent_identifier) (or_none (stripped raw.release_agent_id)));
  agent_visibility =
      or_str raw.release_visibility
        (or_str raw.agent_visibility (or_str raw.raw_agent_visibility "private"));
  namespace_policies = collect_policies raw.namespace_policies [];
  user_preferences = raw.user_preferences;
}

abbrev pub scope_of_mode : String → String
scope_of_mode mode =
    if mode == tenant_required
    then "tenant_user"
    else if mode == agent_private
    then "user_agent"
    else "user_global"

unfoldable pub write_scope_for : MemoryGovernance → String → Result String
write_scope_for g namespace = do policy ← policy_for g namespace; ok (scope_of_mode policy.mode)

module _ {F : Type 0} where
  -- The last two tests of `can_recall`, for a memory that all agents of the user may share.
  unfoldable pub can_recall_shared : MemoryItem F → MemoryGovernance → Bool
  unfolding share_enabled
  can_recall_shared item g =
      if truthy item.source_agent_id && opt_eq item.source_agent_id g.agent_id
      then true
      else elim (share_enabled g item.namespace) [
        | some explicit_share ↦ explicit_share
        | none ↦ not (truthy item.source_agent_id) || opt_eq item.source_agent_id (some "legacy")
      ]

  -- `can_recall`, from the policy on.
  unfoldable pub recall_under : MemoryNamespacePolicy → MemoryItem F → MemoryGovernance → Bool
  unfolding can_recall_shared
  recall_under policy item g =
      if g.agent_visibility == "public"
        && not policy.allow_public_agents
        && not (opt_eq item.source_agent_id g.agent_id)
      then false
      else if policy.mode == tenant_required
      then item.scope == "tenant_user"
      else if item.scope == "tenant_user"
      then false
      else if item.scope == "user_agent"
      then (if not (policy.mode == agent_private)
          then false
          else truthy g.agent_id && opt_eq (some (or_str item.metadata.agent_id "")) g.agent_id)
      else if not (item.scope == "user_global") || policy.mode == agent_private
      then false
      else can_recall_shared item g

  unfoldable pub can_recall : MemoryItem F → MemoryGovernance → Result Bool
  can_recall item g = do policy ← policy_for g item.namespace; ok (recall_under policy item g)

  -- One element's turn of the comprehension.
  abbrev pub keep_if : MemoryItem F → Bool → List (MemoryItem F) → List (MemoryItem F)
  keep_if item true items = item ∷ items
  keep_if item false items = items

  -- The first item whose policy is refused raises.
  unfoldable pub filter_recalled_items :
      List (MemoryItem F) → MemoryGovernance → Result (List (MemoryItem F))
  filter_recalled_items [] g = ok []
  filter_recalled_items (item ∷ items) g = do
    allowed ← can_recall item g
    rest ← filter_recalled_items items g
    ok (keep_if item allowed rest)
