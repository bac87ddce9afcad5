-- ===== src/Memory/Policy/Recall.antt =====
-- memory/policy.py: theorems on `can_recall` and `write_scope_for`.
use aegora.Prelude.{
  String, ◌≡◌, ◌≢◌, refl, ap, Bool, true, false, Option, none, some, arith, truthy, nonempty,
  or_str, opt_eq, ◌==◌, eq_iff, eq_refl,
}
use aegora.Prelude.Result.{ok, >>=-eq-ok, ok-injective}
use aegora.Memory.Models.{MemoryItem}
use aegora.Memory.Policy.{
  MemoryGovernance, MemoryNamespacePolicy, policy_for, recall_under, can_recall_shared, can_recall,
  scope_of_mode, write_scope_for, share_enabled, tenant_required, agent_private,
}

pub opt_eq→eq : (s t : Option String) → opt_eq s t ≡ true → s ≡ t
opt_eq→eq none none h = refl
opt_eq→eq none (some t) h = cc
opt_eq→eq (some s) none h = cc
opt_eq→eq (some s) (some t) h = ground (arith, eq_iff s t)

pub opt_eq_refl : (s : Option String) → opt_eq s s ≡ true
opt_eq_refl none = refl
opt_eq_refl (some s) = eq_refl s

module _ {F : Type 0} (item : MemoryItem F) (g : MemoryGovernance) where
  module _ (p : MemoryNamespacePolicy) (found : policy_for g item.namespace ≡ ok p)
      (recalled : can_recall item g ≡ ok true) where
    under : recall_under p item g ≡ true
    unfolding can_recall
    under = ground arith

    -- In a namespace that the tenant manages only the tenant's memories are recalled, and they are
    -- recalled in no other namespace.
    can_recall_tenant : (p.mode == tenant_required) ≡ (item.scope == "tenant_user")
    unfolding recall_under
    can_recall_tenant = ground (arith, under)

    -- An agent's own memory is recalled only in a private namespace, and only for an agent whose
    -- identifier is the memory's.
    can_recall_private :
        item.scope ≡ "user_agent"
        → (p.mode ≡ agent_private)
          × (item.metadata.agent_id ≡ g.agent_id)
          × (truthy g.agent_id ≡ true)
    unfolding recall_under
    can_recall_private own = ground (
      arith,
      under,
      eq_iff item.scope "user_agent",
      eq_iff item.scope "tenant_user",
      eq_iff "user_agent" "tenant_user",
      eq_iff p.mode agent_private,
      opt_eq→eq (some (or_str item.metadata.agent_id "")) g.agent_id,
    )

    -- A public agent that the namespace does not admit recalls only what it wrote itself.
    can_recall_public :
        g.agent_visibility ≡ "public"
        → p.allow_public_agents ≡ false
        → item.source_agent_id ≡ g.agent_id
    unfolding recall_under
    can_recall_public pub_ closed = ground (
      arith,
      under,
      eq_iff g.agent_visibility "public",
      opt_eq→eq item.source_agent_id g.agent_id,
    )

    -- Where the user has said whether a namespace is shared, a memory of another agent is recalled
    -- only if the user shares the namespace.
    can_recall_shared_only :
        (share : Bool)
        → share_enabled g item.namespace ≡ some share
        → item.scope ≡ "user_global"
        → item.source_agent_id ≢ g.agent_id
        → share ≡ true
    unfolding recall_under can_recall_shared
    can_recall_shared_only share chosen global other = ground (
      arith,
      under,
      eq_iff item.scope "user_global",
      eq_iff item.scope "user_agent",
      eq_iff item.scope "tenant_user",
      eq_iff "user_global" "tenant_user",
      eq_iff "user_global" "user_agent",
      opt_eq→eq item.source_agent_id g.agent_id,
    )

  -- What an agent writes under a policy it recalls under it.
  recall_under-scope_of_mode :
      (p : MemoryNamespacePolicy) (a : String)
      → scope_of_mode p.mode ≡ item.scope
      → nonempty a ≡ true
      → g.agent_id ≡ some a
      → item.source_agent_id ≡ some a
      → (item.scope ≡ "user_agent" → item.metadata.agent_id ≡ some a)
      → recall_under p item g ≡ true
  unfolding recall_under can_recall_shared
  recall_under-scope_of_mode p a scoped named agent source own = ground (
    arith,
    own,
    eq_refl a,
    eq_iff item.scope "tenant_user",
    eq_iff item.scope "user_agent",
    eq_iff item.scope "user_global",
    eq_iff "user_agent" "tenant_user",
    eq_iff "user_global" "tenant_user",
    eq_iff "user_global" "user_agent",
  )

  -- An agent recalls what it writes to a namespace: a memory in the scope that the policy gives the
  -- agent's writes, with the agent as its source, and as its owner where the scope is private, is
  -- recalled under the same governance, also by a public agent.
  pub can_recall-write_scope_for :
      (a : String)
      → write_scope_for g item.namespace ≡ ok item.scope
      → nonempty a ≡ true
      → g.agent_id ≡ some a
      → item.source_agent_id ≡ some a
      → (item.scope ≡ "user_agent" → item.metadata.agent_id ≡ some a)
      → can_recall item g ≡ ok true
  unfolding can_recall write_scope_for
  can_recall-write_scope_for a scoped named agent source own =
      let (p, found, same) = >>=-eq-ok (policy_for g item.namespace) _ scoped in
      rw found (ap ok (recall_under-scope_of_mode p a (ok-injective same) named agent source own))
