-- ===== src/Control/Agents/Granted.antt =====
-- The drafts of agents: a draft never holds what the roles of its owner do not grant.
use aegora.Prelude.{
  ◌≡◌, refl, sym, ◌∙◌, String, Bool, true, false, not, Option, none, some, List, [], ◌∷◌, All, any,
  mem, map, keep, is_some, arith, and_true, Bool-cases, Option-cases, inl, inr, ◌==◌, eq_iff,
  if◌then◌else◌,
}
use aegora.Prelude.Dict
use aegora.Prelude.Dict.{Dict, get-put_self}
use aegora.Runtime.Context.Scope.{Scope, values_of}
use aegora.Runtime.Context.Scope.Subset.{all-mem, covered-mem}
use aegora.Control.Authz.{
  normalize_scope, scope_at, scope_is_subset, validate_configured_tools, validate_tool_scopes,
}
use aegora.Control.Authz.Merged.{grants, mem-normalize_scope, merge_tool_scopes-any}
use aegora.Control.Platform.{
  Reply, Reply-cases, raised, returned, Agent, Platform, user_is_active, applies,
  get_user_role_tool_scopes, active_tool, active_tool_ids, record_permission_event,
}
use aegora.Control.Access.{keys, pass_gates}
use aegora.Control.Access.Allowed.{mem-keep, pass_gates-returned, pass_gates-unchanged}
use aegora.Control.Releases.{managed_agent}
use aegora.Control.Releases.Publication.{MayManage, managed_agent-MayManage}
use aegora.Control.Agents.{
  AgentRequest, normalize_agent_tool_request, all_active, write_gates, create_gates, save_agent,
  create_agent, store_update, update_agent,
}

scope_at-cons :
    (u t : String) (scope : Scope) (tools : Dict Scope)
    → scope_at t ((u, scope) ∷ tools) ≡ (if u == t then scope else scope_at t tools)
unfolding scope_at Dict.get
scope_at-cons u t scope tools = ground arith

abbrev or_empty : Option Scope → Scope
or_empty none = []
or_empty (some scope) = scope

scope_at-get : (t : String) (tools : Dict Scope) → or_empty (Dict.get t tools) ≡ scope_at t tools
unfolding scope_at
scope_at-get t tools = elim (Option-cases (Dict.get t tools)) [
  | inl e ↦ rw (e, scope_at)
  | inr (s, e) ↦ rw (e, scope_at)
]

nothing_in_empty : (t k v : String) → mem v (values_of k (scope_at t [])) ≡ true → ⊥
unfolding scope_at values_of Dict.get mem
nothing_in_empty t k v m = cc

unnegate : (b : Bool) → not b ≡ false → b ≡ true
unnegate true h = refl
unnegate false h = cc

scope_is_subset-allows :
    (requested : Scope) (allowed : Option Scope) (k v : String)
    → scope_is_subset requested allowed ≡ true
    → mem v (values_of k requested) ≡ true
    → mem v (values_of k (or_empty allowed)) ≡ true
unfolding scope_is_subset
scope_is_subset-allows requested none k v h m =
    covered-mem (normalize_scope requested) [] k v h (mem-normalize_scope k v requested ∙ m)
scope_is_subset-allows requested (some allowed) k v h m =
    sym (mem-normalize_scope k v allowed)
    ∙ covered-mem (normalize_scope requested) (normalize_scope allowed) k v h
        (mem-normalize_scope k v requested ∙ m)

-- The scopes of a request that was validated are within those of the roles.
validate_tool_scopes-allows :
    (tools roles : Dict Scope) (t k v : String)
    → validate_tool_scopes tools roles ≡ true
    → mem v (values_of k (scope_at t tools)) ≡ true
    → mem v (values_of k (scope_at t roles)) ≡ true
unfolding validate_tool_scopes
validate_tool_scopes-allows [] roles t k v h m = absurd (nothing_in_empty t k v m)
validate_tool_scopes-allows ((u, scope) ∷ tools) roles t k v h m =
    let (here, rest) =
      and_true (scope_is_subset scope (Dict.get u roles)) (validate_tool_scopes tools roles) h in
    elim (Bool-cases (u == t)) [
      | inl e ↦
          let same : u ≡ t = (eq_iff u t).0 e in
          let found =
            scope_is_subset-allows scope (Dict.get u roles) k v here
              (rw (scope_at-cons u t scope tools, e) at m) in
          rw (← same, ← scope_at-get u roles) found
      | inr e ↦
          validate_tool_scopes-allows tools roles t k v rest
            (rw (scope_at-cons u t scope tools, e) at m)
    ]

module _ {J : Type 0} where
  -- The permissions of the active roles of a user, as the query reads them.
  abbrev pub role_rows : String → Platform J → List (String × Scope)
  role_rows owner p = map (λ row. (row.1, row.2)) (keep (applies owner p) p.role_tool_permissions)

  -- The tools are active and granted to the owner, with no value in a scope that no role grants.
  pub record IsGranted (tool_scopes : Dict Scope) (owner : String) (p : Platform J) : Type 0 where
    pub active : (t : String) → mem t (keys tool_scopes) ≡ true → is_some (active_tool t p) ≡ true
    pub permitted :
        (t : String)
        → mem t (keys tool_scopes) ≡ true
        → mem t (keys (get_user_role_tool_scopes owner p)) ≡ true
    pub scoped :
        (t k v : String)
        → mem v (values_of k (scope_at t tool_scopes)) ≡ true
        → any (grants t k v) (role_rows owner p) ≡ true

  write_gates-IsGranted :
      (tool_scopes : Dict Scope) (owner : String) (needs_role : Bool) (p : Platform J)
      → All
          (λ gate. gate.failed ≡ false)
          (write_gates tool_scopes (get_user_role_tool_scopes owner p) needs_role p)
      → IsGranted tool_scopes owner p
  unfolding write_gates all_active active_tool_ids validate_configured_tools
      get_user_role_tool_scopes
  write_gates-IsGranted tool_scopes owner needs_role p h =
      let names = keys tool_scopes in
      let roles = get_user_role_tool_scopes owner p in
      let (configured, scopes) = and_true _ _ (unnegate _ h.1.1.0) in
      record {
        active = λ t named.
            let kept =
              all-mem (λ u. mem u (active_tool_ids names p)) t names (unnegate _ h.0) named in
            (and_true (mem t names) (is_some (active_tool t p))
              (sym (mem-keep (λ u. is_some (active_tool u p)) t names) ∙ kept)).1;
        permitted = λ t named. all-mem (λ u. mem u (keys roles)) t names configured named;
        scoped = λ t k v m.
            sym (merge_tool_scopes-any t k v (role_rows owner p))
            ∙ validate_tool_scopes-allows tool_scopes roles t k v scopes m;
      }

  -- The draft that a request leaves.
  pub record IsDraft (agent_id owner : String) (request : AgentRequest) (p after : Platform J)
      : Type 0 where
    pub draft : Agent
    pub stored : Dict.get agent_id after.agents ≡ some draft
    pub owned : draft.owner_user_id ≡ owner
    pub asked : draft.tool_scopes ≡ normalize_agent_tool_request request
    pub granted : IsGranted draft.tool_scopes owner p

  saved-IsDraft :
      (agent_id owner : String) (request : AgentRequest) (p : Platform J)
      → IsGranted (normalize_agent_tool_request request) owner p
      → IsDraft agent_id owner request p (save_agent agent_id owner request p)
  unfolding save_agent
  saved-IsDraft agent_id owner request p granted = record {
    draft = _;
    stored = get-put_self agent_id p.agents;
    owned = refl;
    asked = refl;
    granted = granted;
  }

  -- An agent that is created belongs to an active owner, and its tools are active and are granted by
  -- the active roles of the owner, each with no value in its scope that none of these roles grants.
  pub create_agent-IsGranted :
      (current_user : Reply String) (agent_id owner : String) (request : AgentRequest)
      (tools : List String) (p : Platform J)
      → (create_agent current_user agent_id owner request p).0 ≡ returned tools
      → (user_is_active owner p ≡ true)
        × IsDraft agent_id owner request p (create_agent current_user agent_id owner request p).1
  unfolding create_agent create_gates
  create_agent-IsGranted (raised code detail) agent_id owner request tools p h = cc
  create_agent-IsGranted (returned actor) agent_id owner request tools p h =
      let scopes = normalize_agent_tool_request request in
      let gates = create_gates actor owner scopes p in
      elim (Reply-cases (pass_gates gates none owner (keys scopes) p).0) [
        | inr (code, detail, e) ↦ let no = rw (e, create_agent) at h in cc
        | inl (answer, e) ↦
            let passed = ((pass_gates-returned gates none owner (keys scopes) answer p).0 e).0 in
            let same = pass_gates-unchanged gates none owner (keys scopes) answer p e in
            let granted = write_gates-IsGranted scopes owner true p passed.1.1.1 in
            (
              unnegate _ passed.1.1.0,
              rw (e, create_agent) (rw same (saved-IsDraft agent_id owner request p granted)),
            )
      ]

  -- A draft that is updated was so by someone who may manage the agent. It keeps its owner, and its
  -- tools are active and are granted by the active roles of the owner, each with no value in its scope
  -- that none of these roles grants.
  pub update_agent-IsGranted :
      (current_user : Reply String) (agent_id claimed : String) (request : AgentRequest)
      (tools : List String) (p : Platform J)
      → (update_agent current_user agent_id claimed request p).0 ≡ returned tools
      → (agent : Agent) × MayManage current_user claimed agent_id agent p
        × IsDraft agent_id agent.owner_user_id request p
            (update_agent current_user agent_id claimed request p).1
  unfolding update_agent store_update record_permission_event
  update_agent-IsGranted current_user agent_id claimed request tools p h =
      let scopes = normalize_agent_tool_request request in
      elim (Reply-cases (managed_agent current_user agent_id claimed p)) [
        | inr (code, detail, f) ↦ let no = rw (f, update_agent) at h in cc
        | inl (who, f) ↦
            let (may, named) =
              managed_agent-MayManage current_user agent_id claimed who.0 who.1 p f in
            let gates =
              write_gates scopes (get_user_role_tool_scopes who.1.owner_user_id p) false p in
            elim (Reply-cases (pass_gates gates (some agent_id) who.0 (keys scopes) p).0) [
              | inr (code, detail, e) ↦
                  let one = rw (f, update_agent) at h in let no = rw e at one in cc
              | inl (answer, e) ↦
                  let passed =
                    ((pass_gates-returned gates (some agent_id) who.0 (keys scopes) answer p).0
                      e).0 in
                  let same =
                    pass_gates-unchanged gates (some agent_id) who.0 (keys scopes) answer p e in
                  (
                    who.1,
                    may,
                    rw (f, update_agent)
                        (rw e (
                          rw same (record {
                            draft = _;
                            stored = get-put_self agent_id p.agents;
                            owned = refl;
                            asked = refl;
                            granted =
                                write_gates-IsGranted scopes who.1.owner_user_id false p passed;
                          }))),
                  )
            ]
      ]
