-- ===== src/Control/Access/Allowed.antt =====
-- api.py of the control plane: exactly when a run is allowed, and with which tools.
use aegora.Prelude.{
  ◌≡◌, refl, ap, ◌∙◌, String, Bool, true, false, not, ◌&&◌, Option, some, List, [], ◌∷◌, mem, map,
  keep, is_some, All, arith, Bool-cases, Option-cases, inl, inr, ◌↔◌, ◌==◌, eq_iff,
}
use aegora.Control.Authz.{effective_tools}
use aegora.Control.Platform.{
  returned, Release, Platform, is_published, user_is_active, get_user_role_tool_scopes, active_tool,
  active_tool_ids, fetch_agent_release,
}
use aegora.Control.Access.{
  RunnerAgent, released_agent, Gate, keys, pass_gates, can_run_agent, agent_is_enabled,
  released_tools, release_gates, release_tools, resolve_release_access,
}

pub mem-keep :
    (q : String → Bool) (t : String) (xs : List String) → mem t (keep q xs) ≡ (mem t xs && q t)
unfolding mem keep
mem-keep q t [] = refl
mem-keep q t (x ∷ xs) = elim (Bool-cases (q x)) [
  | inl e ↦ ground (arith, eq_iff t x, mem-keep q t xs, ap q)
  | inr e ↦ ground (arith, eq_iff t x, mem-keep q t xs)
]

module _ {J : Type 0} where
  pub pass_gates-returned :
      {A : Type 0} (gates : List Gate) (agent_id : Option String) (actor : String) (answer a : A)
      (p : Platform J)
      → ((pass_gates gates agent_id actor answer p).0 ≡ returned a)
        ↔ (All (λ gate. gate.failed ≡ false) gates × (answer ≡ a))
  unfolding pass_gates
  pass_gates-returned [] agent_id actor answer a p = (λ h. (tt, cc), λ h. ap returned h.1)
  pass_gates-returned (gate ∷ gates) agent_id actor answer a p =
      let rest = pass_gates-returned gates agent_id actor answer a p in
      elim (Bool-cases gate.failed) [
        | inl e ↦ (λ h. let no = rw (e, pass_gates) at h in cc, λ h. let no = h.0.0 in cc)
        | inr e ↦ (
          λ h. let (passed, same) = rest.0 (rw (e, pass_gates) at h) in ((e, passed), same),
          λ h. rw (e, pass_gates) (rest.1 (h.0.1, h.1)),
        )
      ]

  pub pass_gates-unchanged :
      {A : Type 0} (gates : List Gate) (agent_id : Option String) (actor : String) (answer a : A)
      (p : Platform J)
      → (pass_gates gates agent_id actor answer p).0 ≡ returned a
      → (pass_gates gates agent_id actor answer p).1 ≡ p
  unfolding pass_gates
  pass_gates-unchanged [] agent_id actor answer a p h = refl
  pass_gates-unchanged (gate ∷ gates) agent_id actor answer a p h = elim (Bool-cases gate.failed) [
    | inl e ↦ let no = rw (e, pass_gates) at h in cc
    | inr e ↦
        rw (e, pass_gates)
          (pass_gates-unchanged gates agent_id actor answer a p (rw (e, pass_gates) at h))
  ]

  -- A run of a release is answered: the release is published, the agent enabled by the platform and
  -- in the release, the actor active and entitled, and the channel listed.
  pub record IsRunnable (agent_id actor channel : String) (r : Release J) (p : Platform J)
      : Type 0 where
    pub published : is_published r.status ≡ true
    pub enabled : agent_is_enabled agent_id p ≡ true
    pub entitled :
        let agent = released_agent r p in
        can_run_agent actor agent.visibility agent.owner_user_id agent.members p ≡ true
    pub released_enabled : (released_agent r p).enabled ≡ true
    pub active : user_is_active actor p ≡ true
    pub listed : mem channel (released_agent r p).channels ≡ true

  release_gates-IsRunnable :
      (agent_id actor channel : String) (r : Release J) (p : Platform J)
      → All (λ gate. gate.failed ≡ false) (release_gates agent_id r actor channel p)
        ↔ IsRunnable agent_id actor channel r p
  unfolding release_gates
  release_gates-IsRunnable agent_id actor channel r p = (
    λ h. record {
      published = ground (arith, h.0);
      enabled = ground (arith, h.1.0);
      entitled = ground (arith, h.1.1.0);
      released_enabled = ground (arith, h.1.1.1.0);
      active = ground (arith, h.1.1.1.0);
      listed = ground (arith, h.1.1.1.1.0);
    },
    λ h. (
      rw h.published refl,
      (
        rw h.enabled refl,
        (rw h.entitled refl, (rw (h.released_enabled, h.active) refl, (rw h.listed refl, tt))),
      ),
    ),
  )

  -- The tools of a run: with an id and in the release, active now as their connection is, and
  -- granted by a role now.
  mem-release_tools :
      (t actor : String) (r : Release J) (p : Platform J)
      → mem t (release_tools r actor p) ≡ (
          mem t (map (λ tool. tool.0.tool_id) r.config_json.tools)
          && not (t == "")
          && is_some (active_tool t p)
          && mem t (keys (get_user_role_tool_scopes actor p)))
  unfolding release_tools effective_tools released_tools active_tool_ids
  mem-release_tools t actor r p =
      let ids = map (λ tool. tool.0.tool_id) r.config_json.tools in
      let named = keep (λ u. not (u == "")) ids in
      let released = released_tools r p in
      let granted = keys (get_user_role_tool_scopes actor p) in
      let last = mem-keep (λ u. mem u released && mem u granted) t released in
      let middle = mem-keep (λ u. is_some (active_tool u p)) t named in
      let first = mem-keep (λ u. not (u == "")) t ids in last ∙ ground (arith, middle, first)

  abbrev pub run_of : Release J → String → Platform J → RunnerAgent × List String
  run_of r actor p = (released_agent r p, release_tools r actor p)

  access_given :
      (agent_id release_id actor channel : String) (agent : RunnerAgent) (allowed : List String)
      (r : Release J) (p : Platform J)
      → fetch_agent_release agent_id release_id p ≡ some r
      → ((resolve_release_access agent_id release_id actor channel p).0 ≡ returned (agent, allowed))
        ↔ (IsRunnable agent_id actor channel r p × (run_of r actor p ≡ (agent, allowed)))
  unfolding resolve_release_access
  access_given agent_id release_id actor channel agent allowed r p found =
      let gates = release_gates agent_id r actor channel p in
      let given = run_of r actor p in
      let passing = pass_gates-returned gates (some agent_id) actor given (agent, allowed) p in
      let runs = release_gates-IsRunnable agent_id actor channel r p in
      (
        λ h.
            let (passed, same) = passing.0 (rw (found, resolve_release_access) at h) in
            (runs.0 passed, same),
        λ h. rw (found, resolve_release_access) (passing.1 (runs.1 h.0, h.1)),
      )

  -- The access to a release is given exactly when the release is there and runnable. It comes with the
  -- agent as released, and with exactly the tools of the release that have an id, are active now as
  -- their connection is, and are granted to the actor by a role now.
  pub resolve_release_access-IsRunnable :
      (agent_id release_id actor channel : String) (agent : RunnerAgent) (allowed : List String)
      (p : Platform J)
      → (((resolve_release_access agent_id release_id actor channel p).0
            ≡ returned (agent, allowed))
          ↔ ((r : Release J) × (fetch_agent_release agent_id release_id p ≡ some r)
              × IsRunnable agent_id actor channel r p
              × (run_of r actor p ≡ (agent, allowed))))
        × ((t : String) (r : Release J)
            → mem t (release_tools r actor p) ≡ (
                mem t (map (λ tool. tool.0.tool_id) r.config_json.tools)
                && not (t == "")
                && is_some (active_tool t p)
                && mem t (keys (get_user_role_tool_scopes actor p))))
  unfolding resolve_release_access
  resolve_release_access-IsRunnable agent_id release_id actor channel agent allowed p = (
    (
      λ h. elim (Option-cases (fetch_agent_release agent_id release_id p)) [
        | inl absent ↦ let no = rw (absent, resolve_release_access) at h in cc
        | inr (r, found) ↦
            let (runs, same) =
              (access_given agent_id release_id actor channel agent allowed r p found).0 h in
            (r, found, runs, same)
      ],
      λ h. (access_given agent_id release_id actor channel agent allowed h.0 p h.1).1 (h.2, h.3),
    ),
    λ t r. mem-release_tools t actor r p,
  )
