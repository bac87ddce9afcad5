-- ===== src/Control/Releases/Publication.antt =====
-- The releases of agents: what a publication and a revocation leave behind, and who may call them.
use aegora.Prelude.{
  ℕ, ◌≤◌, ◌<◌, ◌≡◌, refl, sym, ap, ◌∙◌, String, true, some, List, [], ◌∷◌, All, arith, Bool-cases,
  Option-cases, inl, inr, ◌==◌, eq_iff, eq_refl,
}
use aegora.Prelude.Dict
use aegora.Prelude.Dict.{Dict}
use aegora.Prelude.Rows.{find, All-map}
use aegora.Control.Platform.{
  Reply, Reply-cases, raised, returned, returned-injective, Agent, Release, ReleaseConfig, Platform,
  is_published, user_is_active, fetch_agent_release, max_version,
}
use aegora.Control.Access.{can_manage_agent, require_current_actor}
use aegora.Control.Releases.Snapshot.{IsSnapshot, release_config_snapshot-IsSnapshot}
use aegora.Control.Releases.{
  release_config_snapshot, next_release_version, managed_agent, publish_agent, save_agent_release,
  publish_event,
}

module _ {J : Type 0} where
  -- The caller is who they claim to be, is active, and owns the agent or administers the platform.
  pub record MayManage (current_user : Reply String) (claimed agent_id : String) (agent : Agent)
      (p : Platform J) : Type 0 where
    pub known : current_user ≡ returned claimed
    pub active : user_is_active claimed p ≡ true
    pub stored : Dict.get agent_id p.agents ≡ some agent
    pub entitled : can_manage_agent claimed agent p ≡ true

  current_actor :
      (current_user : Reply String) (claimed actor : String) (p : Platform J)
      → require_current_actor current_user claimed p ≡ returned actor
      → (current_user ≡ returned claimed) × (user_is_active claimed p ≡ true) × (actor ≡ claimed)
  unfolding require_current_actor
  current_actor (raised code detail) claimed actor p h = cc
  current_actor (returned user) claimed actor p h = elim (Bool-cases (user == claimed)) [
    | inr other ↦ let no = rw other at h in cc
    | inl same ↦
        let e : user ≡ claimed = (eq_iff user claimed).0 same in
        elim (Bool-cases (user_is_active user p)) [
          | inr off ↦ let no = rw (same, off) at h in cc
          | inl on ↦
              let f = rw (same, on) at h in
              (ap returned e, rw (← e) on, sym (returned-injective f) ∙ e)
        ]
  ]

  pub managed_agent-MayManage :
      (current_user : Reply String) (agent_id claimed actor : String) (agent : Agent)
      (p : Platform J)
      → managed_agent current_user agent_id claimed p ≡ returned (actor, agent)
      → MayManage current_user claimed agent_id agent p × (actor ≡ claimed)
  unfolding managed_agent
  managed_agent-MayManage current_user agent_id claimed actor agent p h =
      elim (Reply-cases (require_current_actor current_user claimed p)) [
        | inr (code, detail, e) ↦ let no = rw (e, managed_agent) at h in cc
        | inl (user, e) ↦ elim (Option-cases (Dict.get agent_id p.agents)) [
          | inl f ↦ let no = rw (e, managed_agent) at h in let more = rw f at no in cc
          | inr (found, f) ↦ elim (Bool-cases (can_manage_agent user found p)) [
            | inr g ↦
                let no = rw (e, managed_agent) at h in
                let more = rw f at no in let last = rw g at more in cc
            | inl g ↦
                let one = rw (e, managed_agent) at h in
                let two = rw f at one in
                let three = rw g at two in
                let (known, active, same) = current_actor current_user claimed user p e in
                let pair = returned-injective three in
                let b : found ≡ agent = ap (λ x. x.1) pair in
                (
                  record {
                    known = known;
                    active = active;
                    stored = f ∙ ap some b;
                    entitled = rw (← same, ← b) g;
                  },
                  sym (ap (λ x. x.0) pair) ∙ same,
                )
          ]
        ]
      ]

  -- No release of the agent has a greater version.
  max_version-All :
      (agent_id : String) (rows : List (Release J))
      → All (λ r. r.agent_id == agent_id ≡ true → r.version ≤ max_version agent_id rows) rows
  unfolding max_version
  max_version-All agent_id [] = tt
  max_version-All agent_id (r ∷ rows) = (
    λ e. ground arith,
    All-map (λ x h e. ground (arith, h e)) rows (max_version-All agent_id rows),
  )

  -- What a publication leaves behind.
  pub record IsNewest (release_id agent_id claimed : String) (version : ℕ) (agent : Agent)
      (p after : Platform J) : Type 0 where
    pub row : Release J
    pub stored : fetch_agent_release agent_id release_id after ≡ some row
    pub runnable : is_published row.status ≡ true
    pub numbered : row.version ≡ version
    pub snapshot : IsSnapshot agent_id claimed agent p row.config_json
    pub newest : All (λ r. r.agent_id == agent_id ≡ true → r.version < version) p.releases
    pub kept : after.releases ≡ row ∷ p.releases
    pub announced :
        after.cache_events
        ≡ record {
          event_type = "release.published";
          agent_id = agent_id;
          release_id = release_id;
          release_version = version;
        }
          ∷ p.cache_events

  saved-IsNewest :
      (release_id agent_id actor claimed : String) (agent : Agent) (config : ReleaseConfig J)
      (p : Platform J)
      → IsSnapshot agent_id claimed agent p config
      → let version = next_release_version agent_id p in
        IsNewest release_id agent_id claimed version agent p (
          publish_event "release.published" agent_id release_id version
            (save_agent_release release_id agent_id version config actor p))
  unfolding next_release_version save_agent_release publish_event fetch_agent_release find
  saved-IsNewest release_id agent_id actor claimed agent config p holds = record {
    row = _;
    stored = rw (eq_refl release_id, eq_refl agent_id);
    runnable = refl;
    numbered = refl;
    snapshot = holds;
    newest = All-map (λ r h e. omega (arith, h e)) p.releases (max_version-All agent_id p.releases);
    kept = refl;
    announced = refl;
  }

  -- A publication that is answered was called by someone who may manage the agent. It puts one row
  -- first in the table and changes no other: a published release with a version above those of all the
  -- agent's earlier releases. It holds the agent as it is now, for each of its tools, all active, the
  -- manifest of now and the agent's scope, and the caller with their roles and what these grant. The
  -- release is announced to the caches.
  pub publish_agent-IsNewest :
      (current_user : Reply String) (release_id agent_id claimed : String) (version : ℕ)
      (p : Platform J)
      → (publish_agent current_user release_id agent_id claimed p).0 ≡ returned version
      → (agent : Agent) × MayManage current_user claimed agent_id agent p
        × IsNewest release_id agent_id claimed version agent p
            (publish_agent current_user release_id agent_id claimed p).1
  unfolding publish_agent
  publish_agent-IsNewest current_user release_id agent_id claimed version p h =
      elim (Reply-cases (managed_agent current_user agent_id claimed p)) [
        | inr (code, detail, e) ↦ let no = rw (e, publish_agent) at h in cc
        | inl (who, e) ↦ elim (Reply-cases (release_config_snapshot agent_id who.1 who.0 p)) [
          | inr (code, detail, f) ↦
              let no = rw (e, publish_agent) at h in let more = rw f at no in cc
          | inl (config, f) ↦
              let one = rw (e, publish_agent) at h in
              let same = returned-injective (rw f at one) in
              let (may, named) =
                managed_agent-MayManage current_user agent_id claimed who.0 who.1 p e in
              (
                who.1,
                may,
                rw (e, publish_agent)
                    (rw (f, ← same)
                      (saved-IsNewest release_id agent_id who.0 claimed who.1 config p (
                        rw named at
                          (release_config_snapshot-IsSnapshot agent_id who.0 who.1 p f)))),
              )
        ]
      ]
