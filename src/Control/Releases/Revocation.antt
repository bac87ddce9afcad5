-- ===== src/Control/Releases/Revocation.antt =====
-- The releases of agents: what a revocation leaves behind.
use aegora.Prelude.{
  ℕ, ◌≡◌, ◌≢◌, refl, String, true, false, ◌&&◌, some, List, [], ◌∷◌, arith, Bool-cases,
  Option-cases, inl, inr, ◌==◌, eq_iff,
}
use aegora.Prelude.Rows.{find, update_where, find-update_where_at, find_sound}
use aegora.Control.Platform.{
  Reply, Reply-cases, returned, returned-injective, Agent, Release, Platform, is_published,
  is_release, fetch_agent_release,
}
use aegora.Control.Access.{RunnerAgent, resolve_release_access}
use aegora.Control.Releases.{
  managed_agent, publish_event, revoke, is_revocable, revoke_agent_release,
}
use aegora.Control.Releases.Finality.{StandsRevoked, Steps, revoked-IsFinal}
use aegora.Control.Releases.Publication.{MayManage, managed_agent-MayManage}

module _ {J : Type 0} where
  revoked_row :
      (a i : String) (now : ℕ) (r : Release J) (rows : List (Release J))
      → find (is_release a i) rows ≡ some r
      → is_published r.status ≡ true
      → StandsRevoked a i (update_where (is_revocable a i) (revoke now) rows)
  unfolding revoke
  revoked_row a i now r rows found was =
      let here = find_sound (is_release a i) rows found in
      (
        _,
        find-update_where_at (is_revocable a i) (is_release a i) (revoke now) (λ x t. refl) rows
            found,
        rw (here, was) refl,
      )

  -- Any other release is found as it was.
  other_row :
      (a i b j : String) (now : ℕ) (rows : List (Release J))
      → (i == j && a == b) ≡ false
      → find (is_release b j) (update_where (is_revocable a i) (revoke now) rows)
        ≡ find (is_release b j) rows
  unfolding revoke find update_where
  other_row a i b j now [] other = refl
  other_row a i b j now (r ∷ rows) other = elim (Bool-cases (is_revocable a i r)) [
    | inl e ↦
        let f : is_release b j r ≡ false = ground (
          arith,
          eq_iff r.release_id i,
          eq_iff r.release_id j,
          eq_iff i j,
          eq_iff r.agent_id a,
          eq_iff r.agent_id b,
          eq_iff a b,
        ) in
        rw (e, f) (other_row a i b j now rows other)
    | inr e ↦ rw (e, other_row a i b j now rows other)
  ]

  pub record IsRevoked (release_id agent_id : String) (version : ℕ) (p after : Platform J)
      : Type 0 where
    pub row : Release J
    pub stored : fetch_agent_release agent_id release_id p ≡ some row
    pub was_published : is_published row.status ≡ true
    pub numbered : row.version ≡ version
    pub gone : StandsRevoked agent_id release_id after.releases
    pub others :
        (b j : String)
        → (release_id == j && agent_id == b) ≡ false
        → fetch_agent_release b j after ≡ fetch_agent_release b j p
    pub announced :
        after.cache_events
        ≡ record {
          event_type = "release.revoked";
          agent_id = agent_id;
          release_id = release_id;
          release_version = version;
        }
          ∷ p.cache_events

  -- A revocation that is answered was called by someone who may manage the agent. The release was
  -- published and now stands revoked, every other release is found as it was, and the revocation is
  -- announced to the caches. From then on the access to the release is refused, whatever is published
  -- or revoked afterwards.
  pub revoke_agent_release-IsFinal :
      (current_user : Reply String) (release_id agent_id claimed : String) (version : ℕ)
      (p : Platform J)
      → (revoke_agent_release current_user release_id agent_id claimed p).0 ≡ returned version
      → ((agent : Agent) × MayManage current_user claimed agent_id agent p)
        × IsRevoked release_id agent_id version p
            (revoke_agent_release current_user release_id agent_id claimed p).1
        × ((q : Platform J) (actor channel : String) (agent : RunnerAgent) (allowed : List String)
            → Steps (revoke_agent_release current_user release_id agent_id claimed p).1 q
            → (resolve_release_access agent_id release_id actor channel q).0
              ≢ returned (agent, allowed))
  unfolding revoke_agent_release fetch_agent_release publish_event
  revoke_agent_release-IsFinal current_user release_id agent_id claimed version p h =
      elim (Reply-cases (managed_agent current_user agent_id claimed p)) [
        | inr (code, detail, e) ↦ let no = rw (e, revoke_agent_release) at h in cc
        | inl (who, e) ↦ elim (Option-cases (fetch_agent_release agent_id release_id p)) [
          | inl f ↦ let no = rw (e, revoke_agent_release) at h in let more = rw f at no in cc
          | inr (r, f) ↦ elim (Bool-cases (is_published r.status)) [
            | inr g ↦
                let no = rw (e, revoke_agent_release) at h in
                let more = rw f at no in let last = rw g at more in cc
            | inl g ↦
                let one = rw (e, revoke_agent_release) at h in
                let two = rw f at one in
                let same : r.version ≡ version = returned-injective (rw g at two) in
                let gone = revoked_row agent_id release_id p.now r p.releases f g in
                let (may, named) =
                  managed_agent-MayManage current_user agent_id claimed who.0 who.1 p e in
                (
                  (who.1, may),
                  rw (e, revoke_agent_release)
                      (rw f (
                        rw (g, ← same)
                          (record {
                            row = r;
                            stored = f;
                            was_published = g;
                            numbered = refl;
                            gone = gone;
                            others = λ b j other.
                                other_row agent_id release_id b j p.now p.releases other;
                            announced = refl;
                          }))),
                  rw (e, revoke_agent_release)
                      (rw f (
                        rw g (λ q actor channel agent allowed steps.
                          revoked-IsFinal agent_id release_id actor channel agent allowed gone
                            steps))),
                )
          ]
        ]
      ]
