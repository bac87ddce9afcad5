-- ===== src/Control/Releases/Finality.antt =====
-- The releases of agents: a revoked release never runs again.
use aegora.Prelude.{
  ℕ, ◌≡◌, ◌≢◌, refl, sym, ◌∙◌, String, Bool, true, false, some, List, [], ◌∷◌, any, arith,
  Bool-cases, Option-cases, inl, inr, ◌⊎◌, ◌==◌, eq_iff,
}
use aegora.Prelude.Rows.{find, update_where, find-update_where_at}
use aegora.Control.Platform.{
  Reply, Reply-cases, returned, Release, Platform, is_published, is_release, fetch_agent_release,
}
use aegora.Control.Access.{RunnerAgent, resolve_release_access}
use aegora.Control.Access.Allowed.{resolve_release_access-IsRunnable}
use aegora.Control.Releases.{
  release_config_snapshot, managed_agent, publish_agent, revoke, is_revocable, revoke_agent_release,
  save_agent_release,
}

module _ {J : Type 0} where
  -- A call of an endpoint. A new release has a new identifier; the other endpoints leave the table of
  -- releases alone.
  pub data Step (p : Platform J) : Platform J → Type 0 where
    publish :
        (current_user : Reply String) (release_id agent_id claimed : String)
        → any (λ r. r.release_id == release_id) p.releases ≡ false
        → Step p (publish_agent current_user release_id agent_id claimed p).1
    revoke_release :
        (current_user : Reply String) (release_id agent_id claimed : String)
        → Step p (revoke_agent_release current_user release_id agent_id claimed p).1
    elsewhere : {q : Platform J} → q.releases ≡ p.releases → Step p q

  pub data Steps (p : Platform J) : Platform J → Type 0 where
    here : Steps p p
    then_step : {q r : Platform J} → Steps p q → Step q r → Steps p r

  -- A release that stands revoked.
  abbrev pub StandsRevoked : String → String → List (Release J) → Type 0
  StandsRevoked agent_id release_id rows =
      (r : Release J) × (find (is_release agent_id release_id) rows ≡ some r)
      × (is_published r.status ≡ false)

  -- A row that a clause finds meets what a wider clause says.
  not_any :
      (rows : List (Release J)) (p q : Release J → Bool)
      → ((x : Release J) → q x ≡ true → p x ≡ true)
      → any p rows ≡ false
      → {r : Release J} → find q rows ≡ some r
      → ⊥
  unfolding any find
  not_any [] p q wider none_such h = cc
  not_any (x ∷ rows) p q wider none_such {r} h = elim (Bool-cases (q x)) [
    | inl t ↦ let no = wider x t in cc
    | inr t ↦ not_any rows p q wider (ground arith) (rw t at h)
  ]

  -- The table after a publication: as it was, or with a new row first.
  publish_agent-rows :
      (current_user : Reply String) (release_id agent_id claimed : String) (p : Platform J)
      → ((publish_agent current_user release_id agent_id claimed p).1.releases ≡ p.releases)
        ⊎ ((new : Release J) × (new.release_id ≡ release_id)
            × ((publish_agent current_user release_id agent_id claimed p).1.releases
                ≡ new ∷ p.releases))
  unfolding publish_agent save_agent_release
  publish_agent-rows current_user release_id agent_id claimed p =
      elim (Reply-cases (managed_agent current_user agent_id claimed p)) [
        | inr (code, detail, e) ↦ rw (e, publish_agent) (inl refl)
        | inl (who, e) ↦ elim (Reply-cases (release_config_snapshot agent_id who.1 who.0 p)) [
          | inr (code, detail, f) ↦ rw (e, publish_agent) (rw (f) (inl refl))
          | inl (config, f) ↦ rw (e, publish_agent) (rw (f) (inr (_, refl, refl)))
        ]
      ]

  -- The table after a revocation: as it was, or with the row of the release revoked.
  revoke_agent_release-rows :
      (current_user : Reply String) (release_id agent_id claimed : String) (p : Platform J)
      → let after = (revoke_agent_release current_user release_id agent_id claimed p).1 in
        (after.releases ≡ p.releases)
        ⊎ (after.releases
            ≡ update_where (is_revocable agent_id release_id) (revoke p.now) p.releases)
  unfolding revoke_agent_release
  revoke_agent_release-rows current_user release_id agent_id claimed p =
      elim (Reply-cases (managed_agent current_user agent_id claimed p)) [
        | inr (code, detail, e) ↦ rw (e, revoke_agent_release) (inl refl)
        | inl (who, e) ↦ elim (Option-cases (fetch_agent_release agent_id release_id p)) [
          | inl f ↦ rw (e, revoke_agent_release) (rw f (inl refl))
          | inr (r, f) ↦ elim (Bool-cases (is_published r.status)) [
            | inl g ↦ rw (e, revoke_agent_release) (rw f (rw g (inr refl)))
            | inr g ↦ rw (e, revoke_agent_release) (rw f (rw g (inl refl)))
          ]
        ]
      ]

  StandsRevoked-cons :
      (a i : String) (new : Release J) (rows : List (Release J))
      → any (λ r. r.release_id == new.release_id) rows ≡ false
      → StandsRevoked a i rows
      → StandsRevoked a i (new ∷ rows)
  unfolding find
  StandsRevoked-cons a i new rows fresh (r, found, gone) = elim (Bool-cases (is_release a i new)) [
    | inl same ↦ absurd (
        not_any rows (λ x. x.release_id == new.release_id) (is_release a i)
          (λ x t. ground (
            arith,
            eq_iff x.release_id i,
            eq_iff new.release_id i,
            eq_iff x.release_id new.release_id,
          ))
          fresh found)
    | inr other ↦ (r, rw other found, gone)
  ]

  StandsRevoked-revoke :
      (a i b j : String) (now : ℕ) (rows : List (Release J))
      → StandsRevoked a i rows
      → StandsRevoked a i (update_where (is_revocable b j) (revoke now) rows)
  unfolding revoke
  StandsRevoked-revoke a i b j now rows (r, found, gone) =
      let still =
        find-update_where_at (is_revocable b j) (is_release a i) (revoke now) (λ x t. refl) rows
          found in
      (_, still, elim (Bool-cases (is_revocable b j r)) [ inl e ↦ rw e refl | inr e ↦ rw e gone ])

  Step-StandsRevoked :
      {p q : Platform J} (a i : String)
      → Step p q
      → StandsRevoked a i p.releases
      → StandsRevoked a i q.releases
  Step-StandsRevoked {p} a i (publish user release agent claimed fresh) gone =
      elim (publish_agent-rows user release agent claimed p) [
        | inl same ↦ rw same gone
        | inr (new, named, added) ↦
            rw added (StandsRevoked-cons a i new p.releases (rw named fresh) gone)
      ]
  Step-StandsRevoked {p} a i (revoke_release user release agent claimed) gone =
      elim (revoke_agent_release-rows user release agent claimed p) [
        | inl same ↦ rw same gone
        | inr changed ↦ rw changed (StandsRevoked-revoke a i agent release p.now p.releases gone)
      ]
  Step-StandsRevoked a i (elsewhere same) gone = rw same gone

  Steps-StandsRevoked :
      {p q : Platform J} (a i : String)
      → Steps p q
      → StandsRevoked a i p.releases
      → StandsRevoked a i q.releases
  Steps-StandsRevoked a i here gone = gone
  Steps-StandsRevoked a i (then_step steps step) gone =
      Step-StandsRevoked a i step (Steps-StandsRevoked a i steps gone)

  -- Once a release was revoked, no sequence of publications, revocations and calls that leave the
  -- releases alone brings it back: its access is refused to every actor on every channel.
  pub revoked-IsFinal :
      {p q : Platform J} (agent_id release_id actor channel : String) (agent : RunnerAgent)
      (allowed : List String)
      → StandsRevoked agent_id release_id p.releases
      → Steps p q
      → (resolve_release_access agent_id release_id actor channel q).0 ≢ returned (agent, allowed)
  unfolding fetch_agent_release
  revoked-IsFinal {p} {q} agent_id release_id actor channel agent allowed gone steps given =
      let (r, found, retired) = Steps-StandsRevoked agent_id release_id steps gone in
      let (r', found', runs, same) =
        (resolve_release_access-IsRunnable agent_id release_id actor channel agent allowed q).0.0
          given in
      let published = runs.published in let e : some r ≡ some r' = sym found ∙ found' in cc
