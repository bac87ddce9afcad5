-- ===== src/Control/Identity/Login.antt =====
-- apps/control-plane/backend/app/identity.py, db.py and api.py: what a login opens.
use aegora.Prelude.{
  String, ◌≡◌, ◌≢◌, refl, sym, ap, ◌∙◌, true, false, Option, any, Bool-cases, Option-cases, inl,
  inr, ◌==◌, eq_iff, eq_refl,
}
use aegora.Prelude.Dict
use aegora.Prelude.Rows.{find}
use aegora.Control.Platform.{
  Reply, Reply-cases, returned, returned-injective, Platform, user_is_active,
}
use aegora.Control.Identity.{
  UserProfile, is_open, has_hash, extract_bearer_token, create_user_session, get_session_user,
  user_profile, login, current_user_id,
}

module _ {J : Type 0} (hash_session_token lower : String → String) (auth_mode : String)
    (fetch_oa_current_user : String → Reply String) where
  -- What an answered login has tested, and the state after it.
  record IsOpened (token user_id given : String) (profile : UserProfile) (p after : Platform J)
      : Type 0 where
    local : (auth_mode == "local") ≡ true
    active : user_is_active user_id p ≡ true
    answered : given ≡ token
    fresh : any (has_hash (hash_session_token token)) p.user_sessions ≡ false
    named : profile.user_id ≡ user_id
    stored : after ≡ create_user_session hash_session_token token user_id p

  user_profile-user_id :
      (user_id : String) (p : Platform J) {profile : UserProfile}
      → user_profile user_id p ≡ returned profile
      → profile.user_id ≡ user_id
  unfolding user_profile
  user_profile-user_id user_id p {profile} h = elim (Option-cases (Dict.get user_id p.users)) [
    | inl e ↦ let no = rw (e, user_profile) at h in cc
    | inr (status, e) ↦
        let built = returned-injective (rw (e, user_profile) at h) in
        ap (λ r. r.user_id) (sym built)
  ]

  login-IsOpened :
      (token user_id : String) (p : Platform J) {given : String} {profile : UserProfile}
      → (login hash_session_token lower auth_mode fetch_oa_current_user token user_id p).0
        ≡ returned (given, profile)
      → IsOpened token user_id given profile p
          (login hash_session_token lower auth_mode fetch_oa_current_user token user_id p).1
  unfolding login
  login-IsOpened token user_id p {given} {profile} h = elim (Bool-cases (auth_mode == "local")) [
    | inr e ↦ let no = rw e at h in cc
    | inl e ↦ elim (Bool-cases (user_is_active user_id p)) [
      | inr f ↦ let no = rw (e, f) at h in cc
      | inl f ↦ elim (Bool-cases (any (has_hash (hash_session_token token)) p.user_sessions)) [
        | inl g ↦ let no = rw (e, f, g) at h in cc
        | inr g ↦
            let after = create_user_session hash_session_token token user_id p in
            elim (Reply-cases (user_profile user_id after)) [
              | inr (code, detail, k) ↦ let no = rw (e, f, g, k) at h in cc
              | inl (built, k) ↦
                  let same = returned-injective (rw (e, f, g, k) at h) in
                  record {
                    local = e;
                    active = f;
                    answered = ap (λ r. r.0) (sym same);
                    fresh = g;
                    named = ap (λ r. r.1.user_id) (sym same) ∙ user_profile-user_id user_id after k;
                    stored = rw (e, f, g, k) refl;
                  }
            ]
      ]
    ]
  ]

  -- A login that is answered opens a session: the token that it answers is the one that was drawn,
  -- every header that carries the answered token is from then on recognised as that user, and a
  -- header with a token of another digest is answered as it was before.
  pub login-current_user_id :
      (token user_id given : String) (profile : UserProfile) (header : Option String)
      (p : Platform J)
      → (login hash_session_token lower auth_mode fetch_oa_current_user token user_id p).0
        ≡ returned (given, profile)
      → extract_bearer_token lower header ≡ returned given
      → let after =
          (login hash_session_token lower auth_mode fetch_oa_current_user token user_id p).1 in
        let who = current_user_id hash_session_token lower auth_mode fetch_oa_current_user in
        (given ≡ token)
        × (profile.user_id ≡ user_id)
        × (who header after ≡ (returned user_id, after))
        × ((other : Option String) (t : String)
            → extract_bearer_token lower other ≡ returned t
            → hash_session_token t ≢ hash_session_token given
            → (who other after).0 ≡ (who other p).0)
  unfolding current_user_id get_session_user create_user_session find user_is_active
  login-current_user_id token user_id given profile header p h carried =
      let o = login-IsOpened token user_id p h in
      let drawn : extract_bearer_token lower header ≡ returned token = rw o.answered at carried in
      (
        o.answered,
        o.named,
        rw o.stored (
            rw (drawn, current_user_id)
              (rw (o.local, eq_refl (hash_session_token token), o.active) refl)),
        λ other t carries different.
            let apart : (hash_session_token token == hash_session_token t) ≡ false =
              elim (Bool-cases (hash_session_token token == hash_session_token t)) [
                | inl same ↦ absurd (
                    different (
                      sym ((eq_iff (hash_session_token token) (hash_session_token t)).0 same)
                      ∙ ap hash_session_token (sym o.answered)))
                | inr apart ↦ apart
              ] in
            rw o.stored (
              rw (carries, current_user_id)
                (rw (o.local, apart)
                  (elim (Option-cases (find (is_open (hash_session_token t)) p.user_sessions)) [
                    | inl e ↦ rw e refl
                    | inr (s, e) ↦ elim (Bool-cases (user_is_active s.user_id p)) [
                      | inl f ↦ rw (e, f) refl
                      | inr f ↦ rw (e, f) refl
                    ]
                  ]))),
      )
