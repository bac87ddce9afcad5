-- ===== src/Control/Identity/Logout.antt =====
-- apps/control-plane/backend/app/identity.py, db.py and api.py: what a logout closes.
use aegora.Prelude.{
  ℕ, String, ◌≡◌, refl, ◌∙◌, true, false, Option, none, some, List, [], ◌∷◌, any, All, Bool-cases,
  Option-cases, inl, inr, ◌==◌, eq_iff,
}
use aegora.Prelude.Rows.{find, update_where, All-update_where, All-of, All-map}
use aegora.Control.Platform.{
  Reply, Reply-cases, raised, returned, Platform, UserSession, user_is_active,
}
use aegora.Control.Identity.{
  is_open, has_hash, revoke_at, extract_bearer_token, create_user_session, get_session_user,
  revoke_user_session, user_profile, login, logout, current_user_id,
}

-- The digest is in the table, and no session with it is open.
record IsClosed (hash : String) (rows : List UserSession) : Type 0 where
  known : any (has_hash hash) rows ≡ true
  shut : All (λ s. is_open hash s ≡ false) rows

revoke_at_shut :
    (hash : String) (now : ℕ) (s : UserSession) → is_open hash (revoke_at now s) ≡ false
unfolding revoke_at
revoke_at_shut hash now s = elim (Bool-cases (s.token_hash == hash)) [
  | inl e ↦ rw e refl
  | inr e ↦ rw e refl
]

any-revoke :
    (hash other : String) (now : ℕ) (rows : List UserSession)
    → any (has_hash hash) (update_where (is_open other) (revoke_at now) rows)
      ≡ any (has_hash hash) rows
unfolding any update_where revoke_at
any-revoke hash other now [] = refl
any-revoke hash other now (s ∷ rows) = elim (Bool-cases (is_open other s)) [
  | inl e ↦ rw (e, any-revoke hash other now rows) refl
  | inr e ↦ rw (e, any-revoke hash other now rows) refl
]

IsClosed-revoke :
    (hash other : String) (now : ℕ) (rows : List UserSession)
    → IsClosed hash rows
    → IsClosed hash (update_where (is_open other) (revoke_at now) rows)
IsClosed-revoke hash other now rows closed = record {
  known = any-revoke hash other now rows ∙ closed.known;
  shut =
      All-update_where (λ s. is_open hash s ≡ false) (is_open other) (revoke_at now) rows
        (All-map (λ s still. ((λ e. revoke_at_shut hash now s), (λ e. still))) rows closed.shut);
}

-- A logout leaves no open session with the digest of its token.
revoke-IsClosed :
    (hash : String) (now : ℕ) (rows : List UserSession)
    → any (has_hash hash) rows ≡ true
    → IsClosed hash (update_where (is_open hash) (revoke_at now) rows)
revoke-IsClosed hash now rows known = record {
  known = any-revoke hash hash now rows ∙ known;
  shut =
      All-update_where (λ s. is_open hash s ≡ false) (is_open hash) (revoke_at now) rows
        (All-of (λ s. ((λ e. revoke_at_shut hash now s), (λ e. e))) rows);
}

-- A new session has a digest that was not there.
IsClosed-cons :
    (new hash user_id : String) (rows : List UserSession)
    → any (has_hash new) rows ≡ false
    → IsClosed hash rows
    → IsClosed hash (record { token_hash = new; user_id = user_id; revoked_at = none } ∷ rows)
unfolding any
IsClosed-cons new hash user_id rows fresh closed = elim (Bool-cases (new == hash)) [
  | inl e ↦
      let same : new ≡ hash = (eq_iff new hash).0 e in let no = rw (← same) at closed.known in cc
  | inr e ↦ record { known = rw e closed.known; shut = (rw e refl, closed.shut) }
]

has_hash-find :
    (hash : String) (rows : List UserSession) {s : UserSession}
    → find (is_open hash) rows ≡ some s
    → any (has_hash hash) rows ≡ true
unfolding find any
has_hash-find hash [] h = cc
has_hash-find hash (r ∷ rows) {s} h = elim (Bool-cases (r.token_hash == hash)) [
  | inl e ↦ rw e refl
  | inr e ↦ rw e (has_hash-find hash rows (rw e at h))
]

find-shut :
    (hash : String) (rows : List UserSession)
    → All (λ s. is_open hash s ≡ false) rows
    → find (is_open hash) rows ≡ none
unfolding find
find-shut hash [] h = refl
find-shut hash (r ∷ rows) h = rw h.0 (find-shut hash rows h.1)

module _ {J : Type 0} (hash_session_token lower : String → String) (auth_mode : String)
    (fetch_oa_current_user : String → Reply String) where
  -- A call of an endpoint; all but these two leave the table of sessions alone.
  pub data Step (p : Platform J) : Platform J → Type 0 where
    logs_in :
        (token user_id : String)
        → Step p (login hash_session_token lower auth_mode fetch_oa_current_user token user_id p).1
    logs_out :
        (header : Option String)
        → Step p (logout hash_session_token lower auth_mode fetch_oa_current_user header p).1
    elsewhere : {q : Platform J} → q.user_sessions ≡ p.user_sessions → Step p q

  pub data Steps (p : Platform J) : Platform J → Type 0 where
    here : Steps p p
    then_step : {q r : Platform J} → Steps p q → Step q r → Steps p r

  Step-IsClosed :
      {p q : Platform J} (hash : String)
      → Step p q
      → IsClosed hash p.user_sessions
      → IsClosed hash q.user_sessions
  unfolding login logout create_user_session revoke_user_session
  Step-IsClosed {p} hash (logs_in token user_id) closed = elim (Bool-cases (auth_mode == "local")) [
    | inr e ↦ rw e closed
    | inl e ↦ elim (Bool-cases (user_is_active user_id p)) [
      | inr f ↦ rw (e, f) closed
      | inl f ↦ elim (Bool-cases (any (has_hash (hash_session_token token)) p.user_sessions)) [
        | inl g ↦ rw (e, f, g) closed
        | inr g ↦
            let opened = create_user_session hash_session_token token user_id p in
            let added =
              IsClosed-cons (hash_session_token token) hash user_id p.user_sessions g closed in
            elim (Reply-cases (user_profile user_id opened)) [
              | inr (code, detail, k) ↦ rw (e, f, g, k) added
              | inl (profile, k) ↦ rw (e, f, g, k) added
            ]
      ]
    ]
  ]
  Step-IsClosed {p} hash (logs_out header) closed =
      elim (Reply-cases (extract_bearer_token lower header)) [
        | inr (code, detail, e) ↦ rw (e, logout) closed
        | inl (token, e) ↦ elim (Bool-cases (auth_mode == "local")) [
          | inr f ↦ rw (e, logout) (rw f closed)
          | inl f ↦
              rw (e, logout)
                (rw f
                  (IsClosed-revoke hash (hash_session_token token) p.now p.user_sessions closed))
        ]
      ]
  Step-IsClosed hash (elsewhere same) closed = rw same closed

  Steps-IsClosed :
      {p q : Platform J} (hash : String)
      → Steps p q
      → IsClosed hash p.user_sessions
      → IsClosed hash q.user_sessions
  Steps-IsClosed hash here closed = closed
  Steps-IsClosed hash (then_step steps step) closed =
      Step-IsClosed hash step (Steps-IsClosed hash steps closed)

  -- A header that was recognised has a session with its digest.
  known_of :
      (header : Option String) (token user_id : String) (p : Platform J)
      → (auth_mode == "local") ≡ true
      → extract_bearer_token lower header ≡ returned token
      → (current_user_id hash_session_token lower auth_mode fetch_oa_current_user header p).0
        ≡ returned user_id
      → any (has_hash (hash_session_token token)) p.user_sessions ≡ true
  unfolding current_user_id get_session_user
  known_of header token user_id p local carried seen =
      elim (Option-cases (find (is_open (hash_session_token token)) p.user_sessions)) [
        | inl e ↦
            let one = rw (carried, current_user_id) at seen in
            let two = rw (local, get_session_user) at one in let no = rw e at two in cc
        | inr (s, e) ↦ has_hash-find (hash_session_token token) p.user_sessions e
      ]

  -- In the local mode a logout is final: once the session of a header was recognised and logged out,
  -- no header whose token has that digest is recognised again, whatever logins, logouts and calls of
  -- the other endpoints follow.
  pub logout-IsFinal :
      (header other : Option String) (token t user_id : String) (p q : Platform J)
      → (auth_mode == "local") ≡ true
      → extract_bearer_token lower header ≡ returned token
      → (current_user_id hash_session_token lower auth_mode fetch_oa_current_user header p).0
        ≡ returned user_id
      → Steps (logout hash_session_token lower auth_mode fetch_oa_current_user header p).1 q
      → extract_bearer_token lower other ≡ returned t
      → hash_session_token t ≡ hash_session_token token
      → current_user_id hash_session_token lower auth_mode fetch_oa_current_user other q
        ≡ (raised 401 "登录已失效", q)
  unfolding current_user_id logout get_session_user revoke_user_session
  logout-IsFinal header other token t user_id p q local carried seen steps carries same =
      let hash = hash_session_token token in
      let known = known_of header token user_id p local carried seen in
      let closed =
        Steps-IsClosed hash steps
          (rw (carried, logout) (rw local (revoke-IsClosed hash p.now p.user_sessions known))) in
      rw (carries, current_user_id)
        (rw (local, get_session_user)
          (rw same (rw (find-shut hash q.user_sessions closed.shut) refl)))
