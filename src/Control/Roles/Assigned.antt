-- ===== src/Control/Roles/Assigned.antt =====
-- apps/control-plane/backend/app/api.py and db.py: what the assignment of roles changes.
use aegora.Prelude.{
  String, ◌≡◌, inl, inr, refl, ap, ◌∙◌, Bool, true, false, not, ◌&&◌, List, [], ◌∷◌, ◌++◌, map, any,
  keep, mem, Bool-cases, Option-cases, arith, ◌==◌, eq_iff, eq_refl,
}
use aegora.Prelude.Dict
use aegora.Prelude.Dict.{Dict, get-put_self}
use aegora.Runtime.Context.Scope.{Scope, sorted_set}
use aegora.Runtime.Context.Scope.Subset.{mem-sorted_set}
use aegora.Control.Authz.{merge_tool_scopes}
use aegora.Control.Platform.{
  Reply, Reply-cases, raised, returned, returned-injective, Platform, user_is_active, user_has_role,
  applies, get_user_role_tool_scopes,
}
use aegora.Control.Access.{platform_admin, require_current_platform_admin}
use aegora.Control.Identity.{upsert_user}
use aegora.Control.Roles.{roles_exist, replace_user_roles, set_user_roles}

abbrev gives : String → String → String × String → Bool
gives u r row = row.0 == u && row.1 == r

-- The rows of a user after the replacement, and the rows of another one.
any-own :
    (u r : String) (ids : List String) (rows : List (String × String))
    → any (gives u r) (map (λ i. (u, i)) ids ++ keep (λ row. not (row.0 == u)) rows) ≡ mem r ids
unfolding any mem keep
any-own u r [] [] = refl
any-own u r [] (row ∷ rows) = ground (arith, any-own u r [] rows)
any-own u r (i ∷ ids) rows = ground (arith, eq_refl u, eq_iff i r, eq_iff r i, any-own u r ids rows)

any-other :
    (u v r : String) (ids : List String) (rows : List (String × String))
    → (u == v) ≡ false
    → any (gives v r) (map (λ i. (u, i)) ids ++ keep (λ row. not (row.0 == u)) rows)
      ≡ any (gives v r) rows
unfolding any keep
any-other u v r [] [] other = refl
any-other u v r [] (row ∷ rows) other =
    ground (arith, eq_iff row.0 u, eq_iff row.0 v, eq_iff u v, any-other u v r [] rows other)
any-other u v r (i ∷ ids) rows other = rw other (any-other u v r ids rows other)

keep_agree :
    {A : Type 0} (f g : A → Bool) → ((x : A) → f x ≡ g x) → (xs : List A) → keep f xs ≡ keep g xs
unfolding keep
keep_agree f g same [] = refl
keep_agree f g same (x ∷ xs) = rw (same x, keep_agree f g same xs) refl

module _ {J : Type 0} where
  -- The roles of one user are those that are listed, and of the others nothing changes.
  pub record IsAssigned (user_id : String) (roles : List String) (p after : Platform J)
      : Type 0 where
    pub own : (r : String) → user_has_role user_id r after ≡ mem r roles
    pub active : user_is_active user_id after ≡ true
    pub others :
        (u r : String) → (user_id == u) ≡ false → user_has_role u r after ≡ user_has_role u r p
    pub granted :
        (u : String)
        → (user_id == u) ≡ false
        → get_user_role_tool_scopes u after ≡ get_user_role_tool_scopes u p

  -- A permission applies to a user where it did, if the user has the roles that it had.
  applies-agree :
      (u : String) (p : Platform J) (users : Dict String) (rows : List (String × String))
      → ((r : String) → any (gives u r) rows ≡ any (gives u r) p.user_roles)
      → (row : String × String × Scope)
      → applies u (record p { users = users; user_roles = rows }) row ≡ applies u p row
  unfolding applies user_has_role
  applies-agree u p users rows same row = elim (Option-cases (Dict.get row.0 p.roles)) [
    | inl e ↦ rw (e, applies) refl
    | inr (role, e) ↦ rw (e, applies) (rw (same row.0) refl)
  ]

  -- The replacement in a state whose tables of roles and permissions are those of `p`.
  replaced-IsAssigned :
      (user_id : String) (roles : List String) (p : Platform J) (users : Dict String)
      → user_is_active user_id (record p { users = users }) ≡ true
      → IsAssigned user_id roles p
          (replace_user_roles user_id (sorted_set roles) (record p { users = users }))
  unfolding replace_user_roles user_is_active user_has_role get_user_role_tool_scopes applies
  replaced-IsAssigned user_id roles p users active =
      let ids = sorted_set roles in
      record {
        own = λ r. any-own user_id r ids p.user_roles ∙ mem-sorted_set r roles;
        active = active;
        others = λ u r other. any-other user_id u r ids p.user_roles other;
        granted = λ u other.
            ap (λ rows. merge_tool_scopes (map (λ row. (row.1, row.2)) rows))
              (keep_agree _ _
                (applies-agree u p users _ (λ r. any-other user_id u r ids p.user_roles other))
                p.role_tool_permissions);
      }

  administrator :
      (current_user : Reply String) (p : Platform J) {actor : String}
      → require_current_platform_admin current_user p ≡ returned actor
      → (current_user ≡ returned actor)
        × (user_is_active actor p ≡ true)
        × (user_has_role actor platform_admin p ≡ true)
  unfolding require_current_platform_admin
  administrator (raised code detail) p h = cc
  administrator (returned user) p {actor} h = elim (Bool-cases (user_is_active user p)) [
    | inr e ↦ let no = rw e at h in cc
    | inl e ↦ elim (Bool-cases (user_has_role user platform_admin p)) [
      | inr f ↦ let no = rw (e, f) at h in cc
      | inl f ↦
          let same : user ≡ actor = returned-injective (rw (e, f) at h) in rw (← same) (refl, e, f)
    ]
  ]

  activated :
      (user_id : String) (p : Platform J)
      → user_is_active user_id (record p { users = Dict.put user_id "active" p.users }) ≡ true
  unfolding user_is_active
  activated user_id p = rw (get-put_self user_id {v = "active"} p.users, user_is_active) refl

  -- Roles are assigned by an active administrator of the platform only: the user of the token is the
  -- claimed one, and is active and has that role. The user then has exactly the
  -- roles that were listed and is active, also one who was disabled before; every other user keeps
  -- the roles and the scopes of tools that they grant.
  pub set_user_roles-IsAssigned :
      (current_user : Reply String) (user_id claimed : String) (roles answer : List String)
      (p : Platform J)
      → (set_user_roles current_user user_id claimed roles p).0 ≡ returned answer
      → (current_user ≡ returned claimed)
        × (user_is_active claimed p ≡ true)
        × (user_has_role claimed platform_admin p ≡ true)
        × IsAssigned user_id roles p (set_user_roles current_user user_id claimed roles p).1
  unfolding set_user_roles upsert_user
  set_user_roles-IsAssigned current_user user_id claimed roles answer p h =
      elim (Reply-cases (require_current_platform_admin current_user p)) [
        | inr (code, detail, e) ↦ let no = rw (e, set_user_roles) at h in cc
        | inl (actor, e) ↦ elim (Bool-cases (claimed == actor)) [
          | inr f ↦ let no = rw f at (rw (e, set_user_roles) at h) in cc
          | inl f ↦ elim (Bool-cases (roles_exist (sorted_set roles) p)) [
            | inr g ↦ let no = rw (f, g) at (rw (e, set_user_roles) at h) in cc
            | inl g ↦
                let same : claimed ≡ actor = (eq_iff claimed actor).0 f in
                let who = rw (← same) at (administrator current_user p e) in
                elim (Bool-cases (user_is_active user_id p)) [
                  | inl k ↦
                      let kept = replaced-IsAssigned user_id roles p p.users k in
                      (who.0, who.1, who.2, rw (e, set_user_roles) (rw (f, g, k) kept))
                  | inr k ↦
                      let kept =
                        replaced-IsAssigned user_id roles p (Dict.put user_id "active" p.users)
                          (activated user_id p) in
                      (who.0, who.1, who.2, rw (e, set_user_roles) (rw (f, g, k) kept))
                ]
          ]
        ]
      ]
