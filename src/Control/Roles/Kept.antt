-- ===== src/Control/Roles/Kept.antt =====
-- apps/control-plane/backend/app/api.py: what a write of a role leaves alone.
use aegora.Prelude.{
  String, ◌≡◌, inl, inr, refl, ◌∙◌, true, false, not, Option, some, List, [], ◌∷◌, ◌++◌, map, keep,
  Bool-cases, Option-cases, arith, ◌==◌, eq_iff,
}
use aegora.Prelude.Dict
use aegora.Prelude.Dict.{Dict, get-put}
use aegora.Runtime.Context.Scope.{Scope}
use aegora.Control.Authz.{normalize_scope}
use aegora.Control.Platform.{Platform, Role, record_permission_event}
use aegora.Control.Access.{Gate, pass_gates}
use aegora.Control.Roles.{replace_role_tool_permissions}

keep-granted :
    (role_id r : String) (permissions : Dict Scope)
    → (role_id == r) ≡ false
    → (rows : List (String × String × Scope))
    → keep
        (λ row. row.0 == r)
        (map (λ item. (role_id, item.0, normalize_scope item.1)) permissions ++ rows)
      ≡ keep (λ row. row.0 == r) rows
unfolding keep
keep-granted role_id r [] other rows = refl
keep-granted role_id r (item ∷ permissions) other rows =
    rw other (keep-granted role_id r permissions other rows)

keep-kept :
    (role_id r : String)
    → (role_id == r) ≡ false
    → (rows : List (String × String × Scope))
    → keep (λ row. row.0 == r) (keep (λ row. not (row.0 == role_id)) rows)
      ≡ keep (λ row. row.0 == r) rows
unfolding keep
keep-kept role_id r other [] = refl
keep-kept role_id r other (row ∷ rows) =
    ground (
      arith,
      eq_iff row.0 role_id,
      eq_iff row.0 r,
      eq_iff role_id r,
      keep-kept role_id r other rows,
    )

module _ {J : Type 0} where
  -- The row of a role and what it grants are as they were.
  pub record RoleKept (r : String) (p after : Platform J) : Type 0 where
    pub row : Dict.get r after.roles ≡ Dict.get r p.roles
    pub grants :
        keep (λ row. row.0 == r) after.role_tool_permissions
        ≡ keep (λ row. row.0 == r) p.role_tool_permissions

  abbrev pub IsSystem : String → Platform J → Type 0
  IsSystem r p = (role : Role) × (Dict.get r p.roles ≡ some role) × (role.is_system ≡ true)

  pub pass_gates-RoleKept :
      {A : Type 0} (r : String) (gates : List Gate) (agent_id : Option String) (actor : String)
      (answer : A) (p : Platform J)
      → RoleKept r p (pass_gates gates agent_id actor answer p).1
  unfolding pass_gates record_permission_event
  pass_gates-RoleKept r [] agent_id actor answer p = record { row = refl; grants = refl }
  pass_gates-RoleKept r (gate ∷ gates) agent_id actor answer p = elim (Bool-cases gate.failed) [
    | inr e ↦ rw (e, pass_gates) (pass_gates-RoleKept r gates agent_id actor answer p)
    | inl e ↦ elim (Option-cases gate.event) [
      | inl f ↦ rw (e, pass_gates) (rw f (record { row = refl; grants = refl }))
      | inr (detail, f) ↦ rw (e, pass_gates) (rw f (record { row = refl; grants = refl }))
    ]
  ]

  -- A role that is written leaves the others as they were.
  pub written-RoleKept :
      (r named role_id : String) (role : Role) (permissions : Dict Scope) (p : Platform J)
      → (named == r) ≡ false
      → (role_id == r) ≡ false
      → RoleKept r p (
          replace_role_tool_permissions role_id permissions
            (record p { roles = Dict.put named role p.roles }))
  unfolding replace_role_tool_permissions
  written-RoleKept r named role_id role permissions p apart other = record {
    row = rw (get-put named r role p.roles, apart) refl;
    grants =
        keep-granted role_id r permissions other
          (keep (λ row. not (row.0 == role_id)) p.role_tool_permissions)
        ∙ keep-kept role_id r other p.role_tool_permissions;
  }
