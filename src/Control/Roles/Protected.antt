-- ===== src/Control/Roles/Protected.antt =====
-- apps/control-plane/backend/app/api.py: what the endpoints on roles leave alone.
use mathlib.Core.Path.{subst}
use aegora.Prelude.{
  String, ◌≡◌, ◌≢◌, ◌⊎◌, inl, inr, refl, sym, ◌∙◌, false, not, none, some, Bool-cases, Option-cases,
  some-injective, ◌==◌, eq_iff,
}
use aegora.Prelude.Dict
use aegora.Prelude.Dict.{Dict, get-put}
use aegora.Runtime.Context.Scope.{Scope}
use aegora.Control.Authz.{merge_tool_scopes}
use aegora.Control.Platform.{Reply, Reply-cases, Platform, Role}
use aegora.Control.Access.{pass_gates, require_current_platform_admin}
use aegora.Control.Access.Allowed.{pass_gates-returned, pass_gates-unchanged}
use aegora.Control.Roles.{
  RoleUpsertRequest, role_exists, create_role_row, update_role_row, replace_role_tool_permissions,
  record_role_change_event,
}
use aegora.Control.Roles.Edit.{
  create_role_gates, create_custom_role, update_role_gates, update_custom_role,
}
use aegora.Control.Roles.Kept.{RoleKept, IsSystem, pass_gates-RoleKept, written-RoleKept}

module _ {J : Type 0} where
  module _ (scope_schema : J → Scope) (current_user : Reply String) (request : RoleUpsertRequest)
      (p : Platform J) where
    abbrev granted : Dict Scope
    granted = merge_tool_scopes request.permissions

    -- A role that exists, or that is not named, is not the one that is created.
    create_custom_role-RoleKept :
        (r : String)
        → (request.role_id ≢ r) ⊎ IsSystem r p
        → RoleKept r p (create_custom_role scope_schema current_user request p).1
    unfolding create_custom_role create_role_row record_role_change_event create_role_gates
        role_exists
    create_custom_role-RoleKept r spared =
        elim (Reply-cases (require_current_platform_admin current_user p)) [
          | inr (code, detail, e) ↦
              rw (e, create_custom_role) (record { row = refl; grants = refl })
          | inl (actor, e) ↦
              let gates = create_role_gates scope_schema actor request granted p in
              elim (Reply-cases (pass_gates gates none actor granted p).0) [
                | inr (code, detail, f) ↦
                    rw (e, create_custom_role)
                      (rw f (pass_gates-RoleKept r gates none actor granted p))
                | inl (answer, f) ↦
                    let passed = (pass_gates-returned gates none actor granted answer p).0 f in
                    let new = passed.0.1.0 in
                    let other : (request.role_id == r) ≡ false =
                      elim (Bool-cases (request.role_id == r)) [
                        | inr other ↦ other
                        | inl same ↦ elim spared [
                          | inl differs ↦ absurd (differs ((eq_iff request.role_id r).0 same))
                          | inr (role, stored, system) ↦
                              let named = rw ((eq_iff request.role_id r).0 same) at new in
                              let no = rw stored at named in cc
                        ]
                      ] in
                    let kept =
                      written-RoleKept r request.role_id request.role_id _ answer p other other in
                    rw (e, create_custom_role)
                      (rw (f, pass_gates-unchanged gates none actor granted answer p f)
                        (record { row = kept.row; grants = kept.grants }))
              ]
        ]

    named :
        (role_id : String) → not (request.role_id == role_id) ≡ false → request.role_id ≡ role_id
    named role_id h = elim (Bool-cases (request.role_id == role_id)) [
      | inl e ↦ (eq_iff request.role_id role_id).0 e
      | inr e ↦ let no = rw e at h in cc
    ]

    -- A spared role is not the custom one that the request names.
    apart :
        (r : String) (role : Role)
        → (request.role_id ≢ r) ⊎ IsSystem r p
        → Dict.get request.role_id p.roles ≡ some role
        → role.is_system ≡ false
        → (request.role_id == r) ≡ false
    apart r role (inl differs) stored custom = elim (Bool-cases (request.role_id == r)) [
      | inr other ↦ other
      | inl same ↦ absurd (differs ((eq_iff request.role_id r).0 same))
    ]
    apart r role (inr (role', stored', system)) stored custom =
        elim (Bool-cases (request.role_id == r)) [
          | inr other ↦ other
          | inl same ↦
              let there = rw ((eq_iff request.role_id r).0 same) at stored in
              let e : some role ≡ some role' = sym there ∙ stored' in cc
        ]

    -- The state after a change of a role that is not a system role.
    updated-RoleKept :
        (role_id r actor : String) (answer : Dict Scope)
        → (request.role_id ≢ r) ⊎ IsSystem r p
        → request.role_id ≡ role_id
        → {stored : Platform J} → update_role_row request p ≡ some stored
        → RoleKept r p (
            record_role_change_event actor request "role_updated" answer
              (replace_role_tool_permissions role_id answer stored))
    unfolding update_role_row record_role_change_event
    updated-RoleKept role_id r actor answer spared same {stored} h =
        elim (Option-cases (Dict.get request.role_id p.roles)) [
          | inl g ↦ let no = rw (g, update_role_row) at h in cc
          | inr (role, g) ↦ elim (Bool-cases role.is_system) [
            | inl k ↦ let no = rw k at (rw (g, update_role_row) at h) in cc
            | inr k ↦
                let other = apart r role spared g k in
                let there = rw k at (rw (g, update_role_row) at h) in
                let kept =
                  written-RoleKept r request.role_id role_id
                    (record {
                      name = request.name;
                      description = request.description;
                      status = request.status;
                      is_system = false;
                    })
                    answer p other (subst (λ i. (i == r) ≡ false) same other) in
                subst
                  (λ s. RoleKept r p (
                    record_role_change_event actor request "role_updated" answer
                      (replace_role_tool_permissions role_id answer s)))
                  (some-injective there) (record { row = kept.row; grants = kept.grants })
          ]
        ]

    -- A role that is not named is not the one that is changed, and a system role is refused.
    update_custom_role-RoleKept :
        (role_id r : String)
        → (request.role_id ≢ r) ⊎ IsSystem r p
        → RoleKept r p (update_custom_role scope_schema current_user role_id request p).1
    unfolding update_custom_role update_role_gates
    update_custom_role-RoleKept role_id r spared =
        elim (Reply-cases (require_current_platform_admin current_user p)) [
          | inr (code, detail, e) ↦
              rw (e, update_custom_role) (record { row = refl; grants = refl })
          | inl (actor, e) ↦
              let gates = update_role_gates scope_schema actor role_id request granted p in
              let tested = pass_gates gates none actor granted p in
              let refused = pass_gates-RoleKept r gates none actor granted p in
              elim (Reply-cases tested.0) [
                | inr (code, detail, f) ↦ rw (e, update_custom_role) (rw f refused)
                | inl (answer, f) ↦
                    let passed = (pass_gates-returned gates none actor granted answer p).0 f in
                    let unchanged = pass_gates-unchanged gates none actor granted answer p f in
                    elim (Option-cases (update_role_row request tested.1)) [
                      | inl g ↦ rw (e, update_custom_role) (rw f (rw g refused))
                      | inr (stored, g) ↦
                          rw (e, update_custom_role)
                            (rw f (
                              rw g (
                                updated-RoleKept role_id r actor answer spared
                                  (named role_id passed.0.1.0) (rw unchanged at g))))
                    ]
              ]
        ]

    -- Neither endpoint, whatever it answers, changes the row of a role or what the role grants, where
    -- the role is a system role or is not the one that the request names.
    pub endpoints-RoleKept :
        (role_id r : String)
        → (request.role_id ≢ r) ⊎ IsSystem r p
        → RoleKept r p (create_custom_role scope_schema current_user request p).1
          × RoleKept r p (update_custom_role scope_schema current_user role_id request p).1
    endpoints-RoleKept role_id r spared =
        (create_custom_role-RoleKept r spared, update_custom_role-RoleKept role_id r spared)
