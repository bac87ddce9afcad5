-- ===== src/Control/Workflow/Lifecycle.antt =====
-- db.py of the control plane: what the operations on workflow versions keep, in any order.
use aegora.Prelude.{
  ℕ, ◌≤◌, ◌≡◌, refl, String, true, false, ◌&&◌, Option, none, some, List, All, arith, Bool-cases,
  inl, inr, ◌==◌, eq_iff, eq_refl,
}
use aegora.Prelude.Rows.{
  find, update_where, count, count-le, count_of_find-none, All-update_where, All-map, All-of,
  count-update_where_same, count-update_where-le,
}
use aegora.Control.Workflow.{
  WorkflowVersion, ToolDefinition, is_version, is_active_version, is_superseded, supersede,
  reactivate, retire, new_version, activate,
}

-- As the primary key and the unique index of the table demand.
pub record IsWellFormed {J : Type 0} (rows : List (WorkflowVersion J)) : Type 0 where
  pub keyed : (w v : String) → count (is_version w v) rows ≤ 1
  pub one_active : (w : String) → count (is_active_version w) rows ≤ 1

module _ {J : Type 0} (w v actor : String) (now : ℕ) where
  -- An active version of the workflow is this one.
  abbrev pub OnlyThis : WorkflowVersion J → Type 0
  OnlyThis r = is_active_version w r ≡ true → is_version w v r ≡ true

  abbrev pub superseded : List (WorkflowVersion J) → List (WorkflowVersion J)
  superseded rows = update_where (is_superseded w v) (supersede actor now) rows

  abbrev pub reactivated : List (WorkflowVersion J) → List (WorkflowVersion J)
  reactivated rows = update_where (is_version w v) (reactivate actor now) rows

  pub superseded-OnlyThis : (rows : List (WorkflowVersion J)) → All OnlyThis (superseded rows)
  unfolding supersede
  superseded-OnlyThis rows =
      All-update_where OnlyThis (is_superseded w v) (supersede actor now) rows
        (All-of (λ r. (λ e h. ground arith, λ e h. ground arith)) rows)

  pub reactivated-OnlyThis :
      (rows : List (WorkflowVersion J)) → All OnlyThis rows → All OnlyThis (reactivated rows)
  unfolding reactivate
  reactivated-OnlyThis rows only =
      All-update_where OnlyThis (is_version w v) (reactivate actor now) rows
        (All-map (λ r o. (λ e h. e, λ e h. o h)) rows only)

  -- The key of a row never changes.
  count_version-superseded :
      (w' v' : String) (rows : List (WorkflowVersion J))
      → count (is_version w' v') (superseded rows) ≡ count (is_version w' v') rows
  unfolding supersede
  count_version-superseded w' v' rows =
      count-update_where_same (is_superseded w v) (is_version w' v') (supersede actor now)
        (λ r e. refl) rows

  count_version-reactivated :
      (w' v' : String) (rows : List (WorkflowVersion J))
      → count (is_version w' v') (reactivated rows) ≡ count (is_version w' v') rows
  unfolding reactivate
  count_version-reactivated w' v' rows =
      count-update_where_same (is_version w v) (is_version w' v') (reactivate actor now)
        (λ r e. refl) rows

  module _ (w' : String) (other : (w == w') ≡ false) where
    -- The versions of another workflow are left alone.
    count_active-superseded :
        (rows : List (WorkflowVersion J))
        → count (is_active_version w') (superseded rows) ≡ count (is_active_version w') rows
    unfolding supersede
    count_active-superseded rows =
        count-update_where_same (is_superseded w v) (is_active_version w') (supersede actor now)
          (λ r e. ground (arith, eq_iff r.workflow_id w, eq_iff r.workflow_id w', eq_iff w w')) rows

    count_active-reactivated :
        (rows : List (WorkflowVersion J))
        → count (is_active_version w') (reactivated rows) ≡ count (is_active_version w') rows
    unfolding reactivate
    count_active-reactivated rows =
        count-update_where_same (is_version w v) (is_active_version w') (reactivate actor now)
          (λ r e. ground (arith, eq_iff r.workflow_id w, eq_iff r.workflow_id w', eq_iff w w')) rows

  module _ (manifest : ToolDefinition J) (hash : String) (rows : List (WorkflowVersion J))
      (well : IsWellFormed rows) where
    activate-keyed :
        (existing : Option (WorkflowVersion J))
        → find (is_version w v) rows ≡ existing
        → (w' v' : String)
        → count (is_version w' v') (activate existing w v manifest hash actor now (superseded rows))
          ≤ 1
    unfolding activate count new_version
    activate-keyed none absent w' v' = elim (Bool-cases (w == w' && v == v')) [
      | inl same ↦
          let e : w ≡ w' = ground (arith, eq_iff w w', eq_iff v v') in
          let f : v ≡ v' = ground (arith, eq_iff w w', eq_iff v v') in
          let gone : find (is_version w' v') rows ≡ none = rw (← e, ← f) absent in
          rw same (
            omega (
              arith,
              count_version-superseded w' v' rows,
              count_of_find-none (is_version w' v') rows gone,
            ))
      | inr other ↦ rw other (omega (arith, count_version-superseded w' v' rows, well.keyed w' v'))
    ]
    activate-keyed (some r) found w' v' = omega (
      arith,
      count_version-reactivated w' v' (superseded rows),
      count_version-superseded w' v' rows,
      well.keyed w' v',
    )

    activate-this :
        (existing : Option (WorkflowVersion J))
        → find (is_version w v) rows ≡ existing
        → count
            (is_active_version w)
            (activate existing w v manifest hash actor now (superseded rows))
          ≤ 1
    unfolding activate count new_version
    activate-this none absent = rw (eq_refl w) (
        omega (
          arith,
          count-le (is_active_version w) (is_version w v) (superseded rows)
              (superseded-OnlyThis rows),
          count_version-superseded w v rows,
          count_of_find-none (is_version w v) rows absent,
        ))
    activate-this (some r) found = omega (
      arith,
      count-le (is_active_version w) (is_version w v) (reactivated (superseded rows))
          (reactivated-OnlyThis (superseded rows) (superseded-OnlyThis rows)),
      count_version-reactivated w v (superseded rows),
      count_version-superseded w v rows,
      well.keyed w v,
    )

    activate-other :
        (existing : Option (WorkflowVersion J)) (w' : String) (other : (w == w') ≡ false)
        → count
            (is_active_version w')
            (activate existing w v manifest hash actor now (superseded rows))
          ≤ 1
    unfolding activate count new_version
    activate-other none w' other =
        rw other (omega (arith, count_active-superseded w' other rows, well.one_active w'))
    activate-other (some r) w' other = omega (
      arith,
      count_active-reactivated w' other (superseded rows),
      count_active-superseded w' other rows,
      well.one_active w',
    )

    -- The statements of a publication keep the table well formed.
    pub activate-IsWellFormed :
        (existing : Option (WorkflowVersion J))
        → find (is_version w v) rows ≡ existing
        → IsWellFormed (activate existing w v manifest hash actor now (superseded rows))
    activate-IsWellFormed existing found = record {
      keyed = activate-keyed existing found;
      one_active = λ w'. elim (Bool-cases (w == w')) [
        | inl same ↦ rw (← (eq_iff w w').0 same) (activate-this existing found)
        | inr other ↦ activate-other existing w' other
      ];
    }

-- So does a retirement.
pub retire-IsWellFormed :
    {J : Type 0} (w v actor : String) (now : ℕ) (rows : List (WorkflowVersion J))
    → IsWellFormed rows
    → IsWellFormed (update_where (is_version w v) (retire actor now) rows)
unfolding retire
retire-IsWellFormed w v actor now rows well = record {
  keyed = λ w' v'. omega (
    arith,
    count-update_where_same (is_version w v) (is_version w' v') (retire actor now) (λ r e. refl)
        rows,
    well.keyed w' v',
  );
  one_active = λ w'. omega (
    arith,
    count-update_where-le (is_version w v) (is_active_version w') (retire actor now)
        (λ r e. ground arith) rows,
    well.one_active w',
  );
}
