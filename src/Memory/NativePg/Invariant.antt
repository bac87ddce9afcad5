-- ===== src/Memory/NativePg/Invariant.antt =====
-- memory/native_pg.py: the invariant of the table `memory_items`. Identifiers fall from the newest row
-- to the oldest, and a slot has one active row at most, as the unique index demands.
use mathlib.Core.Bool.{false≢true}
use mathlib.Core.Path.{subst}
use aegora.Prelude.{
  sym, ◌∙◌, ℕ, ◌≤◌, ◌≡◌, refl, Bool, true, false, ◌&&◌, Option, none, some, List, ◌∷◌, arith,
  String, nat_eq, Bool-cases, inl, inr, ◌==◌, eq_iff, strip, ◌↔◌,
}
use aegora.Memory.Models.{MemoryScope, MemoryWrite}
use aegora.Memory.NativePg.Table.{
  Row, Db, Slot, slot_eq, slot_of, row_slot, holds, find, update_where, same_time,
}
use aegora.Memory.NativePg.Remember.{
  supersede, retire, new_row, insert_version, remember_over, remember,
}
use aegora.Memory.NativePg.Forget.{delete, forget_row, forget}
use aegora.Memory.NativePg.Expire.{expire, expire_due, due_rows, among}
use aegora.Memory.NativePg.Rows.{
  count, Ordered, Ordered-update_where, count-update_where-le, count_of_find-none,
  count-update_where_found,
}

pub slot_eq_iff : (a b : Slot) → (slot_eq a b ≡ true) ↔ (a ≡ b)
unfolding slot_eq
slot_eq_iff a b = ground (
  arith,
  eq_iff a.tenant b.tenant,
  eq_iff a.user b.user,
  eq_iff a.scope b.scope,
  eq_iff a.namespace b.namespace,
  eq_iff a.agent b.agent,
  eq_iff a.key b.key,
)

pub record IsWellFormed {F : Type 0} (db : Db F) : Type 0 where
  pub ordered : Ordered db.next_id db.rows
  pub single : (slot : Slot) → count (holds slot) db.rows ≤ 1

module _ {F : Type 0} where
  -- A retired, deleted or expired row holds no slot.
  pub holds-supersede : (slot : Slot) (now : ℕ) (r : Row F) → holds slot (supersede now r) ≡ false
  unfolding supersede
  holds-supersede slot now r = ground arith

  pub holds-delete : (slot : Slot) (now : ℕ) (r : Row F) → holds slot (delete now r) ≡ false
  unfolding delete
  holds-delete slot now r = ground arith

  pub holds-expire : (slot : Slot) (now : ℕ) (r : Row F) → holds slot (expire now r) ≡ false
  unfolding expire
  holds-expire slot now r = ground arith

  Ordered-retire :
      (current : Option (Row F)) (now n : ℕ) (rows : List (Row F))
      → Ordered n rows
      → Ordered n (retire current now rows)
  unfolding retire supersede
  Ordered-retire none now n rows o = o
  Ordered-retire (some c) now n rows o =
      Ordered-update_where (λ r. nat_eq r.id c.id) (supersede now) (λ r. refl) n rows o

  -- What retiring leaves in a slot: nothing in the slot of the retired row, no more elsewhere.
  count-retire :
      (slot other : Slot) (now n : ℕ) (rows : List (Row F)) (current : Option (Row F))
      → find (holds slot) rows ≡ current
      → Ordered n rows
      → count (holds slot) rows ≤ 1
      → (count (holds slot) (retire current now rows) ≡ 0)
        × (count (holds other) (retire current now rows) ≤ count (holds other) rows)
  unfolding retire
  count-retire slot other now n rows none found o one =
      (count_of_find-none (holds slot) rows found, omega arith)
  count-retire slot other now n rows (some c) found o one = (
    omega (
      arith,
      count-update_where_found (holds slot) (supersede now) n rows (holds-supersede slot now) o
          found,
    ),
    count-update_where-le (λ r. nat_eq r.id c.id) (holds other) (supersede now)
        (λ r e. absurd (false≢true (sym (holds-supersede other now r) ∙ e))) rows,
  )

  -- A new active row takes a slot that was left empty.
  single-cons :
      (r : Row F) (rows : List (Row F)) (other : Slot)
      → count (holds (row_slot r)) rows ≡ 0
      → count (holds other) rows ≤ 1
      → count (holds other) (r ∷ rows) ≤ 1
  unfolding count
  single-cons r rows other free one = elim (Bool-cases (slot_eq (row_slot r) other)) [
    | inl same ↦
        let e : row_slot r ≡ other = (slot_eq_iff (row_slot r) other).0 same in
        subst (λ o. count (holds o) (r ∷ rows) ≤ 1) e (ground (arith, free))
    | inr differ ↦ ground (arith, differ, one)
  ]

  insert_version-IsWellFormed :
      (s : MemoryScope) (m : MemoryWrite F) (current : Option (Row F)) (db : Db F)
      → find (holds (slot_of s m.key)) db.rows ≡ current
      → IsWellFormed db
      → IsWellFormed (insert_version s m current db).1
  unfolding insert_version new_row
  insert_version-IsWellFormed s m current db found w =
      let slot = slot_of s m.key in
      let left = λ (other : Slot).
        count-retire slot other db.now db.next_id db.rows current found w.ordered (w.single slot) in
      record {
        ordered = (omega arith, Ordered-retire current db.now db.next_id db.rows w.ordered);
        single = λ other.
            single-cons (new_row s m current db) (retire current db.now db.rows) other (left slot).0
              (omega (arith, (left other).1, w.single other));
      }

  remember_over-IsWellFormed :
      (s : MemoryScope) (m : MemoryWrite F) (current : Option (Row F)) (db : Db F)
      → find (holds (slot_of s m.key)) db.rows ≡ current
      → IsWellFormed db
      → IsWellFormed (remember_over s m current db).1
  unfolding remember_over
  remember_over-IsWellFormed s m none db found w = insert_version-IsWellFormed s m none db found w
  remember_over-IsWellFormed s m (some c) db found w =
      elim (Bool-cases (c.content == m.value && same_time c.valid_until m.expires_at)) [
        | inl e ↦ rw e w
        | inr e ↦ rw e (insert_version-IsWellFormed s m (some c) db found w)
      ]

  pub remember-IsWellFormed :
      (s : MemoryScope) (m : MemoryWrite F) (db : Db F)
      → IsWellFormed db
      → IsWellFormed (remember s m db).1
  unfolding remember
  remember-IsWellFormed s m db w =
      remember_over-IsWellFormed s m (find (holds (slot_of s m.key)) db.rows) db refl w

  -- An UPDATE that keeps identifiers and frees slots keeps the invariant.
  update_where-IsWellFormed :
      (p : Row F → Bool) (f : Row F → Row F) (db after : Db F)
      → after.rows ≡ update_where p f db.rows
      → after.next_id ≡ db.next_id
      → ((r : Row F) → (f r).id ≡ r.id)
      → ((slot : Slot) (r : Row F) → holds slot (f r) ≡ false)
      → IsWellFormed db
      → IsWellFormed after
  update_where-IsWellFormed p f db after rows next same gone w = record {
    ordered = rw (rows, next) (Ordered-update_where p f same db.next_id db.rows w.ordered);
    single = λ slot. rw rows (
        omega (
          arith,
          w.single slot,
          count-update_where-le p (holds slot) f
              (λ r e. absurd (false≢true (sym (gone slot r) ∙ e))) db.rows,
        ));
  }

  forget_row-IsWellFormed :
      (s : MemoryScope) (key : String) (reason trace : Option String) (kind : String)
      (found : Option (Row F)) (db : Db F)
      → IsWellFormed db
      → IsWellFormed (forget_row s key reason trace kind found db).1
  unfolding forget_row
  forget_row-IsWellFormed s key reason trace kind none db w = w
  forget_row-IsWellFormed s key reason trace kind (some r) db w =
      update_where-IsWellFormed (holds (slot_of s key)) (delete db.now) db _ refl refl
        (λ r. unfold delete in refl) (λ slot r. holds-delete slot db.now r) w

  pub forget-IsWellFormed :
      (s : MemoryScope) (key : String) (reason trace : Option String) (kind : String) (db : Db F)
      → IsWellFormed db
      → IsWellFormed (forget s key reason trace kind db).1
  unfolding forget
  forget-IsWellFormed s key reason trace kind db w = elim (Bool-cases (strip key == "")) [
    | inl e ↦ rw e w
    | inr e ↦ rw e (
        forget_row-IsWellFormed s (strip key) reason trace kind
          (find (holds (slot_of s (strip key))) db.rows) db w)
  ]

  pub expire_due-IsWellFormed :
      (tenant : Option String) (limit : ℕ) (db : Db F)
      → IsWellFormed db
      → IsWellFormed (expire_due tenant limit db).1
  unfolding expire_due
  expire_due-IsWellFormed tenant limit db w =
      update_where-IsWellFormed (among (due_rows tenant limit db)) (expire db.now) db _ refl refl
        (λ r. unfold expire in refl) (λ slot r. holds-expire slot db.now r) w

  -- The table's invariant is kept by every method that writes, whatever it is called with.
  pub methods-IsWellFormed :
      (db : Db F)
      → IsWellFormed db
      → ((s : MemoryScope) (m : MemoryWrite F) → IsWellFormed (remember s m db).1)
        × ((s : MemoryScope) (key : String) (reason trace : Option String) (kind : String)
            → IsWellFormed (forget s key reason trace kind db).1)
        × ((tenant : Option String) (limit : ℕ) → IsWellFormed (expire_due tenant limit db).1)
  methods-IsWellFormed db w = (
    λ s m. remember-IsWellFormed s m db w,
    λ s key reason trace kind. forget-IsWellFormed s key reason trace kind db w,
    λ tenant limit. expire_due-IsWellFormed tenant limit db w,
  )
