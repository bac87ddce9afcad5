-- ===== src/Memory/NativePg/Frame.antt =====
-- memory/native_pg.py: theorems on lookups in other slots, and on reads across the sweep.
use aegora.Prelude.{
  ℕ, ◌≡◌, ◌≢◌, refl, sym, ◌∙◌, Bool, true, false, ◌&&◌, Option, none, some, List, arith, String,
  nat_eq, strip, Bool-cases, inl, inr, ◌==◌, All,
}
use aegora.Prelude.Sort.{All-sort, All-take}
use aegora.Memory.Models.{MemoryScope, MemoryWrite, Builtins}
use aegora.Memory.NativePg.Table.{
  Row, Db, Slot, slot_eq, slot_of, row_slot, holds, shows, find, same_time, unexpired,
}
use aegora.Memory.NativePg.Read.{get_current, recall, recallable}
use aegora.Memory.NativePg.Remember.{
  supersede, retire, new_row, insert_version, remember_over, remember,
}
use aegora.Memory.NativePg.Expire.{expire, expire_due, due, due_rows, among}
use aegora.Memory.NativePg.Rows.{
  find-update_where_frame, keep-update_where_frame, found_only, All-map, keep-Tells, among_sound,
  Ordered,
}
use aegora.Memory.NativePg.Invariant.{IsWellFormed, slot_eq_iff, holds-supersede, holds-expire}

slot_eq_refl : (slot : Slot) → slot_eq slot slot ≡ true
slot_eq_refl slot = (slot_eq_iff slot slot).1 refl

and_false : (b : Bool) → b && false ≡ false
and_false true = refl
and_false false = refl

module _ {F : Type 0} where
  -- A row that holds no slot is shown in none.
  pub shows_of-holds :
      (slot : Slot) (now : ℕ) (r : Row F) → holds slot r ≡ false → shows slot now r ≡ false
  shows_of-holds slot now r h = rw h

  pub not_shown :
      (slot other : Slot) (now : ℕ) (r : Row F)
      → slot ≢ other
      → holds slot r ≡ true
      → shows other now r ≡ false
  not_shown slot other now r differ h = elim (Bool-cases (slot_eq (row_slot r) other)) [
    | inl same ↦
        let mine : row_slot r ≡ slot = (slot_eq_iff (row_slot r) slot).0 (ground arith) in
        absurd (differ (sym mine ∙ (slot_eq_iff (row_slot r) other).0 same))
    | inr e ↦ rw e
  ]

  -- Retiring a row of one slot is not seen in another.
  retire_frame :
      (slot other : Slot) (now n : ℕ) (rows : List (Row F)) (current : Option (Row F))
      → find (holds slot) rows ≡ current
      → Ordered n rows
      → slot ≢ other
      → find (shows other now) (retire current now rows) ≡ find (shows other now) rows
  unfolding retire
  retire_frame slot other now n rows none found o differ = refl
  retire_frame slot other now n rows (some c) found o differ =
      find-update_where_frame (λ r. nat_eq r.id c.id) (shows other now) (supersede now)
        (λ r. shows_of-holds other now (supersede now r) (holds-supersede other now r)) rows
        (All-map (λ r only same. not_shown slot other now r differ (only same)) rows
          (found_only (holds slot) n rows o found))

  -- A lookup depends on the rows that its slot shows, and on the clock.
  pub get_current_frame :
      (t : MemoryScope) (key : String) (after db : Db F)
      → after.now ≡ db.now
      → find (shows (slot_of t (strip key)) db.now) after.rows
        ≡ find (shows (slot_of t (strip key)) db.now) db.rows
      → get_current t key after ≡ get_current t key db
  unfolding get_current
  get_current_frame t key after db clock same = elim (Bool-cases (strip key == "")) [
    | inl e ↦ rw e
    | inr e ↦ rw (e, clock, same)
  ]

  insert_version_frame :
      (s : MemoryScope) (m : MemoryWrite F) (current : Option (Row F)) (other : Slot) (db : Db F)
      → find (holds (slot_of s m.key)) db.rows ≡ current
      → IsWellFormed db
      → slot_of s m.key ≢ other
      → find (shows other db.now) (insert_version s m current db).1.rows
        ≡ find (shows other db.now) db.rows
  unfolding insert_version find
  insert_version_frame s m current other db found w differ =
      let slot = slot_of s m.key in
      let new = new_row s m current db in
      let held : holds slot new ≡ true = unfold new_row in rw (slot_eq_refl slot) in
      rw (not_shown slot other db.now new differ held)
        (retire_frame slot other db.now db.next_id db.rows current found w.ordered differ)

  remember_over_frame :
      (s : MemoryScope) (m : MemoryWrite F) (current : Option (Row F)) (other : Slot) (db : Db F)
      → find (holds (slot_of s m.key)) db.rows ≡ current
      → IsWellFormed db
      → slot_of s m.key ≢ other
      → (find (shows other db.now) (remember_over s m current db).1.rows
          ≡ find (shows other db.now) db.rows)
        × ((remember_over s m current db).1.now ≡ db.now)
  unfolding remember_over
  remember_over_frame s m none other db found w differ =
      (insert_version_frame s m none other db found w differ, unfold insert_version in refl)
  remember_over_frame s m (some c) other db found w differ =
      elim (Bool-cases (c.content == m.value && same_time c.valid_until m.expires_at)) [
        | inl e ↦ rw e (refl, refl)
        | inr e ↦ rw e (
          insert_version_frame s m (some c) other db found w differ,
          unfold insert_version in refl,
        )
      ]

  -- A write to one slot leaves every lookup in another as it was.
  pub get_current-remember_frame :
      (s t : MemoryScope) (m : MemoryWrite F) (key : String) (db : Db F)
      → IsWellFormed db
      → slot_of s m.key ≢ slot_of t (strip key)
      → get_current t key (remember s m db).1 ≡ get_current t key db
  unfolding remember
  get_current-remember_frame s t m key db w differ =
      let (rows, clock) =
        remember_over_frame s m (find (holds (slot_of s m.key)) db.rows) (slot_of t (strip key)) db
          refl w differ in
      get_current_frame t key _ db clock rows

  -- No row that the sweep takes was shown to a reader.
  taken-Hidden :
      (q : Row F → Bool) (tenant : Option String) (limit : ℕ) (db : Db F)
      → ((r : Row F) → due tenant db.now r ≡ true → q r ≡ false)
      → IsWellFormed db
      → All (λ r. among (due_rows tenant limit db) r ≡ true → q r ≡ false) db.rows
  unfolding due_rows
  taken-Hidden q tenant limit db hidden w =
      let told = keep-Tells (due tenant db.now) db.next_id db.rows w.ordered in
      All-map (λ r sound e. hidden r (sound e)) db.rows
        (among_sound (due tenant db.now) db.next_id db.rows _
          (All-take _ _ _ (All-sort _ _ _ told)))

  due_elapsed :
      (tenant : Option String) (now : ℕ) (r : Row F)
      → due tenant now r ≡ true
      → unexpired r.valid_until now ≡ false
  unfolding due
  due_elapsed tenant now r h = ground arith

  recallable-expire :
      (s : MemoryScope) (now : ℕ) (r : Row F) → recallable s now (expire now r) ≡ false
  unfolding recallable expire
  recallable-expire s now r = ground arith

  due-not_recallable :
      (s : MemoryScope) (tenant : Option String) (now : ℕ) (r : Row F)
      → due tenant now r ≡ true
      → recallable s now r ≡ false
  unfolding recallable
  due-not_recallable s tenant now r h = ground (arith, due_elapsed tenant now r h)

  -- The sweep is invisible to readers, whatever its tenant and limit: a lookup and a recall return
  -- after it what they returned before, since both pass over elapsed rows by themselves.
  pub reads-expire_due :
      (py : Builtins F) (tenant : Option String) (limit : ℕ) (db : Db F)
      → IsWellFormed db
      → ((s : MemoryScope) (key : String)
          → get_current s key (expire_due tenant limit db).1 ≡ get_current s key db)
        × ((s : MemoryScope) (n : ℕ)
            → recall py s n (expire_due tenant limit db).1 ≡ recall py s n db)
  unfolding expire_due recall
  reads-expire_due py tenant limit db w = (
    λ s key. get_current_frame s key _ db refl (
        find-update_where_frame _ (shows (slot_of s (strip key)) db.now) (expire db.now)
          (λ r. shows_of-holds _ db.now (expire db.now r) (holds-expire _ db.now r)) db.rows
          (taken-Hidden _ tenant limit db (λ r e. rw (due_elapsed tenant db.now r e) (and_false _))
            w)),
    λ s n. rw (
        keep-update_where_frame (among (due_rows tenant limit db)) (recallable s db.now)
          (expire db.now) (λ r. recallable-expire s db.now r) db.rows
          (taken-Hidden (recallable s db.now) tenant limit db (due-not_recallable s tenant db.now)
            w)),
  )
