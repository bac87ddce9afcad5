-- ===== src/Memory/NativePg/History.antt =====
-- memory/native_pg.py: theorems on the history, which is the rows without their status.
use aegora.Prelude.{
  ℕ, ◌≡◌, refl, ap, Bool, ◌&&◌, Option, none, some, List, [], ◌∷◌, map, String, nat_eq, strip,
  Bool-cases, ◌⊎◌, inl, inr, ◌==◌,
}
use mathlib.Core.Path.{ap₂}
use aegora.Memory.Models.{MemoryScope, MemoryWrite}
use aegora.Memory.NativePg.Table.{
  Row, Db, Slot, slot_of, row_slot, holds, find, update_where, same_time,
}
use aegora.Memory.NativePg.Remember.{
  next_version_of, id_of, supersede, retire, new_row, insert_version, remember_over, remember,
}
use aegora.Memory.NativePg.Forget.{delete, forget_row, forget}
use aegora.Memory.NativePg.Expire.{expire, expire_due, due_rows, among}

-- What no write may change in a row.
pub record Essence : Type 0 where
  pub id : ℕ
  pub slot : Slot
  pub content : String
  pub version : ℕ
  pub supersedes_id : Option ℕ

module _ {F : Type 0} where
  abbrev pub essence : Row F → Essence
  essence r = record {
    id = r.id;
    slot = row_slot r;
    content = r.content;
    version = r.version;
    supersedes_id = r.supersedes_id;
  }

  abbrev pub history : List (Row F) → List Essence
  history = map essence

  history-update_where :
      (p : Row F → Bool) (f : Row F → Row F)
      → ((r : Row F) → essence (f r) ≡ essence r)
      → (rows : List (Row F)) → history (update_where p f rows) ≡ history rows
  unfolding update_where
  history-update_where p f same [] = refl
  history-update_where p f same (r ∷ rows) = elim (Bool-cases (p r)) [
    | inl e ↦ rw e (ap₂ ◌∷◌ (same r) (history-update_where p f same rows))
    | inr e ↦ rw e (ap (◌∷◌ (essence r)) (history-update_where p f same rows))
  ]

  history-retire :
      (current : Option (Row F)) (now : ℕ) (rows : List (Row F))
      → history (retire current now rows) ≡ history rows
  unfolding retire supersede
  history-retire none now rows = refl
  history-retire (some c) now rows =
      history-update_where (λ r. nat_eq r.id c.id) (supersede now) (λ r. refl) rows

  -- The entry that a write of a new version adds.
  abbrev pub entry_over : MemoryScope → MemoryWrite F → Option (Row F) → Db F → Essence
  entry_over s m current db = record {
    id = db.next_id;
    slot = slot_of s m.key;
    content = m.value;
    version = next_version_of current;
    supersedes_id = id_of current;
  }

  history-insert_version :
      (s : MemoryScope) (m : MemoryWrite F) (current : Option (Row F)) (db : Db F)
      → history (insert_version s m current db).1.rows ≡ entry_over s m current db ∷ history db.rows
  unfolding insert_version new_row
  history-insert_version s m current db =
      ap (◌∷◌ (entry_over s m current db)) (history-retire current db.now db.rows)

  history-remember_over :
      (s : MemoryScope) (m : MemoryWrite F) (current : Option (Row F)) (db : Db F)
      → ((remember_over s m current db).1 ≡ db)
        ⊎ (history (remember_over s m current db).1.rows
            ≡ entry_over s m current db ∷ history db.rows)
  unfolding remember_over
  history-remember_over s m none db = inr (history-insert_version s m none db)
  history-remember_over s m (some c) db =
      elim (Bool-cases (c.content == m.value && same_time c.valid_until m.expires_at)) [
        | inl e ↦ inl (rw e)
        | inr e ↦ inr (rw e (history-insert_version s m (some c) db))
      ]

  -- A write either changes nothing or adds one entry to the history: the value in its slot, one
  -- version above the active row that it replaces and pointing to it, or version 1 if there is none.
  -- No entry of the history is changed or lost.
  pub history-remember :
      (s : MemoryScope) (m : MemoryWrite F) (db : Db F)
      → ((remember s m db).1 ≡ db)
        ⊎ (history (remember s m db).1.rows
            ≡ entry_over s m (find (holds (slot_of s m.key)) db.rows) db ∷ history db.rows)
  unfolding remember
  history-remember s m db = history-remember_over s m (find (holds (slot_of s m.key)) db.rows) db

  history-forget_row :
      (s : MemoryScope) (key : String) (reason trace : Option String) (kind : String)
      (found : Option (Row F)) (db : Db F)
      → history (forget_row s key reason trace kind found db).1.rows ≡ history db.rows
  unfolding forget_row
  history-forget_row s key reason trace kind none db = refl
  history-forget_row s key reason trace kind (some r) db =
      history-update_where (holds (slot_of s key)) (delete db.now) (λ r. unfold delete in refl)
        db.rows

  -- Forgetting and the sweep only change the status and the times of rows: the history stays.
  history-forget-expire_due :
      (db : Db F)
      → ((s : MemoryScope) (key : String) (reason trace : Option String) (kind : String)
          → history (forget s key reason trace kind db).1.rows ≡ history db.rows)
        × ((tenant : Option String) (limit : ℕ)
            → history (expire_due tenant limit db).1.rows ≡ history db.rows)
  unfolding forget expire_due
  history-forget-expire_due db = (
    λ s key reason trace kind. elim (Bool-cases (strip key == "")) [
      | inl e ↦ rw e
      | inr e ↦ rw e (
          history-forget_row s (strip key) reason trace kind
            (find (holds (slot_of s (strip key))) db.rows) db)
    ],
    λ tenant limit.
        history-update_where (among (due_rows tenant limit db)) (expire db.now)
          (λ r. unfold expire in refl) db.rows,
  )
