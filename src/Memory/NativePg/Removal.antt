-- ===== src/Memory/NativePg/Removal.antt =====
-- memory/native_pg.py: theorems on lookups after `forget`.
use aegora.Prelude.{
  ◌≡◌, ◌≢◌, refl, ap, Bool, false, Option, none, some, List, [], ◌∷◌, arith, String, strip,
  Bool-cases, inl, inr, ◌==◌, is_some,
}
use aegora.Memory.Models.{MemoryScope}
use aegora.Memory.NativePg.Table.{Row, Db, slot_of, holds, shows, find, update_where, item_of}
use aegora.Memory.NativePg.Read.{get_current}
use aegora.Memory.NativePg.Forget.{delete, forget_row, forget}
use aegora.Memory.NativePg.Rows.{find-update_where_frame, All-of}
use aegora.Memory.NativePg.Invariant.{holds-delete}
use aegora.Memory.NativePg.Frame.{get_current_frame, not_shown, shows_of-holds}

module _ {F : Type 0} where
  find_hidden :
      (p q : Row F → Bool)
      → ((r : Row F) → p r ≡ false → q r ≡ false)
      → (rs : List (Row F)) → find p rs ≡ none
      → find q rs ≡ none
  unfolding find
  find_hidden p q hide [] h = refl
  find_hidden p q hide (r ∷ rs) h = ground (arith, hide r, find_hidden p q hide rs)

  find-update_where-none :
      (p q : Row F → Bool) (f : Row F → Row F)
      → ((r : Row F) → q (f r) ≡ false)
      → ((r : Row F) → p r ≡ false → q r ≡ false)
      → (rs : List (Row F)) → find q (update_where p f rs) ≡ none
  unfolding find update_where
  find-update_where-none p q f gone hide [] = refl
  find-update_where-none p q f gone hide (r ∷ rs) =
      ground (arith, gone r, hide r, find-update_where-none p q f gone hide rs)

  forget_row-hidden :
      (s : MemoryScope) (key : String) (reason trace : Option String) (kind : String)
      (found : Option (Row F)) (db : Db F)
      → find (holds (slot_of s key)) db.rows ≡ found
      → (find (shows (slot_of s key) db.now) (forget_row s key reason trace kind found db).1.rows
          ≡ none)
        × ((forget_row s key reason trace kind found db).1.now ≡ db.now)
        × ((forget_row s key reason trace kind found db).0 ≡ is_some found)
  unfolding forget_row
  forget_row-hidden s key reason trace kind none db found =
      (find_hidden (holds (slot_of s key)) _ (λ r e. rw e) db.rows found, refl, refl)
  forget_row-hidden s key reason trace kind (some r) db found = (
    find-update_where-none (holds (slot_of s key)) (shows (slot_of s key) db.now) (delete db.now)
        (λ r. shows_of-holds _ db.now (delete db.now r) (holds-delete _ db.now r)) (λ r e. rw e)
        db.rows,
    refl,
    refl,
  )

  -- A forgotten key is gone: a lookup of it in the same scope returns nothing, and `forget` reports
  -- a change exactly where an active row held the key.
  pub get_current-forget :
      (s : MemoryScope) (key : String) (reason trace : Option String) (kind : String) (db : Db F)
      → (strip key == "") ≡ false
      → (get_current s key (forget s key reason trace kind db).1 ≡ none)
        × ((forget s key reason trace kind db).0
            ≡ is_some (find (holds (slot_of s (strip key))) db.rows))
  unfolding forget get_current
  get_current-forget s key reason trace kind db named =
      let (rows, clock, changed) =
        forget_row-hidden s (strip key) reason trace kind
          (find (holds (slot_of s (strip key))) db.rows) db refl in
      rw named ((rw clock (ap item_of rows)), changed)

  forget_row_frame :
      (s t : MemoryScope) (key other : String) (reason trace : Option String) (kind : String)
      (found : Option (Row F)) (db : Db F)
      → slot_of s key ≢ slot_of t (strip other)
      → get_current t other (forget_row s key reason trace kind found db).1 ≡ get_current t other db
  unfolding forget_row
  forget_row_frame s t key other reason trace kind none db differ = refl
  forget_row_frame s t key other reason trace kind (some r) db differ =
      get_current_frame t other _ db refl (
        find-update_where_frame (holds (slot_of s key)) _ (delete db.now)
          (λ r. shows_of-holds _ db.now (delete db.now r) (holds-delete _ db.now r)) db.rows
          (All-of (λ r e. not_shown (slot_of s key) _ db.now r differ e) db.rows))

  -- A lookup of another slot is not changed by `forget`.
  get_current-forget_frame :
      (s t : MemoryScope) (key other : String) (reason trace : Option String) (kind : String)
      (db : Db F)
      → slot_of s (strip key) ≢ slot_of t (strip other)
      → get_current t other (forget s key reason trace kind db).1 ≡ get_current t other db
  unfolding forget
  get_current-forget_frame s t key other reason trace kind db differ =
      elim (Bool-cases (strip key == "")) [
        | inl e ↦ rw e
        | inr e ↦ rw e (
            forget_row_frame s t (strip key) other reason trace kind
              (find (holds (slot_of s (strip key))) db.rows) db differ)
      ]
