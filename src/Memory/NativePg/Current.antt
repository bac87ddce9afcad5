-- ===== src/Memory/NativePg/Current.antt =====
-- memory/native_pg.py: theorems on `get_current` after `remember`.
use aegora.Prelude.{
  ℕ, ◌≡◌, refl, ap, true, false, Option, none, some, arith, nat_eq→eq, strip, Bool-cases, inl, inr,
  ◌==◌, eq_iff,
}
use aegora.Memory.Models.{MemoryScope, MemoryWrite, MemoryItem}
use aegora.Memory.NativePg.Table.{
  Row, Db, Slot, slot_eq, slot_of, row_to_item, item_of, holds, shows, find, same_time, unexpired,
}
use aegora.Memory.NativePg.Read.{get_current}
use aegora.Memory.NativePg.Remember.{new_row, insert_version, remember_over, remember}
use aegora.Memory.NativePg.Rows.{find_narrower, find_sound}
use aegora.Memory.NativePg.Invariant.{slot_eq_iff}

slot_eq_refl : (slot : Slot) → slot_eq slot slot ≡ true
slot_eq_refl slot = (slot_eq_iff slot slot).1 refl

same_time→eq : (a b : Option ℕ) → same_time a b ≡ true → a ≡ b
same_time→eq none none h = refl
same_time→eq none (some b) h = cc
same_time→eq (some a) none h = cc
same_time→eq (some a) (some b) h = ap some (nat_eq→eq a b h)

module _ {F : Type 0} where
  insert_version-get_current :
      (s : MemoryScope) (m : MemoryWrite F) (current : Option (Row F)) (db : Db F)
      → strip m.key ≡ m.key
      → (m.key == "") ≡ false
      → unexpired m.expires_at db.now ≡ true
      → get_current s m.key (insert_version s m current db).1
        ≡ some (insert_version s m current db).0
  unfolding insert_version new_row get_current find
  insert_version-get_current s m current db clean named fresh =
      rw (clean, named) (ground (arith, fresh, slot_eq_refl (slot_of s m.key)))

  -- The branch that writes nothing.
  kept-get_current :
      (s : MemoryScope) (m : MemoryWrite F) (c : Row F) (db : Db F)
      → find (holds (slot_of s m.key)) db.rows ≡ some c
      → same_time c.valid_until m.expires_at ≡ true
      → strip m.key ≡ m.key
      → (m.key == "") ≡ false
      → unexpired m.expires_at db.now ≡ true
      → get_current s m.key db ≡ some (row_to_item c)
  unfolding get_current
  kept-get_current s m c db found same clean named fresh =
      let slot = slot_of s m.key in
      let held : holds slot c ≡ true = find_sound (holds slot) db.rows found in
      let times : c.valid_until ≡ m.expires_at = same_time→eq c.valid_until m.expires_at same in
      let shown : shows slot db.now c ≡ true = rw (held, times) fresh in
      rw (clean, named)
        (ap item_of (
          find_narrower (holds slot) (shows slot db.now) (λ r e. ground arith) db.rows found shown))

  Reads : MemoryScope → MemoryWrite F → MemoryItem F × Db F → Type 0
  Reads s m after = (get_current s m.key after.1 ≡ some after.0) × (after.0.content ≡ m.value)

  remember_over-Reads :
      (s : MemoryScope) (m : MemoryWrite F) (current : Option (Row F)) (db : Db F)
      → find (holds (slot_of s m.key)) db.rows ≡ current
      → strip m.key ≡ m.key
      → (m.key == "") ≡ false
      → unexpired m.expires_at db.now ≡ true
      → Reads s m (remember_over s m current db)
  unfolding remember_over Reads
  remember_over-Reads s m none db found clean named fresh = (
    insert_version-get_current s m none db clean named fresh,
    unfold insert_version new_row row_to_item in refl,
  )
  remember_over-Reads s m (some c) db found clean named fresh =
      elim (Bool-cases (c.content == m.value)) [
        | inl content ↦ elim (Bool-cases (same_time c.valid_until m.expires_at)) [
          | inl same ↦
              rw (content, same)
                (
                  kept-get_current s m c db found same clean named fresh,
                  unfold row_to_item in (eq_iff c.content m.value).0 content,
                )
          | inr other ↦
              rw (content, other)
                (
                  insert_version-get_current s m (some c) db clean named fresh,
                  unfold insert_version new_row row_to_item in refl,
                )
        ]
        | inr other ↦ rw other (
          insert_version-get_current s m (some c) db clean named fresh,
          unfold insert_version new_row row_to_item in refl,
        )
      ]

  -- A stored value is what is read next: after `remember`, a lookup of the key in the same scope
  -- returns the item that `remember` returned, with the value that was given, unless its expiry has
  -- passed already. This holds on both branches, also where the value was there and nothing was
  -- written.
  pub get_current-remember :
      (s : MemoryScope) (m : MemoryWrite F) (db : Db F)
      → strip m.key ≡ m.key
      → (m.key == "") ≡ false
      → unexpired m.expires_at db.now ≡ true
      → (get_current s m.key (remember s m db).1 ≡ some (remember s m db).0)
        × ((remember s m db).0.content ≡ m.value)
  unfolding remember Reads
  get_current-remember s m db clean named fresh =
      remember_over-Reads s m (find (holds (slot_of s m.key)) db.rows) db refl clean named fresh
