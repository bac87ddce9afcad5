-- ===== src/Memory/NativePg/Read.antt =====
-- memory/native_pg.py: `get_current` and `recall`.
use aegora.Prelude.{
  ℕ, String, Bool, true, false, ◌&&◌, ◌||◌, Option, none, List, map, leb, ltb, is_some, strip,
  or_str, opt_eq, keep, take, ◌==◌, if◌then◌else◌,
}
use aegora.Prelude.Sort.{sort}
use aegora.Memory.Models.{Builtins, MemoryItem, MemoryScope}
use aegora.Memory.NativePg.Table.{
  is_active, Row, Db, slot_of, unexpired, find, shows, row_to_item, item_of,
}

module _ {F : Type 0} where
  unfoldable pub get_current : MemoryScope → String → Db F → Option (MemoryItem F)
  get_current scope key db =
      let key = strip key in
      if key == "" then none else item_of (find (shows (slot_of scope key) db.now) db.rows)

  -- The WHERE clause of `recall`.
  unfoldable pub recallable : MemoryScope → ℕ → Row F → Bool
  recallable s now r =
      r.tenant_id == or_str s.tenant_id "default"
      && r.subject_user_id == s.user_id
      && is_active r.status
      && unexpired r.valid_until now
      && ((r.scope == "user_global" || r.scope == "tenant_user")
          || (r.scope == "user_agent" && is_some r.agent_id && opt_eq r.agent_id s.agent_id))

  -- `ORDER BY importance DESC, updated_at DESC, id DESC`
  abbrev recall_before : Builtins F → Row F → Row F → Bool
  recall_before py a b =
      if py.float_lt b.importance a.importance
      then true
      else if py.float_lt a.importance b.importance
      then false
      else if ltb b.updated_at a.updated_at
      then true
      else if ltb a.updated_at b.updated_at
      then false
      else ltb b.id a.id

  unfoldable pub recall : Builtins F → MemoryScope → ℕ → Db F → List (MemoryItem F)
  recall py s limit db = map row_to_item (
      take (if leb limit 1 then 1 else limit)
        (sort (recall_before py) (keep (recallable s db.now) db.rows)))
