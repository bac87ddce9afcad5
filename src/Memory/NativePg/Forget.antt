-- ===== src/Memory/NativePg/Forget.antt =====
-- memory/native_pg.py: `forget`.
use aegora.Prelude.{
  ℕ, String, Bool, true, false, Option, none, some, ◌∷◌, strip, or_str, ◌==◌, if◌then◌else◌,
}
use aegora.Prelude.Dict
use aegora.Prelude.Dict.{Dict}
use aegora.Memory.Models.{MemoryScope}
use aegora.Memory.NativePg.Table.{
  deleted, Row, empty, Event, Db, slot_of, find, update_where, holds, in_aggregate,
}

abbrev forget_event : MemoryScope → String → Option String → Option String → String → ℕ → Event
forget_event s key reason trace source_kind id = record {
  tenant_id = or_str s.tenant_id "default";
  user_id = s.user_id;
  namespace = s.namespace;
  key = key;
  memory_id = id;
  event_type = "forgotten";
  source_kind = source_kind;
  source_agent_id = s.agent_id;
  source_session_id = s.session_id;
  source_trace_id = trace;
  reason = or_str reason "explicit_forget";
  detail = empty;
}

-- `UPDATE user_memories SET facts = facts - key WHERE user_id = …`
abbrev drop_from : Option (Dict String) → String → String → Dict (Dict String) → Dict (Dict String)
drop_from none user key facts = facts
drop_from (some mine) user key facts = Dict.put user (Dict.pop key mine) facts

unfoldable pub drop_fact : MemoryScope → String → Dict (Dict String) → Dict (Dict String)
drop_fact s key facts =
    if in_aggregate s then drop_from (Dict.get s.user_id facts) s.user_id key facts else facts

module _ {F : Type 0} where
  -- `SET status = 'deleted', valid_until = now(), updated_at = now()`
  unfoldable pub delete : ℕ → Row F → Row F
  delete now r = record r { status = deleted; valid_until = some now; updated_at = now }

  -- The rest of `forget`, by the first row that its UPDATE returned.
  unfoldable pub forget_row :
      MemoryScope
      → String
      → Option String
      → Option String
      → String
      → Option (Row F)
      → Db F
      → Bool × Db F
  forget_row s key reason trace source_kind none db = (false, db)
  forget_row s key reason trace source_kind (some r) db = (
    true,
    record db {
      rows = update_where (holds (slot_of s key)) (delete db.now) db.rows;
      events = forget_event s key reason trace source_kind r.id ∷ db.events;
      facts = drop_fact s key db.facts;
    },
  )

  unfoldable pub forget :
      MemoryScope → String → Option String → Option String → String → Db F → Bool × Db F
  forget s key reason trace source_kind db =
      let key = strip key in
      if key == ""
      then (false, db)
      else forget_row s key reason trace source_kind (find (holds (slot_of s key)) db.rows) db
