-- ===== src/Memory/NativePg/Remember.antt =====
-- memory/native_pg.py: `remember`, which writes the next version of a memory.
use aegora.Prelude.{
  ℕ, suc, ◌+◌, String, ◌&&◌, Option, none, some, List, [], ◌∷◌, ◌++◌, nat_eq, or_str, or_opt, ◌==◌,
  if◌then◌else◌,
}
use aegora.Prelude.Dict
use aegora.Prelude.Dict.{Dict}
use aegora.Memory.Models.{MemoryItem, MemoryScope, MemoryWrite}
use aegora.Memory.NativePg.Table.{
  active, superseded, Row, Detail, next_version, written, Event, Db, owner_of, slot_of, or_now,
  same_time, find, update_where, holds, row_to_item, facts_of, in_aggregate,
}

module _ {F : Type 0} where
  -- `SET status = 'superseded', valid_until = COALESCE(valid_until, now()), updated_at = now()`
  unfoldable pub supersede : ℕ → Row F → Row F
  supersede now r = record r {
    status = superseded;
    valid_until = or_now r.valid_until now;
    updated_at = now;
  }

  -- The row that `remember` inserts: over `current`, if there is one.
  abbrev pub next_version_of : Option (Row F) → ℕ
  next_version_of none = 1
  next_version_of (some c) = c.version + 1

  abbrev pub id_of : Option (Row F) → Option ℕ
  id_of none = none
  id_of (some c) = some c.id

  unfoldable pub new_row : MemoryScope → MemoryWrite F → Option (Row F) → Db F → Row F
  new_row s m current db = record {
    id = db.next_id;
    tenant_id = or_str s.tenant_id "default";
    subject_user_id = s.user_id;
    scope = s.memory_scope;
    namespace = s.namespace;
    agent_id = owner_of s;
    memory_type = m.memory_type;
    memory_key = m.key;
    content = m.value;
    source_agent_id = or_opt m.source_agent_id s.agent_id;
    source_session_id = or_opt m.source_session_id s.session_id;
    source_trace_id = m.source_trace_id;
    source_kind = m.source_kind;
    confidence = m.confidence;
    importance = m.importance;
    status = active;
    version = next_version_of current;
    supersedes_id = id_of current;
    valid_from = db.now;
    valid_until = m.expires_at;
    updated_at = db.now;
  }

  abbrev write_event : MemoryScope → MemoryWrite F → ℕ → String → String → Detail → Event
  write_event s m id event_type reason detail = record {
    tenant_id = or_str s.tenant_id "default";
    user_id = s.user_id;
    namespace = s.namespace;
    key = m.key;
    memory_id = id;
    event_type = event_type;
    source_kind = m.source_kind;
    source_agent_id = or_opt m.source_agent_id s.agent_id;
    source_session_id = or_opt m.source_session_id s.session_id;
    source_trace_id = m.source_trace_id;
    reason = reason;
    detail = detail;
  }

  -- The events of `remember`, the newest first.
  unfoldable pub write_events : MemoryScope → MemoryWrite F → Option (Row F) → Db F → List Event
  write_events s m none db =
      write_event s m db.next_id "created" (or_str m.reason "memory_create")
        (written 1 none m.expires_at)
      ∷ []
  write_events s m (some c) db =
      write_event s m db.next_id "updated" (or_str m.reason "memory_update")
        (written (c.version + 1) (some c.id) m.expires_at)
      ∷ write_event s m c.id "superseded" (or_str m.reason "memory_update")
          (next_version (c.version + 1))
      ∷ []

  -- `facts || jsonb_build_object(key, value)`, in the row of the user, which may be new
  unfoldable pub add_fact : MemoryScope → MemoryWrite F → Dict (Dict String) → Dict (Dict String)
  add_fact s m facts =
      if in_aggregate s
      then Dict.put s.user_id (Dict.put m.key m.value (facts_of (Dict.get s.user_id facts))) facts
      else facts

  -- `UPDATE memory_items SET status = 'superseded' … WHERE id = current["id"]`
  unfoldable pub retire : Option (Row F) → ℕ → List (Row F) → List (Row F)
  retire none now rows = rows
  retire (some c) now rows = update_where (λ r. nat_eq r.id c.id) (supersede now) rows

  unfoldable pub insert_version :
      MemoryScope → MemoryWrite F → Option (Row F) → Db F → MemoryItem F × Db F
  insert_version s m current db =
      let row = new_row s m current db in
      (
        row_to_item row,
        record db {
          rows = row ∷ retire current db.now db.rows;
          next_id = suc db.next_id;
          events = write_events s m current db ++ db.events;
          facts = add_fact s m db.facts;
        },
      )

  -- A value that is stored already, with the same expiry, is returned and nothing is written.
  unfoldable pub remember_over :
      MemoryScope → MemoryWrite F → Option (Row F) → Db F → MemoryItem F × Db F
  remember_over s m none db = insert_version s m none db
  remember_over s m (some c) db =
      if c.content == m.value && same_time c.valid_until m.expires_at
      then (row_to_item c, db)
      else insert_version s m (some c) db

  unfoldable pub remember : MemoryScope → MemoryWrite F → Db F → MemoryItem F × Db F
  remember s m db = remember_over s m (find (holds (slot_of s m.key)) db.rows) db
