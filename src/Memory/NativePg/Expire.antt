-- ===== src/Memory/NativePg/Expire.antt =====
-- memory/native_pg.py: `expire_due`, the sweep over elapsed memories.
use aegora.Prelude.{
  ℕ, String, Bool, true, false, ◌&&◌, Option, none, some, List, ◌++◌, map, leb, ltb, nat_eq,
  or_else, keep, any, length, take, if◌then◌else◌,
}
use aegora.Prelude.Sort.{sort}
use aegora.Memory.NativePg.Table.{
  expired, is_active, Row, empty, Event, Db, elapsed, of_tenant, update_where,
}

abbrev time_of : Option ℕ → ℕ
time_of none = 0
time_of (some t) = t

module _ {F : Type 0} where
  -- The WHERE clause and the ORDER BY of the common table expression `due`.
  unfoldable pub due : Option String → ℕ → Row F → Bool
  due tenant now r = is_active r.status && elapsed r.valid_until now && of_tenant tenant r.tenant_id

  abbrev due_before : Row F → Row F → Bool
  due_before a b =
      if ltb (time_of a.valid_until) (time_of b.valid_until)
      then true
      else if ltb (time_of b.valid_until) (time_of a.valid_until)
      then false
      else ltb a.id b.id

  unfoldable pub due_rows : Option String → ℕ → Db F → List (Row F)
  due_rows tenant limit db =
      take (if leb limit 1 then 1 else limit) (sort due_before (keep (due tenant db.now) db.rows))

  unfoldable pub expire : ℕ → Row F → Row F
  expire now r = record r { status = expired; updated_at = now }

  abbrev expiry_event : Row F → Event
  expiry_event r = record {
    tenant_id = r.tenant_id;
    user_id = r.subject_user_id;
    namespace = r.namespace;
    key = r.memory_key;
    memory_id = r.id;
    event_type = "expired";
    source_kind = or_else r.source_kind "legacy";
    source_agent_id = r.source_agent_id;
    source_session_id = r.source_session_id;
    source_trace_id = r.source_trace_id;
    reason = "valid_until_elapsed";
    detail = empty;
  }

  -- `item.id = due.id`, for a row of `due`
  abbrev pub among : List (Row F) → Row F → Bool
  among taken r = any (λ t. nat_eq r.id t.id) taken

  unfoldable pub expire_due : Option String → ℕ → Db F → ℕ × Db F
  expire_due tenant limit db =
      let taken = due_rows tenant limit db in
      (
        length taken,
        record db {
          rows = update_where (among taken) (expire db.now) db.rows;
          events = map expiry_event taken ++ db.events;
        },
      )
