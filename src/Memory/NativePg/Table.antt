-- ===== src/Memory/NativePg/Table.antt =====
-- memory/native_pg.py: the state of the versioned store. The table `memory_items` is the list of its
-- rows, the newest first, so `ORDER BY id DESC` is the order of the list; `memory_events` is the list
-- of its events, the newest first, and `user_memories` a dict of dicts. The database's clock, which
-- `now()` reads, is a field of the state. A method is one transaction: it returns the new state.
use aegora.Prelude.{
  ℕ, String, Bool, true, false, ◌&&◌, Option, none, some, List, [], leb, ltb, nat_eq, or_str,
  or_else, or_opt, ◌==◌, if◌then◌else◌,
}
use aegora.Prelude.Dict.{Dict}
unfoldable pub use aegora.Prelude.Rows.{find, update_where}
use aegora.Memory.Models.{MemoryItem, MemoryScope}

pub data Status : Type 0 where
  active superseded deleted expired : Status

abbrev pub is_active : Status → Bool
is_active active = true
is_active _ = false

-- A row of `memory_items`.
pub record Row (F : Type 0) : Type 0 where
  pub id : ℕ
  pub tenant_id : String
  pub subject_user_id : String
  pub scope : String
  pub namespace : String
  pub agent_id : Option String
  pub memory_type : String
  pub memory_key : String
  pub content : String
  pub source_agent_id : Option String
  pub source_session_id : Option String
  pub source_trace_id : Option String
  pub source_kind : String
  pub confidence : F
  pub importance : F
  pub status : Status
  pub version : ℕ
  pub supersedes_id : Option ℕ
  pub valid_from : ℕ
  pub valid_until : Option ℕ
  pub updated_at : ℕ

-- The `detail` of an event.
pub data Detail : Type 0 where
  empty : Detail
  next_version : ℕ → Detail
  written : (version : ℕ) → (supersedes_id : Option ℕ) → (expires_at : Option ℕ) → Detail

-- A row of `memory_events`.
pub record Event : Type 0 where
  pub tenant_id : String
  pub user_id : String
  pub namespace : String
  pub key : String
  pub memory_id : ℕ
  pub event_type : String
  pub source_kind : String
  pub source_agent_id : Option String
  pub source_session_id : Option String
  pub source_trace_id : Option String
  pub reason : String
  pub detail : Detail

pub record Db (F : Type 0) : Type 0 where
  pub rows : List (Row F)
  pub next_id : ℕ
  pub events : List Event
  pub facts : Dict (Dict String)
  pub now : ℕ

-- The identity by which the table's unique index allows one active row.
pub record Slot : Type 0 where
  pub tenant : String
  pub user : String
  pub scope : String
  pub namespace : String
  pub agent : String
  pub key : String

-- `COALESCE(a, '')`
abbrev pub coalesce : Option String → String
coalesce none = ""
coalesce (some a) = a

unfoldable pub slot_eq : Slot → Slot → Bool
slot_eq a b =
    a.tenant == b.tenant
    && a.user == b.user
    && a.scope == b.scope
    && a.namespace == b.namespace
    && a.agent == b.agent
    && a.key == b.key

-- `scope.agent_id if scope.memory_scope == "user_agent" else None`
abbrev pub owner_of : MemoryScope → Option String
owner_of s = if s.memory_scope == "user_agent" then s.agent_id else none

abbrev pub slot_of : MemoryScope → String → Slot
slot_of s key = record {
  tenant = or_str s.tenant_id "default";
  user = s.user_id;
  scope = s.memory_scope;
  namespace = s.namespace;
  agent = coalesce (owner_of s);
  key = key;
}

-- `valid_until IS NULL OR valid_until > now()`
abbrev pub unexpired : Option ℕ → ℕ → Bool
unexpired none now = true
unexpired (some t) now = ltb now t

-- `valid_until IS NOT NULL AND valid_until <= now()`
abbrev pub elapsed : Option ℕ → ℕ → Bool
elapsed none now = false
elapsed (some t) now = leb t now

-- `COALESCE(valid_until, now())`
abbrev pub or_now : Option ℕ → ℕ → Option ℕ
or_now none now = some now
or_now (some t) now = some t

-- `current.get("valid_until") == memory.expires_at`
abbrev pub same_time : Option ℕ → Option ℕ → Bool
same_time none none = true
same_time (some s) (some t) = nat_eq s t
same_time _ _ = false

-- `%s IS NULL OR tenant_id = %s`
abbrev pub of_tenant : Option String → String → Bool
of_tenant none tenant = true
of_tenant (some t) tenant = tenant == t

-- The old aggregate table: the facts of one user.
abbrev pub facts_of : Option (Dict String) → Dict String
facts_of none = []
facts_of (some facts) = facts

abbrev pub in_aggregate : MemoryScope → Bool
in_aggregate s = s.memory_scope == "user_global" && s.namespace == "preferences"

module _ {F : Type 0} where
  abbrev pub row_slot : Row F → Slot
  row_slot r = record {
    tenant = r.tenant_id;
    user = r.subject_user_id;
    scope = r.scope;
    namespace = r.namespace;
    agent = coalesce r.agent_id;
    key = r.memory_key;
  }

  -- The WHERE clause of `remember` and `forget`, and that of `get_current`.
  abbrev pub holds : Slot → Row F → Bool
  holds slot r = slot_eq (row_slot r) slot && is_active r.status

  abbrev pub shows : Slot → ℕ → Row F → Bool
  shows slot now r = holds slot r && unexpired r.valid_until now

  unfoldable pub row_to_item : Row F → MemoryItem F
  row_to_item r = record {
    memory_id = r.id;
    memory_type = or_else r.memory_type "semantic";
    key = r.memory_key;
    content = r.content;
    scope = or_else r.scope "user_global";
    namespace = or_else r.namespace "preferences";
    version = if nat_eq r.version 0 then 1 else r.version;
    source_agent_id = or_opt r.source_agent_id none;
    source_kind = or_else r.source_kind "legacy";
    metadata = record {
      tenant_id = some r.tenant_id;
      user_id = some r.subject_user_id;
      agent_id = r.agent_id;
      source_session_id = r.source_session_id;
      source_trace_id = r.source_trace_id;
      confidence = some r.confidence;
      importance = some r.importance;
      supersedes_id = r.supersedes_id;
      valid_from = some r.valid_from;
      valid_until = r.valid_until;
    };
  }

  abbrev pub item_of : Option (Row F) → Option (MemoryItem F)
  item_of none = none
  item_of (some r) = some (row_to_item r)
