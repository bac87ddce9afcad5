-- ===== src/Tests/Recalls.antt =====
-- What is recalled, and the records' checks, at concrete memories.
use aegora.Prelude.{mem, ℕ, ◌≡◌, refl, true, none, some, strip, arith, eq_iff}
use aegora.Prelude.Result.{ok, raise_first}
use aegora.Prelude.Dict
use aegora.Memory.Models.{MemoryItem}
use aegora.Memory.Policy.{
  policy_for, make_policy, can_recall, recall_under, can_recall_shared, write_scope_for,
  share_enabled,
}
use aegora.Memory.Policy.Recall.{can_recall-write_scope_for}
use aegora.Memory.Service.{recall}
use aegora.Memory.Service.Guards.{Served, recall-Served}
use aegora.Memory.NativePg.Table.{Db}
use aegora.Memory.NativePg.Remember
use aegora.Tests.Data.{py, ann, tea, empty_db, service, governance}

abbrev one_memory : Db ℕ
one_memory = (Remember.remember ann tea empty_db).1

abbrev item : MemoryItem ℕ
item = record {
  memory_id = 1;
  memory_type = "semantic";
  key = "drink";
  content = "tea";
  scope = "user_global";
  namespace = "preferences";
  version = 1;
  source_agent_id = some "bot";
  source_kind = "explicit";
  metadata = record {
    tenant_id = some "acme";
    user_id = some "ann";
    agent_id = none;
    source_session_id = none;
    source_trace_id = none;
    confidence = some 100;
    importance = some 50;
    supersedes_id = none;
    valid_from = some 1000;
    valid_until = none;
  };
}

recall-Served_example :
    Served py governance service (recall py service ann "tea" (some governance) one_memory)
recall-Served_example = recall-Served py governance service ann "tea" one_memory

can_recall-write_scope_for_example : can_recall item governance ≡ ok true
unfolding policy_for make_policy raise_first can_recall recall_under can_recall_shared share_enabled
    write_scope_for Dict.get strip mem
can_recall-write_scope_for_example =
    can_recall-write_scope_for item governance "bot" refl refl refl refl
      (λ e. ground (arith, eq_iff "user_global" "user_agent"))
