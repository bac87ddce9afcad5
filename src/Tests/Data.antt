-- ===== src/Tests/Data.antt =====
-- The concrete inputs of the tests: hundredths for floats, a user, an agent, a table and a governance.
use aegora.Prelude.{ℕ, ◌+◌, true, false, none, some, [], ltb, leb}
use aegora.Memory.Models.{Builtins, MemoryScope, MemoryWrite, MemoryCandidate}
use aegora.Memory.Policy.{MemoryGovernance, MemoryNamespacePolicy}
use aegora.Memory.Provider.{native}
use aegora.Memory.Service.{MemoryService}
use aegora.Memory.NativePg.Table.{Db}

abbrev pub py : Builtins ℕ
py = record {
  float_lt = ltb;
  float_le = leb;
  float_add = λ a b. a + b;
  zero_float = 0;
  one_float = 100;
  half_float = 50;
  ninety_five_hundredths = 95;
  five_hundredths = 5;
  lower = λ s. s;
}

abbrev pub ann : MemoryScope
ann = record {
  user_id = "ann";
  session_id = some "s1";
  agent_id = some "bot";
  tenant_id = some "acme";
  namespace = "preferences";
  memory_scope = "user_global";
}

abbrev pub tea : MemoryWrite ℕ
tea = record {
  key = "drink";
  value = "tea";
  memory_type = "semantic";
  source_agent_id = some "bot";
  source_session_id = none;
  source_trace_id = none;
  source_kind = "explicit";
  confidence = 100;
  importance = 50;
  expires_at = none;
  reason = none;
}

abbrev pub empty_db : Db ℕ
empty_db = record { rows = []; next_id = 1; events = []; facts = []; now = 1000 }

abbrev pub service : MemoryService ℕ (Db ℕ)
service = record {
  provider = some (native py);
  recall_enabled = true;
  write_enabled = true;
  recall_limit = 5;
  max_item_chars = 200;
}

abbrev pub open_policy : MemoryNamespacePolicy
open_policy = record {
  namespace = "preferences";
  mode = "user_controlled";
  allow_public_agents = false;
}

abbrev pub governance : MemoryGovernance
governance = record {
  tenant_id = "acme";
  agent_id = some "bot";
  agent_visibility = "private";
  namespace_policies = [];
  user_preferences = [];
}

abbrev pub coffee : MemoryCandidate ℕ
coffee = record {
  operation = "upsert";
  namespace = "preferences";
  key = "drink";
  value = some "coffee";
  memory_type = "semantic";
  evidence_type = "explicit_fact";
  confidence = 97;
  importance = 50;
  update_intent = false;
  ttl_days = some 30;
  rationale = none;
  source_agent_id = none;
  source_session_id = none;
  source_trace_id = none;
  candidate_id = none;
}
