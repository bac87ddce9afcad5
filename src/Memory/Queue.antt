-- ===== src/Memory/Queue.antt =====
-- memory/lifecycle.py: MemoryCandidateStore, the queue of extracted candidates and the records of the
-- messages that they were extracted from, with the decision that the resolution of a candidate
-- writes back. The events of candidates are kept apart from those of memories.
pub mod Decided
pub mod Resolve
use aegora.Prelude.{
  ℕ, suc, ◌+◌, String, Bool, true, false, not, ◌&&◌, Option, none, some, List, [], ◌∷◌, nat_eq,
  append, or_str, or_opt, slice_to, truthy, ◌==◌, if◌then◌else◌,
}
use aegora.Prelude.Dict
use aegora.Prelude.Dict.{Dict}
use aegora.Prelude.Result.{Result, ok, err}
use aegora.Memory.Models.{
  Builtins, MemoryItem, MemoryScope, MemoryCandidate, MemoryCandidateDecision, make_scope,
}
use aegora.Memory.Policy.{MemoryGovernance, MemoryNamespacePolicy, policy_for, scope_of_mode}
use aegora.Memory.NativePg.Table.{coalesce, find, update_where}
use aegora.Memory.Service.{MemoryService, or_on_error}
use aegora.Memory.Decision.{effective_scope}
use aegora.Memory.Lifecycle.{resolve_memory_candidate}

-- A row of `memory_candidates`. `candidate` is what was proposed, with the sources filled in.
pub record CandidateRow (F : Type 0) : Type 0 where
  pub id : ℕ
  pub tenant_id : String
  pub subject_user_id : String
  pub proposed_scope : String
  pub agent_id : Option String
  pub candidate : MemoryCandidate F
  pub status : String
  pub decision_reason : Option String
  pub applied_memory_id : Option ℕ
  pub decided_at : Option ℕ

pub record CandidateEvent : Type 0 where
  pub tenant_id : String
  pub subject_user_id : String
  pub namespace : String
  pub memory_key : String
  pub memory_id : Option ℕ
  pub candidate_id : ℕ
  pub event_type : String
  pub source_agent_id : Option String
  pub source_session_id : Option String
  pub source_trace_id : Option String
  pub reason : String
  pub proposed_scope : Option String

-- A row of `memory_extraction_messages`, under its `trace_id`.
pub record Extraction : Type 0 where
  pub user_id : String
  pub session_id : Option String
  pub agent_id : Option String
  pub status : String
  pub candidate_count : ℕ
  pub attempt_count : ℕ
  pub model : String
  pub error : Option String

pub record Queue (F : Type 0) : Type 0 where
  pub rows : List (CandidateRow F)
  pub next_id : ℕ
  pub events : List CandidateEvent
  pub extractions : Dict Extraction
  pub now : ℕ

-- `attempt_count + 1`, or 1 for a new row; an old row keeps its user, session and agent.
abbrev pub attempted : Option Extraction → Extraction → Extraction
attempted none x = record x { attempt_count = 1 }
attempted (some old) x = record old {
  status = x.status;
  candidate_count = x.candidate_count;
  attempt_count = old.attempt_count + 1;
  model = x.model;
  error = x.error;
}

-- `row and row["status"] == "completed"`
abbrev pub completed_of : Option Extraction → Bool
completed_of none = false
completed_of (some x) = x.status == "completed"

module _ {F : Type 0} where
  -- The columns of the unique index, which ON CONFLICT and the SELECT after it compare.
  unfoldable pub same_proposal : MemoryScope → MemoryCandidate F → CandidateRow F → Bool
  same_proposal scope c r =
      r.tenant_id == or_str scope.tenant_id "default"
      && r.subject_user_id == scope.user_id
      && coalesce r.candidate.source_trace_id == coalesce c.source_trace_id
      && r.candidate.namespace == c.namespace
      && r.candidate.key == c.key
      && r.candidate.operation == c.operation

  unfoldable pub new_candidate_row : MemoryScope → MemoryCandidate F → String → ℕ → CandidateRow F
  new_candidate_row scope c proposed_scope id = record {
    id = id;
    tenant_id = or_str scope.tenant_id "default";
    subject_user_id = scope.user_id;
    proposed_scope = proposed_scope;
    agent_id = if proposed_scope == "user_agent" then scope.agent_id else none;
    candidate = record c {
      source_agent_id = or_opt c.source_agent_id scope.agent_id;
      source_session_id = or_opt c.source_session_id scope.session_id;
    };
    status = "pending";
    decision_reason = none;
    applied_memory_id = none;
    decided_at = none;
  }

  unfoldable pub candidate_event :
      MemoryScope
      → MemoryCandidate F
      → String
      → String
      → ℕ
      → Option ℕ
      → Option String
      → CandidateEvent
  candidate_event scope c event_type reason id memory_id proposed_scope = record {
    tenant_id = or_str scope.tenant_id "default";
    subject_user_id = scope.user_id;
    namespace = c.namespace;
    memory_key = c.key;
    memory_id = memory_id;
    candidate_id = id;
    event_type = event_type;
    source_agent_id = or_opt c.source_agent_id scope.agent_id;
    source_session_id = or_opt c.source_session_id scope.session_id;
    source_trace_id = c.source_trace_id;
    reason = reason;
    proposed_scope = proposed_scope;
  }

  -- The INSERT takes a number from the sequence also where it meets a conflict and does nothing.
  unfoldable pub enqueue_over :
      Option (CandidateRow F)
      → MemoryScope
      → MemoryCandidate F
      → String
      → Queue F
      → MemoryCandidate F × Queue F
  enqueue_over none scope c proposed_scope q = (
    record c { candidate_id = some q.next_id },
    record q {
      rows = new_candidate_row scope c proposed_scope q.next_id ∷ q.rows;
      next_id = suc q.next_id;
      events =
          candidate_event scope c "candidate_proposed" "automatic_extraction" q.next_id none
            (some proposed_scope)
          ∷ q.events;
    },
  )
  enqueue_over (some r) scope c proposed_scope q = (
    record c { candidate_id = some r.id },
    record q {
      next_id = suc q.next_id;
      events =
          candidate_event scope c "candidate_proposed" "automatic_extraction" r.id none
            (some proposed_scope)
          ∷ q.events;
    },
  )

  unfoldable pub enqueue :
      MemoryScope → MemoryCandidate F → String → Queue F → MemoryCandidate F × Queue F
  enqueue scope c proposed_scope q =
      enqueue_over (find (same_proposal scope c) q.rows) scope c proposed_scope q

  abbrev pub memory_id_of : Option (MemoryItem F) → Option ℕ
  memory_id_of none = none
  memory_id_of (some item) = some item.memory_id

  -- `UPDATE memory_candidates SET status …`
  unfoldable pub decide_row : MemoryCandidateDecision F → ℕ → CandidateRow F → CandidateRow F
  decide_row d now r = record r {
    status = d.status;
    decision_reason = some d.reason;
    applied_memory_id = memory_id_of d.item;
    decided_at = some now;
  }

  -- A candidate that was never queued has no row to mark.
  unfoldable pub mark_decision :
      MemoryScope → MemoryCandidate F → MemoryCandidateDecision F → Queue F → Queue F
  mark_decision scope c d q = elim c.candidate_id [
    | none ↦ q
    | some id ↦ record q {
      rows = update_where (λ r. nat_eq r.id id) (decide_row d q.now) q.rows;
      events =
          candidate_event scope c (append "candidate_" d.status) d.reason id (memory_id_of d.item)
            none
          ∷ q.events;
    }
  ]

  unfoldable pub record_extraction : String → Extraction → Queue F → Queue F
  record_extraction trace_id x q = record q {
    extractions = Dict.put trace_id (attempted (Dict.get trace_id q.extractions) x) q.extractions;
  }

  unfoldable pub extraction_completed :
      String → String → Option String → Option String → ℕ → String → Queue F → Queue F
  extraction_completed trace_id user_id session_id agent_id candidate_count model q =
      record_extraction trace_id
        (record {
          user_id = user_id;
          session_id = session_id;
          agent_id = agent_id;
          status = "completed";
          candidate_count = candidate_count;
          attempt_count = 1;
          model = model;
          error = none;
        })
        q

  unfoldable pub extraction_failed :
      String → String → Option String → Option String → String → String → Queue F → Queue F
  extraction_failed trace_id user_id session_id agent_id model error q =
      record_extraction trace_id
        (record {
          user_id = user_id;
          session_id = session_id;
          agent_id = agent_id;
          status = "failed";
          candidate_count = 0;
          attempt_count = 1;
          model = model;
          error = some (slice_to 2000 error);
        })
        q

  unfoldable pub extraction_is_completed : String → Queue F → Bool
  extraction_is_completed trace_id q = completed_of (Dict.get trace_id q.extractions)
