-- ===== src/Memory/Models.antt =====
-- memory/models.py: the records of the memory plane. A dataclass with a `__post_init__` is a record
-- and a function `make_…` from the arguments to the record or to the ValueError's message.
pub mod Checks
use aegora.Prelude.{
  ℕ, String, Bool, true, false, not, ◌&&◌, ◌||◌, Option, none, some, List, [], ◌∷◌, leb, strip,
  truthy, mem, ◌==◌, is_some, if◌then◌else◌,
}
use aegora.Prelude.Result.{Result, raise_first}

-- What is left to Python: its floats, and `str.lower` with the tables of Unicode.
pub record Builtins (F : Type 0) : Type 0 where
  pub float_lt : F → F → Bool
  pub float_le : F → F → Bool
  pub float_add : F → F → F
  pub zero_float : F
  pub one_float : F
  pub half_float : F
  pub ninety_five_hundredths : F
  pub five_hundredths : F
  pub lower : String → String

pub record MemoryScope : Type 0 where
  pub user_id : String
  pub session_id : Option String
  pub agent_id : Option String
  pub tenant_id : Option String
  pub namespace : String
  pub memory_scope : String

unfoldable pub make_scope : MemoryScope → Result MemoryScope
unfolding raise_first
make_scope s =
    let user_id = strip s.user_id in
    raise_first
      ((user_id == "", "memory scope requires user_id")
        ∷ (
          not (mem s.memory_scope ("user_global" ∷ "user_agent" ∷ "tenant_user" ∷ [])),
          "unsupported memory scope",
        )
        ∷ (
          s.memory_scope == "user_agent" && not (truthy s.agent_id),
          "user_agent memory requires agent_id",
        )
        ∷ [])
      (record s { user_id = user_id })

-- The entries of an item's `metadata`; a key with the value None is not in the dict.
pub record Metadata (F : Type 0) : Type 0 where
  pub tenant_id : Option String
  pub user_id : Option String
  pub agent_id : Option String
  pub source_session_id : Option String
  pub source_trace_id : Option String
  pub confidence : Option F
  pub importance : Option F
  pub supersedes_id : Option ℕ
  pub valid_from : Option ℕ
  pub valid_until : Option ℕ

-- A stored memory. `memory_id` is the number of its row, which the code keeps as a text.
pub record MemoryItem (F : Type 0) : Type 0 where
  pub memory_id : ℕ
  pub memory_type : String
  pub key : String
  pub content : String
  pub scope : String
  pub namespace : String
  pub version : ℕ
  pub source_agent_id : Option String
  pub source_kind : String
  pub metadata : Metadata F

pub record MemoryWrite (F : Type 0) : Type 0 where
  pub key : String
  pub value : String
  pub memory_type : String
  pub source_agent_id : Option String
  pub source_session_id : Option String
  pub source_trace_id : Option String
  pub source_kind : String
  pub confidence : F
  pub importance : F
  pub expires_at : Option ℕ
  pub reason : Option String

pub record MemoryCandidate (F : Type 0) : Type 0 where
  pub operation : String
  pub namespace : String
  pub key : String
  pub value : Option String
  pub memory_type : String
  pub evidence_type : String
  pub confidence : F
  pub importance : F
  pub update_intent : Bool
  pub ttl_days : Option ℕ
  pub rationale : Option String
  pub source_agent_id : Option String
  pub source_session_id : Option String
  pub source_trace_id : Option String
  pub candidate_id : Option ℕ

pub record MemoryCandidateDecision (F : Type 0) : Type 0 where
  pub status : String
  pub reason : String
  pub candidate_id : Option ℕ
  pub item : Option (MemoryItem F)

pub record MemoryWriteResult (F : Type 0) : Type 0 where
  pub saved : Bool
  pub item : Option (MemoryItem F)
  pub reason : Option String

-- `str(value).strip() if value is not None else None`
abbrev pub strip_opt : Option String → Option String
strip_opt none = none
strip_opt (some v) = some (strip v)

-- `ttl_days is not None and not 1 <= ttl_days <= 365`
abbrev pub ttl_out_of_range : Option ℕ → Bool
ttl_out_of_range none = false
ttl_out_of_range (some d) = not (leb 1 d && leb d 365)

module _ {F : Type 0} (py : Builtins F) where
  -- `0 <= x <= 1`
  abbrev pub in_unit : F → Bool
  in_unit x = py.float_le py.zero_float x && py.float_le x py.one_float

  unfoldable pub make_write : MemoryWrite F → Result (MemoryWrite F)
  unfolding raise_first
  make_write w =
      let key = strip w.key in
      let value = strip w.value in
      raise_first
        ((key == "", "memory key is required")
          ∷ (value == "", "memory value is required")
          ∷ (not (in_unit w.confidence), "memory confidence must be between 0 and 1")
          ∷ (not (in_unit w.importance), "memory importance must be between 0 and 1")
          ∷ (
            not (mem w.source_kind ("explicit" ∷ "automatic" ∷ "tenant" ∷ "legacy" ∷ [])),
            "unsupported memory source kind",
          )
          ∷ [])
        (record w { key = key; value = value })

  -- The stripped texts, which every check below reads.
  unfoldable pub normalize_candidate : MemoryCandidate F → MemoryCandidate F
  normalize_candidate c = record c {
    operation = py.lower (strip c.operation);
    namespace = strip c.namespace;
    key = strip c.key;
    value = strip_opt c.value;
  }

  -- The tests of `__post_init__`, in their order, each with its message.
  unfoldable pub candidate_checks : MemoryCandidate F → List (Bool × String)
  candidate_checks c =
      (not (mem c.operation ("upsert" ∷ "forget" ∷ [])), "unsupported memory candidate operation")
      ∷ (c.namespace == "" || c.key == "", "memory candidate requires namespace and key")
      ∷ (c.operation == "upsert" && not (truthy c.value), "upsert memory candidate requires value")
      ∷ (
        not (mem c.memory_type ("semantic" ∷ "episodic" ∷ "profile" ∷ "summary" ∷ [])),
        "unsupported memory candidate type",
      )
      ∷ (
        not (mem c.evidence_type ("explicit_fact" ∷ "explicit_instruction" ∷ "inferred" ∷ [])),
        "unsupported memory evidence type",
      )
      ∷ (not (in_unit c.confidence), "memory candidate confidence must be between 0 and 1")
      ∷ (not (in_unit c.importance), "memory candidate importance must be between 0 and 1")
      ∷ (ttl_out_of_range c.ttl_days, "memory candidate ttl_days must be between 1 and 365")
      ∷ []

  unfoldable pub make_candidate : MemoryCandidate F → Result (MemoryCandidate F)
  unfolding normalize_candidate candidate_checks raise_first
  make_candidate c = let d = normalize_candidate c in raise_first (candidate_checks d) d

  unfoldable pub make_decision : MemoryCandidateDecision F → Result (MemoryCandidateDecision F)
  make_decision d =
      raise_first
        ((
          not (mem d.status ("applied" ∷ "needs_review" ∷ "rejected" ∷ "skipped" ∷ [])),
          "unsupported memory candidate decision status",
        )
          ∷ [])
        d
