-- ===== src/Memory/Decision.antt =====
-- memory/lifecycle.py: the tests and the decisions on a candidate, apart from the backend.
use aegora.Prelude.{
  ℕ, ◌+◌, ◌*◌, String, Bool, not, ◌&&◌, ◌||◌, Option, none, some, List, [], ◌∷◌, any, append,
  contains, or_str, or_opt, opt_eq, is_some, ◌==◌, if◌then◌else◌,
}
use aegora.Memory.Models.{
  Builtins, MemoryItem, MemoryScope, MemoryWrite, MemoryWriteResult, MemoryCandidate,
  MemoryCandidateDecision,
}
use aegora.Memory.Policy.{MemoryGovernance}

abbrev pub sensitive_memory_terms : List String
sensitive_memory_terms =
    "password" ∷ "passwd" ∷ "api_key" ∷ "apikey" ∷ "token" ∷ "secret" ∷ "private_key" ∷ "otp"
    ∷ "cvv" ∷ "密码" ∷ "口令" ∷ "验证码" ∷ "私钥" ∷ "身份证" ∷ "银行卡" ∷ "信用卡" ∷ "病史" ∷ "疾病" ∷ "宗教" ∷ "政治" ∷ "性取向"
    ∷ "种族" ∷ "工会" ∷ "犯罪记录" ∷ []

-- `" ".join(texts)`
unfoldable pub joined : List String → String
unfolding append
joined [] = ""
joined (s ∷ []) = s
joined (s ∷ t ∷ texts) = append s (append " " (joined (t ∷ texts)))

-- `datetime.now(timezone.utc) + timedelta(days=candidate.ttl_days)`, in seconds
abbrev expiry : ℕ → Option ℕ → Option ℕ
expiry now none = none
expiry now (some days) = some (now + days * 86400)

module _ {F : Type 0} where
  unfoldable pub decide :
      MemoryCandidate F → String → String → Option (MemoryItem F) → MemoryCandidateDecision F
  decide c status reason item = record {
    status = status;
    reason = reason;
    candidate_id = c.candidate_id;
    item = item;
  }

  unfoldable pub write_of : MemoryScope → MemoryCandidate F → ℕ → MemoryWrite F
  write_of scope c now = record {
    key = c.key;
    value = or_str c.value "";
    memory_type = c.memory_type;
    source_agent_id = or_opt c.source_agent_id scope.agent_id;
    source_session_id = or_opt c.source_session_id scope.session_id;
    source_trace_id = c.source_trace_id;
    source_kind = "automatic";
    confidence = c.confidence;
    importance = c.importance;
    expires_at = expiry now c.ttl_days;
    reason = some "automatic_candidate_applied";
  }

  -- The decision on what `service.remember` answered.
  unfoldable pub saved_decision :
      MemoryCandidate F → MemoryWriteResult F → MemoryCandidateDecision F
  unfolding decide
  saved_decision c result =
      if not result.saved || not (is_some result.item)
      then decide c "needs_review" (or_str result.reason "provider_write_failed") none
      else decide c "applied" "automatic_candidate_applied" result.item

  unfoldable pub effective_scope :
      MemoryScope → MemoryGovernance → MemoryCandidate F → String → MemoryScope
  effective_scope scope g c proposed = record {
    user_id = scope.user_id;
    session_id = scope.session_id;
    agent_id = or_opt g.agent_id scope.agent_id;
    tenant_id = some g.tenant_id;
    namespace = c.namespace;
    memory_scope = proposed;
  }

module _ {F : Type 0} (py : Builtins F) where
  unfoldable pub contains_sensitive_memory : MemoryCandidate F → Bool
  unfolding joined
  contains_sensitive_memory c =
      let haystack = joined (
        py.lower c.namespace
        ∷ py.lower c.key
        ∷ py.lower (or_str c.value "")
        ∷ py.lower (or_str c.rationale "")
        ∷ []) in
      any (λ term. contains haystack term) sensitive_memory_terms

  abbrev confidence_of : MemoryItem F → F
  confidence_of item = elim item.metadata.confidence [ none ↦ py.one_float | some x ↦ x ]

  -- `max(a, b)` on floats
  abbrev pub max_float : F → F → F
  max_float a b = if py.float_lt a b then b else a

  -- The early returns of `_resolve_upsert_candidate` that depend on the current memory.
  unfoldable pub upsert_conflict :
      MemoryCandidate F → F → MemoryItem F → Option (MemoryCandidateDecision F)
  unfolding decide
  upsert_conflict c threshold current =
      if opt_eq (some current.content) c.value
      then some (decide c "skipped" "duplicate_current_value" (some current))
      else if current.source_kind == "tenant"
      then some (decide c "rejected" "cannot_override_tenant_memory" (some current))
      else if current.source_kind == "explicit" && not c.update_intent
      then some (decide c "needs_review" "conflict_with_explicit_memory" (some current))
      else if current.source_kind == "explicit"
          && py.float_lt c.confidence (max_float threshold py.ninety_five_hundredths)
      then some
          (decide c "needs_review" "explicit_memory_update_requires_high_confidence" (some current))
      else if current.source_kind == "automatic"
          && py.float_lt (py.float_add c.confidence py.five_hundredths) (confidence_of current)
          && not c.update_intent
      then some (decide c "needs_review" "lower_confidence_than_current_memory" (some current))
      else none

  abbrev pub conflict_with :
      MemoryCandidate F → F → Option (MemoryItem F) → Option (MemoryCandidateDecision F)
  conflict_with c threshold none = none
  conflict_with c threshold (some current) = upsert_conflict c threshold current
