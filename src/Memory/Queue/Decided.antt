-- ===== src/Memory/Queue/Decided.antt =====
-- memory/lifecycle.py: theorems on the rows and the extraction records of MemoryCandidateStore.
use mathlib.Core.Option
use aegora.Prelude.{
  ℕ, ◌≡◌, refl, ap, sym, ◌∙◌, String, Bool, true, false, Option, none, some, List, [], ◌∷◌, nat_eq,
  nat_eq_refl, Bool-cases, Option-cases, some-injective, inl, inr, arith, eq_refl, ◌==◌,
  if◌then◌else◌, or_str,
}
use aegora.Prelude.Dict
use aegora.Prelude.Dict.{Dict, get-put}
use aegora.Prelude.Rows.{find-update_where_same}
use aegora.Memory.Models.{MemoryScope, MemoryCandidate, MemoryCandidateDecision}
use aegora.Memory.NativePg.Table.{coalesce, find, update_where}
use aegora.Memory.Queue.{
  CandidateRow, Extraction, Queue, same_proposal, new_candidate_row, enqueue_over, enqueue,
  decide_row, mark_decision, record_extraction, extraction_completed, extraction_failed,
  extraction_is_completed, attempted, completed_of,
}

attempted_lem : (old : Option Extraction) (x : Extraction) → (attempted old x).status ≡ x.status
attempted_lem none x = refl
attempted_lem (some old) x = refl

module _ {F : Type 0} where
  new-same_proposal :
      (scope : MemoryScope) (c : MemoryCandidate F) (p : String) (id : ℕ)
      → same_proposal scope c (new_candidate_row scope c p id) ≡ true
  unfolding same_proposal new_candidate_row
  new-same_proposal scope c p id = ground (
    arith,
    eq_refl (or_str scope.tenant_id "default"),
    eq_refl scope.user_id,
    eq_refl (coalesce c.source_trace_id),
    eq_refl c.namespace,
    eq_refl c.key,
    eq_refl c.operation,
  )

  -- The row that a proposal has once it is queued.
  enqueue_over-found :
      (scope : MemoryScope) (c : MemoryCandidate F) (p : String) (q : Queue F)
      (found : Option (CandidateRow F))
      → find (same_proposal scope c) q.rows ≡ found
      → (r : CandidateRow F) × (find (same_proposal scope c) (enqueue_over found scope c p q).1.rows
          ≡ some r)
        × ((enqueue_over found scope c p q).0 ≡ record c { candidate_id = some r.id })
  unfolding enqueue_over find new_candidate_row
  enqueue_over-found scope c p q none h =
      (new_candidate_row scope c p q.next_id, rw (new-same_proposal scope c p q.next_id), refl)
  enqueue_over-found scope c p q (some r) h = (r, h, refl)

  enqueue-found :
      (scope : MemoryScope) (c : MemoryCandidate F) (p : String) (q : Queue F)
      → (r : CandidateRow F) × (find (same_proposal scope c) (enqueue scope c p q).1.rows ≡ some r)
        × ((enqueue scope c p q).0 ≡ record c { candidate_id = some r.id })
  unfolding enqueue
  enqueue-found scope c p q =
      enqueue_over-found scope c p q (find (same_proposal scope c) q.rows) refl

  -- A decision leaves the identifier of the row that a proposal has.
  mark_decision-found :
      (scope marking : MemoryScope) (c marked : MemoryCandidate F) (d : MemoryCandidateDecision F)
      (q : Queue F) (id : ℕ)
      → Option.map (λ (r : CandidateRow F). r.id) (find (same_proposal scope c) q.rows) ≡ some id
      → Option.map
          (λ (r : CandidateRow F). r.id)
          (find (same_proposal scope c) (mark_decision marking marked d q).rows)
        ≡ some id
  unfolding mark_decision decide_row same_proposal
  mark_decision-found scope marking c marked d q id h = elim (Option-cases marked.candidate_id) [
    | inl e ↦ rw (e, mark_decision) h
    | inr (j, e) ↦
        rw (e, mark_decision)
          (find-update_where_same (λ r. nat_eq r.id j) (same_proposal scope c) (decide_row d q.now)
              (λ r k. refl) (λ r. r.id) (λ r. refl) q.rows
            ∙ h)
  ]

  enqueue-known :
      (scope : MemoryScope) (c : MemoryCandidate F) (p : String) (q : Queue F) (id : ℕ)
      → Option.map (λ (r : CandidateRow F). r.id) (find (same_proposal scope c) q.rows) ≡ some id
      → ((enqueue scope c p q).0 ≡ record c { candidate_id = some id })
        × ((enqueue scope c p q).1.rows ≡ q.rows)
  unfolding enqueue enqueue_over
  enqueue-known scope c p q id h = elim (Option-cases (find (same_proposal scope c) q.rows)) [
    | inl e ↦ let none_found = rw e at h in cc
    | inr (r, e) ↦
        let named : r.id ≡ id = some-injective (rw e at h) in
        rw (e, enqueue) (ap (λ i. record c { candidate_id = some i }) named, refl)
  ]

  -- A proposal that was queued and then perhaps decided, with any decision on any candidate, is
  -- queued again under the identifier that it had, and the rows stay as the decision left them: only
  -- the event of the proposal is written again.
  pub enqueue_again :
      (scope marking : MemoryScope) (c marked : MemoryCandidate F) (p : String)
      (d : MemoryCandidateDecision F) (q : Queue F)
      → let first = enqueue scope c p q in
        let decided = mark_decision marking marked d first.1 in
        let second = enqueue scope c p decided in
        (second.0 ≡ first.0) × (second.1.rows ≡ decided.rows)
  enqueue_again scope marking c marked p d q =
      let (r, found, named) = enqueue-found scope c p q in
      let first = enqueue scope c p q in
      let known : Option.map (λ (x : CandidateRow F). x.id)
            (find (same_proposal scope c) first.1.rows)
          ≡ some r.id =
        rw found refl in
      let (again, same) =
        enqueue-known scope c p (mark_decision marking marked d first.1) r.id
          (mark_decision-found scope marking c marked d first.1 r.id known) in
      (again ∙ sym named, same)

  -- An UPDATE by identifier changes the row of that identifier and no other.
  find-decide_row :
      (id : ℕ) (d : MemoryCandidateDecision F) (now : ℕ) (rows : List (CandidateRow F)) (j : ℕ)
      → find (λ r. nat_eq r.id j) (update_where (λ r. nat_eq r.id id) (decide_row d now) rows) ≡ (
          if nat_eq id j
          then Option.map (decide_row d now) (find (λ r. nat_eq r.id j) rows)
          else find (λ r. nat_eq r.id j) rows)
  unfolding find update_where decide_row
  find-decide_row id d now [] j = ground arith
  find-decide_row id d now (r ∷ rows) j = ground (arith, find-decide_row id d now rows j)

  find_id :
      (p : CandidateRow F → Bool) (rows : List (CandidateRow F)) (r : CandidateRow F)
      → find p rows ≡ some r
      → (s : CandidateRow F) × (find (λ x. nat_eq x.id r.id) rows ≡ some s)
  unfolding find
  find_id p [] r h = cc
  find_id p (x ∷ rows) r h = elim (Bool-cases (nat_eq x.id r.id)) [
    | inl e ↦ (x, rw e)
    | inr e ↦ elim (Bool-cases (p x)) [
      | inl here ↦ (x, ground (arith, nat_eq_refl r.id))
      | inr there ↦ let (s, later) = find_id p rows r (rw there at h) in (s, rw e later)
    ]
  ]

  marked_row :
      (scope : MemoryScope) (c : MemoryCandidate F) (d : MemoryCandidateDecision F) (q : Queue F)
      (id : ℕ) (s : CandidateRow F)
      → c.candidate_id ≡ some id
      → find (λ r. nat_eq r.id id) q.rows ≡ some s
      → find (λ r. nat_eq r.id id) (mark_decision scope c d q).rows ≡ some (decide_row d q.now s)
  unfolding mark_decision
  marked_row scope c d q id s named found =
      rw (named, mark_decision)
        (find-decide_row id d q.now q.rows id ∙ rw (nat_eq_refl id) (rw found))

  -- A decision on a queued candidate is found in the candidate's row: under the identifier that
  -- queueing gave it there is a row whose status and reason are those of the decision.
  pub mark_decision-enqueue :
      (scope marking : MemoryScope) (c : MemoryCandidate F) (p : String)
      (d : MemoryCandidateDecision F) (q : Queue F)
      → let queued = enqueue scope c p q in
        (id : ℕ) × (r : CandidateRow F) × (queued.0.candidate_id ≡ some id)
        × (find (λ x. nat_eq x.id id) (mark_decision marking queued.0 d queued.1).rows ≡ some r)
        × (r.status ≡ d.status)
        × (r.decision_reason ≡ some d.reason)
  unfolding enqueue
  mark_decision-enqueue scope marking c p d q =
      let (r, found, named) =
        enqueue_over-found scope c p q (find (same_proposal scope c) q.rows) refl in
      let (s, by_id) = find_id (same_proposal scope c) _ r found in
      let id = ap (λ (x : MemoryCandidate F). x.candidate_id) named in
      (
        r.id,
        decide_row d _ s,
        id,
        marked_row marking _ d _ r.id s id by_id,
        unfold decide_row in refl,
        unfold decide_row in refl,
      )

  record_extraction_lem :
      (trace other : String) (x : Extraction) (q : Queue F)
      → extraction_is_completed other (record_extraction trace x q)
        ≡ (if trace == other then x.status == "completed" else extraction_is_completed other q)
  unfolding extraction_is_completed record_extraction
  record_extraction_lem trace other x q =
      ap completed_of (get-put trace other _ q.extractions) ∙ elim (Bool-cases (trace == other)) [
        | inl e ↦ rw e (ap (λ s. s == "completed") (attempted_lem (Dict.get trace q.extractions) x))
        | inr e ↦ rw e
      ]

  -- A message is done after its extraction was completed and not done after it failed, and the
  -- records of other messages are as before.
  extraction_is_completed_lem :
      (trace user model error other : String) (session agent : Option String) (count : ℕ)
      (q : Queue F)
      → (extraction_is_completed other (extraction_completed trace user session agent count model q)
          ≡ (if trace == other then true else extraction_is_completed other q))
        × (extraction_is_completed other (extraction_failed trace user session agent model error q)
            ≡ (if trace == other then false else extraction_is_completed other q))
  unfolding extraction_completed extraction_failed
  extraction_is_completed_lem trace user model error other session agent count q =
      (record_extraction_lem trace other _ q, record_extraction_lem trace other _ q)
