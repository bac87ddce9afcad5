-- ===== src/Runtime/Approvals/Postgres.antt =====
-- runtime_approvals.py: PostgresApprovalStore. The table has a row for each approval id, its primary
-- key. A decision is two transactions: one reads the row and the code checks it, the other writes.
-- Another decision may come between them.
use mathlib.Core.Option
use aegora.Prelude.{
  ℕ, ◌≡◌, refl, ◌∙◌, String, Option, none, some, [], ◌∷◌, ◌++◌, arith, eq_iff, eq_refl, ◌==◌,
  if◌then◌else◌, Option-cases, inl, inr, ◌⊎◌,
}
use aegora.Prelude.Dict
use aegora.Prelude.Dict.{Dict}
use aegora.Prelude.Result.{Result, ok, err}
use aegora.Runtime.Approvals.{
  ApprovalRecord, ApprovalDecision, ApprovalStore, Check, Created, Laws, answer, check, decided,
  executed, lapsed, new_record, next,
}

module _ {S J : Type 0} where
  -- `UPDATE runner_approval_requests SET … WHERE approval_id = %s`
  unfoldable pub update :
      String
      → (ApprovalRecord S J → ApprovalRecord S J)
      → Dict (ApprovalRecord S J)
      → Dict (ApprovalRecord S J)
  update id f [] = []
  update id f ((j, r) ∷ table) =
      if j == id then (j, f r) ∷ update id f table else (j, r) ∷ update id f table

  -- INSERT, which fails on a key that the table has.
  unfoldable pub create_pending :
      String
      → S
      → ℕ
      → ℕ
      → Dict (ApprovalRecord S J)
      → Result (ApprovalRecord S J) × Dict (ApprovalRecord S J)
  create_pending id carried ttl now table =
      let r = new_record id carried ttl now in
      elim (Dict.get id table) [
        | none ↦ (ok r, table ++ (id, r) ∷ [])
        | some old ↦ (err "duplicate key value violates unique constraint", table)
      ]

  -- The second transaction of `decide`, and the read after it.
  unfoldable pub write :
      String
      → ApprovalDecision
      → ℕ
      → Dict (ApprovalRecord S J)
      → Result (ApprovalRecord S J) × Dict (ApprovalRecord S J)
  write id d later table =
      let written = update id (decided d later) table in
      elim (Dict.get id written) [ none ↦ (err "审批请求不存在", written) | some r ↦ (ok r, written) ]

  -- What `decide` does with what its first transaction found.
  unfoldable pub settle :
      String
      → ApprovalDecision
      → ℕ
      → Check (ApprovalRecord S J)
      → Dict (ApprovalRecord S J)
      → Result (ApprovalRecord S J) × Dict (ApprovalRecord S J)
  settle id d later Check.missing table = (err "审批请求不存在", table)
  settle id d later Check.processed table = (err "审批请求已处理", table)
  settle id d later (Check.expired r) table = (err "审批请求已过期", update id lapsed table)
  settle id d later (Check.open_request r) table = write id d later table

  unfoldable pub decide :
      String
      → ApprovalDecision
      → ℕ
      → ℕ
      → Dict (ApprovalRecord S J)
      → Result (ApprovalRecord S J) × Dict (ApprovalRecord S J)
  decide id d now later table = settle id d later (check now (Dict.get id table)) table

  unfoldable pub mark_executed : String → J → Dict (ApprovalRecord S J) → Dict (ApprovalRecord S J)
  mark_executed id result table = update id (executed result) table

  abbrev pub postgres : ApprovalStore S J (Dict (ApprovalRecord S J))
  postgres = record {
    create_pending = create_pending;
    get = Dict.get;
    decide = decide;
    mark_executed = mark_executed;
  }

  get-update :
      (id : String) (f : ApprovalRecord S J → ApprovalRecord S J) (t : Dict (ApprovalRecord S J))
      (j : String)
      → Dict.get j (update id f t)
        ≡ (if id == j then Option.map f (Dict.get id t) else Dict.get j t)
  unfolding update Dict.get
  get-update id f [] j = ground arith
  get-update id f ((i, r) ∷ t) j =
      ground (arith, eq_iff id j, eq_iff i id, eq_iff i j, get-update id f t j)

  get_of_append :
      (id : String) (r : ApprovalRecord S J) (t : Dict (ApprovalRecord S J)) (j : String)
      → Dict.get id t ≡ none
      → Dict.get j (t ++ (id, r) ∷ []) ≡ (if id == j then some r else Dict.get j t)
  unfolding Dict.get
  get_of_append id r [] j h = refl
  get_of_append id r ((i, s) ∷ t) j h =
      ground (arith, eq_iff id j, eq_iff i id, eq_iff i j, get_of_append id r t j)

  create_lem :
      (id : String) (carried : S) (ttl now : ℕ) (t : Dict (ApprovalRecord S J)) (j : String)
      → Created
          (Dict.get id t)
          (Dict.get j t)
          (id == j)
          (new_record id carried ttl now)
          (create_pending id carried ttl now t).0
          (Dict.get j (create_pending id carried ttl now t).1)
  unfolding create_pending
  create_lem id carried ttl now t j = elim (Option-cases (Dict.get id t)) [
    | inr (r, e) ↦ rw (e, create_pending) tt
    | inl e ↦ rw (e, create_pending) (refl, get_of_append id _ t j e)
  ]

  -- A written row is read back.
  read_back :
      (id : String) (f : ApprovalRecord S J → ApprovalRecord S J) (t : Dict (ApprovalRecord S J))
      (r : ApprovalRecord S J) (j : String)
      → Dict.get id t ≡ some r
      → Dict.get j (update id f t) ≡ (if id == j then some (f r) else Dict.get j t)
  read_back id f t r j h = get-update id f t j ∙ rw h

  read_same :
      (id : String) (f : ApprovalRecord S J → ApprovalRecord S J) (t : Dict (ApprovalRecord S J))
      (r : ApprovalRecord S J)
      → Dict.get id t ≡ some r
      → Dict.get id (update id f t) ≡ some (f r)
  read_same id f t r h = read_back id f t r id h ∙ rw (eq_refl id)

  write_lem :
      (id : String) (d : ApprovalDecision) (later : ℕ) (t : Dict (ApprovalRecord S J))
      (r : ApprovalRecord S J) (j : String)
      → Dict.get id t ≡ some r
      → ((write id d later t).0 ≡ ok (decided d later r))
        × (Dict.get j (write id d later t).1
            ≡ (if id == j then some (decided d later r) else Dict.get j t))
  unfolding write
  write_lem id d later t r j h =
      let same = read_same id (decided d later) t r h in
      (rw (same, write), rw (same, write) (read_back id (decided d later) t r j h))

  write_same :
      (id : String) (d : ApprovalDecision) (later : ℕ) (t : Dict (ApprovalRecord S J))
      (r : ApprovalRecord S J)
      → Dict.get id t ≡ some r
      → ((write id d later t).0 ≡ ok (decided d later r))
        × (Dict.get id (write id d later t).1 ≡ some (decided d later r))
  write_same id d later t r h =
      let (one, left) = write_lem id d later t r id h in (one, left ∙ rw (eq_refl id))

  -- The record that a check found is the one that the store has.
  check-found :
      (now : ℕ) (o : Option (ApprovalRecord S J)) (r : ApprovalRecord S J)
      → (check now o ≡ Check.open_request r) ⊎ (check now o ≡ Check.expired r)
      → o ≡ some r
  unfolding check
  check-found now none r h = ground arith
  check-found now (some s) r h = ground arith

  settle_lem :
      (id : String) (d : ApprovalDecision) (now later : ℕ) (t : Dict (ApprovalRecord S J))
      (j : String) (found : Check (ApprovalRecord S J))
      → check now (Dict.get id t) ≡ found
      → ((settle id d later found t).0 ≡ answer d later found)
        × (Dict.get j (settle id d later found t).1
            ≡ (if id == j then next d later found (Dict.get id t) else Dict.get j t))
  unfolding settle answer next
  settle_lem id d now later t j Check.missing h = (refl, ground (arith, eq_iff id j))
  settle_lem id d now later t j Check.processed h = (refl, ground (arith, eq_iff id j))
  settle_lem id d now later t j (Check.expired r) h =
      (refl, read_back id lapsed t r j (check-found now _ r (inr h)))
  settle_lem id d now later t j (Check.open_request r) h =
      write_lem id d later t r j (check-found now _ r (inl h))

  -- The store of the database keeps the contract of a store, when the two transactions of a
  -- decision have nothing between them.
  pub postgres-Laws : Laws postgres
  unfolding decide mark_executed
  postgres-Laws = record {
    create = create_lem;
    decide = λ id d now later t j. settle_lem id d now later t j (check now (Dict.get id t)) refl;
    mark = λ id result t j. get-update id (executed result) t j;
  }

  -- Two decisions on one open request, the second of which reads before the first has written, both
  -- succeed, and the second replaces the first.
  pub decide_race :
      (id : String) (first second : ApprovalDecision) (now later latest : ℕ)
      (t : Dict (ApprovalRecord S J)) (r : ApprovalRecord S J)
      → check now (Dict.get id t) ≡ Check.open_request r
      → let found = check now (Dict.get id t) in
        let one = settle id first later found t in
        let two = settle id second latest found one.1 in
        (one.0 ≡ ok (decided first later r))
        × (two.0 ≡ ok (decided second latest r))
        × (Dict.get id two.1 ≡ some (decided second latest r))
  unfolding settle decided
  decide_race id first second now later latest t r h =
      let (one, left) = write_same id first later t r (check-found now _ r (inl h)) in
      let (two, last) = write_same id second latest _ (decided first later r) left in
      rw h (one, two, last)
