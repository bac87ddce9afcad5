-- ===== src/Runtime/Approvals/Gate.antt =====
-- configured_runner.py: ApprovalGate, which stands between the agent loop and the tools of a run. What
-- the run does with a batch of calls, `execute`, and what is carried into a request are parameters, as
-- is the id of the request.
use aegora.Prelude.{
  ℕ, ◌≡◌, refl, ◌∙◌, String, Bool, true, false, Option, none, some, List, [], ◌∷◌, any, mem, or_str,
  nonempty, eq_refl, Bool-cases, inl, inr, if◌then◌else◌,
}
use aegora.Prelude.Dict
use aegora.Prelude.Dict.{Dict}
use aegora.Prelude.Result.{Result, ok}
use aegora.Agent.Flow.{ToolCall}
use aegora.Runtime.Approvals.{ApprovalRecord, ApprovalStore, Laws, new_record}

-- The entries of a tool that the gate reads.
pub record GatedTool : Type 0 where
  pub tool_id : String
  pub requires_approval : Bool
  pub side_effect_level : Option String

unfoldable pub tool_requires_approval : GatedTool → Bool
tool_requires_approval tool =
    if tool.requires_approval
    then true
    else mem (or_str tool.side_effect_level "none")
        ("internal_write" ∷ "external_write" ∷ "destructive" ∷ [])

-- The dict of the constructor: a tool without an id is left out, and a later tool of the same id
-- replaces an earlier one.
unfoldable pub tool_by_id : List GatedTool → Dict GatedTool → Dict GatedTool
tool_by_id [] tools = tools
tool_by_id (tool ∷ rest) tools =
    tool_by_id rest (if nonempty tool.tool_id then Dict.put tool.tool_id tool tools else tools)

-- What becomes of a batch: the tools ran, or a request for one of them was made.
pub data Gated (B S J : Type 0) : Type 0 where
  executed : Result B → Gated B S J
  pending : Result (ApprovalRecord S J) → Gated B S J

module _ {A : Type 0} where
  -- `tool and tool_requires_approval(tool)`
  unfoldable pub needs_approval : Dict GatedTool → ToolCall A → Bool
  needs_approval tools call = elim (Dict.get call.tool_name tools) [
    | none ↦ false
    | some tool ↦ tool_requires_approval tool
  ]

  -- The first call of the batch that needs an approval.
  unfoldable pub pending_call : Dict GatedTool → List (ToolCall A) → Option (ToolCall A)
  pending_call tools [] = none
  pending_call tools (call ∷ calls) =
      let rest = pending_call tools calls in if needs_approval tools call then some call else rest

  pending_call-some :
      (tools : Dict GatedTool) (calls : List (ToolCall A))
      → any (needs_approval tools) calls ≡ true
      → (call : ToolCall A) × (pending_call tools calls ≡ some call)
  unfolding pending_call any
  pending_call-some tools [] h = cc
  pending_call-some tools (call ∷ calls) h = elim (Bool-cases (needs_approval tools call)) [
    | inl e ↦ (call, rw e)
    | inr e ↦ let (later, found) = pending_call-some tools calls (rw e at h) in (later, rw e found)
  ]

module _ {A B S J T : Type 0} (tools : Dict GatedTool) (carry : ToolCall A → S)
    (execute : List (ToolCall A) → Result B) where
  -- `run_many`; a gate without a store lets every call through, as after an approval. A request
  -- lives for the 1800 seconds that `create_pending` has as its default.
  unfoldable pub run_many :
      Option (ApprovalStore S J T) → List (ToolCall A) → String → ℕ → T → Gated B S J × T
  run_many none calls id now t = (Gated.executed (execute calls), t)
  run_many (some store) calls id now t = elim (pending_call tools calls) [
    | none ↦ (Gated.executed (execute calls), t)
    | some call ↦
        let (answer, after) = store.create_pending id (carry call) 1800 now t in
        (Gated.pending answer, after)
  ]

  -- What a store makes of a new request with a free id.
  created_free :
      (store : ApprovalStore S J T) (laws : Laws store) (id : String) (carried : S) (now : ℕ)
      (t : T)
      → store.get id t ≡ none
      → ((store.create_pending id carried 1800 now t).0 ≡ ok (new_record id carried 1800 now))
        × (store.get id (store.create_pending id carried 1800 now t).1
            ≡ some (new_record id carried 1800 now))
  created_free store laws id carried now t free =
      let (said, left) = rw free at (laws.create id carried 1800 now t id) in
      (said, left ∙ rw (eq_refl id))

  -- While a store is there, a batch with a call of a tool that needs an approval executes nothing: it
  -- leaves a pending request in the store, under an id that was free.
  pub run_many-IsGated :
      (store : ApprovalStore S J T) (laws : Laws store) (calls : List (ToolCall A)) (id : String)
      (now : ℕ) (t : T)
      → any (needs_approval tools) calls ≡ true
      → store.get id t ≡ none
      → (r : ApprovalRecord S J) × ((run_many (some store) calls id now t).0 ≡ Gated.pending (ok r))
        × (r.status ≡ "pending")
        × (store.get id (run_many (some store) calls id now t).1 ≡ some r)
  unfolding run_many new_record
  run_many-IsGated store laws calls id now t needed free =
      let (call, found) = pending_call-some tools calls needed in
      let (said, left) = created_free store laws id (carry call) now t free in
      (
        new_record id (carry call) 1800 now,
        rw (found, run_many) (rw said),
        refl,
        rw (found, run_many) left,
      )
