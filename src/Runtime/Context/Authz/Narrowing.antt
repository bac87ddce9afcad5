-- ===== src/Runtime/Context/Authz/Narrowing.antt =====
-- runtime_context.py: theorems on `apply_runtime_tool_authz`.
use aegora.Prelude.{
  ◌≡◌, refl, ap, ◌∙◌, String, Bool, true, false, ◌&&◌, Option, none, some, List, [], ◌∷◌, mem, keep,
  nonempty, All, arith, eq_iff, Bool-cases, inl, inr,
}
use aegora.Prelude.Dict
use aegora.Prelude.Dict.{Dict}
use aegora.Prelude.Result.{Result, ok, err, >>=-eq-ok, ok-injective}
use aegora.Runtime.Context.Scope.{Scope, RawScope, values_of}
use aegora.Runtime.Context.Scope.Subset.{scope_is_subset-mem, scope_or_empty}
use aegora.Runtime.Context.Authz.{
  Tool, Authz, Verdict, verdict, ids_of, effective_tools, snapshot_role_tool_scopes, capabilities,
  tool_ids, within_created, within_current, judge, file_under, judge_all, authorise,
  apply_runtime_tool_authz, unauthorised,
}

-- An element of a filtered list has passed the filter.
mem-keep :
    (p : String → Bool) (x : String) (xs : List String) → mem x (keep p xs) ≡ true → p x ≡ true
unfolding mem keep
mem-keep p x [] h = cc
mem-keep p x (y ∷ ys) h = ground (arith, eq_iff x y, mem-keep p x ys)

mem-effective_tools :
    (id : String) (configured created current : List String)
    → mem id (effective_tools configured created current) ≡ true
    → (mem id created ≡ true) × (mem id current ≡ true)
unfolding effective_tools
mem-effective_tools id configured created current h =
    let passed = mem-keep (λ x. mem x created && mem x current) id configured h in ground arith

-- A scope asks for no value that the grants do not give the tool.
abbrev pub Covers : {P : Type 0} → Dict Scope → Tool P → Type 0
Covers grants tool =
    (k v : String)
    → mem v (values_of k tool.scope) ≡ true
    → mem v (values_of k (scope_or_empty (Dict.get tool.tool_id grants))) ≡ true

verdict-allowed :
    (e : Bool) (a b : Result Bool)
    → verdict e a b ≡ ok Verdict.allowed
    → (e ≡ true) × (a ≡ ok true) × (b ≡ ok true)
unfolding verdict
verdict-allowed false a b h = cc
verdict-allowed true (err e) b h = cc
verdict-allowed true (ok false) b h = cc
verdict-allowed true (ok true) (err e) h = cc
verdict-allowed true (ok true) (ok false) h = cc
verdict-allowed true (ok true) (ok true) h = (refl, refl, refl)

-- The tool was granted when the release was made, if the release recorded any grant; where it
-- recorded none, the code asks nothing of the release.
abbrev pub WasGrantedIfRecorded : {P : Type 0} → Dict Scope → Tool P → Type 0
WasGrantedIfRecorded [] tool = Unit
WasGrantedIfRecorded (entry ∷ scopes) tool =
    (mem tool.tool_id (ids_of (entry ∷ scopes)) ≡ true) × Covers (entry ∷ scopes) tool

-- The tool is granted now, and was granted when the release was made if that was recorded.
abbrev pub Granted : {P : Type 0} → Dict Scope → Dict Scope → Tool P → Type 0
Granted created current tool =
    (mem tool.tool_id (ids_of current) ≡ true)
    × Covers current tool
    × WasGrantedIfRecorded created tool

-- What the actor's roles grant; an actor that is missing has no grant.
abbrev pub grants : Option String → (String → Dict Scope) → Dict Scope
grants none current_of = []
grants (some actor_id) current_of = current_of actor_id

module _ {P : Type 0} where
  within_created-WasGrantedIfRecorded :
      (created : Dict Scope) (configured : List String) (tool : Tool P)
      → mem tool.tool_id (capabilities created configured) ≡ true
      → within_created created tool ≡ ok true
      → WasGrantedIfRecorded created tool
  unfolding within_created capabilities
  within_created-WasGrantedIfRecorded [] configured tool was h = tt
  within_created-WasGrantedIfRecorded (entry ∷ scopes) configured tool was h = (
    was,
    λ k v asked.
        scope_is_subset-mem tool.scope (Dict.get tool.tool_id (entry ∷ scopes)) k v h asked,
  )

  judge-Granted :
      (configured : List String) (created current : Dict Scope) (tool : Tool P)
      → let effective =
          effective_tools configured (capabilities created configured) (ids_of current) in
        judge effective created current tool ≡ ok Verdict.allowed → Granted created current tool
  unfolding judge within_current
  judge-Granted configured created current tool h =
      let (is_effective, in_created, in_current) = verdict-allowed _ _ _ h in
      let (was, now) =
        mem-effective_tools tool.tool_id configured (capabilities created configured)
          (ids_of current) is_effective in
      (
        now,
        λ k v asked.
            scope_is_subset-mem tool.scope (Dict.get tool.tool_id current) k v in_current asked,
        within_created-WasGrantedIfRecorded created configured tool was in_created,
      )

  All-file_under :
      (Q : Tool P → Type 0) (verdict : Verdict) (tool : Tool P)
      (sorted : List (Tool P) × List String)
      → (verdict ≡ Verdict.allowed → Q tool)
      → All Q sorted.0
      → All Q (file_under verdict tool sorted).0
  unfolding file_under
  All-file_under Q Verdict.ineffective tool sorted q qs = qs
  All-file_under Q Verdict.denied tool sorted q qs = qs
  All-file_under Q Verdict.allowed tool sorted q qs = (q refl, qs)

  All-judge_all :
      (Q : Tool P → Type 0) (effective : List String) (created current : Dict Scope)
      (tools : List (Tool P)) (judged : List (Tool P) × List String)
      → ((tool : Tool P) → judge effective created current tool ≡ ok Verdict.allowed → Q tool)
      → judge_all effective created current tools ≡ ok judged
      → All Q judged.0
  unfolding judge_all
  All-judge_all Q effective created current [] judged q h = rw⁻¹ (ok-injective h) tt
  All-judge_all Q effective created current (tool ∷ tools) judged q h =
      let (verdict, one, more) = >>=-eq-ok (judge effective created current tool) _ h in
      let (rest, others, same) = >>=-eq-ok (judge_all effective created current tools) _ more in
      rw⁻¹ (ok-injective same) (
        All-file_under Q verdict tool rest (λ is_allowed. q tool (one ∙ ap ok is_allowed))
          (All-judge_all Q effective created current tools rest q others))

  authorise-IsNarrow :
      (tools : List (Tool P)) (snapshot : Dict (Option RawScope)) (current created : Dict Scope)
      (result : Authz P)
      → authorise tools snapshot current ≡ ok result
      → snapshot_role_tool_scopes snapshot ≡ ok created
      → All (Granted created current) result.tools
  unfolding authorise
  authorise-IsNarrow tools snapshot current created result h snap =
      let (judged, all_judged, same) =
        >>=-eq-ok
          (judge_all
            (effective_tools (tool_ids tools) (capabilities created (tool_ids tools))
              (ids_of current))
            created current tools)
          _ (rw snap at h) in
      rw⁻¹ (ap (λ (a : Authz P). a.tools) (ok-injective same)) (
        All-judge_all (Granted created current) _ created current tools judged
          (judge-Granted (tool_ids tools) created current) all_judged)

  -- Every tool that a run may use is granted by the actor's roles at the time of the run and, where
  -- the release recorded any grants, by these too, and asks under every key for no value that these
  -- grants do not give it. Where the release recorded no grants, nothing is asked of it.
  pub apply_runtime_tool_authz-IsNarrow :
      (tools : List (Tool P)) (actor_id : Option String) (snapshot : Dict (Option RawScope))
      (current_of : String → Dict Scope) (created : Dict Scope) (result : Authz P)
      → apply_runtime_tool_authz tools actor_id snapshot current_of ≡ ok result
      → snapshot_role_tool_scopes snapshot ≡ ok created
      → All (Granted created (grants actor_id current_of)) result.tools
  unfolding apply_runtime_tool_authz unauthorised
  apply_runtime_tool_authz-IsNarrow tools none snapshot current_of created result h snap =
      rw⁻¹ (ap (λ (a : Authz P). a.tools) (ok-injective h)) tt
  apply_runtime_tool_authz-IsNarrow tools (some actor) snapshot current_of created result h snap =
      elim (Bool-cases (nonempty actor)) [
        | inl e ↦
            authorise-IsNarrow tools snapshot (current_of actor) created result (rw e at h) snap
        | inr e ↦ rw⁻¹ (ap (λ (a : Authz P). a.tools) (ok-injective (rw e at h))) tt
      ]
