-- ===== src/Runtime/Connections/Limit.antt =====
-- services/runtime/src/aegora_runtime/tool_adapters.py: the pool of sessions stays within its limit, and
-- room is found unless every session serves a call.
use aegora.Prelude.{
  ℕ, zero, suc, ◌≤◌, ◌<◌, ◌≡◌, ◌⊎◌, inl, inr, refl, sym, ap, ◌∙◌, String, true, none, some, [], ◌∷◌,
  any, length, All, leb, Bool-cases, Option-cases, some-injective, leb→le, arith, ◌==◌, eq_iff,
  eq_refl,
}
use aegora.Prelude.Dict
use aegora.Prelude.Dict.{Dict, get-put_self}
use aegora.Prelude.Result.{Result, ok, err}
use aegora.Runtime.Connections.{McpClientSession, oldest, enforce_session_limit}

abbrev pub full : String
full = "MCP session cache 已满且连接均在使用"

module _ {C : Type 0} where
  -- Every session stands under its own key.
  abbrev pub IsKeyed : Dict (McpClientSession C) → Type 0
  IsKeyed sessions = All (λ e. e.0 ≡ e.1.cache_key) sessions

  abbrev pub AllLocked : Dict (McpClientSession C) → Type 0
  AllLocked sessions = All (λ e. e.1.locked ≡ true) sessions

  pub length-pop-le :
      (k : String) (d : Dict (McpClientSession C)) → length (Dict.pop k d) ≤ length d
  unfolding Dict.pop
  length-pop-le k [] = omega arith
  length-pop-le k ((j, s) ∷ d) = ground (arith, length-pop-le k d)

  length-pop-lt :
      (k : String) (d : Dict (McpClientSession C))
      → any (λ e. e.0 == k) d ≡ true
      → length (Dict.pop k d) < length d
  unfolding Dict.pop any
  length-pop-lt k [] h = cc
  length-pop-lt k ((j, s) ∷ d) h = ground (arith, length-pop-le k d, length-pop-lt k d)

  pub IsKeyed-pop :
      (k : String) (d : Dict (McpClientSession C)) → IsKeyed d → IsKeyed (Dict.pop k d)
  unfolding Dict.pop
  IsKeyed-pop k [] h = tt
  IsKeyed-pop k ((j, s) ∷ d) h = elim (Bool-cases (j == k)) [
    | inl e ↦ rw e (IsKeyed-pop k d h.1)
    | inr e ↦ rw e (h.0, IsKeyed-pop k d h.1)
  ]

  pub length-put-le :
      (k : String) (s : McpClientSession C) (d : Dict (McpClientSession C))
      → length (Dict.put k s d) ≤ suc (length d)
  unfolding Dict.put
  length-put-le k s [] = omega arith
  length-put-le k s ((j, t) ∷ d) = ground (arith, length-put-le k s d)

  pub length-put_again :
      (k : String) (s : McpClientSession C) {t : McpClientSession C} (d : Dict (McpClientSession C))
      → Dict.get k d ≡ some t
      → length (Dict.put k s d) ≡ length d
  unfolding Dict.put Dict.get
  length-put_again k s [] h = cc
  length-put_again k s ((j, u) ∷ d) h = elim (Bool-cases (j == k)) [
    | inl e ↦ rw e refl
    | inr e ↦ rw e (ap suc (length-put_again k s d (rw e at h)))
  ]

  pub IsKeyed-put :
      (k : String) (s : McpClientSession C) (d : Dict (McpClientSession C))
      → k ≡ s.cache_key
      → IsKeyed d
      → IsKeyed (Dict.put k s d)
  unfolding Dict.put
  IsKeyed-put k s [] own h = (own, tt)
  IsKeyed-put k s ((j, t) ∷ d) own h = elim (Bool-cases (j == k)) [
    | inl e ↦ rw e ((eq_iff j k).0 e ∙ own, h.1)
    | inr e ↦ rw e (h.0, IsKeyed-put k s d own h.1)
  ]

  pub IsKeyed-get :
      (k : String) {s : McpClientSession C} (d : Dict (McpClientSession C))
      → IsKeyed d
      → Dict.get k d ≡ some s
      → k ≡ s.cache_key
  unfolding Dict.get
  IsKeyed-get k [] h found = cc
  IsKeyed-get k {s} ((j, t) ∷ d) h found = elim (Bool-cases (j == k)) [
    | inl e ↦
        let same : t ≡ s = some-injective (rw e at found) in
        sym ((eq_iff j k).0 e) ∙ h.0 ∙ ap (λ x. x.cache_key) same
    | inr e ↦ IsKeyed-get k d h.1 (rw e at found)
  ]

  -- The session to close stands in the pool; where there is none, every session serves a call.
  oldest-any :
      (d : Dict (McpClientSession C)) {s : McpClientSession C}
      → IsKeyed d
      → oldest d ≡ some s
      → any (λ e. e.0 == s.cache_key) d ≡ true
  unfolding oldest any
  oldest-any [] h found = cc
  oldest-any ((j, t) ∷ d) {s} h found = elim (Bool-cases t.locked) [
    | inl e ↦ let later = oldest-any d h.1 (rw e at found) in ground arith
    | inr e ↦ elim (Option-cases (oldest d)) [
      | inl f ↦
          let same : t ≡ s = some-injective (rw (e, f) at found) in
          let own : j ≡ s.cache_key = h.0 ∙ ap (λ x. x.cache_key) same in
          rw (own, eq_refl s.cache_key) refl
      | inr (u, f) ↦ elim (Bool-cases (leb t.last_used_at u.last_used_at)) [
        | inl g ↦
            let same : t ≡ s = some-injective (rw (e, f, g) at found) in
            let own : j ≡ s.cache_key = h.0 ∙ ap (λ x. x.cache_key) same in
            rw (own, eq_refl s.cache_key) refl
        | inr g ↦
            let same : u ≡ s = some-injective (rw (e, f, g) at found) in
            let later = oldest-any d h.1 (f ∙ ap some same) in ground arith
      ]
    ]
  ]

  oldest-none : (d : Dict (McpClientSession C)) → oldest d ≡ none → AllLocked d
  unfolding oldest
  oldest-none [] h = tt
  oldest-none ((j, t) ∷ d) h = elim (Bool-cases t.locked) [
    | inl e ↦ (e, oldest-none d (rw e at h))
    | inr e ↦ elim (Option-cases (oldest d)) [
      | inl f ↦ let no = rw (e, f) at h in cc
      | inr (u, f) ↦ elim (Bool-cases (leb t.last_used_at u.last_used_at)) [
        | inl g ↦ let no = rw (e, f, g) at h in cc
        | inr g ↦ let no = rw (e, f, g) at h in cc
      ]
    ]
  ]

  -- What the loop ends with: there is room, or no session is free.
  pub record IsLimited (max : ℕ) (d : Dict (McpClientSession C))
      (r : Result String × Dict (McpClientSession C)) : Type 0 where
    pub keyed : IsKeyed r.1
    pub fewer : length r.1 ≤ length d
    pub ended :
        ((r.0 ≡ ok "") × (length r.1 < max))
        ⊎ ((r.0 ≡ err full) × AllLocked r.1 × (max ≤ length r.1))

  pub enforce_session_limit-IsLimited :
      (max fuel : ℕ) (d : Dict (McpClientSession C))
      → length d < fuel
      → IsKeyed d
      → IsLimited max d (enforce_session_limit max fuel d)
  unfolding enforce_session_limit
  enforce_session_limit-IsLimited max zero d enough h = absurd (omega arith)
  enforce_session_limit-IsLimited max (suc fuel) d enough h = elim (Option-cases (oldest d)) [
    | inl e ↦ elim (Bool-cases (leb max (length d))) [
      | inl f ↦
          rw (e, enforce_session_limit)
            (rw f (record {
              keyed = h;
              fewer = omega arith;
              ended = inr (refl, oldest-none d e, leb→le max (length d) f);
            }))
      | inr f ↦
          rw (e, enforce_session_limit)
            (rw f
              (record { keyed = h; fewer = omega arith; ended = inl (refl, ground (arith, f)) }))
    ]
    | inr (s, e) ↦
        let lt = length-pop-lt s.cache_key d (oldest-any d h e) in
        let rest =
          enforce_session_limit-IsLimited max fuel (Dict.pop s.cache_key d) (omega (arith, lt))
            (IsKeyed-pop s.cache_key d h) in
        elim (Bool-cases (leb max (length d))) [
          | inl f ↦
              rw (e, enforce_session_limit)
                (rw f (record {
                  keyed = rest.keyed;
                  fewer = omega (arith, rest.fewer, lt);
                  ended = rest.ended;
                }))
          | inr f ↦
              rw (e, enforce_session_limit)
                (rw f (record {
                  keyed = h;
                  fewer = omega arith;
                  ended = inl (refl, ground (arith, f));
                }))
        ]
  ]
