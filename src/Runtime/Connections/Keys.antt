-- ===== src/Runtime/Connections/Keys.antt =====
-- services/runtime/src/aegora_runtime/tool_adapters.py: the pool of sessions as a dict.
use aegora.Prelude.{
  ◌≡◌, inl, inr, refl, ◌∙◌, String, Bool, false, none, some, List, [], ◌∷◌, map, keep, All,
  Bool-cases, some-injective, arith, ◌==◌, eq_iff,
}
use aegora.Prelude.Dict
use aegora.Prelude.Dict.{Dict, get-pop, get-put, get-put_self}
use aegora.Runtime.Connections.{McpClientSession, close_all, close_where}

module _ {C : Type 0} where
  -- A pool has one session for a key.
  abbrev pub IsDict : Dict (McpClientSession C) → Type 0
  IsDict [] = Unit
  IsDict ((key, s) ∷ sessions) = (Dict.get key sessions ≡ none) × IsDict sessions

  -- Every session stands under its own key, as a lookup sees it.
  abbrev pub KeysOwn : Dict (McpClientSession C) → Type 0
  KeysOwn d = (k : String) (s : McpClientSession C) → Dict.get k d ≡ some s → s.cache_key ≡ k

  pub IsDict-pop : (k : String) (d : Dict (McpClientSession C)) → IsDict d → IsDict (Dict.pop k d)
  unfolding Dict.pop
  IsDict-pop k [] h = tt
  IsDict-pop k ((j, s) ∷ d) h = elim (Bool-cases (j == k)) [
    | inl e ↦ rw e (IsDict-pop k d h.1)
    | inr e ↦ rw e (ground (arith, get-pop k j d, h.0), IsDict-pop k d h.1)
  ]

  absent :
      (p : String × McpClientSession C → Bool) (k : String) (d : Dict (McpClientSession C))
      → Dict.get k d ≡ none
      → All (λ e. (e.0 == k) ≡ false) (keep p d)
  unfolding Dict.get keep
  absent p k [] gone = tt
  absent p k ((j, t) ∷ d) gone = elim (Bool-cases (j == k)) [
    | inl e ↦ let no = rw e at gone in cc
    | inr e ↦
        let rest = absent p k d (rw e at gone) in
        elim (Bool-cases (p (j, t))) [ inl f ↦ rw f (e, rest) | inr f ↦ rw f rest ]
  ]

  -- An entry of a pool is what a lookup of its key finds.
  get-entry :
      (p : String × McpClientSession C → Bool) (k : String) (s : McpClientSession C)
      (d : Dict (McpClientSession C))
      → IsDict d
      → Dict.get k d ≡ some s
      → p (k, s) ≡ false
      → All (λ e. (e.0 == k) ≡ false) (keep p d)
  unfolding Dict.get keep
  get-entry p k s [] h found spared = tt
  get-entry p k s ((j, t) ∷ d) h found spared = elim (Bool-cases (j == k)) [
    | inl e ↦
        let same : t ≡ s = some-injective (rw e at found) in
        let here : j ≡ k = (eq_iff j k).0 e in
        rw (here, same, spared) (absent p k d (rw here at h.0))
    | inr e ↦
        let rest = get-entry p k s d h.1 (rw e at found) spared in
        elim (Bool-cases (p (j, t))) [ inl f ↦ rw f (e, rest) | inr f ↦ rw f rest ]
  ]

  get-close_all :
      (k : String) (keep_keys : Dict (McpClientSession C)) (d : Dict (McpClientSession C))
      → All (λ e. (e.0 == k) ≡ false) keep_keys
      → Dict.get k (close_all (map (λ e. e.0) keep_keys) d) ≡ Dict.get k d
  unfolding close_all
  get-close_all k [] d h = refl
  get-close_all k ((j, s) ∷ rest) d h =
      get-close_all k rest (Dict.pop j d) h.1 ∙ rw (get-pop j k d, h.0) refl

  pub IsDict-close_all :
      (keys : List String) (d : Dict (McpClientSession C)) → IsDict d → IsDict (close_all keys d)
  unfolding close_all
  IsDict-close_all [] d h = h
  IsDict-close_all (k ∷ keys) d h = IsDict-close_all keys (Dict.pop k d) (IsDict-pop k d h)

  pub KeysOwn-pop :
      (j : String) (d : Dict (McpClientSession C)) → KeysOwn d → KeysOwn (Dict.pop j d)
  KeysOwn-pop j d own k s found = elim (Bool-cases (j == k)) [
    | inl e ↦ let no = rw (get-pop j k d, e) at found in cc
    | inr e ↦ own k s (rw (get-pop j k d, e) at found)
  ]

  pub KeysOwn-close_all :
      (keys : List String) (d : Dict (McpClientSession C)) → KeysOwn d → KeysOwn (close_all keys d)
  unfolding close_all
  KeysOwn-close_all [] d own = own
  KeysOwn-close_all (j ∷ keys) d own = KeysOwn-close_all keys (Dict.pop j d) (KeysOwn-pop j d own)

  pub get-close_where :
      (p : String × McpClientSession C → Bool) (k : String) (s : McpClientSession C)
      (d : Dict (McpClientSession C))
      → IsDict d
      → Dict.get k d ≡ some s
      → p (k, s) ≡ false
      → Dict.get k (close_where p d) ≡ some s
  unfolding close_where
  get-close_where p k s d h found spared =
      get-close_all k (keep p d) d (get-entry p k s d h found spared) ∙ found
