-- ===== src/Memory/Service.antt =====
-- memory/service.py: the facade that the runtime calls. A failure of the provider never leaves it:
-- a read returns nothing and a write reports why it was not saved.
pub mod Guards
use aegora.Prelude.{
  ℕ, ◌*◌, String, Bool, true, false, not, ◌||◌, Option, none, some, List, [], ◌∷◌, ltb, strip,
  slice_to, take, ◌==◌, if◌then◌else◌,
}
use aegora.Prelude.Result.{Result, ok, err, ◌>>=◌}
use aegora.Memory.Models.{Builtins, MemoryItem, MemoryScope, MemoryWrite, MemoryWriteResult}
use aegora.Memory.Policy.{MemoryGovernance, filter_recalled_items}
use aegora.Memory.Provider.{MemoryProvider}
use aegora.Memory.Ranking.{rank_memory_items}

pub record MemoryService (F S : Type 0) : Type 0 where
  pub provider : Option (MemoryProvider F S)
  pub recall_enabled : Bool
  pub write_enabled : Bool
  pub recall_limit : ℕ
  pub max_item_chars : ℕ

-- `except Exception: return default`
abbrev pub or_on_error {ℓ} : {A : Type ℓ} → Result A → A → A
or_on_error (ok a) default = a
or_on_error (err e) default = default

-- `max(a, b)`
abbrev pub max_of : ℕ → ℕ → ℕ
max_of a b = if ltb a b then b else a

-- What a call that reports a value makes of the provider's answer.
abbrev flag_result {ℓ} : {A S : Type ℓ} → A → Result A × S → A × S
flag_result default (ok a, s) = (a, s)
flag_result default (err e, s) = (default, s)

module _ {F : Type 0} where
  -- One turn of the loop that cleans the ranked items: a blank one is skipped, a long one is cut.
  unfoldable pub sanitize : ℕ → List (MemoryItem F) → List (MemoryItem F)
  sanitize max_chars [] = []
  sanitize max_chars (item ∷ items) =
      let content = strip item.content in
      let rest = sanitize max_chars items in
      if content == "" then rest else record item { content = slice_to max_chars content } ∷ rest

  -- `if governance is not None`
  unfoldable pub filter_by :
      Option MemoryGovernance → List (MemoryItem F) → Result (List (MemoryItem F))
  filter_by none items = ok items
  filter_by (some governance) items = filter_recalled_items items governance

  abbrev not_saved : String → MemoryWriteResult F
  not_saved reason = record { saved = false; item = none; reason = some reason }

module _ {F S : Type 0} where
  -- What `remember` makes of the provider's answer.
  abbrev save_result : Result (MemoryItem F) × S → MemoryWriteResult F × S
  save_result (ok item, s) = (record { saved = true; item = some item; reason = none }, s)
  save_result (err e, s) = (not_saved "provider_error", s)

  -- The `try` block of `recall`.
  unfoldable pub recall_from :
      MemoryProvider F S
      → ℕ
      → MemoryScope
      → String
      → Option MemoryGovernance
      → S
      → Result (List (MemoryItem F))
  recall_from provider limit scope query governance s = do
    items ← provider.recall scope query (max_of (limit * 4) limit) s
    filter_by governance items

  -- The rest of `recall`; the `except` clause serves nothing.
  unfoldable pub serve :
      Builtins F → MemoryService F S → String → Result (List (MemoryItem F)) → List (MemoryItem F)
  serve py service query (err e) = []
  serve py service query (ok items) =
      sanitize service.max_item_chars (take service.recall_limit (rank_memory_items py query items))

  unfoldable pub recall :
      Builtins F
      → MemoryService F S
      → MemoryScope
      → String
      → Option MemoryGovernance
      → S
      → List (MemoryItem F)
  recall py service scope query governance s = elim service.provider [
    | none ↦ []
    | some provider ↦
        if not service.recall_enabled
        then []
        else serve py service query
            (recall_from provider service.recall_limit scope query governance s)
  ]

  unfoldable pub get_current : MemoryService F S → MemoryScope → String → S → Option (MemoryItem F)
  get_current service scope key s = elim service.provider [
    | none ↦ none
    | some provider ↦ or_on_error (provider.get_current scope key s) none
  ]

  unfoldable pub remember :
      MemoryService F S → MemoryScope → MemoryWrite F → S → MemoryWriteResult F × S
  remember service scope memory s = elim service.provider [
    | none ↦ (not_saved "memory_write_disabled", s)
    | some provider ↦
        if not service.write_enabled
        then (not_saved "memory_write_disabled", s)
        else save_result (provider.remember scope memory s)
  ]

  unfoldable pub forget :
      MemoryService F S
      → MemoryScope
      → String
      → Option String
      → Option String
      → String
      → S
      → Bool × S
  forget service scope key reason trace source_kind s = elim service.provider [
    | none ↦ (false, s)
    | some provider ↦
        if not service.write_enabled
        then (false, s)
        else flag_result false (provider.forget scope key reason trace source_kind s)
  ]

  unfoldable pub expire_due : MemoryService F S → Option String → ℕ → S → ℕ × S
  expire_due service tenant limit s = elim service.provider [
    | none ↦ (0, s)
    | some provider ↦
        if not service.write_enabled
        then (0, s)
        else flag_result 0 (provider.expire_due tenant limit s)
  ]
