-- ===== src/Memory/Provider.antt =====
-- memory/provider.py: what a memory backend offers, over the state `S` that it keeps. A call that
-- changes the backend returns its new state, also where it raises. `native` is the backend of
-- memory/native_pg.py, whose calls return where the database answers.
use aegora.Prelude.{ℕ, String, Bool, Option, List}
use aegora.Prelude.Result.{Result, ok}
use aegora.Memory.Models.{Builtins, MemoryItem, MemoryScope, MemoryWrite}
use aegora.Memory.NativePg.Table.{Db}
use aegora.Memory.NativePg.Read
use aegora.Memory.NativePg.Remember
use aegora.Memory.NativePg.Forget
use aegora.Memory.NativePg.Expire

pub record MemoryProvider (F S : Type 0) : Type 0 where
  pub recall : MemoryScope → String → ℕ → S → Result (List (MemoryItem F))
  pub get_current : MemoryScope → String → S → Result (Option (MemoryItem F))
  pub remember : MemoryScope → MemoryWrite F → S → Result (MemoryItem F) × S
  pub forget : MemoryScope → String → Option String → Option String → String → S → Result Bool × S
  pub expire_due : Option String → ℕ → S → Result ℕ × S

-- A call that returned.
abbrev returned {ℓ} : {A S : Type ℓ} → A × S → Result A × S
returned (a, s) = (ok a, s)

abbrev pub native : {F : Type 0} → Builtins F → MemoryProvider F (Db F)
native py = record {
  recall = λ scope query limit db. ok (Read.recall py scope limit db);
  get_current = λ scope key db. ok (Read.get_current scope key db);
  remember = λ scope memory db. returned (Remember.remember scope memory db);
  forget =
      λ scope key reason trace kind db. returned (Forget.forget scope key reason trace kind db);
  expire_due = λ tenant limit db. returned (Expire.expire_due tenant limit db);
}
