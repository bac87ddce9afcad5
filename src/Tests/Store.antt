-- ===== src/Tests/Store.antt =====
-- The versioned store at a table with one memory.
use aegora.Prelude.{
  ℕ, ◌≡◌, ◌≢◌, refl, ap, ◌⊎◌, String, Option, none, some, ◌∷◌, strip, arith, is_some, eq_iff,
}
use aegora.Memory.Models.{MemoryScope, MemoryWrite}
use aegora.Memory.NativePg.Table.{Db, Slot, slot_of, holds, find}
use aegora.Memory.NativePg.Rows.{count}
use aegora.Memory.NativePg.Read.{get_current, recall}
use aegora.Memory.NativePg.Remember.{remember}
use aegora.Memory.NativePg.Forget.{forget}
use aegora.Memory.NativePg.Expire.{expire_due}
use aegora.Memory.NativePg.Invariant.{IsWellFormed, methods-IsWellFormed}
use aegora.Memory.NativePg.Current.{get_current-remember}
use aegora.Memory.NativePg.Frame.{get_current-remember_frame, reads-expire_due}
use aegora.Memory.NativePg.Removal.{get_current-forget}
use aegora.Memory.NativePg.History.{history, entry_over, history-remember}
use aegora.Tests.Data.{py, ann, tea, empty_db}

empty_db-IsWellFormed : IsWellFormed empty_db
unfolding count
empty_db-IsWellFormed = record { ordered = tt; single = λ slot. omega arith }

abbrev one_memory : Db ℕ
one_memory = (remember ann tea empty_db).1

one_memory-IsWellFormed : IsWellFormed one_memory
one_memory-IsWellFormed = (methods-IsWellFormed empty_db empty_db-IsWellFormed).0 ann tea

abbrev coffee : MemoryWrite ℕ
coffee = record tea { value = "coffee" }

abbrev bob : MemoryScope
bob = record ann { user_id = "bob" }

other_slot : (key : String) → slot_of ann key ≢ slot_of bob (strip "drink")
other_slot key e = let user = ap (λ (s : Slot). s.user) e in ground (arith, eq_iff "ann" "bob")

get_current-remember_example :
    (get_current ann "drink" (remember ann coffee one_memory).1
      ≡ some (remember ann coffee one_memory).0)
    × ((remember ann coffee one_memory).0.content ≡ "coffee")
unfolding strip
get_current-remember_example = get_current-remember ann coffee one_memory refl refl refl

methods-IsWellFormed_example :
    ((s : MemoryScope) (m : MemoryWrite ℕ) → IsWellFormed (remember s m one_memory).1)
    × ((s : MemoryScope) (key : String) (reason trace : Option String) (kind : String)
        → IsWellFormed (forget s key reason trace kind one_memory).1)
    × ((tenant : Option String) (limit : ℕ) → IsWellFormed (expire_due tenant limit one_memory).1)
methods-IsWellFormed_example = methods-IsWellFormed one_memory one_memory-IsWellFormed

get_current-remember_frame_example :
    get_current bob "drink" (remember ann coffee one_memory).1 ≡ get_current bob "drink" one_memory
get_current-remember_frame_example =
    get_current-remember_frame ann bob coffee "drink" one_memory one_memory-IsWellFormed
      (other_slot "drink")

reads-expire_due_example :
    ((s : MemoryScope) (key : String)
      → get_current s key (expire_due none 10 one_memory).1 ≡ get_current s key one_memory)
    × ((s : MemoryScope) (n : ℕ)
        → recall py s n (expire_due none 10 one_memory).1 ≡ recall py s n one_memory)
reads-expire_due_example = reads-expire_due py none 10 one_memory one_memory-IsWellFormed

get_current-forget_example :
    (get_current ann "drink" (forget ann "drink" none none "explicit" one_memory).1 ≡ none)
    × ((forget ann "drink" none none "explicit" one_memory).0
        ≡ is_some (find (holds (slot_of ann (strip "drink"))) one_memory.rows))
unfolding strip
get_current-forget_example = get_current-forget ann "drink" none none "explicit" one_memory refl

history-remember_example :
    ((remember ann coffee one_memory).1 ≡ one_memory)
    ⊎ (history (remember ann coffee one_memory).1.rows
        ≡ entry_over ann coffee (find (holds (slot_of ann "drink")) one_memory.rows) one_memory
          ∷ history one_memory.rows)
history-remember_example = history-remember ann coffee one_memory
