-- ===== src/Tests/Lifecycles.antt =====
-- A candidate against the stored memories.
use aegora.Prelude.{ℕ, ◌≡◌, refl, ◌⊎◌, inr, some, strip}
use aegora.Prelude.Result.{ok}
use aegora.Memory.Models.{MemoryItem}
use aegora.Memory.Policy.{MemoryNamespacePolicy, policy_for}
use aegora.Memory.Service.{get_current}
use aegora.Memory.Lifecycle.{resolve_memory_candidate, resolve_in_scope}
use aegora.Memory.Lifecycle.Gates.{IsGated, IsUntouched, resolve_memory_candidate-IsGated}
use aegora.Memory.Lifecycle.Effects.{resolve_in_scope-IsProtected}
use aegora.Memory.NativePg.Table.{Db, row_to_item, slot_eq, find}
use aegora.Memory.NativePg.Read
use aegora.Memory.NativePg.Remember
use aegora.Tests.Data.{py, ann, tea, coffee, empty_db, service, governance, open_policy}

abbrev one_memory : Db ℕ
one_memory = (Remember.remember ann tea empty_db).1

abbrev stored : MemoryItem ℕ
stored = (Remember.remember ann tea empty_db).0

stored_lem : get_current service ann "drink" one_memory ≡ some stored
unfolding get_current Read.get_current Remember.remember Remember.remember_over
    Remember.insert_version Remember.new_row Remember.retire row_to_item slot_eq find strip
stored_lem = refl

resolve_memory_candidate-IsGated_example :
    ((policy : MemoryNamespacePolicy) × (policy_for governance "preferences" ≡ ok policy)
      × IsGated py policy coffee 80 90)
    ⊎ IsUntouched
        (resolve_memory_candidate py service ann governance coffee 80 90 1000 one_memory)
        one_memory
resolve_memory_candidate-IsGated_example =
    resolve_memory_candidate-IsGated py service ann coffee 80 90 1000 one_memory governance

resolve_in_scope-IsProtected_example :
    IsUntouched
      (resolve_in_scope py service ann open_policy coffee 80 90 1000 one_memory)
      one_memory
unfolding Remember.remember Remember.remember_over Remember.insert_version Remember.new_row
    Remember.retire row_to_item slot_eq find
resolve_in_scope-IsProtected_example =
    resolve_in_scope-IsProtected py service ann coffee one_memory stored stored_lem open_policy 80
      90 1000 (inr (refl, refl, refl))
