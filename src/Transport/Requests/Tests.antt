-- ===== src/Transport/Requests/Tests.antt =====
-- am++/detail/mpi_request_manager.hpp: tests, with an MPI_Testsome that reports the first request.
use ampp.Prelude.{
  ℕ, suc, ◌≡◌, ◌≢◌, true, false, List, [], ◌∷◌, Option, none, some, ◌==◌, if◌then◌else◌, get_elem?,
}
use ampp.Prelude.Sums.{sum}
use ampp.Transport.Requests.{RequestInfo, Slot}
use ampp.Transport.Requests.Runs.{Call, add_request, poll}

abbrev next_index : Option ℕ → Option ℕ
next_index none = none
next_index (some i) = some (suc i)

abbrev first_request : List (Slot ℕ) → Option ℕ
first_request [] = none
first_request (slot ∷ slots) =
    let rest = first_request slots in if slot.0 == 0 then next_index rest else some 0

abbrev report : ℕ → Option ℕ → Option (List (ℕ × ℕ))
report k none = none
report k (some i) = some ((i, k) ∷ [])

abbrev testsome : ℕ → List (Slot ℕ) → Option (List (ℕ × ℕ))
testsome k slots = report k (first_request slots)

abbrev Found : List (Slot ℕ) → Option ℕ → Type 0
Found slots none = sum (λ slot. if slot.0 == 0 then 0 else 1) slots ≡ 0
Found slots (some i) = (slot : Slot ℕ) × (get_elem? slots i ≡ some slot) × (slot.0 ≢ 0)

abbrev info : ℕ → RequestInfo ℕ
info u = record { slot_has_active_request = false; dest = 1; tag = 4; user_info = u }

abbrev program : List (Call ℕ)
program =
    add_request 7 (info 5)
    ∷ add_request 9 (info 6)
    ∷ poll false true
    ∷ add_request 0 (info 3)
    ∷ add_request 8 (info 2)
    ∷ poll true true
    ∷ poll false true
    ∷ []
