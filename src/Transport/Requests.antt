-- ===== src/Transport/Requests.antt =====
-- am++/detail/mpi_request_manager.hpp: mpi_request_manager, with one thread at a time. A slot is an
-- element of `reqs` with the one of `req_info` at the same index, which are always written together.
-- A request is a number, and MPI_REQUEST_NULL is 0. What MPI_Testsome returns is a parameter: the
-- indices that it reports with their statuses, or `none` for MPI_UNDEFINED. A failed assertion and an
-- index out of bounds are `none`.
pub mod Sums
pub mod Kept
pub mod Runs
mod Tests
use ampp.Prelude.{
  ℕ, zero, suc, ◌+◌, ◌-◌, Bool, true, false, not, List, [], ◌∷◌, ◌++◌, Option, none, some, ◌==◌,
  leb, if◌then◌else◌, length, get_elem?, set,
}
use ampp.Messaging.TaskResult.{TaskResult, tr_remove_from_queue, tr_idle, tr_busy}

pub record RequestInfo (U : Type 0) : Type 0 where
  pub slot_has_active_request : Bool
  pub dest : ℕ
  pub tag : ℕ
  pub user_info : U

-- mpi_request_info(), for the default of the user's information.
pub no_info : {U : Type 0} → U → RequestInfo U
no_info default = record {
  slot_has_active_request = false;
  dest = 18446744073709551615;
  tag = 18446744073709551615;
  user_info = default;
}

abbrev pub Slot : Type 0 → Type 0
Slot U = ℕ × RequestInfo U

pub record RequestManager (U S : Type 0) : Type 0 where
  pub slots : List (Slot U)
  pub indices_size : ℕ
  pub nreqs_active : ℕ
  pub mpi_msg_queue : List (S × RequestInfo U)
  pub need_to_exit : Bool

-- The first slot that has no active request is taken.
pub place : {U : Type 0} → Slot U → List (Slot U) → Option (List (Slot U))
place new [] = none
place new (slot ∷ slots) =
    let rest = place new slots in
    if not slot.1.slot_has_active_request
    then some (new ∷ slots)
    else elim rest [ none ↦ none | some placed ↦ some (slot ∷ placed) ]

module _ {U S : Type 0} (default : U) where
  pub new_manager : RequestManager U S
  new_manager = record {
    slots = [];
    indices_size = 0;
    nreqs_active = 0;
    mpi_msg_queue = [];
    need_to_exit = false;
  }

  pub placed : Slot U → RequestManager U S → Option (List (Slot U)) → RequestManager U S
  placed new m none = record m { slots = m.slots ++ new ∷ []; indices_size = m.indices_size + 1 }
  placed new m (some slots) = record m { slots = slots }

  pub add : ℕ → RequestInfo U → RequestManager U S → RequestManager U S
  unfolding place placed
  add req info m =
      let new : Slot U = (req, record info { slot_has_active_request = true }) in
      if req == 0
      then m
      else placed new (record m { nreqs_active = m.nreqs_active + 1 }) (place new m.slots)

  -- A completed request leaves its slot.
  pub complete : ℕ → S → RequestManager U S → Option (Slot U) → Option (RequestManager U S)
  unfolding no_info
  complete i status m none = none
  complete i status m (some (req, info)) = some (record m {
    slots = set m.slots i (0, no_info default);
    mpi_msg_queue = m.mpi_msg_queue ++ (status, info) ∷ [];
  })

  pub complete_all : List (ℕ × S) → Option (RequestManager U S) → Option (RequestManager U S)
  unfolding complete
  complete_all [] m = m
  complete_all (d ∷ ds) none = none
  complete_all ((i, status) ∷ ds) (some m) =
      complete_all ds (complete i status m (get_elem? m.slots i))

  pub busy : Option (RequestManager U S) → Option (TaskResult × RequestManager U S)
  busy none = none
  busy (some m) = some (tr_busy, m)

  pub reported :
      Option (List (ℕ × S)) → RequestManager U S → Option (TaskResult × RequestManager U S)
  unfolding complete_all busy
  reported none m = if m.nreqs_active == 0 then some (tr_idle, m) else none
  reported (some []) m = some (tr_idle, m)
  reported (some (d ∷ ds)) m =
      busy (
        complete_all (d ∷ ds) (some (record m { nreqs_active = m.nreqs_active - length (d ∷ ds) })))

  pub poll_unlocked :
      (List (Slot U) → Option (List (ℕ × S)))
      → RequestManager U S
      → Option (TaskResult × RequestManager U S)
  unfolding reported
  poll_unlocked testsome m =
      if m.nreqs_active == 0
      then some (tr_idle, m)
      else if length m.slots == 0
      then none
      else if not (leb (length m.slots) m.indices_size)
      then none
      else reported (testsome m.slots) m

  -- Whether an add is pending, and whether the lock is free, are arguments.
  pub poll_for_messages :
      Bool
      → Bool
      → (List (Slot U) → Option (List (ℕ × S)))
      → RequestManager U S
      → Option (TaskResult × RequestManager U S)
  unfolding poll_unlocked
  poll_for_messages add_pending lock_free testsome m =
      if m.need_to_exit
      then some (tr_remove_from_queue, m)
      else if add_pending
      then some (tr_idle, m)
      else if not lock_free
      then some (tr_idle, m)
      else poll_unlocked testsome m

  pub destroy : RequestManager U S → RequestManager U S
  destroy m = record m { need_to_exit = true }
