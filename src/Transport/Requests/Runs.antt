-- ===== src/Transport/Requests/Runs.antt =====
-- am++/detail/mpi_request_manager.hpp: every request that was added is waited for or its completion was
-- sent, over any sequence of calls.
use ampp.Prelude.{
  ℕ, suc, ◌+◌, ◌≡◌, Bool, true, List, [], ◌∷◌, Option, none, some, ◌==◌, if◌then◌else◌,
}
use ampp.Messaging.TaskResult.{TaskResult}
use ampp.Transport.Requests.{RequestInfo, Slot, RequestManager, add, poll_for_messages}
use ampp.Transport.Requests.Kept.{IsTestsome, Inv, weigh}

-- What the calls of a program do. A poll finds an add that is pending or not, and the lock free or not.
pub data Call (U : Type 0) : Type 0 where
  add_request : ℕ → RequestInfo U → Call U
  poll : Bool → Bool → Call U

module _ {U S : Type 0} (default : U) where
  -- The results of MPI_Testsome are those of a function, which has the number of the call.
  module _ (testsome : ℕ → List (Slot U) → Option (List (ℕ × S))) where
    pub polled : Option (TaskResult × RequestManager U S) → Option (RequestManager U S)
    polled none = none
    polled (some (r, m)) = some m

    pub step : ℕ → Call U → RequestManager U S → Option (RequestManager U S)
    unfolding polled
    step k (add_request req info) m = some (add default req info m)
    step k (poll add_pending lock_free) m =
        polled (poll_for_messages default add_pending lock_free (testsome k) m)

    pub run : ℕ → List (Call U) → Option (RequestManager U S) → Option (RequestManager U S)
    unfolding step
    run k [] m = m
    run k (c ∷ cs) none = none
    run k (c ∷ cs) (some m) = run (suc k) cs (step k c m)

    -- The weight of what is added.
    abbrev pub given : (RequestInfo U → ℕ) → List (Call U) → ℕ
    given v [] = 0
    given v (add_request req info ∷ cs) =
        (if req == 0 then 0 else v (record info { slot_has_active_request = true })) + given v cs
    given v (poll add_pending lock_free ∷ cs) = given v cs

    module _ (behaves : (k : ℕ) → IsTestsome default (testsome k)) where
      -- What a call of poll_for_messages leads to.
      abbrev Polls : RequestManager U S → Option (TaskResult × RequestManager U S) → Type 0
      Polls m r =
          (m' : RequestManager U S) × (polled r ≡ some m')
          × Inv default m'
          × ((v : RequestInfo U → ℕ) → weigh default v m' ≡ weigh default v m)
