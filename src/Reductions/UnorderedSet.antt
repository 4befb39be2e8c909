-- ===== src/Reductions/UnorderedSet.antt =====
-- am++/reductions.hpp, unordered_set_remove_duplicates: for each rank, a set of what was sent there,
-- which is emptied when it has grown too large. A set is a list without repetitions, by the equality
-- `same` of the stored values, which is a parameter like the policy's `stored_value`. What is passed
-- on to the coalescing layer is kept in `sent`. `none` is a failed assertion. The locks and the hit
-- rate counters are left out.
pub mod Firsts
pub mod Bounds
mod Tests
use ampp.Prelude.{
  ℕ, zero, suc, ◌+◌, Bool, true, false, ◌||◌, List, [], ◌∷◌, ◌++◌, Option, none, some, ltb,
  if◌then◌else◌, store, length,
}

pub record Layer (Arg Stored : Type 0) : Type 0 where
  pub cache : ℕ → List Stored
  pub sent : List (Arg × ℕ)

abbrev pub size_limit : ℕ
size_limit = 10000

module _ {Arg Stored : Type 0} (stored_value : Arg → Stored) (same : Stored → Stored → Bool)
    (nranks : ℕ) where
  abbrev pub member : Stored → List Stored → Bool
  member v [] = false
  member v (w ∷ ws) = same w v || member v ws

  -- The loop of `clear` over the first ranks.
  clear_ranks : ℕ → (ℕ → List Stored) → ℕ → List Stored
  clear_ranks zero cache = cache
  clear_ranks (suc i) cache = store (clear_ranks i cache) i []

  pub clear : Layer Arg Stored → Layer Arg Stored
  unfolding clear_ranks
  clear s = record s { cache = clear_ranks nranks s.cache }

  -- The constructor makes empty sets.
  pub init : Layer Arg Stored
  unfolding clear
  init = clear (record { cache = λ d. []; sent = [] })

  -- What a set is after a value has been inserted.
  pub inserted : Stored → List Stored → List Stored
  inserted new_val vs = if ltb size_limit (length (new_val ∷ vs)) then [] else new_val ∷ vs

  pub insert_at : Arg → ℕ → Layer Arg Stored → Layer Arg Stored
  unfolding inserted
  insert_at arg dest s =
      let new_val = stored_value arg in
      if member new_val (s.cache dest) then s else record {
        cache = store s.cache dest (inserted new_val (s.cache dest));
        sent = s.sent ++ (arg, dest) ∷ [];
      }

  pub send : Arg → ℕ → Layer Arg Stored → Option (Layer Arg Stored)
  unfolding insert_at
  send arg dest s = if ltb dest nranks then some (insert_at arg dest s) else none

  -- The thread's number is only handed on.
  pub send_with_tid : Arg → ℕ → ℕ → Layer Arg Stored → Option (Layer Arg Stored)
  unfolding insert_at
  send_with_tid arg dest tid s = if ltb dest nranks then some (insert_at arg dest s) else none

  pub send_from : Option (Layer Arg Stored) → Arg × ℕ × Option ℕ → Option (Layer Arg Stored)
  unfolding send send_with_tid
  send_from none m = none
  send_from (some s) (arg, dest, none) = send arg dest s
  send_from (some s) (arg, dest, some tid) = send_with_tid arg dest tid s

  -- A program of sends, some of which name a thread.
  pub run : Option (Layer Arg Stored) → List (Arg × ℕ × Option ℕ) → Option (Layer Arg Stored)
  unfolding send_from
  run r [] = r
  run r (m ∷ ms) = run (send_from r m) ms
