-- ===== src/Reductions/SimpleCache.antt =====
-- am++/reductions.hpp, simple_cache_remove_duplicates: a direct-mapped cache for each possible
-- destination, which holds what was last sent there. The policy and the ranks of the possible
-- destinations are parameters. The caches lie in one array, and a pointer into it is its index. What is passed on to the coalescing
-- layer is kept in `sent`. `none` is a failed assertion. The hit rate counters are left out.
pub mod Cells
pub mod Covered
mod Tests
use ampp.Prelude.{
  ℕ, zero, suc, ◌+◌, ◌*◌, ◌%◌, ◌^◌, Bool, true, false, List, [], ◌∷◌, ◌++◌, Option, none, some,
  ◌==◌, if◌then◌else◌, store, ltb,
}

pub record Policy (Arg Stored : Type 0) : Type 0 where
  pub stored_value : Arg → Stored
  pub hash : Stored → ℕ → ℕ
  pub matches : Arg → Stored → Bool
  pub dummy_value : ℕ → ℕ → Stored

pub record Layer (Arg Stored : Type 0) : Type 0 where
  pub num_ranks : ℕ
  pub cache : ℕ → Stored
  pub start_ptrs : ℕ → Option ℕ
  pub sent : List (Arg × ℕ)

pub data Op (Arg : Type 0) : Type 0 where
  sends : Arg → ℕ → Op Arg
  flushes : ℕ → Op Arg

pub get_size : ℕ → ℕ
get_size lg_size = 2 ^ lg_size % 2 ^ 64

module _ {Arg Stored : Type 0} (policy : Policy Arg Stored) (lg_size num_possible_dests : ℕ)
    (rank_from_index : ℕ → ℕ) where
  -- The loop of `clear` over the first cells.
  pub clear_cells : ℕ → (ℕ → Stored) → ℕ → Stored
  clear_cells zero cache = cache
  clear_cells (suc i) cache =
      store (clear_cells i cache) i (policy.dummy_value (i % (get_size lg_size)) (get_size lg_size))

  pub clear : Layer Arg Stored → Layer Arg Stored
  unfolding clear_cells
  clear s = record s { cache = clear_cells (num_possible_dests * (get_size lg_size)) s.cache }

  -- The loop of the constructor over the possible destinations.
  pub set_starts : ℕ → ℕ → Option ℕ
  set_starts zero = λ r. none
  set_starts (suc i) = store (set_starts i) (rank_from_index i) (some (i * (get_size lg_size)))

  -- The array holds anything at first.
  pub init : ℕ → (ℕ → Stored) → Layer Arg Stored
  unfolding set_starts clear
  init num_ranks fresh = clear (record {
    num_ranks = num_ranks;
    cache = fresh;
    start_ptrs = set_starts num_possible_dests;
    sent = [];
  })

  -- The exchange of the cell, and what follows from its old value.
  pub send_at : ℕ → Arg → ℕ → Layer Arg Stored → Layer Arg Stored
  send_at start_ptr arg dest s =
      let new_val = policy.stored_value arg in
      let cell = start_ptr + policy.hash new_val (get_size lg_size) in
      let s' = record s { cache = store s.cache cell new_val } in
      if policy.matches arg (s.cache cell)
      then s'
      else record s' { sent = s.sent ++ (arg, dest) ∷ [] }

  send_from : Option ℕ → Arg → ℕ → Layer Arg Stored → Option (Layer Arg Stored)
  unfolding send_at
  send_from none arg dest s = none
  send_from (some start_ptr) arg dest s = some (send_at start_ptr arg dest s)

  unfoldable pub assert : Bool → Option (Layer Arg Stored) → Option (Layer Arg Stored)
  assert true r = r
  assert false r = none

  -- trans.is_valid_rank
  unfoldable pub is_valid_rank : Layer Arg Stored → ℕ → Bool
  is_valid_rank s dest = ltb dest s.num_ranks

  pub send : Arg → ℕ → Layer Arg Stored → Option (Layer Arg Stored)
  unfolding assert is_valid_rank send_from
  send arg dest s = assert (is_valid_rank s dest) (send_from (s.start_ptrs dest) arg dest s)

  pub flush : ℕ → Layer Arg Stored → Bool × Layer Arg Stored
  unfolding clear
  flush r s = (false, clear s)

  pub step : Layer Arg Stored → Op Arg → Option (Layer Arg Stored)
  unfolding send flush
  step s (sends arg dest) = send arg dest s
  step s (flushes r) = some (flush r s).1

  step_from : Option (Layer Arg Stored) → Op Arg → Option (Layer Arg Stored)
  unfolding step
  step_from none o = none
  step_from (some s) o = step s o

  pub run : Option (Layer Arg Stored) → List (Op Arg) → Option (Layer Arg Stored)
  unfolding step_from
  run r [] = r
  run r (o ∷ os) = run (step_from r o) os
