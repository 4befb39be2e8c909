-- ===== src/Reductions/WriteThrough.antt =====
-- am++/reductions.hpp, per_thread_wt_cache_binop_reduction: each thread has a direct-mapped cache for
-- each possible destination, and a message is left out if it does not change the value that is kept
-- for its key. The caches lie in one array, and a pointer into it is its index. What is passed on to
-- the coalescing layer is kept in `sent`. `none` is a failed assertion, or a search for a dummy value
-- that has run out of fuel. The hit rate counters are left out.
pub mod Starts
pub mod Cells
pub mod Combined
mod Tests
use ampp.Prelude.{
  ℕ, zero, suc, ◌+◌, ◌*◌, ◌%◌, Bool, true, false, ◌&&◌, not, List, [], ◌∷◌, ◌++◌, Option, none,
  some, ltb, ◌==◌, if◌then◌else◌, store,
}
use ampp.Reductions.Combine.{Policy, get_size, get_bucket, get_dummy_value}

pub record Layer (Arg : Type 0) : Type 0 where
  pub values : ℕ → Arg
  pub start_ptrs : ℕ → Option ℕ
  pub sent : List (Arg × ℕ)

abbrev pub assert {ℓ} : {A : Type ℓ} → Bool → Option A → Option A
assert true r = r
assert false r = none

-- The sizes that the constructor takes from its arguments.
pub record Sizes : Type 0 where
  pub lg_size : ℕ
  pub num_possible_dests : ℕ
  pub num_threads : ℕ
  pub num_ranks : ℕ
  pub fuel : ℕ

-- The inner loop of the constructor for thread `tid`, over the possible destinations.
pub set_dests : Sizes → (ℕ → ℕ) → ℕ → ℕ → (ℕ → Option ℕ) → ℕ → Option ℕ
set_dests z rank_from_index tid zero ptrs = ptrs
set_dests z rank_from_index tid (suc i) ptrs =
    store (set_dests z rank_from_index tid i ptrs) (tid * z.num_ranks + rank_from_index i)
      (some ((tid * z.num_possible_dests + i) * get_size z.lg_size))

-- The outer loop, over the threads.
pub set_starts : Sizes → (ℕ → ℕ) → ℕ → ℕ → Option ℕ
unfolding set_dests
set_starts z rank_from_index zero = λ i. none
set_starts z rank_from_index (suc tid) =
    set_dests z rank_from_index tid z.num_possible_dests (set_starts z rank_from_index tid)

-- A cell is written and what it holds is passed on.
pub put : {Arg : Type 0} → ℕ → Arg → ℕ → Layer Arg → Layer Arg
put ptr kv dest s = record s { values = store s.values ptr kv; sent = s.sent ++ (kv, dest) ∷ [] }

-- The assertion of that loop.
pub ranks_below : ℕ → (ℕ → ℕ) → ℕ → Bool
ranks_below num_ranks rank_from_index zero = true
ranks_below num_ranks rank_from_index (suc i) =
    ranks_below num_ranks rank_from_index i && ltb (rank_from_index i) num_ranks

module _ {Arg Key Value : Type 0} (policy : Policy Arg Key Value) (z : Sizes) where
  abbrev pub bucket : Key → ℕ
  bucket k = get_bucket policy (get_size z.lg_size) k

  -- What `clear` writes to a cell, and the assertion after it.
  dummy_at : Option Key → ℕ → (ℕ → Arg) → Option (ℕ → Arg)
  dummy_at none i values = none
  dummy_at (some k) i values =
      let kv = policy.make_keyval k policy.default_value in
      assert (not (bucket (policy.get_key kv) == i % get_size z.lg_size)) (some (store values i kv))

  clear_cell : ℕ → Option (ℕ → Arg) → Option (ℕ → Arg)
  unfolding dummy_at
  clear_cell i none = none
  clear_cell i (some values) =
      dummy_at (get_dummy_value policy z.fuel (get_size z.lg_size) (i % get_size z.lg_size)) i
        values

  -- The loop of `clear` over the first cells.
  pub clear_cells : ℕ → (ℕ → Arg) → Option (ℕ → Arg)
  unfolding clear_cell
  clear_cells zero values = some values
  clear_cells (suc i) values = clear_cell i (clear_cells i values)

  cleared : Layer Arg → Option (ℕ → Arg) → Option (Layer Arg)
  cleared s none = none
  cleared s (some values) = some (record s { values = values })

  pub clear : Layer Arg → Option (Layer Arg)
  unfolding clear_cells cleared
  clear s =
      cleared s (clear_cells (z.num_threads * z.num_possible_dests * get_size z.lg_size) s.values)

  -- The array holds anything at first.
  pub init : (ℕ → ℕ) → (ℕ → Arg) → Option (Layer Arg)
  unfolding clear set_starts ranks_below
  init rank_from_index fresh =
      assert (ranks_below z.num_ranks rank_from_index z.num_possible_dests) (
        clear (record {
          values = fresh;
          start_ptrs = set_starts z rank_from_index z.num_threads;
          sent = [];
        }))

  pub send_at : ℕ → Arg → ℕ → Layer Arg → Layer Arg
  unfolding put
  send_at start_ptr a dest s =
      let a_key = policy.get_key a in
      let ptr = start_ptr + bucket a_key in
      let old_value = policy.get_value (s.values ptr) in
      let new_value = policy.combine old_value (policy.get_value a) in
      if policy.same_key a_key (policy.get_key (s.values ptr))
      then if not (policy.same_value new_value old_value)
        then put ptr (policy.make_keyval a_key new_value) dest s
        else s
      else put ptr a dest s

  pub send_from : Option ℕ → Arg → ℕ → Layer Arg → Option (Layer Arg)
  unfolding send_at
  send_from none a dest s = none
  send_from (some start_ptr) a dest s =
      assert (ltb (bucket (policy.get_key a)) (get_size z.lg_size))
        (some (send_at start_ptr a dest s))

  pub send_with_tid : Arg → ℕ → ℕ → Layer Arg → Option (Layer Arg)
  unfolding send_from
  send_with_tid a dest thread_id s = assert (ltb thread_id z.num_threads) (
      assert (ltb dest z.num_ranks)
        (send_from (s.start_ptrs (thread_id * z.num_ranks + dest)) a dest s))

  pub flush : ℕ → Layer Arg → Bool × Layer Arg
  flush dest s = (false, s)

  -- A message, its destination and the thread that sends it.
  step_from : Option (Layer Arg) → Arg × ℕ × ℕ → Option (Layer Arg)
  unfolding send_with_tid
  step_from none m = none
  step_from (some s) (a, d, tid) = send_with_tid a d tid s

  pub run : Option (Layer Arg) → List (Arg × ℕ × ℕ) → Option (Layer Arg)
  unfolding step_from
  run r [] = r
  run r (m ∷ ms) = run (step_from r m) ms
