-- ===== src/Detail/AppendBuffer/Pushing/Tests.antt =====
-- am++/detail/append_buffer.hpp, push_back by several threads: two threads and chunks of two slots.
use mathlib.Core.Option
use ampp.Prelude.{
  ℕ, ◌+◌, ◌≤◌, ◌≡◌, refl, List, [], ◌∷◌, Option, some, ltb, if◌then◌else◌, All, arith, replicate,
}
use ampp.Prelude.Sums.{sum}
use ampp.Detail.AppendBuffer.{
  chunk_size, chunk_offset, pos_to_chunk_num, ffs_size_t, bit_width_loop,
}
use ampp.Detail.AppendBuffer.Position.{start}
use ampp.Detail.AppendBuffer.Pushing.{
  Buffer, Pusher, idle, new_buffer, run, step_from, step_at, step, put_back, claim, claimed,
  allocate, wait_for, assign, elem,
}
use ampp.Detail.AppendBuffer.Pushing.Inv.{uses, returns}
use ampp.Detail.AppendBuffer.Pushing.Runs.{begun, run-pushes}

-- The second thread has index 1 and waits for the chunk that the first one, with index 0, allocates.
abbrev schedule : List (ℕ × ℕ)
schedule = (0, 5) ∷ (1, 6) ∷ (0, 0) ∷ (1, 0) ∷ (1, 0) ∷ (0, 0) ∷ (1, 0) ∷ (1, 0) ∷ (0, 0) ∷ []

abbrev two_idle : Option (List (Pusher ℕ) × Buffer ℕ)
two_idle = some (replicate 2 idle, new_buffer 2 8 3 0)

begun-schedule : begun 2 8 3 0 two_idle schedule ≡ 2
unfolding run step_from step_at step put_back claim claimed allocate wait_for assign new_buffer
    chunk_size chunk_offset pos_to_chunk_num ffs_size_t bit_width_loop
begun-schedule = refl

first_two :
    Option.map (λ (s : List (Pusher ℕ) × Buffer ℕ). s.1.returned) (run 2 8 3 0 two_idle schedule)
    ≡ some ((0, 5) ∷ (1, 6) ∷ [])
unfolding run step_from step_at step put_back claim claimed allocate wait_for assign new_buffer
    chunk_size chunk_offset pos_to_chunk_num ffs_size_t bit_width_loop
first_two = refl

eight_fit : 8 ≤ start 2 3
unfolding start
eight_fit = omega arith

run-pushes_example :
    (ws : List (Pusher ℕ)) × (b : Buffer ℕ) × (run 2 8 3 0
        (some (replicate 2 idle, new_buffer 2 8 3 0))
        schedule
      ≡ some (ws, b))
    × ((i : ℕ)
        → sum (uses 2 i) ws + returns 2 i b.returned ≡ (if ltb i b.current_size then 1 else 0))
    × All (λ (r : ℕ × ℕ). elem 2 b.chunk_ptrs r.0 ≡ some r.1) b.returned
run-pushes_example =
    run-pushes 2 8 3 0 (omega arith) (omega arith) (omega arith) eight_fit 2 schedule
      (omega (arith, begun-schedule))
