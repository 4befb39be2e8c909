-- ===== src/Coalescing/Counter/Tests.antt =====
-- am++/counter_coalesced_message_type.hpp: tests, with two slots and three threads.
use ampp.Prelude.{
  ℕ, zero, suc, ◌+◌, ◌<◌, ◌≤◌, ◌≡◌, refl, true, false, List, [], ◌∷◌, ◌++◌, Option, none, some, ◌⊎◌,
  if◌then◌else◌, replicate, length, All, arith,
}
use ampp.Coalescing.Counter.{
  Buffer, Worker, Choice, idle, call_send, call_flush, go, new_buffer, taken, step, step_at,
  put_back, step_from, run, register, claim, after_write, return_to, send_buffer, swap, is_active,
  masked,
}
use ampp.Coalescing.Counter.Totals.{sum, owns, passes, closes, target, pending}
use ampp.Coalescing.Counter.Invariant.{is_full}
use ampp.Coalescing.Counter.Weighed.{holds, weigh, weigh_all}
use ampp.Coalescing.Counter.Runs.{accepted, total_of, run-kept, run-safe, run-registered, run-awake}

-- The same thread takes some steps.
abbrev steps : ℕ → ℕ → List (ℕ × Choice ℕ)
steps zero k = []
steps (suc n) k = (k, go false) ∷ steps n k

-- Threads 0 and 1 send and fill the buffer; thread 0 registers it and thread 1 sends it.
abbrev full_schedule : List (ℕ × Choice ℕ)
full_schedule =
    (0, call_send 5)
      ∷ (1, call_send 6)
      ∷ (0, go false)
      ∷ (1, go false)
      ∷ (0, go false)
      ∷ (1, go false)
      ∷ (1, go false)
      ∷ (1, go false)
      ∷ steps 4 0
    ++ steps 7 1

-- Thread 2 flushes a message of thread 0, the second time it finds it.
abbrev flush_schedule : List (ℕ × Choice ℕ)
flush_schedule =
    (0, call_send 5) ∷ steps 6 0 ++ (2, call_flush) ∷ steps 2 2 ++ (2, call_flush) ∷ steps 8 2

sent_in : Option (List (Worker ℕ) × Buffer ℕ) → List (List (Option ℕ))
sent_in none = []
sent_in (some (ws, b)) = b.sent

full_schedule-sent :
    sent_in (run (some (replicate 3 idle, new_buffer 2)) full_schedule)
    ≡ (some 5 ∷ some 6 ∷ []) ∷ []
unfolding sent_in run step_from step_at put_back step register taken claim after_write return_to
    send_buffer swap is_active masked new_buffer
full_schedule-sent = refl

flush_schedule-sent :
    sent_in (run (some (replicate 3 idle, new_buffer 2)) flush_schedule) ≡ (some 5 ∷ []) ∷ []
unfolding sent_in run step_from step_at put_back step register taken claim after_write return_to
    send_buffer swap is_active masked new_buffer
flush_schedule-sent = refl

run-safe_example :
    (ws : List (Worker ℕ)) × (b : Buffer ℕ) × (run
        (some (replicate 3 idle, new_buffer 2))
        full_schedule
      ≡ some (ws, b))
    × (sum owns ws ≤ 1)
    × All (λ xs. is_full 2 xs ≡ true) b.sent
run-safe_example = run-safe 2 3 full_schedule (omega arith) (omega arith)

run-registered_example :
    (ws : List (Worker ℕ)) × (b : Buffer ℕ) × (run
        (some (replicate 3 idle, new_buffer 2))
        flush_schedule
      ≡ some (ws, b))
    × (b.registrations ≡ length b.sent + sum passes ws + (if b.registered_with_td then 1 else 0))
run-registered_example = run-registered 2 3 flush_schedule (omega arith) (omega arith)

run-kept_example :
    (ws : List (Worker ℕ)) × (b : Buffer ℕ) × (run
        (some (replicate 3 idle, new_buffer 2))
        full_schedule
      ≡ some (ws, b))
    × (sum (holds (λ a. a)) ws
          + (weigh (λ a. a) (taken b.max_count b.slots) + weigh_all (λ a. a) b.sent)
        ≡ total_of (λ a. a) (accepted (some (replicate 3 idle, new_buffer 2)) full_schedule))
run-kept_example = run-kept (λ a. a) 2 3 full_schedule (omega arith) (omega arith)

run-awake_example :
    (ws : List (Worker ℕ)) × (b : Buffer ℕ) × (run
        (some (replicate 3 idle, new_buffer 2))
        flush_schedule
      ≡ some (ws, b))
    × ((b.count_allocated < 2) ⊎ (0 < sum (closes 2) ws + sum owns ws))
    × ((sum (target 2) ws ≤ b.count_written) ⊎ (0 < sum pending ws))
run-awake_example = run-awake 2 3 flush_schedule (omega arith) (omega arith)
