-- ===== src/Termination/SinhaKale.antt =====
-- src/mpi_sinha_kale_ramkumar_termination_detector.cpp: each rank counts the messages that it has
-- built (nc) and handled (np); the ranks add their counts up in waves of MPI_Iallreduce.
-- `none` is a failed assertion. Counters are 64 bits wide. The transport's idleness and the result
-- of MPI_Test are arguments of `poll_for_events`.
pub mod Waves
pub mod Phases
pub mod Quiescence
mod Tests
use ampp.Prelude.{
  ℕ, ◌+◌, ◌-◌, ◌%◌, ◌^◌, Bool, true, false, ◌||◌, not, List, [], ◌∷◌, ◌++◌, Option, none, some, leb,
  ◌==◌, if◌then◌else◌,
}
use ampp.Messaging.TaskResult.{TaskResult, tr_remove_from_queue, tr_idle, tr_busy}

abbrev pub u64 : ℕ → ℕ
u64 n = n % 2 ^ 64

-- The three counters that are added up.
pub record Counts : Type 0 where
  pub np : ℕ
  pub nc : ℕ
  pub user_value : ℕ

pub record Detector : Type 0 where
  pub terminated : Bool
  pub in_td : Bool
  pub last_total : ℕ
  pub local_counts : Counts
  pub global_counts : Counts
  pub handler_starts : ℕ
  pub start_iallreduce : Bool
  pub iallreduce_active : Bool
  pub allreduce_start_count : ℕ
  pub phase : ℕ
  pub prev_nc : ℕ
  pub local_counts_to_send : Counts
  pub term_queue : List ℕ
  pub idle_tasks : ℕ

abbrev pub zero_counts : Counts
zero_counts = record { np = 0; nc = 0; user_value = 0 }

abbrev pub assert {ℓ} : {A : Type ℓ} → Bool → Option A → Option A
assert true r = r
assert false r = none

unfoldable pub initialize : Detector
initialize = record {
  terminated = true;
  in_td = false;
  last_total = 0;
  local_counts = zero_counts;
  global_counts = zero_counts;
  handler_starts = 0;
  start_iallreduce = false;
  iallreduce_active = false;
  allreduce_start_count = 0;
  phase = 1;
  prev_nc = 0;
  local_counts_to_send = zero_counts;
  term_queue = [];
  idle_tasks = 0;
}

unfoldable pub add_nc : ℕ → Detector → Detector
add_nc v d = record d { local_counts = record c { nc = u64 (c.nc + v) } }
  where
    open d use {local_counts as c}

unfoldable pub add_np : ℕ → Detector → Detector
add_np v d = record d { local_counts = record c { np = u64 (c.np + v) } }
  where
    open d use {local_counts as c}

unfoldable pub message_being_built : Detector → Option Detector
unfolding add_nc
message_being_built d = assert (not d.terminated) (some (add_nc 1 d))

unfoldable pub message_received : Detector → Option Detector
message_received d =
    assert (not d.terminated) (some (record d { handler_starts = u64 (d.handler_starts + 1) }))

unfoldable pub message_handled : Detector → Option Detector
unfolding add_np
message_handled d = assert (not d.terminated) (some (add_np 1 d))

unfoldable pub increase_activity_count : ℕ → Detector → Detector
unfolding add_nc
increase_activity_count v d = add_nc v d

unfoldable pub decrease_activity_count : ℕ → Detector → Detector
unfolding add_np
decrease_activity_count v d = add_np v d

unfoldable pub begin_epoch : Detector → Option Detector
begin_epoch d = assert d.terminated (
    assert (d.local_counts.np == 0) (
      assert (d.local_counts.nc == 0) (
        some (record d {
          terminated = false;
          in_td = false;
          local_counts = zero_counts;
          handler_starts = 0;
        }))))

unfoldable pub setup_end_epoch_with_value : ℕ → Detector → Option Detector
setup_end_epoch_with_value value d = assert (not d.terminated) (
    some (record d {
      local_counts = record c { user_value = u64 (c.user_value + value) };
      global_counts = record g { np = 0; nc = 0 };
      start_iallreduce = true;
      iallreduce_active = false;
      phase = 1;
      prev_nc = 0;
      last_total = 2 ^ 64 - 1;
      in_td = true;
      idle_tasks = d.idle_tasks + 1;
    }))
  where
    open d use {local_counts as c, global_counts as g}

unfoldable pub setup_end_epoch : Detector → Option Detector
unfolding setup_end_epoch_with_value
setup_end_epoch d = setup_end_epoch_with_value 0 d

-- MPI_Iallreduce with a copy of the local counts.
unfoldable pub start_reduction : Detector → Detector
start_reduction d =
    if d.start_iallreduce
    then record d {
      prev_nc = d.global_counts.nc;
      local_counts_to_send = d.local_counts;
      last_total = u64 (d.local_counts.np + d.local_counts.nc);
      allreduce_start_count = d.allreduce_start_count + 1;
      iallreduce_active = true;
      start_iallreduce = false;
    }
    else d

abbrev Polled : Type 0
Polled = Option (TaskResult × Detector)

-- After a completed reduction.
unfoldable pub decide : Counts → Detector → Polled
decide g d = assert (leb d.prev_nc g.nc) (
    if not (g.np == g.nc)
    then some (tr_busy, record done { phase = 1; start_iallreduce = true })
    else if (d.phase == 1) || not (g.nc == d.prev_nc)
    then some (tr_busy, record done { phase = 2; start_iallreduce = true })
    else some (
      tr_remove_from_queue,
      record done {
        terminated = true;
        local_counts = record c { np = 0; nc = 0 };
        term_queue = d.term_queue ++ g.user_value ∷ [];
      },
    ))
  where
    open d use {local_counts as c}

    done : Detector
    done = record d { iallreduce_active = false; global_counts = g }

unfoldable pub test_reduction : Option Counts → Detector → Polled
unfolding decide
test_reduction none d = some (tr_idle, d)
test_reduction (some g) d = decide g d

unfoldable pub poll_for_events : Bool → Option Counts → Detector → Polled
unfolding start_reduction test_reduction
poll_for_events idle completed d =
    if not idle
    then some (tr_idle, d)
    else if d.terminated || not d.in_td
    then some (tr_idle, d)
    else (let d' = start_reduction d in
        if d'.iallreduce_active then test_reduction completed d' else some (tr_idle, d'))
