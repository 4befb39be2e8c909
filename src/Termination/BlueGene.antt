-- ===== src/Termination/BlueGene.antt =====
-- src/mpi_sinha_kale_ramkumar_termination_detector_bgp.cpp: the detector for Blue Gene, which sums the
-- counts up with DCMF_Allreduce. The bits of unsigned long, the times and the test whether .01 seconds
-- have gone by since one are parameters. What DCMF does between two steps, or when it is advanced, is
-- an argument: the sums of a reduction that is done. `none` is a failed assertion.
pub mod Phases
mod Tests
use ampp.Prelude.{
  ℕ, ◌+◌, ◌-◌, ◌%◌, ◌^◌, Bool, true, false, ◌&&◌, ◌||◌, not, List, [], ◌∷◌, ◌++◌, Option, none,
  some, leb, ◌==◌, if◌then◌else◌,
}
use ampp.Messaging.TaskResult.{TaskResult, tr_remove_from_queue, tr_idle, tr_busy}
use ampp.Termination.SinhaKale.{Counts, assert, zero_counts}

pub record BlueGene (Time : Type 0) : Type 0 where
  pub terminated : Bool
  pub in_td : Bool
  pub last_total : ℕ
  pub local_counts : Counts
  pub global_counts : Counts
  pub handler_starts : ℕ
  pub start_iallreduce : Bool
  pub iallreduce_active : Bool
  pub iallreduce_really_active : Bool
  pub phase : ℕ
  pub prev_nc : ℕ
  pub local_counts_to_send : Counts
  pub term_queue : List ℕ
  pub idle_tasks : ℕ
  pub iter_count : ℕ
  pub last_iallreduce_done_time : Time

module _ {Time : Type 0} (bits : ℕ) (never : Time) (due : Time → Time → Bool) where
  -- A sum of unsigned longs.
  pub wrap : ℕ → ℕ
  wrap n = n % 2 ^ bits

  -- The constructor.
  pub initialize : BlueGene Time
  initialize = record {
    terminated = true;
    in_td = false;
    last_total = 0;
    local_counts = zero_counts;
    global_counts = zero_counts;
    handler_starts = 0;
    start_iallreduce = false;
    iallreduce_active = false;
    iallreduce_really_active = false;
    phase = 1;
    prev_nc = 0;
    local_counts_to_send = zero_counts;
    term_queue = [];
    idle_tasks = 0;
    iter_count = 0;
    last_iallreduce_done_time = never;
  }

  pub begin_epoch : BlueGene Time → Option (BlueGene Time)
  begin_epoch d = assert d.terminated (
      assert (d.local_counts.np == 0) (
        assert (d.local_counts.nc == 0) (
          some (record d {
            terminated = false;
            in_td = false;
            local_counts = zero_counts;
            last_iallreduce_done_time = never;
            iter_count = 0;
            handler_starts = 0;
          }))))

  pub setup_end_epoch_with_value : ℕ → BlueGene Time → Option (BlueGene Time)
  unfolding wrap
  setup_end_epoch_with_value value d = assert (not d.terminated) (
      some (record d {
        local_counts = record c { user_value = wrap (c.user_value + value) };
        global_counts = record g { np = 0; nc = 0 };
        start_iallreduce = true;
        iallreduce_active = false;
        iallreduce_really_active = false;
        phase = 1;
        prev_nc = 0;
        last_total = 2 ^ bits - 1;
        in_td = true;
        idle_tasks = d.idle_tasks + 1;
      }))
    where
      open d use {local_counts as c, global_counts as g}

  pub setup_end_epoch : BlueGene Time → Option (BlueGene Time)
  unfolding setup_end_epoch_with_value
  setup_end_epoch d = setup_end_epoch_with_value 0 d

  add_nc : ℕ → BlueGene Time → BlueGene Time
  unfolding wrap
  add_nc v d = record d { local_counts = record c { nc = wrap (c.nc + v) } }
    where
      open d use {local_counts as c}

  add_np : ℕ → BlueGene Time → BlueGene Time
  unfolding wrap
  add_np v d = record d { local_counts = record c { np = wrap (c.np + v) } }
    where
      open d use {local_counts as c}

  pub message_being_built : BlueGene Time → Option (BlueGene Time)
  unfolding add_nc
  message_being_built d = assert (not d.terminated) (some (add_nc 1 d))

  pub message_received : BlueGene Time → Option (BlueGene Time)
  unfolding wrap
  message_received d =
      assert (not d.terminated) (some (record d { handler_starts = wrap (d.handler_starts + 1) }))

  pub message_handled : BlueGene Time → Option (BlueGene Time)
  unfolding add_np
  message_handled d = assert (not d.terminated) (some (add_np 1 d))

  pub increase_activity_count : ℕ → BlueGene Time → BlueGene Time
  unfolding add_nc
  increase_activity_count v d = add_nc v d

  pub decrease_activity_count : ℕ → BlueGene Time → BlueGene Time
  unfolding add_np
  decrease_activity_count v d = add_np v d

  -- What DCMF does with the sums when the reduction is done: `write_zero` is called.
  pub reduction_done : Option Counts → BlueGene Time → BlueGene Time
  reduction_done none d = d
  reduction_done (some g) d =
      if d.iallreduce_really_active
      then record d { global_counts = g; iallreduce_really_active = false }
      else d

  -- The start of a reduction, with `do_iallreduce`.
  pub start_reduction : Time → BlueGene Time → BlueGene Time
  unfolding wrap
  start_reduction now d =
      if d.start_iallreduce && due now d.last_iallreduce_done_time
      then record d {
        prev_nc = d.global_counts.nc;
        local_counts_to_send = d.local_counts;
        last_total = wrap (d.local_counts.np + d.local_counts.nc);
        iallreduce_really_active = true;
        iter_count = d.iter_count + 1;
        iallreduce_active = true;
        start_iallreduce = false;
      }
      else d

  abbrev pub Polled : Type 0
  Polled = Option (TaskResult × BlueGene Time)

  -- After a completed reduction.
  pub decide : Time → BlueGene Time → Polled
  decide now d = assert (leb d.prev_nc g.nc) (
      if not (g.np == g.nc)
      then some (tr_busy, record done { phase = 1; start_iallreduce = true })
      else if (d.phase == 1) || not (g.nc == d.prev_nc)
      then some (tr_busy, record done { phase = 2; start_iallreduce = true })
      else some (
        tr_remove_from_queue,
        record done {
          terminated = true;
          local_counts = record c { np = 0; nc = 0 };
          term_queue = d.term_queue ++ g.user_value ∷ [];
        },
      ))
    where
      open d use {local_counts as c, global_counts as g}

      done : BlueGene Time
      done = record d { last_iallreduce_done_time = now; iallreduce_active = false }

  -- `poll_for_events`: whether the transport is idle, the time, and what DCMF does when it is advanced.
  pub poll_for_events : Bool → Time → Option Counts → BlueGene Time → Polled
  unfolding start_reduction reduction_done decide
  poll_for_events idle now advance d =
      if not idle
      then some (tr_idle, d)
      else if d.terminated || not d.in_td
      then some (tr_idle, d)
      else (let d' = start_reduction now d in
          let d'' = reduction_done advance d' in
          if d'.iallreduce_active
          then if not d''.iallreduce_really_active then decide now d'' else some (tr_idle, d'')
          else some (tr_idle, d'))
