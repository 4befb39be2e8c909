-- ===== src/Messaging/Scheduler.antt =====
-- am++/message_queue.hpp, scheduler: a queue of tasks that are run in turns.
-- A task's body is the parameter `body`: it may change the scheduler and the `world`. The tasks that
-- were run are kept in `runs`, each with whether handlers might run at the time. The scheduler is
-- seen from one thread, so `reentry_count` is that thread's, 0 before it is allocated.
pub mod Fairness
mod Tests
use ampp.Prelude.{
  ℕ, zero, suc, ◌+◌, ◌-◌, ◌%◌, ◌^◌, Bool, true, false, List, [], ◌∷◌, ◌++◌, Option, none, some,
  ◌==◌, if◌then◌else◌,
}
use ampp.Messaging.TaskResult.{
  TaskResult, tr_remove_from_queue, tr_idle, tr_busy, tr_busy_and_finished,
}

pub record Scheduler (T S : Type 0) : Type 0 where
  pub run_queue : List T
  pub reentry_count : ℕ
  pub world : S
  pub runs : List (T × Bool)

module _ {T S : Type 0} where
  pub should_run_handlers : Scheduler T S → Bool
  should_run_handlers s = s.reentry_count == 0

  pub add_runnable : ℕ → T → Scheduler T S → Scheduler T S
  add_runnable priority f s =
      if priority == 0
      then record s { run_queue = s.run_queue ++ f ∷ [] }
      else record s { run_queue = f ∷ s.run_queue }

  pub add_idle_task : T → Scheduler T S → Scheduler T S
  add_idle_task f s = record s { run_queue = s.run_queue ++ f ∷ [] }

  -- The switch on a task's result, and whether the task was busy.
  requeue : TaskResult → T → Scheduler T S → Bool × Scheduler T S
  requeue tr_busy_and_finished t s = (true, s)
  requeue tr_remove_from_queue t s = (false, s)
  requeue tr_busy t s = (true, record s { run_queue = s.run_queue ++ t ∷ [] })
  requeue tr_idle t s = (false, record s { run_queue = s.run_queue ++ t ∷ [] })

module _ {T S : Type 0} (body : T → Scheduler T S → TaskResult × Scheduler T S) where
  run_front : List T → Scheduler T S → Bool × Scheduler T S
  unfolding requeue should_run_handlers
  run_front [] s = (false, s)
  run_front (t ∷ rest) s =
      let (r, s') =
        body t (record s { run_queue = rest; runs = s.runs ++ (t, should_run_handlers s) ∷ [] }) in
      requeue r t s'

  pub run_one_task : Scheduler T S → Bool × Scheduler T S
  unfolding run_front
  run_one_task s = run_front s.run_queue s

  -- while (!pred()), on fuel.
  pub run_until : ℕ → (Scheduler T S → Bool) → Scheduler T S → Option (Scheduler T S)
  run_until zero pred s = if pred s then some s else none
  run_until (suc fuel) pred s =
      let rest = run_until fuel pred (run_one_task s).1 in if pred s then some s else rest

  -- --*reentry_count, if the loop has ended.
  leave : Option (Scheduler T S) → Option (Scheduler T S)
  leave none = none
  leave (some s) = some (record s { reentry_count = (s.reentry_count + 2 ^ 32 - 1) % 2 ^ 32 })

  pub run_until_for_flow_control :
      ℕ → (Scheduler T S → Bool) → Scheduler T S → Option (Scheduler T S)
  unfolding run_until leave
  run_until_for_flow_control fuel pred s =
      leave (run_until fuel pred (record s { reentry_count = (s.reentry_count + 1) % 2 ^ 32 }))
