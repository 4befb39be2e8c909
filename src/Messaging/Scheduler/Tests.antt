-- ===== src/Messaging/Scheduler/Tests.antt =====
-- am++/message_queue.hpp, scheduler: tests.
use ampp.Prelude.{
  ℕ, zero, suc, ◌≡◌, refl, sym, ap, ◌∙◌, Bool, true, false, ◌||◌, arith, List, [], ◌∷◌, ◌++◌, some,
  map, append-nil, ◌==◌,
}
use ampp.Messaging.TaskResult.{TaskResult, tr_remove_from_queue, tr_busy}
use ampp.Messaging.Scheduler.{Scheduler, run_until_for_flow_control}
use ampp.Messaging.Scheduler.Fairness.{Appends, run_until_for_flow_control-reaches}

-- Task 1 adds task 5 and is done; the others stay.
abbrev work : ℕ → Scheduler ℕ Unit → TaskResult × Scheduler ℕ Unit
work (suc zero) s = (tr_remove_from_queue, record s { run_queue = s.run_queue ++ 5 ∷ [] })
work t s = (tr_busy, s)

abbrev extra : ℕ → Scheduler ℕ Unit → List ℕ
extra (suc zero) s = 5 ∷ []
extra t s = []

work_queue : (t : ℕ) (s : Scheduler ℕ Unit) → (work t s).1.run_queue ≡ s.run_queue ++ extra t s
work_queue zero s = sym (append-nil s.run_queue)
work_queue (suc zero) s = refl
work_queue (suc (suc t)) s = sym (append-nil s.run_queue)

work_log : (t : ℕ) (s : Scheduler ℕ Unit) → (work t s).1.runs ≡ s.runs
work_log zero s = refl
work_log (suc zero) s = refl
work_log (suc (suc t)) s = refl

work_depth : (t : ℕ) (s : Scheduler ℕ Unit) → (work t s).1.reentry_count ≡ s.reentry_count
work_depth zero s = refl
work_depth (suc zero) s = refl
work_depth (suc (suc t)) s = refl

work-Appends : Appends work
work-Appends = record { added = extra; queue = work_queue; log = work_log; depth = work_depth }

abbrev three : Scheduler ℕ Unit
three = record { run_queue = 1 ∷ 2 ∷ 3 ∷ []; reentry_count = 0; world = tt; runs = [] }

-- Whether task 2 has run.
abbrev has_run : List (ℕ × Bool) → Bool
has_run [] = false
has_run ((t, b) ∷ rest) = (t == 2) || has_run rest

or_true : (b : Bool) → b || true ≡ true
or_true true = refl
or_true false = refl

has_run_later :
    (before after : List (ℕ × Bool)) (b : Bool) → has_run (before ++ (2, b) ∷ after) ≡ true
has_run_later [] after b = refl
has_run_later ((t, c) ∷ before) after b = rw (has_run_later before after b) (or_true (t == 2))

run_until_for_flow_control-reaches_example :
    (s : Scheduler ℕ Unit) × (new : List ℕ) × (run_until_for_flow_control work 2
        (λ s. has_run s.runs)
        three
      ≡ some s)
    × (s.reentry_count ≡ 0)
    × (s.runs ≡ map (λ t. (t, false)) new)
run_until_for_flow_control-reaches_example =
    run_until_for_flow_control-reaches work work-Appends (λ s. has_run s.runs) 2
      (λ s before after b e. ap has_run e ∙ has_run_later before after b) (1 ∷ []) (3 ∷ []) three
      refl (omega arith)
