-- ===== src/Messaging/Scheduler/Fairness.antt =====
-- am++/message_queue.hpp, scheduler: every task has its turn.
use ampp.Prelude.{
  ℕ, zero, suc, ◌+◌, ◌<◌, ◌-◌, ◌%◌, ◌^◌, ◌≡◌, refl, sym, ap, subst, ◌∙◌, Bool, true, false, List,
  [], ◌∷◌, ◌++◌, some, map, append-nil, append_assoc, arith, length, ◌==◌, Bool-cases, inl, inr,
}
use ampp.Messaging.TaskResult.{
  TaskResult, tr_remove_from_queue, tr_idle, tr_busy, tr_busy_and_finished,
}
use ampp.Messaging.Scheduler.{
  Scheduler, should_run_handlers, requeue, run_front, run_one_task, run_until, leave,
  run_until_for_flow_control,
}

-- Tasks may add tasks at the back of the queue, and leave the rest of the scheduler as it is.
pub record Appends {T S : Type 0} (body : T → Scheduler T S → TaskResult × Scheduler T S)
    : Type 0 where
  pub added : T → Scheduler T S → List T
  pub queue : (t : T) (s : Scheduler T S) → (body t s).1.run_queue ≡ s.run_queue ++ added t s
  pub log : (t : T) (s : Scheduler T S) → (body t s).1.runs ≡ s.runs
  pub depth : (t : T) (s : Scheduler T S) → (body t s).1.reentry_count ≡ s.reentry_count

module _ {T S : Type 0} where
  -- What one run of the task at the front makes of the scheduler.
  record Ran (t : T) (rest : List T) (s s' : Scheduler T S) : Type 0 where
    more : List T
    queue : s'.run_queue ≡ rest ++ more
    log : s'.runs ≡ s.runs ++ (t, should_run_handlers s) ∷ []
    depth : s'.reentry_count ≡ s.reentry_count

  requeue-Ran :
      (r : TaskResult) (t : T) (rest added : List T) (s s' : Scheduler T S)
      → s'.run_queue ≡ rest ++ added
      → s'.runs ≡ s.runs ++ (t, should_run_handlers s) ∷ []
      → s'.reentry_count ≡ s.reentry_count
      → Ran t rest s (requeue r t s').1
  unfolding requeue
  requeue-Ran tr_busy_and_finished t rest added s s' q l d = record {
    more = added;
    queue = q;
    log = l;
    depth = d;
  }
  requeue-Ran tr_remove_from_queue t rest added s s' q l d = record {
    more = added;
    queue = q;
    log = l;
    depth = d;
  }
  requeue-Ran tr_busy t rest added s s' q l d = record {
    more = added ++ t ∷ [];
    queue = ap (λ (xs : List T). xs ++ t ∷ []) q ∙ append_assoc rest added (t ∷ []);
    log = l;
    depth = d;
  }
  requeue-Ran tr_idle t rest added s s' q l d = record {
    more = added ++ t ∷ [];
    queue = ap (λ (xs : List T). xs ++ t ∷ []) q ∙ append_assoc rest added (t ∷ []);
    log = l;
    depth = d;
  }

  module _ (body : T → Scheduler T S → TaskResult × Scheduler T S) (tame : Appends body) where
    run_front-Ran :
        (t : T) (rest : List T) (s : Scheduler T S) → Ran t rest s (run_front body (t ∷ rest) s).1
    unfolding run_front
    run_front-Ran t rest s =
        let begun = record s {
          run_queue = rest;
          runs = s.runs ++ (t, should_run_handlers s) ∷ [];
        } in
        requeue-Ran (body t begun).0 t rest (tame.added t begun) s (body t begun).1
          (tame.queue t begun) (tame.log t begun) (tame.depth t begun)

    run_one_task-Ran :
        (t : T) (rest : List T) (s : Scheduler T S)
        → s.run_queue ≡ t ∷ rest
        → Ran t rest s (run_one_task body s).1
    unfolding run_one_task
    run_one_task-Ran t rest s e =
        subst (λ q. Ran t rest s (run_front body q s).1) (sym e) (run_front-Ran t rest s)

    -- That many runs.
    pub run_times : ℕ → Scheduler T S → Scheduler T S
    run_times zero s = s
    run_times (suc n) s = run_times n (run_one_task body s).1

    same_depth :
        (s s' : Scheduler T S)
        → s'.reentry_count ≡ s.reentry_count
        → should_run_handlers s' ≡ should_run_handlers s
    unfolding should_run_handlers
    same_depth s s' e = ap (λ n. n == 0) e

    -- If tasks add others at the back of the queue only, as many runs as there are tasks in the
    -- queue run each of them once, in the order of the queue, whatever they return and add.
    pub run_times-round :
        (q more : List T) (s : Scheduler T S)
        → s.run_queue ≡ q ++ more
        → (run_times (length q) s).runs ≡ s.runs ++ map (λ t. (t, should_run_handlers s)) q
    unfolding run_times
    run_times-round [] more s e = sym (append-nil s.runs)
    run_times-round (t ∷ q) more s e =
        let s' = (run_one_task body s).1 in
        let ran = run_one_task-Ran t (q ++ more) s e in
        run_times-round q (more ++ ran.more) s' (ran.queue ∙ append_assoc q more ran.more)
        ∙ rw (ran.log, same_depth s s' ran.depth)
            (append_assoc s.runs ((t, should_run_handlers s) ∷ [])
              (map (λ u. (u, should_run_handlers s)) q))

    module _ (pred : Scheduler T S → Bool) (t : T)
        (finishes : (s : Scheduler T S) (before after : List (T × Bool)) (b : Bool)
          → s.runs ≡ before ++ (t, b) ∷ after
          → pred s ≡ true) where
      -- The loop stops with the predicate true, after tasks that all saw the same depth.
      record Stops (s s' : Scheduler T S) : Type 0 where
        holds : pred s' ≡ true
        depth : s'.reentry_count ≡ s.reentry_count
        new : List T
        log : s'.runs ≡ s.runs ++ map (λ u. (u, should_run_handlers s)) new

      stop_now : (s : Scheduler T S) → pred s ≡ true → Stops s s
      stop_now s e = record { holds = e; depth = refl; new = []; log = sym (append-nil s.runs) }

      stop_later :
          (u : T) (rest : List T) (s s' : Scheduler T S)
          → Ran u rest s (run_one_task body s).1
          → Stops (run_one_task body s).1 s'
          → Stops s s'
      stop_later u rest s s' ran st = record {
        holds = st.holds;
        depth = st.depth ∙ ran.depth;
        new = u ∷ st.new;
        log =
            st.log
            ∙ rw (ran.log, same_depth s (run_one_task body s).1 ran.depth)
                (append_assoc s.runs ((u, should_run_handlers s) ∷ [])
                  (map (λ v. (v, should_run_handlers s)) st.new));
      }

      run_until-Stops :
          (before after : List T) (s : Scheduler T S)
          → s.run_queue ≡ before ++ t ∷ after
          → (s' : Scheduler T S) × (run_until body (suc (length before)) pred s ≡ some s')
            × Stops s s'
      unfolding run_until
      run_until-Stops [] after s e = elim (Bool-cases (pred s)) [
        | inl over ↦ (s, rw over refl, stop_now s over)
        | inr on ↦
            let s' = (run_one_task body s).1 in
            let ran = run_one_task-Ran t after s e in
            let held = finishes s' s.runs [] (should_run_handlers s) ran.log in
            (s', rw (on, held) refl, stop_later t after s s' ran (stop_now s' held))
      ]
      run_until-Stops (u ∷ before) after s e = elim (Bool-cases (pred s)) [
        | inl over ↦ (s, rw over refl, stop_now s over)
        | inr on ↦
            let s' = (run_one_task body s).1 in
            let ran = run_one_task-Ran u (before ++ t ∷ after) s e in
            let (s'', made, st) =
              run_until-Stops before (after ++ ran.more) s'
                (ran.queue ∙ append_assoc before (t ∷ after) ran.more) in
            (s'', rw on made, stop_later u (before ++ t ∷ after) s s'' ran st)
      ]

      -- Let tasks add others at the back of the queue only, let the predicate hold once task `t` has
      -- run, and let `t` wait in the queue. Then the loop of `run_until_for_flow_control` ends after
      -- at most as many runs as `t`'s place in the queue, handlers are disabled in each of them, and
      -- the depth of reentry is in the end what it was, if it was below 2 ^ 32 - 1.
      pub run_until_for_flow_control-reaches :
          (before after : List T) (s : Scheduler T S)
          → s.run_queue ≡ before ++ t ∷ after
          → suc s.reentry_count < 2 ^ 32
          → (s' : Scheduler T S) × (new : List T) × (run_until_for_flow_control body
                (suc (length before))
                pred
                s
              ≡ some s')
            × (s'.reentry_count ≡ s.reentry_count)
            × (s'.runs ≡ s.runs ++ map (λ u. (u, false)) new)
      unfolding run_until_for_flow_control leave
      run_until_for_flow_control-reaches before after s e small =
          let inner = record s { reentry_count = (s.reentry_count + 1) % 2 ^ 32 } in
          let (s', made, st) = run_until-Stops before after inner e in
          let off : should_run_handlers inner ≡ false =
            unfold should_run_handlers in ground (arith, small) in
          (
            record s' { reentry_count = (s'.reentry_count + 2 ^ 32 - 1) % 2 ^ 32 },
            st.new,
            ap (leave body) made,
            omega (arith, st.depth, small),
            st.log ∙ rw off refl,
          )
