-- ===== src/Termination/ThreadWrapper/Tests.antt =====
-- src/termination_detector.cpp, td_thread_wrapper: tests, with three threads.
use ampp.Prelude.{
  ℕ, ◌+◌, ◌%◌, ◌^◌, ◌≡◌, refl, Bool, true, false, [], ◌∷◌, ◌++◌, Option, none, some, arith,
}
use ampp.Termination.ThreadWrapper.{
  Wrapper, td_setup_end_epoch_with_value, td_receive, init, set_nthreads, begin_epoch,
  setup_end_epoch_with_value, handle_termination_message, in_epoch,
}
use ampp.Termination.ThreadWrapper.Epoch.{
  hand_in, sum, notices, hand_in-ends, handle_termination_message-notices,
}

abbrev entered : Wrapper → Option (Bool × Wrapper) → Wrapper
entered w none = w
entered w (some (first, w')) = w'

abbrev enter_with : ℕ → Wrapper → Wrapper
enter_with t w = entered w (begin_epoch t w)

abbrev begun : Wrapper
begun = enter_with 12 (enter_with 11 (enter_with 10 (set_nthreads 3 init)))

begun_threads : begun.nthreads_in_epoch ≡ 3
unfolding init set_nthreads begin_epoch
begun_threads = refl

hand_in-ends_example :
    ((hand_in (5 ∷ 6 ∷ 7 ∷ []) begun).nthreads_in_epoch ≡ 0)
    × ((hand_in (5 ∷ 6 ∷ 7 ∷ []) begun).td_calls
        ≡ begun.td_calls
          ++ td_setup_end_epoch_with_value
              ((begun.local_finish_value + sum (5 ∷ 6 ∷ 7 ∷ [])) % 2 ^ 64)
            ∷ td_receive
            ∷ [])
hand_in-ends_example = hand_in-ends 5 (6 ∷ 7 ∷ []) begun begun_threads (omega arith)

abbrev ended : Wrapper
ended = hand_in (5 ∷ 6 ∷ 7 ∷ []) begun

ended_queues : ended.msg_queues ≡ some 10 ∷ some 11 ∷ some 12 ∷ []
unfolding init set_nthreads begin_epoch setup_end_epoch_with_value
ended_queues = refl

ended_total : ended.nthreads_total ≡ 3
unfolding init set_nthreads begin_epoch setup_end_epoch_with_value
ended_total = refl

handle_termination_message-notices_example :
    (w : Wrapper) × (handle_termination_message 18 true ended ≡ some w)
    × (w.sent ≡ ended.sent ++ notices 18 (10 ∷ 11 ∷ 12 ∷ []))
    × (in_epoch w ≡ false)
handle_termination_message-notices_example =
    handle_termination_message-notices 18 (10 ∷ 11 ∷ 12 ∷ []) ended ended_queues ended_total
      hand_in-ends_zero
  where
    hand_in-ends_zero : ended.nthreads_in_epoch ≡ 0
    hand_in-ends_zero = (hand_in-ends 5 (6 ∷ 7 ∷ []) begun begun_threads (omega arith)).0
