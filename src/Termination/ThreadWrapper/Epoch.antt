-- ===== src/Termination/ThreadWrapper/Epoch.antt =====
-- src/termination_detector.cpp, td_thread_wrapper: how the threads end an epoch together.
use ampp.Prelude.{
  ℕ, suc, ◌+◌, ◌-◌, ◌%◌, ◌^◌, ◌<◌, ◌≡◌, refl, ap, ◌∙◌, Bool, true, false, List, [], ◌∷◌, ◌++◌,
  Option, some, ◌==◌, if◌then◌else◌, length, arith, map, ==-refl,
}
use ampp.Termination.ThreadWrapper.{
  Wrapper, td_setup_end_epoch_with_value, td_receive, leave, setup_end_epoch_with_value, prepend,
  send_each, notified, handle_termination_message, in_epoch,
}

-- The threads hand in their values, one after the other.
abbrev pub hand_in : List ℕ → Wrapper → Wrapper
hand_in [] w = w
hand_in (v ∷ vs) w = hand_in vs (setup_end_epoch_with_value v w)

abbrev pub sum : List ℕ → ℕ
sum [] = 0
sum (v ∷ vs) = v + sum vs

-- The message for each thread's queue: the last one is told to be the last.
abbrev pub notices : ℕ → List ℕ → List (ℕ × ℕ × Bool)
notices value [] = []
notices value (t ∷ []) = (t, value, true) ∷ []
notices value (t ∷ u ∷ ts) = (t, value, false) ∷ notices value (u ∷ ts)

-- If as many threads are in the epoch as values are handed in, from 1 to 2 ^ 32 - 1, then no thread
-- is in it in the end, and the shared detector has been asked once to end the epoch, with what had
-- been handed in before and the sum of the values, wrapped to 64 bits, and then for its message.
pub hand_in-ends :
    (v : ℕ) (vs : List ℕ) (w : Wrapper)
    → w.nthreads_in_epoch ≡ suc (length vs)
    → suc (length vs) < 2 ^ 32
    → let w' = hand_in (v ∷ vs) w in
      (w'.nthreads_in_epoch ≡ 0)
      × (w'.td_calls
          ≡ w.td_calls
            ++ td_setup_end_epoch_with_value ((w.local_finish_value + sum (v ∷ vs)) % 2 ^ 64)
              ∷ td_receive
              ∷ [])
unfolding setup_end_epoch_with_value leave
hand_in-ends v [] w e small = (omega (arith, e), rw (e, if◌then◌else◌) (ground arith))
hand_in-ends v (u ∷ vs) w e small =
    let w' = setup_end_epoch_with_value v w in
    let (none_left, calls) =
      hand_in-ends u vs w' (omega (arith, e, small)) (omega (arith, small)) in
    let more : (w.nthreads_in_epoch == 1) ≡ false = ground (arith, e) in
    (
      none_left,
      calls
          ∙ rw more (
              ap (λ n. w.td_calls ++ td_setup_end_epoch_with_value n ∷ td_receive ∷ [])
                (omega arith)),
    )

send_each-notices :
    (value n i : ℕ) (ts : List ℕ)
    → i + length ts ≡ n
    → send_each value n i (map some ts) ≡ some (notices value ts)
unfolding send_each
send_each-notices value n i [] e = refl
send_each-notices value n i (t ∷ []) e = ground (arith, e)
send_each-notices value n i (t ∷ u ∷ ts) e =
    let last : (i == n - 1) ≡ false = ground (arith, e) in
    ap (prepend (t, value, i == n - 1))
      (send_each-notices value n (i + 1) (u ∷ ts) (omega (arith, e)))
    ∙ rw last refl

length-map-some : (ts : List ℕ) → length (map {B = Option ℕ} some ts) ≡ length ts
length-map-some [] = refl
length-map-some (t ∷ ts) = omega (arith, length-map-some ts)

-- When no thread is left in the epoch and each queue belongs to a thread, the message of the shared
-- detector is passed to every thread's queue, in the order of the threads and with its value, and
-- the last of these messages alone is told to be the last. After that the epoch is over.
pub handle_termination_message-notices :
    (value : ℕ) (ts : List ℕ) (w : Wrapper)
    → w.msg_queues ≡ map some ts
    → w.nthreads_total ≡ length ts
    → w.nthreads_in_epoch ≡ 0
    → (w' : Wrapper) × (handle_termination_message value true w ≡ some w')
      × (w'.sent ≡ w.sent ++ notices value ts)
      × (in_epoch w' ≡ false)
unfolding handle_termination_message notified in_epoch
handle_termination_message-notices value ts w queues total out =
    let fits : (length w.msg_queues == w.nthreads_total) ≡ true =
      rw (queues, total, length-map-some ts) (==-refl (length ts)) in
    let nobody : (w.nthreads_in_epoch == 0) ≡ true = ground (arith, out) in
    let made : send_each value w.nthreads_total 0 w.msg_queues ≡ some (notices value ts) =
      rw (queues, total) (send_each-notices value (length ts) 0 ts (omega arith)) in
    (
      record w { currently_in_epoch = 0; sent = w.sent ++ notices value ts },
      rw (fits, nobody, made) refl,
      refl,
      refl,
    )
