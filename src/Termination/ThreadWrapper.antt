-- ===== src/Termination/ThreadWrapper.antt =====
-- src/termination_detector.cpp and am++/termination_detector.hpp, td_thread_wrapper: several threads
-- share the termination detector of their rank. The calls of that detector are kept in `td_calls`,
-- and the messages to the threads' own queues, with value and flag, in `sent`. An int is 32 bits
-- wide, two's complement, and a thread's queue is the thread's number. `none` is a failed assertion.
-- The barrier at the end of `begin_epoch` is a condition on the order of the calls.
pub mod Epoch
mod Tests
use ampp.Prelude.{
  ℕ, zero, suc, ◌+◌, ◌-◌, ◌%◌, ◌^◌, Bool, true, false, ◌&&◌, not, List, [], ◌∷◌, ◌++◌, Option, none,
  some, ltb, leb, ◌==◌, if◌then◌else◌, length, set, replicate,
}

pub data TdCall : Type 0 where
  td_begin_epoch td_setup_end_epoch td_receive : TdCall
  td_setup_end_epoch_with_value td_increase_activity_count td_decrease_activity_count : ℕ → TdCall

pub record Wrapper : Type 0 where
  pub nthreads_total : ℕ
  pub nthreads_active : ℕ
  pub nthreads_in_epoch : ℕ
  pub currently_in_epoch : ℕ
  pub local_finish_value : ℕ
  pub thread_id_counter : ℕ
  pub activity_count : ℕ → ℕ
  pub msg_queues : List (Option ℕ)
  pub td_calls : List TdCall
  pub sent : List (ℕ × ℕ × Bool)

abbrev pub assert {ℓ} : {A : Type ℓ} → Bool → Option A → Option A
assert true r = r
assert false r = none

abbrev update : (ℕ → ℕ) → ℕ → ℕ → ℕ → ℕ
update f i v j = if i == j then v else f j

-- The constructor.
pub init : Wrapper
init = record {
  nthreads_total = 1;
  nthreads_active = 0;
  nthreads_in_epoch = 0;
  currently_in_epoch = 0;
  local_finish_value = 0;
  thread_id_counter = 0;
  activity_count = λ t. 0;
  msg_queues = none ∷ [];
  td_calls = [];
  sent = [];
}

-- std::vector::resize, with null pointers for new elements.
resize : ℕ → List (Option ℕ) → List (Option ℕ)
resize zero qs = []
resize (suc n) [] = none ∷ resize n []
resize (suc n) (q ∷ qs) = q ∷ resize n qs

pub set_nthreads : ℕ → Wrapper → Wrapper
unfolding resize
set_nthreads n w = record w {
  nthreads_total = n % 2 ^ 32;
  thread_id_counter = 0;
  msg_queues = resize n w.msg_queues;
}

-- The remainder of a counter as an int, if it is not negative.
thread_id : ℕ → ℕ → Option ℕ
thread_id counter nthr =
    if ltb counter (2 ^ 31)
    then some (counter % nthr)
    else if (2 ^ 32 - counter) % nthr == 0
    then some 0
    else none

-- What the first thread does for all.
enter : ℕ → Wrapper → Wrapper
enter id w =
    if id == 0
    then record w {
      local_finish_value = 0;
      nthreads_active = 0;
      nthreads_in_epoch = w.nthreads_total;
      currently_in_epoch = 1;
      td_calls = w.td_calls ++ td_begin_epoch ∷ [];
    }
    else w

-- For thread `t`.
pub begin_epoch : ℕ → Wrapper → Option (Bool × Wrapper)
unfolding thread_id enter
begin_epoch t w = elim (thread_id w.thread_id_counter w.nthreads_total) [
  | none ↦ none
  | some id ↦ assert (w.activity_count t == 0) (
      assert (ltb id w.nthreads_total && ltb id (length w.msg_queues)) (
        some (
          id == 0,
          enter id (record w {
            thread_id_counter = (w.thread_id_counter + 1) % 2 ^ 32;
            activity_count = update w.activity_count t 0;
            msg_queues = set w.msg_queues id (some t);
          }),
        )))
]

-- nthreads_in_epoch.fetch_add(-1), and the call of the last thread.
leave : TdCall → Wrapper → Wrapper
leave call w = record w {
  nthreads_in_epoch = (w.nthreads_in_epoch + 2 ^ 32 - 1) % 2 ^ 32;
  td_calls = if w.nthreads_in_epoch == 1 then w.td_calls ++ call ∷ td_receive ∷ [] else w.td_calls;
}

pub setup_end_epoch : Wrapper → Wrapper
unfolding leave
setup_end_epoch w = leave td_setup_end_epoch w

pub setup_end_epoch_with_value : ℕ → Wrapper → Wrapper
unfolding leave
setup_end_epoch_with_value val w =
    let sum = (w.local_finish_value + val) % 2 ^ 64 in
    leave (td_setup_end_epoch_with_value sum) (record w { local_finish_value = sum })

prepend : {A : Type 0} → A → Option (List A) → Option (List A)
prepend m none = none
prepend m (some ms) = some (m ∷ ms)

-- The loop over the queues, from queue `i` on.
send_each : ℕ → ℕ → ℕ → List (Option ℕ) → Option (List (ℕ × ℕ × Bool))
unfolding prepend
send_each value n i [] = some []
send_each value n i (none ∷ qs) = none
send_each value n i (some t ∷ qs) = prepend (t, value, i == n - 1) (send_each value n (i + 1) qs)

notified : Wrapper → Option (List (ℕ × ℕ × Bool)) → Option Wrapper
notified w none = none
notified w (some messages) = some (record w { currently_in_epoch = 0; sent = w.sent ++ messages })

pub handle_termination_message : ℕ → Bool → Wrapper → Option Wrapper
unfolding send_each notified
handle_termination_message value last w = assert (length w.msg_queues == w.nthreads_total) (
    assert (w.nthreads_in_epoch == 0)
      (assert last (notified w (send_each value w.nthreads_total 0 w.msg_queues))))

pub in_epoch : Wrapper → Bool
in_epoch w = not (w.currently_in_epoch == 0)

pub really_ending_epoch : Wrapper → Bool
really_ending_epoch w =
    (w.nthreads_active == 0) && ((w.nthreads_in_epoch == 0) && (w.currently_in_epoch == 1))

-- fetch_add on nthreads_active, and the call when it was `edge`.
count_active : ℕ → ℕ → TdCall → Wrapper → Wrapper
count_active d edge call w = record w {
  nthreads_active = (w.nthreads_active + d) % 2 ^ 32;
  td_calls = if w.nthreads_active == edge then w.td_calls ++ call ∷ [] else w.td_calls;
}

pub increase_activity_count : ℕ → ℕ → Wrapper → Wrapper
unfolding count_active
increase_activity_count t v w =
    let old_val = w.activity_count t in
    let w' = record w { activity_count = update w.activity_count t ((old_val + v) % 2 ^ 64) } in
    if v == 0
    then w
    else if old_val == 0
    then count_active 1 0 (td_increase_activity_count 1) w'
    else w'

pub decrease_activity_count : ℕ → ℕ → Wrapper → Option Wrapper
unfolding count_active
decrease_activity_count t v w =
    let ac = w.activity_count t - v in
    let w' = record w { activity_count = update w.activity_count t ac } in
    if v == 0
    then some w
    else assert (leb v (w.activity_count t)) (
        some
          (if ac == 0 then count_active (2 ^ 32 - 1) 1 (td_decrease_activity_count 1) w' else w'))
