-- ===== src/Coalescing/Counter.antt =====
-- am++/counter_coalesced_message_type.hpp: the buffer for one destination, and the threads that send
-- to it and flush it without locks. The threads' steps come in any order. A step is an access of an
-- atomic variable, with what the thread does before the next one, but for `closed_counting`, `waiting`,
-- `comparing` and `swapping`, which merge two accesses. A slot of new memory is `none`. What is passed
-- on to the transport is kept in `sent`. The exchanges of `registered_with_td` that found it unset are
-- counted in `registrations`: after such an exchange the thread calls `message_being_built` of the
-- message type, which touches nothing of the buffer and is no step of the model. A failed assertion is
-- `none`. Whether the heuristic asks for a flush after a send is a choice.
pub mod Totals
pub mod Invariant
pub mod Claiming
pub mod Writing
pub mod Filling
pub mod Owning
pub mod Passing
pub mod Full
pub mod Quiet
pub mod Safe
pub mod Steps
pub mod Weighed
pub mod Kept
pub mod Runs
mod Tests
use ampp.Prelude.{
  ℕ, zero, suc, ◌+◌, ◌-◌, ◌/◌, ◌%◌, ◌^◌, Bool, true, false, ◌&&◌, not, List, [], ◌∷◌, ◌++◌, Option,
  none, some, ◌==◌, ltb, leb, if◌then◌else◌, store, get_elem?, set,
}

abbrev uint_max : ℕ
uint_max = 4294967295

abbrev pub sender_active : ℕ
sender_active = uint_max - uint_max / 2

-- `x & sender_active`
pub is_active : ℕ → Bool
is_active x = leb sender_active (x % 2 ^ 32)

-- `x & count_mask`
pub masked : ℕ → ℕ
masked x = x % sender_active

pub record Buffer (A : Type 0) : Type 0 where
  pub count_allocated : ℕ
  pub count_written : ℕ
  pub max_count : ℕ
  pub registered_with_td : Bool
  pub slots : ℕ → Option A
  pub last_active : ℕ
  pub sent : List (List (Option A))
  pub registrations : ℕ

-- Where a thread is. `closing` and the two after it are for the last slot of a buffer; those from
-- `waiting` to `passing` are in `send_buffer`, and say whether it was called by `flush`.
pub data Worker (A : Type 0) : Type 0 where
  idle : Worker A
  spinning : A → Worker A
  claiming : A → Worker A
  writing : A → ℕ → Worker A
  closing : Worker A
  closed_registering : Worker A
  closed_counting : Worker A
  registering : Worker A
  counting : Worker A
  sent_one : Worker A
  waiting : Bool → ℕ → Worker A
  clearing : Bool → ℕ → Worker A
  emptying : Bool → ℕ → List (Option A) → Worker A
  releasing : Bool → List (Option A) → Worker A
  passing : Bool → List (Option A) → Worker A
  loading : Worker A
  comparing : ℕ → Worker A
  swapping : ℕ → Worker A

-- What is called when a thread is idle, what the heuristic says, and whether a weak
-- compare-and-exchange fails for no reason.
pub data Choice (A : Type 0) : Type 0 where
  call_send : A → Choice A
  call_message_being_built : Choice A
  call_flush : Choice A
  go : Bool → Choice A

module _ {A : Type 0} where
  pub new_buffer : ℕ → Buffer A
  new_buffer max_count = record {
    count_allocated = 0;
    count_written = 0;
    max_count = max_count;
    registered_with_td = false;
    slots = λ i. none;
    last_active = 0;
    sent = [];
    registrations = 0;
  }

  -- The exchange of registered_with_td, and what follows if it was false.
  pub register : Buffer A → Buffer A
  register b = record b {
    registered_with_td = true;
    registrations = if b.registered_with_td then b.registrations else suc b.registrations;
  }

  -- The first slots.
  pub taken : ℕ → (ℕ → Option A) → List (Option A)
  taken zero slots = []
  taken (suc n) slots = taken n slots ++ slots n ∷ []

  -- `send` from its fetch_add on.
  pub claim : A → ℕ → ℕ → Worker A
  claim arg max_count my_id =
      if is_active my_id
      then spinning arg
      else if not (ltb (masked my_id) max_count)
      then spinning arg
      else writing arg (masked my_id)

  -- Which slot it was.
  pub after_write : ℕ → ℕ → Worker A
  after_write max_count i =
      if i == max_count - 1 then closing else if i == 0 then registering else counting

  -- Where a thread goes on after `send_buffer`.
  pub return_to : Bool → Worker A
  return_to from_flush = if from_flush then idle else sent_one

  -- `send_buffer` up to its loop.
  pub send_buffer : Bool → ℕ → Buffer A → Option (Worker A × Buffer A)
  unfolding return_to
  send_buffer from_flush my_id b =
      if not (is_active b.count_allocated)
      then none
      else if is_active my_id
      then some (return_to from_flush, b)
      else if not (leb (masked my_id) b.max_count)
      then none
      else if masked my_id == 0
      then some (return_to from_flush, b)
      else some (waiting from_flush (masked my_id), b)

  -- The compare-and-exchange of `flush`, which may fail.
  pub swap : Bool → ℕ → Buffer A → Option (Worker A × Buffer A)
  unfolding send_buffer
  swap fails my_id b =
      if (ltb 0 my_id) && ltb my_id b.max_count
      then if not fails && (b.count_allocated == my_id)
        then send_buffer true my_id (record b { count_allocated = sender_active })
        else some (swapping (if fails then my_id else b.count_allocated), b)
      else some (idle, b)

  pub step : Choice A → Worker A → Buffer A → Option (Worker A × Buffer A)
  unfolding register taken claim after_write return_to send_buffer swap is_active masked
  step (call_send arg) idle b = some (spinning arg, b)
  step call_message_being_built idle b = some (idle, register b)
  step call_flush idle b = some (loading, b)
  step (go fails) idle b = some (idle, b)
  step _ (spinning arg) b =
      if b.max_count == 0
      then none
      else if ltb (masked b.count_allocated) b.max_count && not (is_active b.count_allocated)
      then some (claiming arg, b)
      else some (spinning arg, b)
  step _ (claiming arg) b = some (
    claim arg b.max_count b.count_allocated,
    record b { count_allocated = (b.count_allocated + 1) % 2 ^ 32 },
  )
  step _ (writing arg i) b =
      some (after_write b.max_count i, record b { slots = store b.slots i (some arg) })
  step _ closing b = some (closed_registering, record b { count_allocated = sender_active })
  step _ closed_registering b = some (closed_counting, register b)
  step _ closed_counting b =
      let b' = record b { count_written = (b.count_written + 1) % 2 ^ 32 } in
      send_buffer false b.max_count b'
  step _ registering b = some (counting, register b)
  step _ counting b = some (sent_one, record b { count_written = (b.count_written + 1) % 2 ^ 32 })
  step (go enable_flush) sent_one b = some (if enable_flush then loading else idle, b)
  step _ sent_one b = some (sent_one, b)
  step _ (waiting f count) b =
      if b.count_written == count
      then if b.registered_with_td then some (clearing f count, b) else none
      else some (waiting f count, b)
  step _ (clearing f count) b = some (
    emptying f count (taken count b.slots),
    record b { slots = λ i. none; registered_with_td = false },
  )
  step _ (emptying f count items) b = some (releasing f items, record b { count_written = 0 })
  step _ (releasing f items) b = some (passing f items, record b { count_allocated = 0 })
  step _ (passing f items) b = some (return_to f, record b { sent = b.sent ++ items ∷ [] })
  step _ loading b = some (comparing b.count_allocated, b)
  step _ (comparing my_id) b =
      if my_id == b.last_active
      then some (swapping my_id, b)
      else some (idle, record b { last_active = my_id })
  step (go fails) (swapping my_id) b = swap fails my_id b
  step _ (swapping my_id) b = some (swapping my_id, b)

  -- A thread's step in the system of all threads.
  put_back :
      ℕ → List (Worker A) → Option (Worker A × Buffer A) → Option (List (Worker A) × Buffer A)
  put_back k ws none = none
  put_back k ws (some (w, b)) = some (set ws k w, b)

  step_at :
      ℕ
      → Choice A
      → Option (Worker A)
      → List (Worker A) × Buffer A
      → Option (List (Worker A) × Buffer A)
  unfolding step put_back
  step_at k c none (ws, b) = some (ws, b)
  step_at k c (some w) (ws, b) = put_back k ws (step c w b)

  pub step_from :
      ℕ × Choice A → Option (List (Worker A) × Buffer A) → Option (List (Worker A) × Buffer A)
  unfolding step_at
  step_from (k, c) none = none
  step_from (k, c) (some (ws, b)) = step_at k c (get_elem? ws k) (ws, b)

  -- A schedule says which thread takes a step, and with which choice.
  pub run :
      Option (List (Worker A) × Buffer A)
      → List (ℕ × Choice A)
      → Option (List (Worker A) × Buffer A)
  unfolding step_from
  run r [] = r
  run r (t ∷ ts) = run (step_from t r) ts
