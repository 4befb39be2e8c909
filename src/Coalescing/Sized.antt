-- ===== src/Coalescing/Sized.antt =====
-- am++/size_coalesced_message_type.hpp: messages of different sizes are packed into a buffer of
-- bytes for each destination. Here one thread sends to one destination, so each exchange of a
-- counter succeeds and a wait for another thread never ends. Counters are 32 bits wide. A buffer's
-- bytes are the list of the messages packed into it, and `size_of` is a message's get_size. The calls
-- of the underlying message type are kept in `events`.
pub mod Sending
pub mod Spinning
pub mod Flushing
mod Tests
use ampp.Prelude.{
  ℕ, zero, suc, ◌+◌, ◌-◌, ◌%◌, ◌^◌, Bool, true, false, ◌&&◌, ◌||◌, not, List, [], ◌∷◌, ◌++◌, ltb,
  leb, ◌==◌, if◌then◌else◌,
}

pub data Event (A : Type 0) : Type 0 where
  being_built : Event A
  sent : List A → ℕ → Event A

pub record Buffer (A : Type 0) : Type 0 where
  pub count_allocated : ℕ
  pub count_written : ℕ
  pub max_count : ℕ
  pub registered_with_td : Bool
  pub items : List A
  pub events : List (Event A)

-- What comes of a call: it returns, fails an assertion or aborts, or is still waiting.
pub data Outcome (B : Type 0) : Type 0 where
  returned : B → Outcome B
  failed waiting : Outcome B

-- UINT_MAX - UINT_MAX / 2, and one less, whose bits are the mask for counts.
abbrev pub sender_active : ℕ
sender_active = 2 ^ 31

abbrev pub masked : ℕ → ℕ
masked x = x % 2 ^ 31

abbrev pub is_active : ℕ → Bool
is_active x = leb sender_active (x % 2 ^ 32)

abbrev pub szsize : ℕ
szsize = 8

module _ {A : Type 0} where
  pub init : ℕ → Buffer A
  init max_count = record {
    count_allocated = 0;
    count_written = 0;
    max_count = max_count;
    registered_with_td = false;
    items = [];
    events = [];
  }

  pub clear : Buffer A → Buffer A
  clear b = record b {
    items = [];
    registered_with_td = false;
    count_written = 0;
    count_allocated = 0;
  }

  -- For `count != 0`.
  send_count : ℕ → Buffer A → Outcome (Bool × Buffer A)
  unfolding clear
  send_count count b =
      if not (b.count_written == count)
      then waiting
      else if not b.registered_with_td
      then failed
      else (let b' = clear b in
          returned (true, record b' { events = b.events ++ sent b.items count ∷ [] }))

  pub send_buffer : ℕ → Buffer A → Outcome (Bool × Buffer A)
  unfolding send_count
  send_buffer my_id b =
      if not (is_active b.count_allocated)
      then failed
      else if is_active my_id
      then returned (false, b)
      else if not (leb (masked my_id) b.max_count)
      then failed
      else if masked my_id == 0
      then returned (false, b)
      else send_count (masked my_id) b

  -- The exchange of `count_allocated`, and the registration of a new buffer.
  allocate : ℕ → ℕ → Buffer A → Buffer A
  allocate oldval my_id b =
      if (oldval == 0) && not b.registered_with_td
      then record b {
        count_allocated = my_id;
        registered_with_td = true;
        events = b.events ++ being_built ∷ [];
      }
      else record b { count_allocated = my_id }

  write : ℕ → A → Buffer A → Buffer A
  write sz wi b = record b {
    items = b.items ++ wi ∷ [];
    count_written = (b.count_written + sz) % 2 ^ 32;
  }

  -- `continue`, whatever `send_buffer` returned.
  overfull : Outcome (Bool × Buffer A) → Outcome (Bool × Buffer A)
  overfull (returned (did, b)) = returned (false, b)
  overfull failed = failed
  overfull waiting = waiting

  -- One round of the outer loop, once the buffer is free: the buffer is returned with whether the
  -- message has been written.
  round : ℕ → A → Buffer A → Outcome (Bool × Buffer A)
  unfolding allocate write overfull
  round sz wi b =
      let oldval = b.count_allocated in
      let my_id = (oldval + sz) % 2 ^ 32 in
      let b' = allocate oldval my_id b in
      if leb b.max_count (masked my_id)
      then overfull (send_buffer oldval (record b' { count_allocated = sender_active }))
      else returned (true, write sz wi b')

  free : Buffer A → Bool
  free b = ltb (masked b.count_allocated) b.max_count && not (is_active b.count_allocated)

  after : Outcome (Bool × Buffer A) → (Buffer A → Outcome (Buffer A)) → Outcome (Buffer A)
  after (returned (done, b)) again = if done then returned b else again b
  after failed again = failed
  after waiting again = waiting

  -- The loops of `send`, on fuel for rounds and pauses.
  send_loop : ℕ → ℕ → A → Buffer A → Outcome (Buffer A)
  unfolding round free after
  send_loop zero sz wi b = waiting
  send_loop (suc fuel) sz wi b =
      let paused = send_loop fuel sz wi b in
      let next = after (round sz wi b) (λ b'. send_loop fuel sz wi b') in
      if free b then next else paused

  pub send : (A → ℕ) → ℕ → A → Buffer A → Outcome (Buffer A)
  unfolding send_loop
  send size_of fuel wi b =
      let sz = size_of wi + szsize in if ltb b.max_count sz then failed else send_loop fuel sz wi b

  flushed : ℕ → Outcome (Bool × Buffer A) → Outcome (ℕ × Buffer A)
  flushed last_active (returned (did, b)) = returned (last_active, b)
  flushed last_active failed = failed
  flushed last_active waiting = waiting

  -- The body of the loop of `flush`, for one destination: the buffer is sent only if nothing has
  -- been added since the last flush.
  pub flush_dest : ℕ → Buffer A → Outcome (ℕ × Buffer A)
  unfolding flushed
  flush_dest last_active b =
      let my_id = b.count_allocated in
      if not (my_id == last_active)
      then returned (my_id, b)
      else if ltb 0 my_id && ltb my_id b.max_count
      then flushed last_active (send_buffer my_id (record b { count_allocated = sender_active }))
      else returned (last_active, b)
