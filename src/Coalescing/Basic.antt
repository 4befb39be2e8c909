-- ===== src/Coalescing/Basic.antt =====
-- am++/basic_coalesced_message_type.hpp: a buffer for each destination, sent when it is full or
-- flushed. A buffer is the list of the messages written to it, so `count` is its length. The calls
-- of the underlying message type and of the transport are kept in `events`. `none` is a failed
-- assertion; each operation runs under the lock.
pub mod Steps
pub mod Operations
pub mod Starting
pub mod Delivery
mod Tests
use ampp.Prelude.{
  ℕ, zero, ◌+◌, Bool, true, false, not, List, [], ◌∷◌, ◌++◌, Option, none, some, ltb, ◌==◌,
  if◌then◌else◌, length,
}

pub record Buffer (A : Type 0) : Type 0 where
  pub valid : Bool
  pub max_count : ℕ
  pub items : List A
  pub registered_with_td : Bool

pub data AppendState : Type 0 where
  normal first_message buffer_now_full singleton_buffer : AppendState

-- What the layers below are asked to do.
pub data Event (A : Type 0) : Type 0 where
  being_built : ℕ → Event A
  flush_object : ℕ → Event A
  sent : ℕ → List A → Event A

pub record Layer (A : Type 0) : Type 0 where
  pub num_ranks : ℕ
  pub is_possible_dest : ℕ → Bool
  pub coalescing_size : ℕ
  pub outgoing_buffers : ℕ → Buffer A
  pub events : List (Event A)

abbrev pub assert {ℓ} : {A : Type ℓ} → Bool → Option A → Option A
assert true r = r
assert false r = none

state_of : ℕ → ℕ → AppendState
state_of count max_count =
    if count == 0
    then if count + 1 == max_count then singleton_buffer else first_message
    else if count + 1 == max_count
    then buffer_now_full
    else normal

module _ {A : Type 0} where
  -- The default constructor's buffer, for a rank that is no possible destination.
  abbrev no_buffer : Buffer A
  no_buffer = record { valid = false; max_count = 0; items = []; registered_with_td = false }

  abbrev pub alloc_buffer : ℕ → Buffer A
  alloc_buffer size = record {
    valid = true;
    max_count = size;
    items = [];
    registered_with_td = false;
  }

  abbrev pub update : (ℕ → Buffer A) → ℕ → Buffer A → ℕ → Buffer A
  update f i b j = if i == j then b else f j

  -- trans.is_valid_rank
  abbrev pub is_valid_rank : Layer A → ℕ → Bool
  is_valid_rank s dest = ltb dest s.num_ranks

  -- The loop of the constructor over the ranks that the set of possible destinations lists.
  pub alloc_each : List ℕ → Layer A → Option (Layer A)
  alloc_each [] s = some s
  alloc_each (r ∷ rs) s = assert (ltb r s.num_ranks) (
      alloc_each rs (record s {
        outgoing_buffers = update s.outgoing_buffers r (alloc_buffer s.coalescing_size);
      }))

  -- The constructor, for a number of ranks, and for a set of possible destinations by its `is_valid` and
  -- by the ranks that it lists.
  pub init : ℕ → ℕ → (ℕ → Bool) → List ℕ → Option (Layer A)
  unfolding alloc_each
  init size num_ranks is_possible_dest listed = alloc_each listed (record {
    num_ranks = num_ranks;
    is_possible_dest = is_possible_dest;
    coalescing_size = size;
    outgoing_buffers = λ r. no_buffer;
    events = [];
  })

  append : A → Buffer A → Option (AppendState × Buffer A)
  unfolding state_of
  append x b =
      assert (ltb (length b.items) b.max_count)
        (some (state_of (length b.items) b.max_count, record b { items = b.items ++ x ∷ [] }))

  pub put : ℕ → Buffer A → List (Event A) → Layer A → Layer A
  put dest b es s = record s {
    outgoing_buffers = update s.outgoing_buffers dest b;
    events = s.events ++ es;
  }

  -- The call of `message_being_built` for a buffer that has not made it yet.
  pub register : ℕ → Buffer A → List (Event A)
  register dest b = if b.registered_with_td then [] else being_built dest ∷ []

  pub send_in : AppendState → Buffer A → ℕ → Layer A → Layer A
  unfolding put register
  send_in normal b dest s = put dest b [] s
  send_in first_message b dest s =
      put dest (record b { registered_with_td = true }) (flush_object dest ∷ register dest b) s
  send_in _ b dest s =
      put dest (alloc_buffer s.coalescing_size) (register dest b ++ sent dest b.items ∷ []) s

  pub send : A → ℕ → Layer A → Option (Layer A)
  unfolding append send_in
  send arg dest s = assert (is_valid_rank s dest) (
      assert (s.is_possible_dest dest) (elim (append arg (s.outgoing_buffers dest)) [
        | none ↦ none
        | some (state, b) ↦ some (send_in state b dest s)
      ]))

  -- Under the lock.
  pub built_in : ℕ → Layer A → Layer A
  unfolding put
  built_in dest s =
      let b = s.outgoing_buffers dest in
      if b.registered_with_td
      then s
      else put dest (record b { registered_with_td = true }) (being_built dest ∷ []) s

  pub message_being_built : ℕ → Layer A → Option (Layer A)
  unfolding built_in
  message_being_built dest s = assert (is_valid_rank s dest) (some (built_in dest s))

  -- Under the lock: whether anything was sent, and the layer after it.
  pub flush_in : ℕ → Layer A → Option (Bool × Layer A)
  unfolding put
  flush_in dest s =
      let b = s.outgoing_buffers dest in
      if not b.valid
      then some (false, s)
      else assert (ltb (length b.items) b.max_count) (
          if length b.items == 0
          then some (false, s)
          else assert b.registered_with_td
              (some (true, put dest (alloc_buffer s.coalescing_size) (sent dest b.items ∷ []) s)))

  pub flush : ℕ → Layer A → Option (Bool × Layer A)
  unfolding flush_in
  flush dest s = assert (is_valid_rank s dest) (flush_in dest s)

  pub handle_each {κ} : {S : Type κ} → (ℕ → A → S → S) → ℕ → List A → S → S
  handle_each handler src [] s = s
  handle_each handler src (x ∷ xs) s = handle_each handler src xs (handler src x s)

  -- The receiving side: the handler is called for each message of a buffer, which is sorted first.
  pub raw_message_handler {κ} :
      {S : Type κ} → (List A → List A) → (ℕ → A → S → S) → ℕ → List A → S → S
  unfolding handle_each
  raw_message_handler sort handler src buf s = handle_each handler src (sort buf) s

pub data Op (A : Type 0) : Type 0 where
  sends : A → ℕ → Op A
  builds : ℕ → Op A
  flushes : ℕ → Op A

module _ {A : Type 0} where
  pub step : Layer A → Op A → Option (Layer A)
  step s (sends arg dest) = send arg dest s
  step s (builds dest) = message_being_built dest s
  step s (flushes dest) = elim (flush dest s) [ none ↦ none | some (did, s') ↦ some s' ]

  pub run : Layer A → List (Op A) → Option (Layer A)
  unfolding step
  run s [] = some s
  run s (o ∷ os) = elim (step s o) [ none ↦ none | some s' ↦ run s' os ]
