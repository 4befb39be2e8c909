-- ===== src/Detail/AppendBuffer/Pushing.antt =====
-- am++/detail/append_buffer.hpp: push_back by several threads. Each access of an atomic variable is a
-- step, and the threads' steps come in any order. A chunk that is not allocated is `none`, and so is,
-- as a result, a failed assertion, an access through a null pointer or one past the end of a chunk or
-- of the table of chunks. The length of the table is a parameter: the constructor computes it with
-- floating-point numbers.
pub mod Inv
pub mod Written
pub mod Storing
pub mod Steps
pub mod Runs
mod Tests
use ampp.Prelude.{
  ℕ, suc, ◌+◌, ◌-◌, ◌%◌, ◌^◌, Bool, not, List, [], ◌∷◌, Option, none, some, ◌==◌, ltb,
  if◌then◌else◌, store, get_elem?, set,
}
use ampp.Detail.AppendBuffer.{chunk_size, chunk_offset, pos_to_chunk_num}

-- What threads share, with the calls that have returned: their index and their element.
pub record Buffer (A : Type 0) : Type 0 where
  pub current_size : ℕ
  pub chunk_ptrs : ℕ → Option (ℕ → A)
  pub returned : List (ℕ × A)

pub data Pusher (A : Type 0) : Type 0 where
  idle : Pusher A
  claiming : A → Pusher A
  allocating : A → ℕ → Pusher A
  waiting : A → ℕ → Pusher A
  storing : A → ℕ → Pusher A

-- A slot of a chunk.
pub slot : {A : Type 0} → ℕ → Option (ℕ → A) → Option A
slot offs none = none
slot offs (some chunk) = some (chunk offs)

-- operator[]
pub elem : {A : Type 0} → ℕ → (ℕ → Option (ℕ → A)) → ℕ → Option A
unfolding slot
elem initial_allocation chunk_ptrs idx =
    let chunk_num = pos_to_chunk_num initial_allocation idx in
    slot (idx - chunk_offset initial_allocation chunk_num) (chunk_ptrs chunk_num)

module _ {A : Type 0} (initial_allocation max_capacity num_chunks : ℕ) (default : A) where
  -- The constructor.
  pub new_buffer : Buffer A
  new_buffer = record { current_size = 0; chunk_ptrs = λ c. none; returned = [] }

  -- push_back_empty, from the index that fetch_add gave.
  pub claim : A → ℕ → Option (Pusher A)
  claim x idx =
      if not (ltb idx max_capacity)
      then none
      else if not (ltb (pos_to_chunk_num initial_allocation idx) num_chunks)
      then none
      else if idx == chunk_offset initial_allocation (pos_to_chunk_num initial_allocation idx)
      then some (allocating x idx)
      else some (waiting x idx)

  pub claimed : Buffer A → Option (Pusher A) → Option (Pusher A × Buffer A)
  claimed b none = none
  claimed b (some w) = some (w, record b { current_size = (b.current_size + 1) % 2 ^ 64 })

  -- The exchange of the pointer to a chunk.
  pub allocate : A → ℕ → Buffer A → Option (ℕ → A) → Option (Pusher A × Buffer A)
  allocate x idx b none = some (
    storing x idx,
    record b {
      chunk_ptrs =
          store b.chunk_ptrs (pos_to_chunk_num initial_allocation idx) (some (λ offs. default));
    },
  )
  allocate x idx b (some old_chunk) = none

  -- The loop that waits for a chunk.
  pub wait_for : A → ℕ → Option (ℕ → A) → Pusher A
  wait_for x idx none = waiting x idx
  wait_for x idx (some chunk_start) = storing x idx

  -- The assignment to operator[], and the return.
  pub assign : A → ℕ → Buffer A → Option (ℕ → A) → Option (Pusher A × Buffer A)
  assign x idx b none = none
  assign x idx b (some chunk) =
      let chunk_num = pos_to_chunk_num initial_allocation idx in
      let offs = idx - chunk_offset initial_allocation chunk_num in
      if not (ltb chunk_num num_chunks)
      then none
      else if not (ltb offs (chunk_size initial_allocation chunk_num))
      then none
      else some (
        idle,
        record b {
          chunk_ptrs = store b.chunk_ptrs chunk_num (some (store chunk offs x));
          returned = (idx, x) ∷ b.returned;
        },
      )

  -- A thread's step. An idle thread calls push_back with the element.
  pub step : A → Pusher A → Buffer A → Option (Pusher A × Buffer A)
  unfolding claim claimed allocate wait_for assign
  step y idle b = some (claiming y, b)
  step y (claiming x) b = claimed b (claim x b.current_size)
  step y (allocating x idx) b =
      allocate x idx b (b.chunk_ptrs (pos_to_chunk_num initial_allocation idx))
  step y (waiting x idx) b =
      some (wait_for x idx (b.chunk_ptrs (pos_to_chunk_num initial_allocation idx)), b)
  step y (storing x idx) b = assign x idx b (b.chunk_ptrs (pos_to_chunk_num initial_allocation idx))

  put_back :
      ℕ → List (Pusher A) → Option (Pusher A × Buffer A) → Option (List (Pusher A) × Buffer A)
  put_back k ws none = none
  put_back k ws (some (w, b)) = some (set ws k w, b)

  step_at :
      ℕ → A → Option (Pusher A) → List (Pusher A) × Buffer A → Option (List (Pusher A) × Buffer A)
  unfolding step put_back
  step_at k y none (ws, b) = some (ws, b)
  step_at k y (some w) (ws, b) = put_back k ws (step y w b)

  pub step_from : ℕ × A → Option (List (Pusher A) × Buffer A) → Option (List (Pusher A) × Buffer A)
  unfolding step_at
  step_from (k, y) none = none
  step_from (k, y) (some (ws, b)) = step_at k y (get_elem? ws k) (ws, b)

  -- A schedule says which thread takes a step, and what an idle one pushes.
  pub run : Option (List (Pusher A) × Buffer A) → List (ℕ × A) → Option (List (Pusher A) × Buffer A)
  unfolding step_from
  run r [] = r
  run r (t ∷ ts) = run (step_from t r) ts
