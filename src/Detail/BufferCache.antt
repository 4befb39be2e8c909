-- ===== src/Detail/BufferCache.antt =====
-- am++/detail/buffer_cache.hpp, buffer_cache: buffers that are handed out and come back. A pointer is
-- a number, and 0 is the null pointer. The memory that the transport gives is a parameter,
-- `alloc_memory`, by the number of the call. A program keeps what it has been handed in a list. `none`
-- is a failed assertion or the abort on too many buffers.
pub mod Exclusive
mod Tests
use ampp.Prelude.{
  ℕ, zero, suc, ◌+◌, Bool, true, false, not, List, [], ◌∷◌, ◌++◌, Option, none, some, ◌==◌, ltb,
  if◌then◌else◌, store, length, get_elem?,
}

-- A pointer with the place in buffer_ptrs to which it goes back.
pub record Handle : Type 0 where
  pub pointer : ℕ
  pub slot : ℕ

pub record Cache : Type 0 where
  pub all_buffers : List ℕ
  pub buffer_ptrs : ℕ → ℕ
  pub last_entry_written_plus_1 : ℕ
  pub cache_deleted : Bool

abbrev pub size : ℕ
size = 65536

pub new_cache : Cache
new_cache = record {
  all_buffers = [];
  buffer_ptrs = λ i. 0;
  last_entry_written_plus_1 = 0;
  cache_deleted = false;
}

-- The deleter of a buffer that was handed out.
pub free_buf : Handle → Cache → Option Cache
free_buf h s =
    if s.cache_deleted
    then some s
    else if s.buffer_ptrs h.slot == 0
    then some (record s { buffer_ptrs = store s.buffer_ptrs h.slot h.pointer })
    else none

pub destroy : Cache → Cache
destroy s = record s { cache_deleted = true }

-- The loop of `allocate` over the next `n` places, from `i` on.
pub find_buffer : ℕ → ℕ → (ℕ → ℕ) → Option ℕ
find_buffer zero i ptrs = none
find_buffer (suc n) i ptrs =
    let rest = find_buffer n (i + 1) ptrs in if not (ptrs i == 0) then some i else rest

-- A program asks for a buffer, or gives back the one at a place of its list.
pub data Op : Type 0 where
  ask : Op
  give : ℕ → Op

abbrev pub without : ℕ → List Handle → List Handle
without k [] = []
without zero (h ∷ hs) = hs
without (suc k) (h ∷ hs) = h ∷ without k hs

module _ (alloc_memory : ℕ → ℕ) where
  -- With a place that holds a buffer, or with none.
  pub allocate_at : Option ℕ → Cache → Option (Handle × Cache)
  allocate_at (some i) s = some (
    record { pointer = s.buffer_ptrs i; slot = i },
    record s { buffer_ptrs = store s.buffer_ptrs i 0 },
  )
  allocate_at none s =
      let p = alloc_memory (length s.all_buffers) in
      let index = s.last_entry_written_plus_1 in
      if p == 0
      then none
      else if ltb index size
      then some (
        record { pointer = p; slot = index },
        record s { all_buffers = s.all_buffers ++ p ∷ []; last_entry_written_plus_1 = suc index },
      )
      else none

  handed : Option (Handle × Cache) → Option (Option Handle × Cache)
  handed none = none
  handed (some (h, s')) = some (some h, s')

  -- Without a size there is no buffer.
  pub allocate : ℕ → Cache → Option (Option Handle × Cache)
  unfolding allocate_at handed
  allocate buffer_size s =
      if buffer_size == 0
      then some (none, s)
      else handed (allocate_at (find_buffer s.last_entry_written_plus_1 0 s.buffer_ptrs) s)

  kept : List Handle → Option (Option Handle × Cache) → Option (List Handle × Cache)
  kept hs none = none
  kept hs (some (none, s)) = some (hs, s)
  kept hs (some (some h, s)) = some (h ∷ hs, s)

  given : List Handle → Option Cache → Option (List Handle × Cache)
  given hs none = none
  given hs (some s) = some (hs, s)

  give_back : ℕ → Option Handle → List Handle × Cache → Option (List Handle × Cache)
  unfolding free_buf given
  give_back k none (hs, s) = some (hs, s)
  give_back k (some h) (hs, s) = given (without k hs) (free_buf h s)

  pub step_from : ℕ → Op → Option (List Handle × Cache) → Option (List Handle × Cache)
  unfolding allocate kept give_back
  step_from buffer_size op none = none
  step_from buffer_size ask (some (hs, s)) = kept hs (allocate buffer_size s)
  step_from buffer_size (give k) (some (hs, s)) = give_back k (get_elem? hs k) (hs, s)

  pub run : ℕ → Option (List Handle × Cache) → List Op → Option (List Handle × Cache)
  unfolding step_from
  run buffer_size r [] = r
  run buffer_size r (op ∷ ops) = run buffer_size (step_from buffer_size op r) ops
