-- ===== src/Detail/AppendBuffer.antt =====
-- am++/detail/append_buffer.hpp: a growable array in chunks that never move. Chunk 0 has
-- `initial_allocation` slots, and each later chunk as many as all chunks before it.
-- Sizes are 64 bits wide.
pub mod Position
pub mod Iterator
pub mod Pushing
mod Tests
use Prim.Native.Nat.{min}
use ampp.Prelude.{
  ℕ, zero, suc, ◌+◌, ◌-◌, ◌*◌, ◌/◌, ◌%◌, ◌^◌, ◌==◌, if◌then◌else◌, ltb, Bool, ◌&&◌, ◌||◌, ℤ, pos,
  negsuc,
}

-- `x << k` on size_t.
abbrev pub shl : ℕ → ℕ → ℕ
shl x k = (x * 2 ^ k) % 2 ^ 64

pub chunk_size : ℕ → ℕ → ℕ
chunk_size initial_allocation idx = shl initial_allocation (if idx == 0 then 0 else idx - 1)

pub chunk_offset : ℕ → ℕ → ℕ
chunk_offset initial_allocation idx = if idx == 0 then 0 else shl initial_allocation (idx - 1)

-- std::bit_width: how often a number can be halved before it is 0.
bit_width_loop : ℕ → ℕ → ℕ
bit_width_loop zero n = 0
bit_width_loop (suc f) n = let rest = suc (bit_width_loop f (n / 2)) in if n == 0 then 0 else rest

pub ffs_size_t : ℕ → ℕ
unfolding bit_width_loop
ffs_size_t x = bit_width_loop x x

pub pos_to_chunk_num : ℕ → ℕ → ℕ
pos_to_chunk_num initial_allocation i = ffs_size_t (i / initial_allocation)

-- The iterator's position. Its pointer to the current chunk moves with `current_chunk_num`.
pub record Iter : Type 0 where
  pub current_chunk_num : ℕ
  pub offset_in_chunk : ℕ

module _ (init : ℕ) where
  -- Past the last slot of a chunk lies the first slot of the next one.
  carry : Iter → Iter
  carry it =
      if it.offset_in_chunk == chunk_size init it.current_chunk_num
      then record { current_chunk_num = it.current_chunk_num + 1; offset_in_chunk = 0 }
      else it

  -- Before the first slot of a chunk lies the end of the chunk before it.
  borrow : Iter → Iter
  borrow it =
      let prev = (it.current_chunk_num + 2 ^ 64 - 1) % 2 ^ 64 in
      if it.offset_in_chunk == 0
      then record { current_chunk_num = prev; offset_in_chunk = chunk_size init prev }
      else it

  pub increment : Iter → Iter
  unfolding carry
  increment it = carry (record it { offset_in_chunk = it.offset_in_chunk + 1 })

  pub decrement : Iter → Iter
  unfolding borrow
  decrement it = let it' = borrow it in record it' { offset_in_chunk = it'.offset_in_chunk - 1 }

  forward_dist : ℕ → Iter → ℕ
  forward_dist delta it =
      min delta ((chunk_size init it.current_chunk_num + 2 ^ 64 - it.offset_in_chunk) % 2 ^ 64)

  -- while (delta > 0), on fuel.
  forward : ℕ → ℕ → Iter → Iter
  forward zero delta it = it
  forward (suc fuel) delta it =
      let dist = forward_dist delta it in
      let rest =
        forward fuel (delta - dist)
          (carry (record it { offset_in_chunk = it.offset_in_chunk + dist })) in
      if delta == 0 then it else rest

  -- while (delta < 0), on fuel, with `delta` for its absolute value.
  backward : ℕ → ℕ → Iter → Iter
  backward zero delta it = it
  backward (suc fuel) delta it =
      let it' = borrow it in
      let dist = min delta it'.offset_in_chunk in
      let rest =
        backward fuel (delta - dist)
          (record it' { offset_in_chunk = it'.offset_in_chunk - dist }) in
      if delta == 0 then it else rest

  -- Each round of a loop moves at least one slot, so the distance is fuel enough.
  pub advance_by : ℤ → Iter → Iter
  unfolding forward backward
  advance_by (pos n) it = forward n n it
  advance_by (negsuc n) it = backward (suc n) (suc n) it

  -- The constructor, and so `begin` at 0 and `end` at the current size.
  pub iterator_at : ℕ → Iter
  unfolding advance_by
  iterator_at idx = advance_by (pos idx) (record { current_chunk_num = 0; offset_in_chunk = 0 })

pub less : Iter → Iter → Bool
less a b =
    ltb a.current_chunk_num b.current_chunk_num
    || ((a.current_chunk_num == b.current_chunk_num) && ltb a.offset_in_chunk b.offset_in_chunk)
