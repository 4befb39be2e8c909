-- ===== src/Detail/AppendBuffer/Iterator.antt =====
-- am++/detail/append_buffer.hpp, append_buffer_iterator: an iterator stands for an index.
use Prim.Native.Nat.{min}
use native.Mathlib.Nat.{mul-le-mul_left}
use native.Mathlib.Numerals.{add-one}
use native.Mathlib.Decide.{dec_lt}
use ampp.Prelude.{
  ℕ, zero, suc, ◌+◌, ◌-◌, ◌^◌, ◌%◌, ◌≢◌, ◌≤◌, ◌<◌, ◌≡◌, ◌↔◌, inl, inr, refl, arith, ◌==◌,
  if◌then◌else◌, Bool-cases, pos, negsuc, true,
}
use ampp.Detail.AppendBuffer.{
  Iter, chunk_size, carry, borrow, increment, decrement, forward_dist, forward, backward,
  advance_by, iterator_at, less,
}
use ampp.Detail.AppendBuffer.Position.{
  start, extent, start-suc, chunk_size-extent, extent-le, one_le_pow, chunk_unique,
}

module _ (init : ℕ) where
  -- The position that an iterator stands for.
  abbrev pub index : Iter → ℕ
  index it = start init it.current_chunk_num + it.offset_in_chunk

  -- Its offset is inside its chunk.
  abbrev pub Inside : Iter → Type 0
  Inside it = it.offset_in_chunk < extent init it.current_chunk_num

  -- Its offset is inside its chunk, or just at the end of it.
  abbrev Within : Iter → Type 0
  Within it = it.offset_in_chunk ≤ extent init it.current_chunk_num

module _ (init : ℕ) (some_slot : 0 < init) (small : init < 2 ^ 63) where
  size-lem :
      (it : Iter)
      → index init it < 2 ^ 63
      → chunk_size init it.current_chunk_num ≡ extent init it.current_chunk_num
  size-lem it h =
      chunk_size-extent init it.current_chunk_num
        (omega (arith, extent-le init it.current_chunk_num))

  extent-lt : (it : Iter) → index init it < 2 ^ 63 → extent init it.current_chunk_num < 2 ^ 63
  extent-lt it h = omega (arith, extent-le init it.current_chunk_num)

  extent_pos : (c : ℕ) → 0 < extent init c
  unfolding extent
  extent_pos zero = some_slot
  extent_pos (suc k) = omega (arith, mul-le-mul_left init (one_le_pow k))

  start-add_one : (c : ℕ) → start init (c + 1) ≡ start init c + extent init c
  start-add_one c = rw add-one (start-suc init c)

  carry-lem :
      (it : Iter)
      → Within init it
      → index init it < 2 ^ 63
      → Inside init (carry init it) × (index init (carry init it) ≡ index init it)
  unfolding carry
  carry-lem it w h = ground (
    arith,
    size-lem it h,
    extent_pos (it.current_chunk_num + 1),
    start-add_one it.current_chunk_num,
  )

  start-pred : (c : ℕ) → c ≢ 0 → start init c ≡ start init (c - 1) + extent init (c - 1)
  start-pred zero h = absurd (h refl)
  start-pred (suc k) h = let e : suc k - 1 ≡ k = omega arith in rw e (start-suc init k)

  start-zero : start init 0 ≡ 0
  unfolding start
  start-zero = refl

  pred-mod : (c : ℕ) → c ≢ 0 → c < 2 ^ 64 → (c + 2 ^ 64 - 1) % 2 ^ 64 ≡ c - 1
  pred-mod c h k = omega arith

  -- A chunk number is at most the position where the chunk begins.
  chunk_num-le : (c : ℕ) → c ≤ start init c
  chunk_num-le zero = omega arith
  chunk_num-le (suc k) = omega (arith, chunk_num-le k, start-suc init k, extent_pos k)

  chunk_num-ne_zero : (c o : ℕ) → o ≡ 0 → 0 < start init c + o → c ≢ 0
  chunk_num-ne_zero zero o e h = absurd (omega (arith, start-zero))
  chunk_num-ne_zero (suc k) o e h = omega arith

  borrow-lem :
      (it : Iter)
      → Inside init it
      → 0 < index init it
      → index init it < 2 ^ 63
      → Within init (borrow init it)
        × (index init (borrow init it) ≡ index init it)
        × (0 < (borrow init it).offset_in_chunk)
  unfolding borrow
  borrow-lem it w p h = elim (Bool-cases (it.offset_in_chunk == 0)) [
    | inl z ↦
        let z' : it.offset_in_chunk ≡ 0 = ground arith in
        let c = it.current_chunk_num in
        let nz = chunk_num-ne_zero c it.offset_in_chunk z' p in
        let joined = start-pred c nz in
        let prev = pred-mod c nz (omega (arith, chunk_num-le c)) in
        let size : chunk_size init (c - 1) ≡ extent init (c - 1) =
          chunk_size-extent init (c - 1) (omega arith) in
        rw (z, if◌then◌else◌, prev, size) (omega arith, omega arith, extent_pos (c - 1))
    | inr nz ↦ rw (nz, if◌then◌else◌) (omega arith, refl, ground arith)
  ]

  forward-lem :
      (fuel delta : ℕ) (it : Iter)
      → delta ≤ fuel
      → Inside init it
      → index init it + delta < 2 ^ 63
      → Inside init (forward init fuel delta it)
        × (index init (forward init fuel delta it) ≡ index init it + delta)
  unfolding forward forward_dist
  forward-lem zero delta it enough w h = (w, omega arith)
  forward-lem (suc fuel) delta it enough w h = elim (Bool-cases (delta == 0)) [
    | inl z ↦ rw (z, if◌then◌else◌) (w, ground arith)
    | inr nz ↦
        let room = size-lem it (omega arith) in
        let long = extent-lt it (omega arith) in
        let d =
          min delta ((extent init it.current_chunk_num + 2 ^ 64 - it.offset_in_chunk) % 2 ^ 64) in
        let moved : Iter = record it { offset_in_chunk = it.offset_in_chunk + d } in
        let c = carry-lem moved (omega arith) (omega arith) in
        let rest =
          forward-lem fuel (delta - d) (carry init moved) (ground arith) c.0 (omega (arith, c.1)) in
        rw (nz, if◌then◌else◌, room) (rest.0, omega (arith, rest.1, c.1))
  ]

  backward-lem :
      (fuel delta : ℕ) (it : Iter)
      → delta ≤ fuel
      → Inside init it
      → delta ≤ index init it
      → index init it < 2 ^ 63
      → Inside init (backward init fuel delta it)
        × (index init (backward init fuel delta it) + delta ≡ index init it)
  unfolding backward
  backward-lem zero delta it enough w p h = (w, omega arith)
  backward-lem (suc fuel) delta it enough w p h = elim (Bool-cases (delta == 0)) [
    | inl z ↦ rw (z, if◌then◌else◌) (w, ground arith)
    | inr nz ↦
        let left : 0 < delta = ground arith in
        let b = borrow-lem it w (omega arith) h in
        let it' = borrow init it in
        let d = min delta it'.offset_in_chunk in
        let rest =
          backward-lem fuel (delta - d) (record it' { offset_in_chunk = it'.offset_in_chunk - d })
            (ground arith) (omega (arith, b)) (omega (arith, b)) (omega (arith, b)) in
        rw (nz, if◌then◌else◌) (rest.0, omega (arith, rest.1, b))
  ]

  -- Two iterators inside their chunks that stand for one position are one iterator.
  index-injective :
      (a b : Iter) → Inside init a → Inside init b → index init a ≡ index init b → a ≡ b
  index-injective a b wa wb e =
      let same : a.current_chunk_num ≡ b.current_chunk_num =
        chunk_unique init (index init a) a.current_chunk_num b.current_chunk_num
          (omega arith, omega arith) (omega arith, omega arith) in
      ground (arith, same, e)

  -- With a positive initial allocation below 2 ^ 63 and positions below 2 ^ 63, moving forward by
  -- one slot or more and back again gives the iterator that one began with, if it was inside its
  -- chunk, and the position in between is that many slots further on.
  pub advance_by-round_trip :
      (it : Iter) (n : ℕ)
      → Inside init it
      → index init it + suc n < 2 ^ 63
      → (index init (advance_by init (pos (suc n)) it) ≡ index init it + suc n)
        × (advance_by init (negsuc n) (advance_by init (pos (suc n)) it) ≡ it)
  unfolding advance_by
  advance_by-round_trip it n w h =
      let f = forward-lem (suc n) (suc n) it (omega arith) w h in
      let b =
        backward-lem (suc n) (suc n) (forward init (suc n) (suc n) it) (omega arith) f.0
          (omega (arith, f.1)) (omega (arith, f.1)) in
      (f.1, index-injective _ it b.0 w (omega (arith, f.1, b.1)))

  -- With a positive initial allocation below 2 ^ 63, the constructor's iterator for a position below
  -- 2 ^ 63 lies inside its chunk and stands for that position.
  pub index-iterator_at :
      (i : ℕ)
      → i < 2 ^ 63
      → Inside init (iterator_at init i) × (index init (iterator_at init i) ≡ i)
  unfolding iterator_at
  index-iterator_at i h =
      let f =
        forward-lem i i (record { current_chunk_num = 0; offset_in_chunk = 0 }) (omega arith)
          (extent_pos 0) (omega (arith, start-zero)) in
      (f.0, omega (arith, f.1, start-zero))

  -- With a positive initial allocation below 2 ^ 63, and `i + 1` below 2 ^ 63, one step of `++` from
  -- the iterator at `i` gives the iterator at `i + 1`, and one step of `--` leads back.
  pub increment-iterator_at :
      (i : ℕ)
      → i + 1 < 2 ^ 63
      → (increment init (iterator_at init i) ≡ iterator_at init (i + 1))
        × (decrement init (iterator_at init (i + 1)) ≡ iterator_at init i)
  unfolding increment decrement
  increment-iterator_at i h =
      let here = index-iterator_at i (omega arith) in
      let next = index-iterator_at (i + 1) h in
      let it = iterator_at init i in
      let up =
        carry-lem (record it { offset_in_chunk = it.offset_in_chunk + 1 }) (omega arith)
          (omega (arith, here.1)) in
      let down = borrow-lem (iterator_at init (i + 1)) next.0 (omega arith) (omega arith) in
      (
        index-injective _ _ up.0 next.0 (omega (arith, up.1, next.1, here.1)),
        index-injective _ _ (omega arith) here.0 (omega (arith, down, next.1, here.1)),
      )

  starts_after : (c d : ℕ) → c < d → start init c + extent init c ≤ start init d
  starts_after c zero h = absurd (omega arith)
  starts_after c (suc d) h = elim (dec_lt c d) [
    | yes less ↦ omega (arith, starts_after c d less, start-suc init d)
    | no last ↦ let e : c ≡ d = omega arith in rw (e, start-suc init d) (omega arith)
  ]

  -- With a positive initial allocation below 2 ^ 63, iterators that are inside their chunks are
  -- ordered as their positions are.
  pub less_iff :
      (a b : Iter)
      → Inside init a
      → Inside init b
      → (less a b ≡ true) ↔ (index init a < index init b)
  unfolding less
  less_iff a b wa wb =
      let later = starts_after a.current_chunk_num b.current_chunk_num in
      let sooner = starts_after b.current_chunk_num a.current_chunk_num in
      (λ h. ground (arith, later), λ h. ground (arith, later, sooner))
