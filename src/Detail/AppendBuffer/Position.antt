-- ===== src/Detail/AppendBuffer/Position.antt =====
-- am++/detail/append_buffer.hpp: positions and places in chunks correspond.
use native.Mathlib.Decide.{dec_lt}
use native.Mathlib.Nat.{
  pow-suc, le-div_iff_mul-le, div-lt_iff_lt-mul, pow-le-pow_right, mul-le-mul_left, mod-eq_of_lt,
}
use ampp.Prelude.{
  ℕ, zero, suc, ◌+◌, ◌*◌, ◌/◌, ◌^◌, ◌≤◌, ◌<◌, ◌≡◌, ◌⊎◌, ◌↔◌, inl, inr, refl, arith, ◌==◌,
  if◌then◌else◌, false,
}
use ampp.Detail.AppendBuffer.{
  bit_width_loop, ffs_size_t, pos_to_chunk_num, chunk_size, chunk_offset,
}

-- The width `w` of `n`: `n` is below `2 ^ w`, and at least half of it unless both are 0.
abbrev Width : ℕ → ℕ → Type 0
Width n w = (n < 2 ^ w) × ((2 ^ w ≤ 2 * n) ⊎ ((n ≡ 0) × (w ≡ 0)))

Width-suc : (n w : ℕ) → Width (suc n / 2) w → Width (suc n) (suc w)
Width-suc n w (below, inl above) = (omega (arith, pow-suc 2 w), inl (omega (arith, pow-suc 2 w)))
Width-suc n w (below, inr (low, e)) = rw e (omega arith, inl (omega arith))

bit_width_loop-Width : (f n : ℕ) → n ≤ f → Width n (bit_width_loop f n)
unfolding bit_width_loop
bit_width_loop-Width zero n h = (omega arith, inr (omega arith, refl))
bit_width_loop-Width (suc f) zero h = (omega arith, inr (refl, refl))
bit_width_loop-Width (suc f) (suc n) h =
    let e : (suc n == 0) ≡ false = ground arith in
    rw (e, if◌then◌else◌) (Width-suc n _ (bit_width_loop-Width f (suc n / 2) (omega arith)))

pub one_le_pow : (k : ℕ) → 1 ≤ 2 ^ k
one_le_pow k = pow-le-pow_right {n = 2} (omega arith) {i = 0} {j = k} (omega arith)

mul-pow-suc : (init k : ℕ) → init * 2 ^ suc k ≡ 2 * (init * 2 ^ k)
mul-pow-suc init k = rw (pow-suc 2 k) (omega arith)

-- A number below the first chunk's size lies in chunk 0, and any other in the chunk `suc k` that
-- begins at `initial_allocation * 2 ^ k` and ends before twice that.
Place : ℕ → ℕ → ℕ → Type 0
Place init i zero = i < init
Place init i (suc k) = (init * 2 ^ k ≤ i) × (i < 2 * (init * 2 ^ k))

Width-Place : (init i w : ℕ) → 0 < init → Width (i / init) w → Place init i w
unfolding Place
Width-Place init i zero p (below, _) = omega (arith, (div-lt_iff_lt-mul p).0 below)
Width-Place init i (suc k) p (below, inl above) = (
  omega (arith, (le-div_iff_mul-le {x = 2 ^ k} {y = i} p).0 (omega (arith, pow-suc 2 k))),
  omega (arith, (div-lt_iff_lt-mul p).0 below, mul-pow-suc init k),
)
Width-Place init i (suc k) p (below, inr (_, e)) = absurd (omega arith)

pos_to_chunk_num-Place : (init i : ℕ) → 0 < init → Place init i (pos_to_chunk_num init i)
unfolding pos_to_chunk_num ffs_size_t
pos_to_chunk_num-Place init i p =
    Width-Place init i _ p (bit_width_loop-Width (i / init) (i / init) (omega arith))

double_start : (init c d : ℕ) → c < d → 2 * (init * 2 ^ c) ≤ init * 2 ^ d
double_start init c d h = omega (
  arith,
  mul-pow-suc init c,
  mul-le-mul_left init (pow-le-pow_right {n = 2} (omega arith) {i = suc c} {j = d} h),
)

-- Two chunks do not share a position.
Place-unique : (init i c d : ℕ) → Place init i c → Place init i d → c ≡ d
unfolding Place
Place-unique init i zero zero h k = refl
Place-unique init i zero (suc d) h k = absurd (omega (arith, mul-le-mul_left init (one_le_pow d)))
Place-unique init i (suc c) zero h k = absurd (omega (arith, mul-le-mul_left init (one_le_pow c)))
Place-unique init i (suc c) (suc d) h k =
    ground (arith, double_start init c d, double_start init d c)

-- Where a chunk begins and how long it is, with no wrap-around.
unfoldable pub start : ℕ → ℕ → ℕ
start init zero = 0
start init (suc k) = init * 2 ^ k

unfoldable pub extent : ℕ → ℕ → ℕ
extent init zero = init
extent init (suc k) = init * 2 ^ k

pub start-suc : (init c : ℕ) → start init (suc c) ≡ start init c + extent init c
unfolding start extent
start-suc init zero = omega arith
start-suc init (suc k) = omega (arith, mul-pow-suc init k)

pub chunk_offset-start : (init c : ℕ) → start init c < 2 ^ 64 → chunk_offset init c ≡ start init c
unfolding chunk_offset start
chunk_offset-start init zero h = refl
chunk_offset-start init (suc k) h = ground (arith, mod-eq_of_lt h)

pub chunk_size-extent : (init c : ℕ) → extent init c < 2 ^ 64 → chunk_size init c ≡ extent init c
unfolding chunk_size extent
chunk_size-extent init zero h = ground (arith, mod-eq_of_lt h)
chunk_size-extent init (suc k) h = ground (arith, mod-eq_of_lt h)

pub extent-le : (init c : ℕ) → (extent init c ≤ init) ⊎ (extent init c ≡ start init c)
unfolding extent start
extent-le init zero = inl (omega arith)
extent-le init (suc k) = inr refl

Place-iff :
    (init i c : ℕ) → Place init i c ↔ ((start init c ≤ i) × (i < start init c + extent init c))
unfolding Place start extent
Place-iff init i zero = (λ h. omega arith, λ h. omega arith)
Place-iff init i (suc k) = (λ h. omega arith, λ h. omega arith)

pub chunk_unique :
    (init i c d : ℕ)
    → (start init c ≤ i) × (i < start init c + extent init c)
    → (start init d ≤ i) × (i < start init d + extent init d)
    → c ≡ d
chunk_unique init i c d h k =
    Place-unique init i c d ((Place-iff init i c).1 h) ((Place-iff init i d).1 k)

pub pos_to_chunk_num-bounds :
    (init i : ℕ)
    → 0 < init
    → (start init (pos_to_chunk_num init i) ≤ i)
      × (i < start init (pos_to_chunk_num init i) + extent init (pos_to_chunk_num init i))
pos_to_chunk_num-bounds init i p = (Place-iff init i _).0 (pos_to_chunk_num-Place init i p)

pub extent-pos : (init c : ℕ) → 0 < init → 0 < extent init c
unfolding extent
extent-pos init zero p = p
extent-pos init (suc k) p = omega (arith, p, mul-le-mul_left init (one_le_pow k))

start_le : (init num c : ℕ) → num ≤ c → start init num ≤ start init c
unfolding start
start_le init zero c le = omega arith
start_le init (suc k) zero le = absurd (omega (arith, le))
start_le init (suc k) (suc c) le =
    mul-le-mul_left init
      (pow-le-pow_right {n = 2} (omega arith) {i = k} {j = c} (omega (arith, le)))

-- A position before the end of the first chunks lies in one of them.
pub pos_to_chunk_num-lt :
    (init i num : ℕ) → 0 < init → i < start init num → pos_to_chunk_num init i < num
pos_to_chunk_num-lt init i num p lt = elim (dec_lt (pos_to_chunk_num init i) num) [
  | yes inside ↦ inside
  | no beyond ↦ absurd (
      omega (
        arith,
        start_le init num (pos_to_chunk_num init i) (omega (arith, beyond)),
        (pos_to_chunk_num-bounds init i p).0,
        lt,
      ))
]

-- For a positive initial allocation and 64-bit sizes, a position lies in the chunk that
-- `pos_to_chunk_num` gives for it, and in no other chunk whose bounds fit 64 bits.
pub pos_to_chunk_num_unique :
    (init i : ℕ)
    → 0 < init
    → init < 2 ^ 64
    → i < 2 ^ 64
    → (chunk_offset init (pos_to_chunk_num init i) ≤ i)
      × (i
          < chunk_offset init (pos_to_chunk_num init i) + chunk_size init (pos_to_chunk_num init i))
      × ((c : ℕ)
          → start init c + extent init c < 2 ^ 64
          → chunk_offset init c ≤ i
          → i < chunk_offset init c + chunk_size init c
          → c ≡ pos_to_chunk_num init i)
pos_to_chunk_num_unique init i p small fits =
    let place = (Place-iff init i _).0 (pos_to_chunk_num-Place init i p) in
    let c = pos_to_chunk_num init i in
    let begins = chunk_offset-start init c (omega (arith, place.0)) in
    let long : extent init c < 2 ^ 64 = omega (arith, extent-le init c, place.0) in
    let ends = chunk_size-extent init c long in
    (
      omega (arith, begins, place.0),
      omega (arith, begins, ends, place.1),
      λ d room lo hi.
          Place-unique init i d c
            ((Place-iff init i d).1 (
              omega (arith, chunk_offset-start init d (omega arith)),
              omega (
                arith,
                chunk_offset-start init d (omega arith),
                chunk_size-extent init d (omega arith),
              ),
            ))
            (pos_to_chunk_num-Place init i p),
    )
