-- ===== src/Addressing/Routing/Places.antt =====
-- am++/object_based_addressing.hpp, rook_routing: the rectangle of the ranks, with the row and the column of
-- each.
use native.Mathlib.Nat.{mod-lt, div-lt_iff_lt-mul, div-add-mod'}
use ampp.Prelude.{
  ℕ, zero, suc, ◌+◌, ◌-◌, ◌*◌, ◌/◌, ◌%◌, ◌<◌, ◌≤◌, ◌≡◌, ◌≢◌, refl, sym, ap, ◌∙◌, true, false, not,
  some, ltb, ◌==◌, if◌then◌else◌, arith, inl, inr, Bool-cases, row_parts, row-lt,
}
use ampp.Addressing.Routing.{find_factor, one_if, rook_rank_from_index, rook_next_hop}
use ampp.Addressing.Routing.Straight.{add64_small}

-- The loop finds a divisor, at the latest when it comes to 1.
pub find_factor_divides :
    (n factor : ℕ)
    → 0 < factor
    → (side : ℕ) × (0 < side)
      × (side ≤ factor)
      × (n % side ≡ 0)
      × (find_factor n factor ≡ some side)
unfolding find_factor
find_factor_divides n zero pos = absurd (ground (arith, pos))
find_factor_divides n (suc zero) pos =
    let e : n % 1 ≡ 0 = omega arith in (1, omega arith, omega arith, e, rw e refl)
find_factor_divides n (suc (suc factor)) pos = elim (Bool-cases (n % suc (suc factor) == 0)) [
  | inl divides ↦
      (suc (suc factor), omega arith, omega arith, ground (arith, divides), rw divides refl)
  | inr not_this ↦
      let (side, p, le, e, found) = find_factor_divides n (suc factor) (omega arith) in
      (side, p, omega (arith, le), e, rw not_this found)
]

module _ (s t n : ℕ) (pos : 0 < s) (area : t * s ≡ n) (small : n + n < 18446744073709551616) where
  -- A rank in its row and its column.
  pub record Place (r row col : ℕ) : Type 0 where
    pub row_eq : r / s ≡ row
    pub col_eq : r % s ≡ col
    pub whole : row * s + col ≡ r
    pub col_lt : col < s
    pub row_lt : row < t

  pub place : (r : ℕ) → r < n → (row col : ℕ) × Place r row col
  place r lt = (
    r / s,
    r % s,
    record {
      row_eq = refl;
      col_eq = refl;
      whole = div-add-mod' r s;
      col_lt = mod-lt r pos;
      row_lt = (div-lt_iff_lt-mul pos).1 (omega (arith, lt, area));
    },
  )

  -- The rank in the row of the one and the column of the other.
  pub corner : (a b : ℕ) → a < t → b < s → (a * s + b < n) × Place (a * s + b) a b
  corner a b la lb =
      let (col, row) = row_parts s a b lb in
      (
        omega (arith, row-lt t s a b la lb, area),
        record { row_eq = row; col_eq = col; whole = refl; col_lt = lb; row_lt = la },
      )

  module _ {r a b i c d : ℕ} (lr : r < n) (li : i < n) (p : Place r a b) (q : Place i c d) where
    pub next_along : (c == a) ≡ true → rook_next_hop r s i ≡ i
    unfolding rook_next_hop
    next_along same = rw (p.row_eq, q.row_eq, same) refl

    pub next_across : (c == a) ≡ false → rook_next_hop r s i ≡ c * s + b
    unfolding rook_next_hop
    next_across other =
        rw (p.row_eq, q.row_eq, other, p.col_eq)
          (add64_small (c * s) b (omega (arith, (corner c b q.row_lt p.col_lt).0, small)))

    -- The index of a rank in the row.
    pub index_along : a ≡ c → r ≢ i → (j : ℕ) × (j < s - 1) × (rook_rank_from_index r s j ≡ i)
    unfolding rook_rank_from_index
    index_along same differ =
        let j = if ltb d b then d else d - 1 in
        let apart : d ≢ b = λ e. differ (
          sym p.whole
          ∙ ap (λ (x : ℕ). x * s + b) same
          ∙ ap (λ (x : ℕ). c * s + x) (sym e)
          ∙ q.whole) in
        let below : j < s - 1 = ground (arith, apart, p.col_lt, q.col_lt) in
        let inside : ltb j (s - 1) ≡ true = ground (arith, below) in
        let skipped : j + one_if (not (ltb j b)) ≡ d = ground (arith, apart) in
        (
          j,
          below,
          rw (inside, p.row_eq, p.col_eq, same) (omega (arith, skipped, q.whole, li, small)),
        )

    -- The index of the rank in the other row and the own column.
    pub index_across : a ≢ c → (j : ℕ) × (j < s + t - 2) × (rook_rank_from_index r s j ≡ c * s + b)
    unfolding rook_rank_from_index
    index_across differ =
        let k = if ltb c a then c else c - 1 in
        let below : k < t - 1 = ground (arith, differ, p.row_lt, q.row_lt) in
        let outside : ltb (s - 1 + k) (s - 1) ≡ false = ground arith in
        let same : s - 1 + k - (s - 1) ≡ k = omega arith in
        let skipped : k + one_if (not (ltb k a)) ≡ c = ground (arith, differ) in
        (
          s - 1 + k,
          omega (arith, below, pos),
          rw (outside, same, p.row_eq, p.col_eq, skipped)
              (omega (arith, (corner c b q.row_lt p.col_lt).0, small)),
        )
