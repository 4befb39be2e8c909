-- ===== src/Addressing/Routing/Rook.antt =====
-- am++/object_based_addressing.hpp: rook_routing.
use native.Mathlib.Nat.{div-add-mod', mul-le-mul_right, mul_comm}
use ampp.Prelude.{
  ℕ, suc, ◌+◌, ◌-◌, ◌*◌, ◌/◌, ◌%◌, ◌<◌, ◌≤◌, ◌≡◌, ◌≢◌, refl, sym, ap, ◌∙◌, true, ◌&&◌, ◌||◌, not,
  some, ◌==◌, if◌then◌else◌, arith, inl, inr, Bool-cases,
}
use ampp.Addressing.Ranks.{add64, sub64}
use ampp.Addressing.Routing.{
  Routing, rook_rank_from_index, rook_possible_dests, rook_next_hop, rook_with, rook_routing,
}
use ampp.Addressing.Routing.Places.{
  find_factor_divides, place, corner, next_along, next_across, index_along, index_across,
}
use ampp.Addressing.Routing.Laws.{IsRouting}
use ampp.Addressing.Routing.Straight.{add64_small, sub64_small}

-- None to itself, one along a row, and two to another row.
pub rook_hops : ℕ → ℕ → ℕ → ℕ
rook_hops s r i = if r == i then 0 else if i / s == r / s then 1 else 2

module _ (s t n : ℕ) (pos : 0 < s) (area : t * s ≡ n) (small : n + n < 18446744073709551616) where
  -- What holds of a hop, with the rank it leads to.
  record Hop (r i next : ℕ) : Type 0 where
    pub reached : rook_next_hop r s i ≡ next
    pub inside : next < n
    pub closer : suc (rook_hops s next i) ≤ rook_hops s r i
    pub listed : (j : ℕ) × (j < s + t - 2) × (rook_rank_from_index r s j ≡ next)
    pub allowed : ((next / s == r / s) || (next % s == r % s)) && not (next == r) ≡ true
    pub expected : ((r / s == next / s) || (r % s == next % s)) && not (r == next) ≡ true

  hop : (r i : ℕ) → r < n → i < n → r ≢ i → (next : ℕ) × Hop r i next
  unfolding rook_hops
  hop r i lr li differ =
      let (a, b, p) = place s t n pos area small r lr in
      let (c, d, q) = place s t n pos area small i li in
      elim (Bool-cases (c == a)) [
        | inl same ↦
            let eq : a ≡ c = ground (arith, same) in
            let level : i / s ≡ r / s = q.row_eq ∙ sym eq ∙ sym p.row_eq in
            let (j, lt, e) = index_along s t n pos area small lr li p q eq differ in
            (
              i,
              record {
                reached = next_along s t n pos area small lr li p q same;
                inside = li;
                closer = ground (arith, differ, level);
                listed = (j, omega (arith, lt, p.row_lt), e);
                allowed = ground (arith, differ, level);
                expected = ground (arith, differ, level);
              },
            )
        | inr other ↦
            let apart : a ≢ c = ground (arith, other) in
            let (lt, m) = corner s t n pos area small c b q.row_lt p.col_lt in
            let (j, below, e) = index_across s t n pos area small lr li p q apart in
            let next = c * s + b in
            let moved : (next / s ≡ i / s) = m.row_eq ∙ sym q.row_eq in
            let column : (next % s ≡ r % s) = m.col_eq ∙ sym p.col_eq in
            let away : r ≢ next = λ f. apart (sym p.row_eq ∙ ap (λ (x : ℕ). x / s) f ∙ m.row_eq) in
            let rows : i / s ≢ r / s = λ f. apart (sym p.row_eq ∙ sym f ∙ q.row_eq) in
            (
              next,
              record {
                reached = next_across s t n pos area small lr li p q other;
                inside = lt;
                closer = ground (arith, differ, rows, moved);
                listed = (j, below, e);
                allowed = ground (arith, away, column);
                expected = ground (arith, away, column);
              },
            )
      ]

  rook_scheme : ℕ → Routing
  rook_scheme r = record {
    next_hop = rook_next_hop r s;
    possible_dests = rook_possible_dests r s t;
    possible_sources = rook_possible_dests r s t;
  }

  count-lt : (a : ℕ) → a < t → (j : ℕ) → j < s + t - 2 → j < sub64 (add64 s t) 2
  count-lt a row j lt =
      let width : 1 * s ≤ t * s = mul-le-mul_right s (omega (arith, row)) in
      let height : 1 * t ≤ s * t = mul-le-mul_right t (omega (arith, pos)) in
      let both : s + t < 18446744073709551616 =
        omega (arith, width, height, mul_comm s t, area, small) in
      omega (
        arith,
        lt,
        add64_small s t both,
        sub64_small (add64 s t) 2 (omega (arith, add64_small s t both, pos, row))
            (omega (arith, add64_small s t both, both)),
      )

  rook_scheme-IsRouting : IsRouting n rook_scheme (rook_hops s)
  unfolding rook_scheme rook_possible_dests rook_hops
  rook_scheme-IsRouting = record {
    arrived = λ r i lr li e. ground (arith, e);
    inside = λ r i lr li differ. let (next, h) = hop r i lr li differ in rw h.reached h.inside;
    closer = λ r i lr li differ. let (next, h) = hop r i lr li differ in rw h.reached h.closer;
    listed = λ r i lr li differ.
        let (next, h) = hop r i lr li differ in
        let (j, lt, e) = h.listed in
        let (a, b, p) = place s t n pos area small r lr in
        (j, count-lt a p.row_lt j lt, ap some (e ∙ sym h.reached));
    allowed = λ r i lr li differ. let (next, h) = hop r i lr li differ in rw h.reached h.allowed;
    expected = λ r i lr li differ. let (next, h) = hop r i lr li differ in rw h.reached h.expected;
  }

-- The constructor finds a rectangle whenever the root it starts from is not zero. A hop changes the
-- row if it has to, and then the column.
pub rook_routing-IsRouting :
    (n root : ℕ)
    → 0 < root
    → n + n < 18446744073709551616
    → (made : ℕ → Routing) × (side : ℕ) × ((r : ℕ) → rook_routing root r n ≡ some (made r))
      × IsRouting n made (rook_hops side)
unfolding rook_routing rook_with rook_scheme
rook_routing-IsRouting n root pos small =
    let (side, p, at_most, e, found) = find_factor_divides n root pos in
    let area : n / side * side ≡ n = omega (arith, div-add-mod' n side, e) in
    (
      rook_scheme side (n / side) n p area small,
      side,
      λ r. rw found refl,
      rook_scheme-IsRouting side (n / side) n p area small,
    )
