-- ===== src/Addressing/Routing/Dissemination.antt =====
-- am++/object_based_addressing.hpp: dissemination_routing.
use ampp.Prelude.{
  ℕ, suc, ◌+◌, ◌-◌, ◌%◌, ◌^◌, ◌<◌, ◌≤◌, ◌≡◌, ◌≢◌, refl, sym, ap, subst, ◌∙◌, true, some,
  if◌then◌else◌, ltb, arith, mod_once,
}
use ampp.Prelude.Bits.Lowest.{
  lowest_one, ones, lowest_one-pos, lowest_one-le, ones-lowest_one, ones-eq_zero, lowest_one-power,
}
use ampp.Prelude.Bits.Width.{bit_width, lt-bit_width}
use ampp.Addressing.Ranks.{add64, sub64}
use ampp.Addressing.Routing.{
  lowest_bit, at_most_one, shifted_one, dissemination_possible_dests,
  dissemination_possible_sources, dissemination_next_hop, dissemination_routing,
}
use ampp.Addressing.Routing.Laws.{IsRouting}
use ampp.Addressing.Routing.Straight.{add64_small, sub64_small, way_round}
use ampp.Addressing.Routing.Hypercube.{lowest_bit-eq, at_most_one-lowest_one, shifted_one_small}

-- How many digits of the way round the ring are one.
pub strides : ℕ → ℕ → ℕ → ℕ
unfolding way_round
strides n r i = ones (way_round n r i)

add64_swap : (a b : ℕ) → add64 a b ≡ add64 b a
unfolding add64
add64_swap a b = omega arith

stays : (n r i : ℕ) → r < n → i < n → way_round n r i ≡ 0 → r ≡ i
unfolding way_round
stays n r i lr li e = ground (arith, e, lr, li)

module _ (n : ℕ) (small : n + n < 18446744073709551616) where
  between : (r i : ℕ) → r < n → i < n → sub64 (add64 i n) r % n ≡ way_round n r i
  unfolding way_round
  between r i lr li =
      ap (λ (x : ℕ). sub64 x r % n) (add64_small i n (omega (arith, li, small)))
      ∙ ap (λ (x : ℕ). x % n) (sub64_small (i + n) r (omega (arith, lr)) (omega (arith, li, small)))
      ∙ mod_once (i + n - r) n (omega (arith, lr, li))
      ∙ ground (arith, lr, li)

  -- What a rank computes for another one: the way to it, the first stride, and where that leads.
  record Stride (r i d l next : ℕ) : Type 0 where
    pub way : way_round n r i ≡ d
    pub pos : 0 < d
    pub lt : d < n
    pub low : lowest_one d ≡ l
    pub low_bit : lowest_bit (sub64 (add64 n i) r % n) ≡ l
    pub low_pos : 0 < l
    pub low_le : l ≤ d
    pub place : next ≡ (if ltb (r + l) n then r + l else r + l - n)
    pub reached : dissemination_next_hop r n i ≡ next

  stride : (r i : ℕ) → r < n → i < n → r ≢ i → (d l next : ℕ) × Stride r i d l next
  unfolding dissemination_next_hop way_round
  stride r i lr li differ =
      let d = way_round n r i in
      let l = lowest_one d in
      let pos : 0 < d = ground (arith, lr, li, differ) in
      let lt : d < n = ground (arith, lr, li, differ) in
      let le = lowest_one-le d pos in
      let same : sub64 (add64 n i) r % n ≡ d =
        ap (λ (x : ℕ). sub64 x r % n) (add64_swap n i) ∙ between r i lr li in
      let low_bit = ap lowest_bit same ∙ lowest_bit-eq d pos (omega (arith, lt, small)) in
      (
        d,
        l,
        if ltb (r + l) n then r + l else r + l - n,
        record {
          way = refl;
          pos = pos;
          lt = lt;
          low = refl;
          low_bit = low_bit;
          low_pos = lowest_one-pos d pos;
          low_le = le;
          place = refl;
          reached =
              ap (λ (x : ℕ). add64 r x % n) low_bit
              ∙ ap (λ (x : ℕ). x % n) (add64_small r l (omega (arith, lr, le, lt, small)))
              ∙ mod_once (r + l) n (omega (arith, lr, le, lt));
        },
      )

  module _ {r i d l next : ℕ} (lr : r < n) (li : i < n) (s : Stride r i d l next) where
    next-lt : next < n
    next-lt = ground (arith, s.place, s.low_le, s.lt, lr)

    -- The way that is left.
    way_left : way_round n next i ≡ d - l
    unfolding way_round
    way_left = ground (arith, s.way, s.place, s.low_le, s.low_pos, s.lt, lr, li)

    -- The stride, seen from both ends.
    way_taken : way_round n r next ≡ l
    unfolding way_round
    way_taken = ground (arith, s.place, s.low_le, s.low_pos, s.lt, lr)

    valid_stride : at_most_one (sub64 (add64 next n) r % n) ≡ true
    valid_stride =
        ap at_most_one (between r next lr next-lt ∙ way_taken ∙ sym s.low)
        ∙ at_most_one-lowest_one d s.pos (omega (arith, s.lt, small))

    fewer : suc (strides n next i) ≤ strides n r i
    unfolding strides
    fewer =
        let left : d - l ≡ d - lowest_one d = ap (λ (x : ℕ). d - x) (sym s.low) in
        omega (arith, ap ones (way_left ∙ left), ap ones s.way, ones-lowest_one d s.pos)

    found :
        (j : ℕ) × (j < (if ltb 1 n then bit_width (sub64 n 1) else 0))
        × (add64 r (shifted_one j) % n ≡ next)
    unfolding dissemination_next_hop
    found =
        let (j, e) = lowest_one-power d s.pos in
        let below : 2 ^ j ≤ n - 1 = omega (arith, e, s.low, s.low_le, s.lt) in
        let count = lt-bit_width j (n - 1) below in
        let sub = sub64_small n 1 (omega (arith, lr)) (omega (arith, small)) in
        let many : ltb 1 n ≡ true = ground (arith, s.pos, s.lt) in
        (
          j,
          rw (many, sub) count,
          ap (λ (x : ℕ). add64 r x % n)
                (shifted_one_small j (omega (arith, below, small)) ∙ sym e ∙ s.low ∙ sym s.low_bit)
              ∙ s.reached,
        )

  -- Every hop settles the lowest of the digits of the way that is left.
  pub dissemination_routing-IsRouting : IsRouting n (λ r. dissemination_routing r n) (strides n)
  unfolding dissemination_routing dissemination_possible_dests dissemination_possible_sources
      strides
  dissemination_routing-IsRouting = record {
    arrived = λ r i lr li e. stays n r i lr li (ones-eq_zero (way_round n r i) e);
    inside = λ r i lr li differ.
        let (d, l, next, s) = stride r i lr li differ in
        subst (λ (x : ℕ). x < n) (sym s.reached) (next-lt lr li s);
    closer = λ r i lr li differ.
        let (d, l, next, s) = stride r i lr li differ in
        subst (λ (x : ℕ). suc (strides n x i) ≤ strides n r i) (sym s.reached) (fewer lr li s);
    listed = λ r i lr li differ.
        let (d, l, next, s) = stride r i lr li differ in
        let (j, lt, e) = found lr li s in (j, lt, ap some (e ∙ sym s.reached));
    allowed = λ r i lr li differ.
        let (d, l, next, s) = stride r i lr li differ in
        subst (λ (x : ℕ). at_most_one (sub64 (add64 x n) r % n) ≡ true) (sym s.reached)
          (valid_stride lr li s);
    expected = λ r i lr li differ.
        let (d, l, next, s) = stride r i lr li differ in
        subst (λ (x : ℕ). at_most_one (sub64 (add64 x n) r % n) ≡ true) (sym s.reached)
          (valid_stride lr li s);
  }
