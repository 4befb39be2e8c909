-- ===== src/Addressing/Routing/Hypercube.antt =====
-- am++/object_based_addressing.hpp: hypercube_routing.
use Prim.Native.Nat.{bit_and, bit_xor}
use ampp.Prelude.{ℕ, ◌+◌, ◌-◌, ◌%◌, ◌^◌, ◌<◌, ◌≡◌, ◌≢◌, refl, sym, ap, ◌∙◌, true, some, arith}
use ampp.Prelude.Bits.{bit_xor_comm, bit_xor_assoc, bit_xor_cancel, bit_xor-zero_eq, bit_xor-lt}
use ampp.Prelude.Bits.Lowest.{
  lowest_one, ones, lowest_one-pos, lowest_one-le, bit_xor-lowest_one, ones-lowest_one,
  ones-eq_zero, bit_and_negated, bit_and-lowest_one, lowest_one-power,
}
use ampp.Prelude.Bits.Width.{
  bit_width, pow_pos, pow-lt_inverse, lt-bit_width, bit_and_power, bit_width-le,
}
use ampp.Addressing.Ranks.{RankSet, sub64, neg64}
use ampp.Addressing.Routing.{
  Routing, lowest_bit, at_most_one, shifted_one, hypercube_possible_dests, hypercube_next_hop,
  hypercube_routing,
}
use ampp.Addressing.Routing.Laws.{IsRouting}
use ampp.Addressing.Routing.Straight.{sub64_small}

pub lowest_bit-eq : (d : ℕ) → 0 < d → d < 18446744073709551616 → lowest_bit d ≡ lowest_one d
unfolding lowest_bit neg64 sub64
lowest_bit-eq d pos lt =
    let negated : (0 + 2 ^ 64 - d) % 2 ^ 64 ≡ 18446744073709551616 - d = omega (arith, pos, lt) in
    ap (bit_and d) negated
    ∙ bit_and_negated 64 d (18446744073709551616 - d) pos (omega (arith, lt)) (omega (arith, lt))

pub at_most_one-lowest_one :
    (d : ℕ) → 0 < d → d < 18446744073709551616 → at_most_one (lowest_one d) ≡ true
unfolding at_most_one
at_most_one-lowest_one d pos lt =
    let low = lowest_one d in
    rw
      (
        sub64_small low 1 (omega (arith, lowest_one-pos d pos))
            (omega (arith, lowest_one-le d pos, lt)),
        bit_and-lowest_one d pos,
      )
      refl

pub shifted_one_small : (j : ℕ) → 2 ^ j < 18446744073709551616 → shifted_one j ≡ 2 ^ j
shifted_one_small j lt = omega (arith, lt)

-- In how many digits two ranks differ.
pub hamming : ℕ → ℕ → ℕ
hamming r i = ones (bit_xor i r)

-- The distance in the hypercube after a hop.
xor_next : (r i l : ℕ) → bit_xor i (bit_xor r l) ≡ bit_xor (bit_xor i r) l
xor_next r i l = sym (bit_xor_assoc i r l)

module _ (k : ℕ) (small : 2 ^ k < 18446744073709551616) where
  -- What a rank computes for another one.
  record Hop (r i : ℕ) : Type 0 where
    pub delta_pos : 0 < bit_xor i r
    pub delta_lt : bit_xor i r < 2 ^ k
    pub low : lowest_bit (bit_xor i r) ≡ lowest_one (bit_xor i r)

  hop : (r i : ℕ) → r < 2 ^ k → i < 2 ^ k → r ≢ i → Hop r i
  hop r i lr li differ =
      let lt = bit_xor-lt k i r li lr in
      let pos : 0 < bit_xor i r = ground (arith, differ, bit_xor-zero_eq i r) in
      record {
        delta_pos = pos;
        delta_lt = lt;
        low = lowest_bit-eq (bit_xor i r) pos (omega (arith, lt, small));
      }

  abbrev dests : ℕ → RankSet
  dests r = hypercube_possible_dests r (sub64 (bit_width (2 ^ k)) 1)

  abbrev scheme : ℕ → Routing
  scheme r = record {
    next_hop = hypercube_next_hop r;
    possible_dests = dests r;
    possible_sources = dests r;
  }

  whole : at_most_one (2 ^ k) ≡ true
  unfolding at_most_one
  whole = rw (sub64_small (2 ^ k) 1 (omega (arith, pow_pos k)) small, bit_and_power k) refl

  -- With a power of two of ranks the constructor succeeds. Every hop settles one of the digits in
  -- which the ranks differ.
  pub hypercube_routing-IsRouting :
      (made : ℕ → Routing) × ((r : ℕ) → hypercube_routing r (2 ^ k) ≡ some (made r))
      × IsRouting (2 ^ k) made hamming
  unfolding hypercube_routing hypercube_next_hop hypercube_possible_dests hamming
  hypercube_routing-IsRouting = (
    scheme,
    λ r. rw whole refl,
    record {
      arrived = λ r i lr li e. bit_xor-zero_eq i r (ones-eq_zero (bit_xor i r) e);
      inside = λ r i lr li differ.
          let h = hop r i lr li differ in
          rw h.low (
            bit_xor-lt k r (lowest_one (bit_xor i r)) lr
              (omega (arith, lowest_one-le (bit_xor i r) h.delta_pos, h.delta_lt)));
      closer = λ r i lr li differ.
          let h = hop r i lr li differ in
          let d = bit_xor i r in
          let left : bit_xor d (lowest_one d) ≡ d - lowest_one d =
            omega (arith, bit_xor-lowest_one d h.delta_pos) in
          omega (
            arith,
            ap (λ (x : ℕ). ones (bit_xor i (bit_xor r x))) h.low,
            ap ones (xor_next r i (lowest_one d) ∙ left),
            ones-lowest_one d h.delta_pos,
          );
      listed = λ r i lr li differ.
          let h = hop r i lr li differ in
          let d = bit_xor i r in
          let (j, e) = lowest_one-power d h.delta_pos in
          let le = lowest_one-le d h.delta_pos in
          let below : 2 ^ j < 2 ^ k = omega (arith, le, h.delta_lt, e) in
          (
            j,
            omega (
              arith,
              pow-lt_inverse j k below,
              lt-bit_width k (2 ^ k) (omega arith),
              sub64_small (bit_width (2 ^ k)) 1
                  (omega (arith, lt-bit_width k (2 ^ k) (omega arith)))
                  (omega (arith, bit_width-le (2 ^ k), small)),
            ),
            ap (λ (x : ℕ). some (bit_xor r x))
                (shifted_one_small j (omega (arith, below, small)) ∙ sym e ∙ sym h.low),
          );
      allowed = λ r i lr li differ.
          let h = hop r i lr li differ in
          rw (h.low, bit_xor_cancel r (lowest_one (bit_xor i r)))
            (at_most_one-lowest_one (bit_xor i r) h.delta_pos (omega (arith, h.delta_lt, small)));
      expected = λ r i lr li differ.
          let h = hop r i lr li differ in
          rw
            (
              h.low,
              bit_xor_comm (bit_xor r (lowest_one (bit_xor i r))) r,
              bit_xor_cancel r (lowest_one (bit_xor i r)),
            )
            (at_most_one-lowest_one (bit_xor i r) h.delta_pos (omega (arith, h.delta_lt, small)));
    },
  )
