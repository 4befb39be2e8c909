-- ===== src/Addressing/Routing/Straight.antt =====
-- am++/object_based_addressing.hpp: no_routing and ring_routing.
use ampp.Prelude.{
  ℕ, ◌+◌, ◌-◌, ◌%◌, ◌<◌, ◌≤◌, ◌≡◌, refl, ap, ◌∙◌, false, some, ltb, ◌==◌, if◌then◌else◌, arith, inl,
  inr, Bool-cases, mod_once, leb, ==-refl,
}
use ampp.Addressing.Ranks.{add64, sub64, all_ranks_except_me}
use ampp.Addressing.Routing.{
  no_routing, only, ring_possible_dests, ring_possible_sources, ring_routing,
}
use ampp.Addressing.Routing.Laws.{IsRouting}

pub add64_small : (a b : ℕ) → a + b < 18446744073709551616 → add64 a b ≡ a + b
unfolding add64
add64_small a b lt = omega (arith, lt)

pub sub64_small : (a b : ℕ) → b ≤ a → a < 18446744073709551616 → sub64 a b ≡ a - b
unfolding sub64
sub64_small a b le lt = omega (arith, le, lt)

-- Without routing, every other rank is one hop away.
pub one_hop : ℕ → ℕ → ℕ
one_hop r i = if r == i then 0 else 1

pub no_routing-IsRouting :
    (n : ℕ) → n < 18446744073709551616 → IsRouting n (λ r. no_routing r n) one_hop
unfolding no_routing one_hop all_ranks_except_me
no_routing-IsRouting n small = record {
  arrived = λ r i lr li e. ground (arith, e);
  inside = λ r i lr li differ. li;
  closer = λ r i lr li differ. ground (arith, differ);
  listed = λ r i lr li differ. elim (Bool-cases (ltb i r)) [
    | inl below ↦
        (i, ground (arith, sub64_small n 1 (omega (arith, li)) small, below, lr), rw below refl)
    | inr above ↦
        let out : ltb (i - 1) r ≡ false = ground (arith, above, differ) in
        let pos : 0 < i = ground (arith, above, differ) in
        (
          i - 1,
          omega (arith, sub64_small n 1 (omega (arith, li)) small, pos, li),
          rw (out, add64_small (i - 1) 1 (omega (arith, li, small))) (ap some (omega (arith, pos))),
        )
  ];
  allowed = λ r i lr li differ. ground (arith, li, differ);
  expected = λ r i lr li differ. ground (arith, lr, differ);
}

-- How far it is round the ring.
unfoldable pub way_round : ℕ → ℕ → ℕ → ℕ
way_round n r i = if leb r i then i - r else n + i - r

abbrev after : ℕ → ℕ → ℕ
after n r = if ltb (r + 1) n then r + 1 else 0

next_rank : (n r : ℕ) → n + n < 18446744073709551616 → r < n → add64 r 1 % n ≡ after n r
next_rank n r small lt =
    ap (λ (x : ℕ). x % n) (add64_small r 1 (omega (arith, small, lt)))
    ∙ mod_once (r + 1) n (omega (arith, lt))
    ∙ ground (arith, lt)

rank_before :
    (n r : ℕ)
    → n + n < 18446744073709551616
    → r < n
    → sub64 (add64 r n) 1 % n ≡ (if r == 0 then n - 1 else r - 1)
rank_before n r small lt =
    ap (λ (x : ℕ). sub64 x 1 % n) (add64_small r n (omega (arith, small, lt)))
    ∙ ap (λ (x : ℕ). x % n) (sub64_small (r + n) 1 (omega (arith, lt)) (omega (arith, small, lt)))
    ∙ mod_once (r + n - 1) n (omega (arith, lt))
    ∙ ground (arith, lt)

-- On a ring, every hop goes to the next rank.
pub ring_routing-IsRouting :
    (n : ℕ) → n + n < 18446744073709551616 → IsRouting n (λ r. ring_routing r n) (way_round n)
unfolding ring_routing ring_possible_dests ring_possible_sources way_round only
ring_routing-IsRouting n small = record {
  arrived = λ r i lr li e. ground (arith, e, lr, li);
  inside = λ r i lr li differ. ground (arith, next_rank n r small lr, differ, lr);
  closer = λ r i lr li differ. ground (arith, next_rank n r small lr, differ, lr, li);
  listed = λ r i lr li differ.
      let other : (i == r) ≡ false = ground (arith, differ) in (0, omega arith, rw other refl);
  allowed = λ r i lr li differ.
      let other : (i == r) ≡ false = ground (arith, differ) in rw other (==-refl (add64 r 1 % n));
  expected = λ r i lr li differ.
      let other : (i == r) ≡ false = ground (arith, differ) in
      rw (other, next_rank n r small lr, rank_before n (after n r) small (ground (arith, lr)))
        (ground (arith, lr));
}
