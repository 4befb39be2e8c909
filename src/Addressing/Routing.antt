-- ===== src/Addressing/Routing.antt =====
-- am++/object_based_addressing.hpp, the routing schemes: where a rank sends a message for another one,
-- and the ranks that it can send to and receive from. The floating-point root from which rook_routing
-- starts is an argument. `none` is an abort, a failed assertion or a division by zero.
pub mod Laws
pub mod Straight
pub mod Hypercube
pub mod Dissemination
pub mod Places
pub mod Rook
pub mod Schemes
mod Tests
use Prim.Native.Nat.{bit_and, bit_xor}
use ampp.Prelude.{
  ℕ, zero, suc, ◌+◌, ◌-◌, ◌*◌, ◌/◌, ◌%◌, ◌^◌, Bool, true, false, ◌&&◌, ◌||◌, not, Option, none,
  some, ltb, ◌==◌, if◌then◌else◌,
}
use ampp.Prelude.Bits.Width.{bit_width}
use ampp.Addressing.Ranks.{RankSet, add64, sub64, neg64, all_ranks_except_me}

pub record Routing : Type 0 where
  pub next_hop : ℕ → ℕ
  pub possible_dests : RankSet
  pub possible_sources : RankSet

unfoldable pub no_routing : ℕ → ℕ → Routing
no_routing my_rank sz = record {
  next_hop = λ i. i;
  possible_dests = all_ranks_except_me my_rank sz;
  possible_sources = all_ranks_except_me my_rank sz;
}

-- The one rank at an index.
only : ℕ → ℕ → Option ℕ
only r i = if i == 0 then some r else none

pub ring_possible_dests : ℕ → ℕ → RankSet
unfolding only
ring_possible_dests my_rank sz = record {
  is_valid = λ rank. rank == add64 my_rank 1 % sz;
  count = 1;
  rank_from_index = only (add64 my_rank 1 % sz);
}

pub ring_possible_sources : ℕ → ℕ → RankSet
unfolding only
ring_possible_sources my_rank sz = record {
  is_valid = λ rank. rank == sub64 (add64 my_rank sz) 1 % sz;
  count = 1;
  rank_from_index = only (sub64 (add64 my_rank sz) 1 % sz);
}

pub ring_routing : ℕ → ℕ → Routing
unfolding ring_possible_dests ring_possible_sources
ring_routing my_rank sz = record {
  next_hop = λ i. if i == my_rank then i else add64 my_rank 1 % sz;
  possible_dests = ring_possible_dests my_rank sz;
  possible_sources = ring_possible_sources my_rank sz;
}

-- delta & -delta
pub lowest_bit : ℕ → ℕ
lowest_bit delta = bit_and delta (neg64 delta)

-- Whether at most one digit of a number is one.
pub at_most_one : ℕ → Bool
at_most_one delta = bit_and delta (sub64 delta 1) == 0

-- rank_type(1) << i
abbrev pub shifted_one : ℕ → ℕ
shifted_one i = 2 ^ i % 2 ^ 64

pub hypercube_possible_dests : ℕ → ℕ → RankSet
unfolding at_most_one
hypercube_possible_dests my_rank lg_sz = record {
  is_valid = λ rank. at_most_one (bit_xor my_rank rank);
  count = lg_sz;
  rank_from_index = λ i. some (bit_xor my_rank (shifted_one i));
}

pub hypercube_next_hop : ℕ → ℕ → ℕ
unfolding lowest_bit
hypercube_next_hop my_rank i = bit_xor my_rank (lowest_bit (bit_xor i my_rank))

-- The constructor aborts if the number of ranks is not a power of two.
pub hypercube_routing : ℕ → ℕ → Option Routing
unfolding hypercube_possible_dests hypercube_next_hop at_most_one
hypercube_routing my_rank sz =
    let dests = hypercube_possible_dests my_rank (sub64 (bit_width sz) 1) in
    if not (at_most_one sz)
    then none
    else some (record {
      next_hop = hypercube_next_hop my_rank;
      possible_dests = dests;
      possible_sources = dests;
    })

pub dissemination_possible_dests : ℕ → ℕ → ℕ → RankSet
unfolding at_most_one
dissemination_possible_dests my_rank sz lg_sz = record {
  is_valid = λ rank. at_most_one (sub64 (add64 rank sz) my_rank % sz);
  count = lg_sz;
  rank_from_index = λ i. some (add64 my_rank (shifted_one i) % sz);
}

pub dissemination_possible_sources : ℕ → ℕ → ℕ → RankSet
unfolding at_most_one
dissemination_possible_sources my_rank sz lg_sz = record {
  is_valid = λ rank. at_most_one (sub64 (add64 my_rank sz) rank % sz);
  count = lg_sz;
  rank_from_index = λ i. some (sub64 (add64 my_rank sz) (shifted_one i) % sz);
}

pub dissemination_next_hop : ℕ → ℕ → ℕ → ℕ
unfolding lowest_bit
dissemination_next_hop my_rank sz i =
    add64 my_rank (lowest_bit (sub64 (add64 sz i) my_rank % sz)) % sz

pub dissemination_routing : ℕ → ℕ → Routing
unfolding dissemination_possible_dests dissemination_possible_sources dissemination_next_hop
dissemination_routing my_rank sz =
    let lg_sz = if ltb 1 sz then bit_width (sub64 sz 1) else 0 in
    record {
      next_hop = dissemination_next_hop my_rank sz;
      possible_dests = dissemination_possible_dests my_rank sz lg_sz;
      possible_sources = dissemination_possible_sources my_rank sz lg_sz;
    }

-- The loop of rook_routing's constructor, from `factor` down.
pub find_factor : ℕ → ℕ → Option ℕ
find_factor sz zero = none
find_factor sz (suc factor) =
    let rest = find_factor sz factor in
    if not (sz % suc factor == 0) then rest else some (suc factor)

abbrev one_if : Bool → ℕ
one_if b = if b then 1 else 0

pub rook_rank_from_index : ℕ → ℕ → ℕ → ℕ
rook_rank_from_index my_rank side1 i =
    if ltb i (side1 - 1)
    then (my_rank / side1 * side1 + i + one_if (not (ltb i (my_rank % side1)))) % 2 ^ 64
    else let j = i - (side1 - 1) in
      ((j + one_if (not (ltb j (my_rank / side1)))) * side1 + my_rank % side1) % 2 ^ 64

pub rook_possible_dests : ℕ → ℕ → ℕ → RankSet
unfolding rook_rank_from_index
rook_possible_dests my_rank side1 side2 = record {
  is_valid = λ rank.
      ((rank / side1 == my_rank / side1) || (rank % side1 == my_rank % side1))
      && not (rank == my_rank);
  count = sub64 (add64 side1 side2) 2;
  rank_from_index = λ i. some (rook_rank_from_index my_rank side1 i);
}

pub rook_next_hop : ℕ → ℕ → ℕ → ℕ
rook_next_hop my_rank side1 i =
    if i / side1 == my_rank / side1 then i else add64 (i / side1 * side1) (my_rank % side1)

-- The sides of the rectangle of ranks, and the scheme. The assertion that there are ranks is left out of
-- its operations: with no ranks the root is zero, and the constructor divides by it.
rook_with : ℕ → ℕ → Option ℕ → Option Routing
unfolding rook_possible_dests rook_next_hop
rook_with my_rank sz none = none
rook_with my_rank sz (some side1) =
    let dests = rook_possible_dests my_rank side1 (sz / side1) in
    some (record {
      next_hop = rook_next_hop my_rank side1;
      possible_dests = dests;
      possible_sources = dests;
    })

pub rook_routing : ℕ → ℕ → ℕ → Option Routing
unfolding find_factor rook_with
rook_routing root my_rank sz = rook_with my_rank sz (find_factor sz root)
