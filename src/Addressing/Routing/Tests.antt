-- ===== src/Addressing/Routing/Tests.antt =====
-- am++/object_based_addressing.hpp: the routing schemes on a few ranks.
use ampp.Prelude.{ℕ, ◌≡◌, refl, true, [], ◌∷◌, map, some, arith}
use ampp.Addressing.Ranks.{add64, sub64, neg64}
use ampp.Addressing.Routing.{
  Routing, no_routing, ring_routing, dissemination_routing, dissemination_next_hop,
  hypercube_routing, rook_routing, hypercube_next_hop, rook_rank_from_index, lowest_bit,
  find_factor, hypercube_possible_dests, at_most_one,
}
use ampp.Addressing.Routing.Laws.{IsRouting}
use ampp.Addressing.Routing.Straight.{one_hop, way_round}
use ampp.Addressing.Routing.Dissemination.{strides}
use ampp.Addressing.Routing.Hypercube.{hypercube_routing-IsRouting, hamming}
use ampp.Addressing.Routing.Rook.{rook_routing-IsRouting, rook_hops}
use ampp.Addressing.Routing.Schemes.{schemes-IsRouting}

schemes-IsRouting_example :
    IsRouting 6 (λ r. no_routing r 6) one_hop
    × IsRouting 6 (λ r. ring_routing r 6) (way_round 6)
    × IsRouting 6 (λ r. dissemination_routing r 6) (strides 6)
schemes-IsRouting_example = schemes-IsRouting 6 (omega arith)

hypercube_routing-IsRouting_example :
    (made : ℕ → Routing) × ((r : ℕ) → hypercube_routing r 8 ≡ some (made r))
    × IsRouting 8 made hamming
hypercube_routing-IsRouting_example = hypercube_routing-IsRouting 3 (omega arith)

rook_routing-IsRouting_example :
    (made : ℕ → Routing) × (side : ℕ) × ((r : ℕ) → rook_routing 3 r 12 ≡ some (made r))
    × IsRouting 12 made (rook_hops side)
rook_routing-IsRouting_example = rook_routing-IsRouting 12 3 (omega arith) (omega arith)

-- From 5 to 2 the hypercube settles the lowest digit first.
hypercube_hops :
    (hypercube_next_hop 5 2 ≡ 4) × (hypercube_next_hop 4 2 ≡ 6) × (hypercube_next_hop 6 2 ≡ 2)
unfolding hypercube_next_hop lowest_bit neg64 sub64
hypercube_hops = (refl, refl, refl)

dissemination_hops : (dissemination_next_hop 4 6 3 ≡ 5) × (dissemination_next_hop 5 6 3 ≡ 3)
unfolding dissemination_next_hop lowest_bit neg64 sub64 add64
dissemination_hops = (refl, refl)

-- Ten ranks from a root of three: the loop goes on to two.
ten_ranks : find_factor 10 3 ≡ some 2
unfolding find_factor
ten_ranks = refl

rook_places : map (rook_rank_from_index 4 3) (0 ∷ 1 ∷ 2 ∷ 3 ∷ 4 ∷ []) ≡ 3 ∷ 5 ∷ 1 ∷ 7 ∷ 10 ∷ []
unfolding rook_rank_from_index
rook_places = refl

-- A rank counts itself among the neighbours in the hypercube.
hypercube_self : (hypercube_possible_dests 5 3).is_valid 5 ≡ true
unfolding hypercube_possible_dests at_most_one sub64
hypercube_self = refl
