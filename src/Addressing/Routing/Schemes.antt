-- ===== src/Addressing/Routing/Schemes.antt =====
-- am++/object_based_addressing.hpp: the routing schemes for any number of ranks.
use ampp.Prelude.{ℕ, ◌+◌, ◌<◌, arith}
use ampp.Addressing.Routing.{no_routing, ring_routing, dissemination_routing}
use ampp.Addressing.Routing.Laws.{IsRouting}
use ampp.Addressing.Routing.Straight.{
  no_routing-IsRouting, ring_routing-IsRouting, one_hop, way_round,
}
use ampp.Addressing.Routing.Dissemination.{dissemination_routing-IsRouting, strides}

-- For fewer than 2^63 ranks, no routing is a routing scheme of one hop, ring routing is one of as many
-- hops as the way round the ring is long, and dissemination routing is one of as many hops as there are
-- ones among the binary digits of that way.
pub schemes-IsRouting :
    (n : ℕ)
    → n + n < 18446744073709551616
    → IsRouting n (λ r. no_routing r n) one_hop
      × IsRouting n (λ r. ring_routing r n) (way_round n)
      × IsRouting n (λ r. dissemination_routing r n) (strides n)
schemes-IsRouting n small = (
  no_routing-IsRouting n (omega (arith, small)),
  ring_routing-IsRouting n small,
  dissemination_routing-IsRouting n small,
)
