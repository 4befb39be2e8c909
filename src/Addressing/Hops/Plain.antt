-- ===== src/Addressing/Hops/Plain.antt =====
-- am++/object_based_addressing.hpp: object_based_addressing and its version with routing, side by side.
use mathlib.Core.Option
use ampp.Prelude.{ℕ, ◌<◌, ◌≡◌, refl, ◌==◌, inl, inr, Bool-cases, lt→ltb}
use ampp.Addressing.Direct
use ampp.Addressing.Direct.{Outcome, object_based_addressing, set_handler}
use ampp.Addressing.Routing.{no_routing}
use ampp.Addressing.Hops.{dest_hbr, set_dest_handler, on_arrival, arrive_at}
use ampp.Addressing.Hops

-- Where the owner of a message is a rank, a send without routing leads to the same call or send as one
-- through no_routing, whatever the rank it is made on.
pub send-no_routing :
    {H A : Type 0} (h default : H) (rank size : ℕ) (owner : A → ℕ) (a : A)
    → owner a < size
    → Option.bind
        (set_handler h (object_based_addressing default rank size owner (λ arg. arg)))
        (Direct.send a)
      ≡ Option.bind
          (set_dest_handler h (dest_hbr rank size owner (no_routing rank size)))
          (Hops.send a)
unfolding Option.bind set_handler set_dest_handler object_based_addressing dest_hbr no_routing
    Direct.send Hops.send on_arrival arrive_at Direct.send_by Direct.get_handler Direct.called_by
send-no_routing h default rank size owner a lt =
    rw (lt→ltb (owner a) size lt)
      (elim (Bool-cases (owner a == rank)) [ inl own ↦ rw own refl | inr other ↦ rw other refl ])
