-- ===== src/Addressing/Hops.antt =====
-- am++/object_based_addressing.hpp: oba_dest_hbr_handler and object_based_addressing_dest_hbr, which
-- hand a message on from rank to rank. `none` is a failed assertion, or the null pointer of a handler
-- that no addressing was given to.
pub mod Delivery
pub mod Moves
pub mod Arrival
pub mod Plain
mod Tests
use ampp.Prelude.{ℕ, Bool, true, not, Option, none, some, ◌==◌, if◌then◌else◌}
use ampp.Addressing.Direct.{
  Outcome, called, sent, ObjectBasedAddressing, object_based_addressing, set_handler, get_handler,
}
use ampp.Addressing.Routing.{Routing}

-- oba_dest_hbr_handler: without an addressing, or with one and its rank.
pub data DestHandler (H : Type 0) : Type 0 where
  unbound : DestHandler H
  bound : ℕ → H → DestHandler H

pub record DestHbr (H A : Type 0) : Type 0 where
  pub base : ObjectBasedAddressing (DestHandler H) A
  pub initialized : Bool
  pub routing : Routing

-- The constructor. All of a message is sent.
unfoldable pub dest_hbr : {H A : Type 0} → ℕ → ℕ → (A → ℕ) → Routing → DestHbr H A
unfolding object_based_addressing
dest_hbr rank size owner routing = record {
  base = object_based_addressing unbound rank size owner (λ arg. arg);
  initialized = true;
  routing = routing;
}

-- oba_dest_hbr_handler::operator()
unfoldable pub on_arrival : {H A : Type 0} → DestHbr H A → A → DestHandler H → Option (Outcome H A)
on_arrival oba arg unbound = none
on_arrival oba arg (bound my_rank h) =
    let o = oba.base.owner arg in
    some (if o == my_rank then called h arg else sent arg (oba.routing.next_hop o) none)

unfoldable pub set_dest_handler : {H A : Type 0} → H → DestHbr H A → Option (DestHbr H A)
unfolding set_handler
set_dest_handler h oba =
    if not oba.initialized
    then none
    else with_base oba (set_handler (bound oba.base.my_rank h) oba.base)
  where
    with_base :
        {H A : Type 0}
        → DestHbr H A
        → Option (ObjectBasedAddressing (DestHandler H) A)
        → Option (DestHbr H A)
    with_base oba none = none
    with_base oba (some base) = some (record oba { base = base })

-- The call of the handler that was found.
unfoldable pub arrive_at :
    {H A : Type 0} → DestHbr H A → A → Option (DestHandler H) → Option (Outcome H A)
unfolding on_arrival
arrive_at oba arg none = none
arrive_at oba arg (some h) = on_arrival oba arg h

-- A message that the transport hands to this rank.
unfoldable pub arrive : {H A : Type 0} → DestHbr H A → A → Option (Outcome H A)
unfolding on_arrival
arrive oba arg = on_arrival oba arg oba.base.handler

unfoldable pub send : {H A : Type 0} → A → DestHbr H A → Option (Outcome H A)
unfolding get_handler arrive_at
send arg oba = if not oba.initialized then none else arrive_at oba arg (get_handler oba.base)

-- The thread is not passed on.
unfoldable pub send_with_tid : {H A : Type 0} → A → ℕ → DestHbr H A → Option (Outcome H A)
unfolding get_handler arrive_at
send_with_tid arg tid oba =
    if not oba.initialized then none else arrive_at oba arg (get_handler oba.base)
