-- ===== src/Addressing/Hops/Delivery.antt =====
-- am++/object_based_addressing.hpp: object_based_addressing_dest_hbr on every rank, and the messages on
-- their way between the ranks, which are delivered in any order. A send to a rank that is not one of
-- the possible destinations of the sender is a failed assertion of the coalesced message type, and so
-- is a send to what is no rank: `none`.
use ampp.Prelude.{ℕ, zero, suc, ◌&&◌, List, [], ◌∷◌, ◌++◌, Option, none, some, ltb, if◌then◌else◌}
use ampp.Addressing.Direct.{Outcome, called, sent}
use ampp.Addressing.Routing.{Routing}
use ampp.Addressing.Hops.{DestHbr, arrive, send, dest_hbr, set_dest_handler}

-- The messages on their way, with the rank that each is for, and those that were handled, with the rank
-- that handled each.
pub record Network (A : Type 0) : Type 0 where
  pub in_flight : List (ℕ × A)
  pub handled : List (ℕ × A)

-- A call of `send` on a rank, or the delivery of one of the messages on their way.
pub data Event (A : Type 0) : Type 0 where
  request : ℕ → A → Event A
  deliver : ℕ → Event A

-- One of the elements, the last one if the index is too high, and the others.
unfoldable pub pick : {X : Type 0} → ℕ → List X → Option (X × List X)
pick k [] = none
pick zero (x ∷ xs) = some (x, xs)
pick (suc k) (x ∷ xs) = elim (pick k xs) [ none ↦ some (x, xs) | some (y, ys) ↦ some (y, x ∷ ys) ]

module _ {H A : Type 0} (size : ℕ) (at : ℕ → DestHbr H A) where
  unfoldable pub perform : ℕ → Network A → Option (Outcome H A) → Option (Network A)
  perform r net none = none
  perform r net (some (called h a)) = some (record net { handled = (r, a) ∷ net.handled })
  perform r net (some (sent a nx tid)) =
      if ltb nx size && (at r).routing.possible_dests.is_valid nx
      then some (record net { in_flight = net.in_flight ++ (nx, a) ∷ [] })
      else none

  unfoldable pub delivered : Network A → Option ((ℕ × A) × List (ℕ × A)) → Option (Network A)
  unfolding perform
  delivered net none = some net
  delivered net (some ((r, a), rest)) =
      perform r (record net { in_flight = rest }) (arrive (at r) a)

  unfoldable pub step : Event A → Network A → Option (Network A)
  unfolding perform delivered pick
  step (request r a) net = perform r net (send a (at r))
  step (deliver k) net = delivered net (pick k net.in_flight)

  unfoldable pub run_from : List (Event A) → Option (Network A) → Option (Network A)
  unfolding step
  run_from [] net = net
  run_from (e ∷ es) none = none
  run_from (e ∷ es) (some net) = run_from es (step e net)

-- An empty network.
abbrev pub quiet : {A : Type 0} → Network A
quiet = record { in_flight = []; handled = [] }

-- The addressing of a rank once its handler is set.
unfoldable pub ready : {H A : Type 0} → Option (DestHbr H A) → DestHbr H A → DestHbr H A
ready none oba = oba
ready (some set) oba = set

-- Every rank with its scheme and its handler.
unfoldable pub ranks : {H A : Type 0} → H → ℕ → (A → ℕ) → (ℕ → Routing) → ℕ → DestHbr H A
unfolding dest_hbr set_dest_handler ready
ranks h size owner scheme r =
    let oba = dest_hbr r size owner (scheme r) in ready (set_dest_handler h oba) oba
