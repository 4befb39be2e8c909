-- ===== src/Addressing/Hops/Tests.antt =====
-- am++/object_based_addressing.hpp: messages handed on round a ring of six ranks. A message is a number,
-- and the rank that owns it is its last digit to the base of six.
use mathlib.Core.Option
use ampp.Prelude.{
  ℕ, ◌%◌, ◌<◌, ◌≡◌, refl, List, [], ◌∷◌, ◌++◌, map, replicate, some, none, All, arith,
}
use ampp.Addressing.Direct
use ampp.Addressing.Direct.{Outcome, object_based_addressing, set_handler}
use ampp.Addressing.Routing.{no_routing, ring_routing}
use ampp.Addressing.Routing.Schemes.{schemes-IsRouting}
use ampp.Addressing.Routing.Straight.{way_round}
use ampp.Addressing.Hops
use ampp.Addressing.Hops.{dest_hbr, set_dest_handler, arrive_at}
use ampp.Addressing.Hops.Delivery.{Network, Event, request, deliver, run_from, quiet, ranks}
use ampp.Prelude.Sums.{sum}
use ampp.Addressing.Hops.Arrival.{FromRanks, requested, effort, run_sound, run-arrives}
use ampp.Addressing.Hops.Plain.{send-no_routing}

abbrev wanted : List (Event ℕ)
wanted = request 0 10 ∷ deliver 0 ∷ request 5 9 ∷ []

abbrev handler : ℕ
handler = 7

abbrev owner : ℕ → ℕ
owner a = a % 6

wanted-FromRanks : FromRanks 6 wanted
unfolding FromRanks
wanted-FromRanks = (omega arith, (omega arith, tt))

owner-lt : (a : ℕ) → owner a < 6
owner-lt a = omega arith

run_sound_example :
    (net : Network ℕ) × (run_from 6
        (ranks handler 6 owner (λ r. ring_routing r 6))
        wanted
        (some quiet)
      ≡ some net)
    × All (λ (m : ℕ × ℕ). m.0 < 6) net.in_flight
    × All (λ (m : ℕ × ℕ). m.0 ≡ owner m.1) net.handled
run_sound_example =
    run_sound handler 6 owner (λ r. ring_routing r 6) (way_round 6)
      (schemes-IsRouting 6 (omega arith)).1 owner-lt wanted wanted-FromRanks

wanted-effort : effort owner (way_round 6) wanted ≡ 8
unfolding effort way_round
wanted-effort = refl

run-arrives_example :
    (net : Network ℕ) × (run_from 6
        (ranks handler 6 owner (λ r. ring_routing r 6))
        (wanted ++ map deliver (replicate 8 1))
        (some quiet)
      ≡ some net)
    × (net.in_flight ≡ [])
    × All (λ (m : ℕ × ℕ). m.0 ≡ owner m.1) net.handled
    × ((w : ℕ → ℕ) → sum (λ (m : ℕ × ℕ). w m.1) net.handled ≡ requested w wanted)
run-arrives_example =
    run-arrives handler 6 owner (λ r. ring_routing r 6) (way_round 6)
      (schemes-IsRouting 6 (omega arith)).1 owner-lt wanted (replicate 8 1) wanted-FromRanks
      (omega (arith, wanted-effort))

send-no_routing_example :
    Option.bind
      (set_handler handler (object_based_addressing 0 2 6 owner (λ arg. arg)))
      (Direct.send 9)
    ≡ Option.bind (set_dest_handler handler (dest_hbr 2 6 owner (no_routing 2 6))) (Hops.send 9)
send-no_routing_example = send-no_routing handler 0 2 6 owner 9 (omega arith)

-- A send before the handler is set.
send_early : Hops.send 9 (dest_hbr {H = ℕ} 2 6 owner (no_routing 2 6)) ≡ none
unfolding Hops.send dest_hbr arrive_at Hops.on_arrival object_based_addressing Direct.get_handler
send_early = refl
