-- ===== src/Coalescing/Basic/Tests.antt =====
-- am++/basic_coalesced_message_type.hpp: tests, with room for two messages in a buffer.
use ampp.Prelude.{
  ℕ, ◌≡◌, refl, Bool, true, List, [], ◌∷◌, Option, if◌then◌else◌, ◌==◌, none, some, arith, ltb, ◌<◌,
  count,
}
use ampp.Coalescing.Basic.{
  Layer, Event, being_built, flush_object, sent, Op, sends, builds, flushes, init, alloc_each, run,
  flush, flush_in, send, message_being_built, built_in, step,
}
use ampp.Coalescing.Basic.Steps.{deliveries, Inv, history}
use ampp.Coalescing.Basic.Delivery.{sent_to, history-run, flush-drains}

abbrev below_four : ℕ → Bool
below_four r = ltb r 4

abbrev program : List (Op ℕ)
program = sends 10 1 ∷ sends 20 2 ∷ sends 11 1 ∷ sends 12 1 ∷ builds 3 ∷ flushes 1 ∷ []

abbrev program_events : List (Event ℕ)
program_events =
    flush_object 1
    ∷ being_built 1
    ∷ flush_object 2
    ∷ being_built 2
    ∷ sent 1 (10 ∷ 11 ∷ [])
    ∷ flush_object 1
    ∷ being_built 1
    ∷ being_built 3
    ∷ sent 1 (12 ∷ [])
    ∷ []

abbrev listed : List ℕ
listed = 0 ∷ 1 ∷ 2 ∷ 3 ∷ []

listed_complete : (r : ℕ) → below_four r ≡ true → 0 < count r listed
listed_complete r e = ground (arith, e)

history-run_example :
    (s0 : Layer ℕ) × (s : Layer ℕ) × (init 2 6 below_four listed ≡ some s0)
    × (run s0 program ≡ some s)
    × Inv s
    × ((r : ℕ) → history r s ≡ sent_to r program)
history-run_example =
    history-run 2 6 below_four listed program (omega arith)
      (omega arith, (omega arith, (omega arith, (omega arith, tt)))) listed_complete
      (
        omega arith,
        refl,
        (
          omega arith,
          refl,
          (omega arith, refl, (omega arith, refl, (omega arith, (omega arith, tt)))),
        ),
      )

ran : Option (Layer ℕ) → List (Op ℕ) → Option (Layer ℕ)
ran none os = none
ran (some s) os = run s os

events_of : Option (Layer ℕ) → List (Event ℕ)
events_of none = []
events_of (some s) = s.events

program_runs : events_of (ran (init 2 6 below_four listed) program) ≡ program_events
unfolding events_of ran run init alloc_each send message_being_built built_in flush flush_in step
program_runs = refl

abbrev one_waits : Layer ℕ
one_waits = record {
  num_ranks = 6;
  is_possible_dest = below_four;
  coalescing_size = 2;
  outgoing_buffers = λ r. record {
    valid = true;
    max_count = 2;
    items = if r == 1 then 7 ∷ [] else [];
    registered_with_td = r == 1;
  };
  events = flush_object 1 ∷ being_built 1 ∷ [];
}

one_waits-Inv : Inv one_waits
one_waits-Inv = record {
  some_room = omega arith;
  good = λ r. ground arith;
  tally = λ r. ground arith;
  fit = (tt, (tt, tt));
}

flush-drains_example :
    (did : Bool) × (s' : Layer ℕ) × (flush 1 one_waits ≡ some (did, s'))
    × (deliveries 1 s'.events ≡ history 1 one_waits)
    × ((r : ℕ) → history r s' ≡ history r one_waits)
flush-drains_example = flush-drains 1 one_waits refl one_waits-Inv
