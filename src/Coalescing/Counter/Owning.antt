-- ===== src/Coalescing/Counter/Owning.antt =====
-- am++/counter_coalesced_message_type.hpp: steps of the thread that has closed the buffer.
use ampp.Prelude.{ℕ, ◌<◌, ◌≡◌, Bool, true, false, List, ◌∷◌, Option, none, leb, arith}
use ampp.Coalescing.Counter.{Buffer, Worker, sender_active, waiting, clearing, emptying, swapping}
use ampp.Coalescing.Counter.Totals.{
  sum, claims, pending, writes, closes, owns, target, extent, settled, registers, passes,
}
use ampp.Coalescing.Counter.Invariant.{Inv, threads_Any, is_full, breaks}

module _ {A : Type 0} where
  pub swapping_done :
      (m : ℕ) (x : ℕ) (b : Buffer A) (rest : List (Worker A))
      → Inv m b (swapping x ∷ rest)
      → 0 < x
      → x < m
      → b.count_allocated ≡ x
      → Inv m (record b { count_allocated = sender_active }) (waiting true x ∷ rest)
  unfolding claims pending writes closes owns target extent settled registers passes breaks
  swapping_done m x b rest inv pos lt at =
      let any = threads_Any m rest in
      let free : sum owns rest ≡ 0 = ground (arith, inv.owner, inv.active, inv.small, at, lt) in
      let open_slots : leb m b.count_allocated ≡ false = ground (arith, at, lt) in
      let no_target = any.no_target free in
      let no_extent = any.no_extent free in
      let no_settled = any.no_settled free in
      record {
        size = inv.size;
        some_slot = inv.some_slot;
        small = inv.small;
        owner =
            ground
              (arith, inv.owner, free, open_slots, pos, lt, at, no_target, no_extent, no_settled);
        room = ground (arith, any.claims-length, free);
        active = ground (arith, free);
        counted =
            ground
              (arith, inv.counted, free, open_slots, pos, lt, at, no_target, no_extent, no_settled);
        targets =
            ground
              (arith, inv.targets, free, open_slots, pos, lt, at, no_target, no_extent, no_settled);
        closer =
            ground
              (arith, inv.closer, free, open_slots, pos, lt, at, no_target, no_extent, no_settled);
        settles =
            ground
              (arith, inv.settles, free, open_slots, pos, lt, at, no_target, no_extent, no_settled);
        slot = λ i.
            ground
              (arith, inv.slot i, free, open_slots, pos, lt, at, no_target, no_extent, no_settled);
        registered = ground (
          arith, inv.registered, free, open_slots, pos, lt, at, no_target, no_extent, no_settled,
        );
        bounds = ground (arith, inv.bounds, pos, lt);
        sent_full = inv.sent_full;
        told =
            ground
              (arith, inv.told, free, open_slots, pos, lt, at, no_target, no_extent, no_settled);
      }

  pub waiting_done :
      (m : ℕ) (f : Bool) (c : ℕ) (b : Buffer A) (rest : List (Worker A))
      → Inv m b (waiting f c ∷ rest)
      → b.count_written ≡ c
      → Inv m b (clearing f c ∷ rest)
  unfolding claims pending writes closes owns target extent settled registers passes breaks
  waiting_done m f c b rest inv at =
      let any = threads_Any m rest in
      let free : sum owns rest ≡ 0 = omega (arith, inv.owner) in
      let no_target = any.no_target free in
      let no_extent = any.no_extent free in
      let no_settled = any.no_settled free in
      record {
        size = inv.size;
        some_slot = inv.some_slot;
        small = inv.small;
        owner = ground (arith, inv.owner, free, no_target, no_extent, no_settled, at);
        room = ground (arith, inv.room, free, no_target, no_extent, no_settled, at);
        active = ground (arith, inv.active, free, no_target, no_extent, no_settled, at);
        counted = ground (arith, inv.counted, free, no_target, no_extent, no_settled, at);
        targets = ground (arith, inv.targets, free, no_target, no_extent, no_settled, at);
        closer = ground (arith, inv.closer, free, no_target, no_extent, no_settled, at);
        settles = ground (arith, inv.settles, free, no_target, no_extent, no_settled, at);
        slot = λ i. ground (arith, inv.slot i, free, no_target, no_extent, no_settled, at);
        registered = ground (arith, inv.registered, free, no_target, no_extent, no_settled, at);
        bounds = ground (arith, inv.bounds, free, no_target, no_extent, no_settled, at);
        sent_full = inv.sent_full;
        told = ground (arith, inv.told, free, no_target, no_extent, no_settled, at);
      }

  pub waiting_registered :
      (m : ℕ) (f : Bool) (c : ℕ) (b : Buffer A) (rest : List (Worker A))
      → Inv m b (waiting f c ∷ rest)
      → b.count_written ≡ c
      → b.registered_with_td ≡ true
  unfolding claims pending writes closes owns target extent settled registers passes breaks
  waiting_registered m f c b rest inv at =
      let any = threads_Any m rest in
      let free : sum owns rest ≡ 0 = omega (arith, inv.owner) in
      let no_target = any.no_target free in
      let no_extent = any.no_extent free in
      let no_settled = any.no_settled free in
      let no_pending : sum pending rest ≡ 0 =
        ground (arith, inv.counted, inv.settles, free, no_target, no_settled, at) in
      ground (arith, inv.registered, any.registers_pending, no_pending, free, no_extent, inv.bounds)

  pub clearing_registered :
      (m : ℕ) (f : Bool) (c : ℕ) (b : Buffer A) (rest : List (Worker A))
      → Inv m b (clearing f c ∷ rest)
      → b.registered_with_td ≡ true
  unfolding claims pending writes closes owns target extent settled registers passes breaks
  clearing_registered m f c b rest inv =
      let any = threads_Any m rest in
      let free : sum owns rest ≡ 0 = omega (arith, inv.owner) in
      let no_target = any.no_target free in
      let no_extent = any.no_extent free in
      let no_settled = any.no_settled free in
      let no_pending : sum pending rest ≡ 0 =
        ground (arith, inv.counted, inv.settles, free, no_target, no_settled) in
      ground (arith, inv.registered, any.registers_pending, no_pending, free, no_extent, inv.bounds)

  pub clearing_done :
      (m : ℕ) (f : Bool) (c : ℕ) (items : List (Option A)) (b : Buffer A) (rest : List (Worker A))
      → Inv m b (clearing f c ∷ rest)
      → is_full m items ≡ true
      → Inv m
          (record b { slots = λ i. none; registered_with_td = false })
          (emptying f c items ∷ rest)
  unfolding claims pending writes closes owns target extent settled registers passes breaks
  clearing_done m f c items b rest inv full =
      let any = threads_Any m rest in
      let free : sum owns rest ≡ 0 = omega (arith, inv.owner) in
      let no_target = any.no_target free in
      let no_extent = any.no_extent free in
      let no_settled = any.no_settled free in
      let no_pending : sum pending rest ≡ 0 =
        ground (arith, inv.counted, inv.settles, free, no_target, no_settled) in
      let must_be : b.registered_with_td ≡ true = clearing_registered m f c b rest inv in
      record {
        size = inv.size;
        some_slot = inv.some_slot;
        small = inv.small;
        owner = ground (arith, inv.owner, free, no_target, no_extent, no_settled, no_pending);
        room = ground (arith, inv.room, free, no_target, no_extent, no_settled, no_pending);
        active = ground (arith, inv.active, free, no_target, no_extent, no_settled, no_pending);
        counted = ground (arith, inv.counted, free, no_target, no_extent, no_settled, no_pending);
        targets = ground (arith, inv.targets, free, no_target, no_extent, no_settled, no_pending);
        closer = ground (arith, inv.closer, free, no_target, no_extent, no_settled, no_pending);
        settles = ground (arith, inv.settles, free, no_target, no_extent, no_settled, no_pending);
        slot = λ i. ground (arith, any.slot_pending i, no_pending, free, no_extent);
        registered = ground (arith, free, no_extent);
        bounds = ground (arith, inv.bounds, full);
        sent_full = inv.sent_full;
        told = ground (arith, inv.told, must_be);
      }
