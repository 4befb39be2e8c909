-- ===== src/Coalescing/Counter/Passing.antt =====
-- am++/counter_coalesced_message_type.hpp: how a thread lets go of the buffer and passes it on.
use ampp.Prelude.{
  ℕ, ◌≡◌, Bool, true, false, List, [], ◌∷◌, ◌++◌, Option, arith, All-append, length-append,
}
use ampp.Coalescing.Counter.{
  Buffer, Worker, return_to, idle, sent_one, emptying, releasing, passing,
}
use ampp.Coalescing.Counter.Totals.{
  sum, claims, pending, writes, closes, owns, target, extent, settled, registers, passes,
}
use ampp.Coalescing.Counter.Invariant.{Inv, threads_Any, is_full, breaks}

module _ {A : Type 0} where
  pub emptying_done :
      (m : ℕ) (f : Bool) (c : ℕ) (items : List (Option A)) (b : Buffer A) (rest : List (Worker A))
      → Inv m b (emptying f c items ∷ rest)
      → Inv m (record b { count_written = 0 }) (releasing f items ∷ rest)
  unfolding claims pending writes closes owns target extent settled registers passes breaks
  emptying_done m f c items b rest inv =
      let any = threads_Any m rest in
      let free : sum owns rest ≡ 0 = omega (arith, inv.owner) in
      let no_target = any.no_target free in
      let no_extent = any.no_extent free in
      let no_settled = any.no_settled free in
      let no_pending : sum pending rest ≡ 0 =
        ground (arith, inv.counted, inv.settles, free, no_target, no_settled) in
      record {
        size = inv.size;
        some_slot = inv.some_slot;
        small = inv.small;
        owner = ground (arith, inv.owner, free, no_target, no_extent, no_settled, no_pending);
        room = ground (arith, inv.room, free, no_target, no_extent, no_settled, no_pending);
        active = ground (arith, inv.active, free, no_target, no_extent, no_settled, no_pending);
        counted = ground (arith, inv.counted, free, no_target, no_extent, no_settled, no_pending);
        targets = ground (arith, inv.targets, free, no_target, no_extent, no_settled, no_pending);
        closer = ground (arith, inv.closer, free, no_target, no_extent, no_settled, no_pending);
        settles = ground (arith, inv.settles, free, no_target, no_extent, no_settled, no_pending);
        slot = λ i. ground (arith, inv.slot i, free, no_target, no_extent, no_settled, no_pending);
        registered =
            ground (arith, inv.registered, free, no_target, no_extent, no_settled, no_pending);
        bounds = ground (arith, inv.bounds, free, no_target, no_extent, no_settled, no_pending);
        sent_full = inv.sent_full;
        told = ground (arith, inv.told, free, no_target, no_extent, no_settled, no_pending);
      }

  pub releasing_done :
      (m : ℕ) (f : Bool) (items : List (Option A)) (b : Buffer A) (rest : List (Worker A))
      → Inv m b (releasing f items ∷ rest)
      → Inv m (record b { count_allocated = 0 }) (passing f items ∷ rest)
  unfolding claims pending writes closes owns target extent settled registers passes breaks
  releasing_done m f items b rest inv =
      let any = threads_Any m rest in
      let free : sum owns rest ≡ 0 = omega (arith, inv.owner) in
      let no_target = any.no_target free in
      let no_extent = any.no_extent free in
      let no_settled = any.no_settled free in
      record {
        size = inv.size;
        some_slot = inv.some_slot;
        small = inv.small;
        owner = ground (arith, inv.owner, free, no_target, no_extent, no_settled, inv.some_slot);
        room = ground (arith, any.claims-length, free);
        active = ground (arith, inv.active, free, no_target, no_extent, no_settled, inv.some_slot);
        counted =
            ground (arith, inv.counted, free, no_target, no_extent, no_settled, inv.some_slot);
        targets =
            ground (arith, inv.targets, free, no_target, no_extent, no_settled, inv.some_slot);
        closer = ground (arith, inv.closer, free, no_target, no_extent, no_settled, inv.some_slot);
        settles =
            ground (arith, inv.settles, free, no_target, no_extent, no_settled, inv.some_slot);
        slot =
            λ i. ground (arith, inv.slot i, free, no_target, no_extent, no_settled, inv.some_slot);
        registered =
            ground (arith, inv.registered, free, no_target, no_extent, no_settled, inv.some_slot);
        bounds = ground (arith, inv.bounds, free, no_target, no_extent, no_settled, inv.some_slot);
        sent_full = inv.sent_full;
        told = ground (arith, inv.told, free, no_target, no_extent, no_settled, inv.some_slot);
      }

  pub passing_idle :
      (m : ℕ) (items : List (Option A)) (b : Buffer A) (rest : List (Worker A))
      → Inv m b (passing true items ∷ rest)
      → Inv m (record b { sent = b.sent ++ items ∷ [] }) (idle ∷ rest)
  unfolding claims pending writes closes owns target extent settled registers passes breaks
  passing_idle m items b rest inv =
      let any = threads_Any m rest in
      let full : is_full m items ≡ true = ground (arith, inv.bounds) in
      record {
        size = inv.size;
        some_slot = inv.some_slot;
        small = inv.small;
        owner = ground (arith, inv.owner);
        room = ground (arith, inv.room);
        active = ground (arith, inv.active);
        counted = ground (arith, inv.counted);
        targets = ground (arith, inv.targets);
        closer = ground (arith, inv.closer);
        settles = ground (arith, inv.settles);
        slot = λ i. ground (arith, inv.slot i);
        registered = ground (arith, inv.registered);
        bounds = ground (arith, inv.bounds);
        sent_full =
            All-append (λ xs. is_full m xs ≡ true) b.sent (items ∷ []) inv.sent_full (full, tt);
        told = ground (arith, inv.told, length-append b.sent (items ∷ []));
      }

  pub passing_sent :
      (m : ℕ) (items : List (Option A)) (b : Buffer A) (rest : List (Worker A))
      → Inv m b (passing false items ∷ rest)
      → Inv m (record b { sent = b.sent ++ items ∷ [] }) (sent_one ∷ rest)
  unfolding claims pending writes closes owns target extent settled registers passes breaks
  passing_sent m items b rest inv =
      let any = threads_Any m rest in
      let full : is_full m items ≡ true = ground (arith, inv.bounds) in
      record {
        size = inv.size;
        some_slot = inv.some_slot;
        small = inv.small;
        owner = ground (arith, inv.owner);
        room = ground (arith, inv.room);
        active = ground (arith, inv.active);
        counted = ground (arith, inv.counted);
        targets = ground (arith, inv.targets);
        closer = ground (arith, inv.closer);
        settles = ground (arith, inv.settles);
        slot = λ i. ground (arith, inv.slot i);
        registered = ground (arith, inv.registered);
        bounds = ground (arith, inv.bounds);
        sent_full =
            All-append (λ xs. is_full m xs ≡ true) b.sent (items ∷ []) inv.sent_full (full, tt);
        told = ground (arith, inv.told, length-append b.sent (items ∷ []));
      }

  pub passing_done :
      (m : ℕ) (f : Bool) (items : List (Option A)) (b : Buffer A) (rest : List (Worker A))
      → Inv m b (passing f items ∷ rest)
      → Inv m (record b { sent = b.sent ++ items ∷ [] }) (return_to f ∷ rest)
  unfolding claims pending writes closes owns target extent settled registers passes breaks
      return_to
  passing_done m true items b rest inv = passing_idle m items b rest inv
  passing_done m false items b rest inv = passing_sent m items b rest inv
