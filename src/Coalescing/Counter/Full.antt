-- ===== src/Coalescing/Counter/Full.antt =====
-- am++/counter_coalesced_message_type.hpp: the message that is sent.
use ampp.Prelude.{
  ℕ, zero, suc, ◌<◌, ◌≡◌, refl, Bool, true, List, [], ◌∷◌, ◌++◌, Option, none, some, length, arith,
  length-append,
}
use ampp.Coalescing.Counter.{Buffer, Worker, taken, clearing}
use ampp.Coalescing.Counter.Totals.{
  sum, claims, pending, writes, closes, owns, target, extent, settled, registers, passes,
}
use ampp.Coalescing.Counter.Invariant.{Inv, threads_Any, filled, all_filled, is_full, breaks}

module _ {A : Type 0} where
  all_filled-last :
      (xs : List (Option A)) (o : Option A)
      → all_filled xs ≡ true
      → filled o ≡ 1
      → all_filled (xs ++ o ∷ []) ≡ true
  all_filled-last [] none e h = absurd (omega (arith, h))
  all_filled-last [] (some a) e h = refl
  all_filled-last (none ∷ xs) o e h = ground (arith, e)
  all_filled-last (some a ∷ xs) o e h = all_filled-last xs o e h

  taken-all_filled :
      (c : ℕ) (slots : ℕ → Option A)
      → ((i : ℕ) → i < c → filled (slots i) ≡ 1)
      → all_filled (taken c slots) ≡ true
  unfolding taken
  taken-all_filled zero slots h = refl
  taken-all_filled (suc n) slots h =
      all_filled-last (taken n slots) (slots n)
        (taken-all_filled n slots (λ i lt. h i (omega (arith, lt)))) (h n (omega arith))

  length-taken : (c : ℕ) (slots : ℕ → Option A) → length (taken c slots) ≡ c
  unfolding taken
  length-taken zero slots = refl
  length-taken (suc n) slots =
      omega (arith, length-append (taken n slots) (slots n ∷ []), length-taken n slots)

  -- The thread that sends a buffer finds its slots written.
  pub taken-is_full :
      (m : ℕ) (f : Bool) (c : ℕ) (b : Buffer A) (rest : List (Worker A))
      → Inv m b (clearing f c ∷ rest)
      → is_full m (taken c b.slots) ≡ true
  unfolding claims pending writes closes owns target extent settled registers passes breaks
  taken-is_full m f c b rest inv =
      let any = threads_Any m rest in
      let free : sum owns rest ≡ 0 = omega (arith, inv.owner) in
      let no_target = any.no_target free in
      let no_extent = any.no_extent free in
      let no_settled = any.no_settled free in
      let no_pending : sum pending rest ≡ 0 =
        ground (arith, inv.counted, inv.settles, free, no_target, no_settled) in
      ground (
        arith,
        taken-all_filled c b.slots (λ i lt.
            ground (arith, inv.slot i, any.slot_pending i, no_pending, free, no_extent, lt)),
        length-taken c b.slots,
        inv.bounds,
      )
