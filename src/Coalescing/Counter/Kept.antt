-- ===== src/Coalescing/Counter/Kept.antt =====
-- am++/counter_coalesced_message_type.hpp: no message is lost or sent twice.
use ampp.Prelude.{
  ℕ, ◌+◌, ◌-◌, ◌%◌, ◌^◌, ◌≤◌, ◌≡◌, refl, ap, Bool, true, false, ◌&&◌, not, List, ◌∷◌, Option, none,
  some, ◌==◌, ltb, leb, arith, ==-refl,
}
use ampp.Coalescing.Counter.{
  Buffer, Worker, Choice, call_send, call_message_being_built, call_flush, go, sender_active,
  is_active, masked, claim, after_write, register, taken, return_to, send_buffer, swap, step, idle,
  spinning, claiming, writing, closing, closed_registering, closed_counting, registering, counting,
  sent_one, waiting, clearing, emptying, releasing, passing, loading, comparing, swapping,
}
use ampp.Coalescing.Counter.Totals.{sum, writes, owns, extent}
use ampp.Coalescing.Counter.Invariant.{Inv, threads_Any, filled, breaks}
use ampp.Coalescing.Counter.Weighed.{
  weigh, holds, stored, gain, weight_of, if_both, weigh_all-last, weigh-taken-store,
  weigh-taken-none, weigh-taken_more, value_zero,
}

module _ {A : Type 0} (v : A → ℕ) where
  abbrev pub expected : Choice A → Worker A → Buffer A → ℕ
  expected c w b = holds v w + stored v b + gain v w c

  -- A step takes or drops nothing but what is given to it.
  abbrev pub Weighs : Choice A → Worker A → Buffer A → Type 0
  Weighs c w b = weight_of v (expected c w b) (step c w b) ≡ expected c w b

  send_buffer-weight :
      (d : ℕ) (f : Bool) (my_id : ℕ) (b : Buffer A)
      → stored v b ≡ d
      → weight_of v d (send_buffer f my_id b) ≡ d
  unfolding send_buffer return_to holds
  send_buffer-weight d f my_id b e =
      let P : Option (Worker A × Buffer A) → Type 0 = λ r. weight_of v d r ≡ d in
      let back : weight_of v d (some (return_to f, b)) ≡ d =
        if_both v (λ (w : Worker A). holds v w + stored v b ≡ d) f idle sent_one (omega (arith, e))
          (omega (arith, e)) in
      if_both v P (not (is_active b.count_allocated)) none _ refl (
        if_both v P (is_active my_id) (some (return_to f, b)) _ back (
          if_both v P (not (leb (masked my_id) b.max_count)) none _ refl (
            if_both v P (masked my_id == 0) (some (return_to f, b))
              (some (waiting f (masked my_id), b)) back (omega (arith, e)))))

  spinning-Weighs : (c : Choice A) (a : A) (b : Buffer A) → Weighs c (spinning a) b
  unfolding step holds gain
  spinning-Weighs c a b =
      let d = expected c (spinning a) b in
      let P : Option (Worker A × Buffer A) → Type 0 = λ r. weight_of v d r ≡ d in
      if_both v P (b.max_count == 0) none _ refl (
        if_both v P
          (ltb (masked b.count_allocated) b.max_count && not (is_active b.count_allocated))
          (some (claiming a, b)) (some (spinning a, b)) (omega arith) (omega arith))

  claim-holds : (a : A) (max_count my_id : ℕ) → holds v (claim a max_count my_id) ≡ v a
  unfolding claim holds
  claim-holds a max_count my_id =
      let P : Worker A → Type 0 = λ w. holds v w ≡ v a in
      if_both v P (is_active my_id) (spinning a) _ refl (
        if_both v P (not (ltb (masked my_id) max_count)) (spinning a) (writing a (masked my_id))
          refl refl)

  after_write-holds : (max_count i : ℕ) → holds v (after_write max_count i) ≡ 0
  unfolding after_write holds
  after_write-holds max_count i =
      let P : Worker A → Type 0 = λ w. holds v w ≡ 0 in
      if_both v P (i == max_count - 1) closing _ refl
        (if_both v P (i == 0) registering counting refl refl)

  writing-Weighs :
      (m : ℕ) (c : Choice A) (a : A) (x : ℕ) (b : Buffer A) (rest : List (Worker A))
      → Inv m b (writing a x ∷ rest)
      → Weighs c (writing a x) b
  unfolding step holds gain writes breaks
  writing-Weighs m c a x b rest inv =
      let here : (x == x) ≡ true = ==-refl x in
      let empty : filled (b.slots x) ≡ 0 = ground (arith, inv.slot x, here) in
      omega (
        arith,
        after_write-holds b.max_count x,
        weigh-taken-store v b.max_count x (some a) b.slots (ground (arith, inv.bounds, inv.size))
            (value_zero v (b.slots x) empty),
      )

  clearing-Weighs :
      (m : ℕ) (c : Choice A) (f : Bool) (n : ℕ) (b : Buffer A) (rest : List (Worker A))
      → Inv m b (clearing f n ∷ rest)
      → Weighs c (clearing f n) b
  unfolding step holds gain breaks owns extent
  clearing-Weighs m c f n b rest inv =
      let any = threads_Any m rest in
      let free : sum owns rest ≡ 0 = omega (arith, inv.owner) in
      let no_extent = any.no_extent free in
      let le : n ≤ m = ground (arith, inv.bounds) in
      let size : n + (m - n) ≡ b.max_count = omega (arith, le, inv.size) in
      omega (
        arith,
        weigh-taken-none v b.max_count,
        weigh-taken_more v n (m - n) b.slots
            (λ i out. value_zero v (b.slots i) (ground (arith, inv.slot i, free, no_extent, out))),
        ap (λ (j : ℕ). weigh v (taken j b.slots)) size,
      )

  swapping-Weighs : (fails : Bool) (x : ℕ) (b : Buffer A) → Weighs (go fails) (swapping x) b
  unfolding step swap holds gain
  swapping-Weighs fails x b =
      let d = expected (go fails) (swapping x) b in
      let P : Option (Worker A × Buffer A) → Type 0 = λ r. weight_of v d r ≡ d in
      if_both v P (ltb 0 x && ltb x b.max_count) _ (some (idle, b))
        (if_both v P (not fails && (b.count_allocated == x)) _ _
          (send_buffer-weight d true x (record b { count_allocated = sender_active }) (omega arith))
          (omega arith))
        (omega arith)

  idle-Weighs : (c : Choice A) (b : Buffer A) → Weighs c idle b
  unfolding step holds gain register
  idle-Weighs (call_send a) b = omega arith
  idle-Weighs call_message_being_built b = omega arith
  idle-Weighs call_flush b = omega arith
  idle-Weighs (go f) b = omega arith

  sent_one-Weighs : (c : Choice A) (b : Buffer A) → Weighs c sent_one b
  unfolding step holds gain
  sent_one-Weighs (call_send a) b = omega arith
  sent_one-Weighs call_message_being_built b = omega arith
  sent_one-Weighs call_flush b = omega arith
  sent_one-Weighs (go true) b = omega arith
  sent_one-Weighs (go false) b = omega arith

  passing-Weighs :
      (c : Choice A) (f : Bool) (items : List (Option A)) (b : Buffer A)
      → Weighs c (passing f items) b
  unfolding step holds gain return_to
  passing-Weighs c true items b = omega (arith, weigh_all-last v b.sent items)
  passing-Weighs c false items b = omega (arith, weigh_all-last v b.sent items)

  waiting-Weighs : (c : Choice A) (f : Bool) (n : ℕ) (b : Buffer A) → Weighs c (waiting f n) b
  unfolding step holds gain
  waiting-Weighs c f n b =
      let d = expected c (waiting f n) b in
      let P : Option (Worker A × Buffer A) → Type 0 = λ r. weight_of v d r ≡ d in
      if_both v P (b.count_written == n) _ (some (waiting f n, b))
        (if_both v P b.registered_with_td (some (clearing f n, b)) none (omega arith) refl)
        (omega arith)

  comparing-Weighs : (c : Choice A) (x : ℕ) (b : Buffer A) → Weighs c (comparing x) b
  unfolding step holds gain
  comparing-Weighs c x b =
      let d = expected c (comparing x) b in
      let P : Option (Worker A × Buffer A) → Type 0 = λ r. weight_of v d r ≡ d in
      if_both v P (x == b.last_active) (some (swapping x, b))
        (some (idle, record b { last_active = x })) (omega arith) (omega arith)

  pub step-Weighs :
      (m : ℕ) (c : Choice A) (w : Worker A) (b : Buffer A) (rest : List (Worker A))
      → Inv m b (w ∷ rest)
      → Weighs c w b
  unfolding step holds gain register
  step-Weighs m c idle b rest inv = idle-Weighs c b
  step-Weighs m c (spinning a) b rest inv = spinning-Weighs c a b
  step-Weighs m c (claiming a) b rest inv =
      omega (arith, claim-holds a b.max_count b.count_allocated)
  step-Weighs m c (writing a x) b rest inv = writing-Weighs m c a x b rest inv
  step-Weighs m c closing b rest inv = omega arith
  step-Weighs m c closed_registering b rest inv = omega arith
  step-Weighs m c closed_counting b rest inv =
      send_buffer-weight (expected c closed_counting b) false b.max_count
        (record b { count_written = (b.count_written + 1) % 2 ^ 32 }) (omega arith)
  step-Weighs m c registering b rest inv = omega arith
  step-Weighs m c counting b rest inv = omega arith
  step-Weighs m c sent_one b rest inv = sent_one-Weighs c b
  step-Weighs m c (waiting f n) b rest inv = waiting-Weighs c f n b
  step-Weighs m c (clearing f n) b rest inv = clearing-Weighs m c f n b rest inv
  step-Weighs m c (emptying f n items) b rest inv = omega arith
  step-Weighs m c (releasing f items) b rest inv = omega arith
  step-Weighs m c (passing f items) b rest inv = passing-Weighs c f items b
  step-Weighs m c loading b rest inv = omega arith
  step-Weighs m c (comparing x) b rest inv = comparing-Weighs c x b
  step-Weighs m (go f) (swapping x) b rest inv = swapping-Weighs f x b
  step-Weighs m (call_send a) (swapping x) b rest inv = omega arith
  step-Weighs m call_message_being_built (swapping x) b rest inv = omega arith
  step-Weighs m call_flush (swapping x) b rest inv = omega arith
