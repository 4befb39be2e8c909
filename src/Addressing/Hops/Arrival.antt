-- ===== src/Addressing/Hops/Arrival.antt =====
-- am++/object_based_addressing.hpp: object_based_addressing_dest_hbr brings every message to its owner.
use ampp.Prelude.{
  ℕ, suc, ◌+◌, ◌-◌, ◌<◌, ◌≤◌, ◌≡◌, refl, sym, ap, ◌∙◌, List, [], ◌∷◌, ◌++◌, Option, none, some, map,
  length, All, arith,
}
use ampp.Prelude.Sums.{sum}
use ampp.Addressing.Routing.{Routing}
use ampp.Addressing.Routing.Laws.{IsRouting}
use ampp.Addressing.Hops.Delivery.{
  Network, Event, request, deliver, pick, delivered, step, run_from, quiet, ranks,
}
use ampp.Addressing.Hops.Moves.{
  pick-Picked, potential, weigh, IsSound, send-ranks, arrive-ranks, perform-Moved,
}

-- Every request is made on a rank.
unfoldable pub FromRanks : {A : Type 0} → ℕ → List (Event A) → Type 0
FromRanks n [] = Unit
FromRanks n (request r a ∷ es) = (r < n) × FromRanks n es
FromRanks n (deliver k ∷ es) = FromRanks n es

-- The weight of what is requested.
unfoldable pub requested : {A : Type 0} → (A → ℕ) → List (Event A) → ℕ
requested w [] = 0
requested w (request r a ∷ es) = w a + requested w es
requested w (deliver k ∷ es) = requested w es

-- The hops that the requests need.
unfoldable pub effort : {A : Type 0} → (A → ℕ) → (ℕ → ℕ → ℕ) → List (Event A) → ℕ
effort owner hops [] = 0
effort owner hops (request r a ∷ es) = hops r (owner a) + effort owner hops es
effort owner hops (deliver k ∷ es) = effort owner hops es

module _ {H A : Type 0} (h : H) (n : ℕ) (owner : A → ℕ) (scheme : ℕ → Routing) (hops : ℕ → ℕ → ℕ)
    (law : IsRouting n scheme hops) (owned : (a : A) → owner a < n) where
  -- What an event leads to.
  record Progress (e : Event A) (net next : Network A) (more : (A → ℕ) → ℕ) (left : ℕ)
      : Type 0 where
    pub done : step n (ranks h n owner scheme) e net ≡ some next
    pub sound : IsSound h n owner scheme hops next
    pub weighed :
        (w : A → ℕ)
        → weigh h n owner scheme hops w next ≡ more w + weigh h n owner scheme hops w net
    pub nearer : potential h n owner scheme hops next ≤ left

  -- A request adds its message and the hops that it needs.
  request-Progress :
      (r : ℕ) (a : A) (net : Network A)
      → r < n
      → IsSound h n owner scheme hops net
      → (next : Network A) × Progress
          (request r a)
          net
          next
          (λ w. w a)
          (hops r (owner a) + potential h n owner scheme hops net)
  unfolding step
  request-Progress r a net lr s =
      let (next, m) = perform-Moved h n owner scheme hops law owned r a net lr s in
      (
        next,
        record {
          done = rw (send-ranks h n owner scheme hops r a) m.done;
          sound = m.sound;
          weighed = m.weighed;
          nearer = m.nearer;
        },
      )

  -- A delivery takes one hop, if there is a message left.
  deliver-Progress :
      (k : ℕ) (flying done : List (ℕ × A))
      → IsSound h n owner scheme hops (record { in_flight = flying; handled = done })
      → (next : Network A) × Progress
          (deliver k)
          (record { in_flight = flying; handled = done })
          next
          (λ w. 0)
          (potential h n owner scheme hops (record { in_flight = flying; handled = done }) - 1)
  unfolding step delivered pick potential weigh
  deliver-Progress k [] done s = (
    record { in_flight = []; handled = done },
    record { done = refl; sound = s; weighed = λ w. omega arith; nearer = omega arith },
  )
  deliver-Progress k (m ∷ ms) done s =
      let ((r, a), rest, p) = pick-Picked k m ms in
      let (here, others) = p.every (λ (x : ℕ × A). x.0 < n) s.to_ranks in
      let net : Network A = record { in_flight = rest; handled = done } in
      let (next, mv) =
        perform-Moved h n owner scheme hops law owned r a net here
          (record { to_ranks = others; at_owners = s.at_owners }) in
      (
        next,
        record {
          done = rw (p.taken, arrive-ranks h n owner scheme hops r a) mv.done;
          sound = mv.sound;
          weighed = λ w. omega (arith, mv.weighed w, p.split (λ (x : ℕ × A). w x.1));
          nearer = omega (arith, mv.nearer, p.split (λ (x : ℕ × A). suc (hops x.0 (owner x.1))));
        },
      )

  abbrev run : List (Event A) → Option (Network A) → Option (Network A)
  run es net = run_from n (ranks h n owner scheme) es net

  -- What a run leads to.
  record Ran (es : List (Event A)) (net next : Network A) : Type 0 where
    pub done : run es (some net) ≡ some next
    pub sound : IsSound h n owner scheme hops next
    pub weighed :
        (w : A → ℕ)
        → weigh h n owner scheme hops w next ≡ requested w es + weigh h n owner scheme hops w net
    pub nearer :
        potential h n owner scheme hops next
        ≤ effort owner hops es + potential h n owner scheme hops net

  run-Ran :
      (es : List (Event A)) (net : Network A)
      → FromRanks n es
      → IsSound h n owner scheme hops net
      → (next : Network A) × Ran es net next
  unfolding run_from FromRanks requested effort
  run-Ran [] net from s =
      (net, record { done = refl; sound = s; weighed = λ w. omega arith; nearer = omega arith })
  run-Ran (request r a ∷ es) net from s =
      let (mid, p) = request-Progress r a net from.0 s in
      let (next, q) = run-Ran es mid from.1 p.sound in
      (
        next,
        record {
          done = rw p.done q.done;
          sound = q.sound;
          weighed = λ w. omega (arith, p.weighed w, q.weighed w);
          nearer = omega (arith, p.nearer, q.nearer);
        },
      )
  run-Ran (deliver k ∷ es) net from s =
      let (mid, p) = deliver-Progress k net.in_flight net.handled s in
      let (next, q) = run-Ran es mid from p.sound in
      (
        next,
        record {
          done = rw p.done q.done;
          sound = q.sound;
          weighed = λ w. omega (arith, p.weighed w, q.weighed w);
          nearer = omega (arith, p.nearer, q.nearer);
        },
      )

  -- Deliveries alone bring the network to rest, when there are enough of them.
  deliveries :
      (ks : List ℕ) (net : Network A)
      → IsSound h n owner scheme hops net
      → potential h n owner scheme hops net ≤ length ks
      → (next : Network A) × (run (map deliver ks) (some net) ≡ some next)
        × IsSound h n owner scheme hops next
        × ((w : A → ℕ) → weigh h n owner scheme hops w next ≡ weigh h n owner scheme hops w net)
        × (potential h n owner scheme hops next ≡ 0)
  unfolding run_from
  deliveries [] net s le = (net, refl, s, λ w. refl, omega (arith, le))
  deliveries (k ∷ ks) net s le =
      let (mid, p) = deliver-Progress k net.in_flight net.handled s in
      let nearer : potential h n owner scheme hops mid ≤ potential h n owner scheme hops net - 1 =
        p.nearer in
      let (next, e, sound, weighed, empty) =
        deliveries ks mid p.sound (omega (arith, le, nearer)) in
      (
        next,
        ap (run (map deliver ks)) p.done ∙ e,
        sound,
        λ w. omega (arith, weighed w, p.weighed w),
        empty,
      )

  run-none : (es : List (Event A)) → run es none ≡ none
  unfolding run_from
  run-none [] = refl
  run-none (e ∷ es) = refl

  run-append :
      (es more : List (Event A)) (net : Option (Network A))
      → run (es ++ more) net ≡ run more (run es net)
  unfolding run_from
  run-append [] more net = refl
  run-append (e ∷ es) more none = sym (run-none more)
  run-append (e ∷ es) more (some net) = run-append es more (step n (ranks h n owner scheme) e net)

  at_rest : (net : Network A) → potential h n owner scheme hops net ≡ 0 → net.in_flight ≡ []
  unfolding potential
  at_rest net e = none_left net.in_flight e
    where
      none_left :
          (ms : List (ℕ × A)) → sum (λ (m : ℕ × A). suc (hops m.0 (owner m.1))) ms ≡ 0 → ms ≡ []
      none_left [] e = refl
      none_left (m ∷ ms) e = absurd (omega (arith, e))

  -- A network at rest has handled all of its weight.
  weigh_at_rest :
      (w : A → ℕ) (net : Network A)
      → net.in_flight ≡ []
      → sum (λ (m : ℕ × A). w m.1) net.handled ≡ weigh h n owner scheme hops w net
  unfolding weigh
  weigh_at_rest w net e =
      let none_left : sum (λ (m : ℕ × A). w m.1) net.in_flight ≡ 0 =
        ap (sum (λ (m : ℕ × A). w m.1)) e in
      omega (arith, none_left)

  quiet_start : IsSound h n owner scheme hops quiet
  quiet_start = record { to_ranks = tt; at_owners = tt }

  quiet_empty :
      (w : A → ℕ)
      → (weigh h n owner scheme hops w quiet ≡ 0) × (potential h n owner scheme hops quiet ≡ 0)
  unfolding weigh potential
  quiet_empty w = (refl, refl)

  -- Whatever is requested on the ranks and in whatever order messages are delivered, no assertion fails
  -- and no message is handled away from its owner.
  pub run_sound :
      (es : List (Event A))
      → FromRanks n es
      → (net : Network A) × (run es (some quiet) ≡ some net)
        × All (λ (m : ℕ × A). m.0 < n) net.in_flight
        × All (λ (m : ℕ × A). m.0 ≡ owner m.1) net.handled
  run_sound es from =
      let (net, r) = run-Ran es quiet from quiet_start in
      (net, r.done, r.sound.to_ranks, r.sound.at_owners)

  -- Once as many deliveries follow as the requests need hops, whichever messages they take, no message
  -- is on its way and each that was requested has been handled once, by its owner.
  pub run-arrives :
      (es : List (Event A)) (ks : List ℕ)
      → FromRanks n es
      → effort owner hops es ≤ length ks
      → (net : Network A) × (run (es ++ map deliver ks) (some quiet) ≡ some net)
        × (net.in_flight ≡ [])
        × All (λ (m : ℕ × A). m.0 ≡ owner m.1) net.handled
        × ((w : A → ℕ) → sum (λ (m : ℕ × A). w m.1) net.handled ≡ requested w es)
  run-arrives es ks from enough =
      let (mid, r) = run-Ran es quiet from quiet_start in
      let (net, e, sound, weighed, rest) =
        deliveries ks mid r.sound (omega (arith, enough, r.nearer, (quiet_empty (λ a. 0)).1)) in
      let nothing = at_rest net rest in
      (
        net,
        run-append es (map deliver ks) (some quiet) ∙ ap (run (map deliver ks)) r.done ∙ e,
        nothing,
        sound.at_owners,
        λ w. omega (arith, weigh_at_rest w net nothing, weighed w, r.weighed w, (quiet_empty w).0),
      )
