-- ===== src/Addressing/Hops/Moves.antt =====
-- am++/object_based_addressing.hpp: one step of object_based_addressing_dest_hbr on every rank.
use ampp.Prelude.{
  ℕ, zero, suc, ◌+◌, ◌<◌, ◌≤◌, ◌≡◌, ◌≢◌, refl, List, [], ◌∷◌, ◌++◌, none, some, ◌==◌, if◌then◌else◌,
  All, All-append, arith, inl, inr, Bool-cases, lt→ltb,
}
use ampp.Prelude.Sums.{sum, sum-append}
use ampp.Addressing.Direct.{
  Outcome, called, sent, object_based_addressing, set_handler, get_handler,
}
use ampp.Addressing.Routing.{Routing}
use ampp.Addressing.Routing.Laws.{IsRouting}
use ampp.Addressing.Hops.{arrive, arrive_at, on_arrival, send, dest_hbr, set_dest_handler}
use ampp.Addressing.Hops.Delivery.{Network, pick, perform, ranks, ready}

module _ {X : Type 0} where
  -- A pick takes one element out, unless there is none.
  pub record Picked (k : ℕ) (xs : List X) (y : X) (ys : List X) : Type 1 where
    pub taken : pick k xs ≡ some (y, ys)
    pub split : (f : X → ℕ) → sum f xs ≡ f y + sum f ys
    pub every : (P : X → Type 0) → All P xs → P y × All P ys

  abbrev pub Drawn : ℕ → List X → Type 1
  Drawn k xs = (y : X) × (ys : List X) × Picked k xs y ys

  first-Picked :
      (x : X) (xs : List X) (k : ℕ) → pick k (x ∷ xs) ≡ some (x, xs) → Picked k (x ∷ xs) x xs
  first-Picked x xs k e = record { taken = e; split = λ f. refl; every = λ P h. h }

  pub pick-Picked : (k : ℕ) (x : X) (xs : List X) → Drawn k (x ∷ xs)
  unfolding pick
  pick-Picked zero x xs = (x, xs, first-Picked x xs zero refl)
  pick-Picked (suc k) x [] = (x, [], first-Picked x [] (suc k) refl)
  pick-Picked (suc k) x (x' ∷ xs) =
      let (y, ys, p) = pick-Picked k x' xs in
      (
        y,
        x ∷ ys,
        record {
          taken = rw p.taken refl;
          split = λ f. omega (arith, p.split f);
          every = λ P h. let (py, rest) = p.every P h.1 in (py, (h.0, rest));
        },
      )

module _ {H A : Type 0} (h : H) (n : ℕ) (owner : A → ℕ) (scheme : ℕ → Routing)
    (hops : ℕ → ℕ → ℕ) where
  -- The hops that the messages on their way need, and one delivery for each.
  unfoldable pub potential : Network A → ℕ
  potential net = sum (λ m. suc (hops m.0 (owner m.1))) net.in_flight

  -- The weight of the messages that are on their way or handled.
  unfoldable pub weigh : (A → ℕ) → Network A → ℕ
  weigh w net = sum (λ m. w m.1) net.in_flight + sum (λ m. w m.1) net.handled

  -- Messages are on their way to ranks, and handled where they belong.
  pub record IsSound (net : Network A) : Type 0 where
    pub to_ranks : All (λ (m : ℕ × A). m.0 < n) net.in_flight
    pub at_owners : All (λ (m : ℕ × A). m.0 ≡ owner m.1) net.handled

  pub outcome : ℕ → A → Outcome H A
  outcome r a = if owner a == r then called h a else sent a ((scheme r).next_hop (owner a)) none

  pub send-ranks : (r : ℕ) (a : A) → send a (ranks h n owner scheme r) ≡ some (outcome r a)
  unfolding send arrive_at on_arrival get_handler ranks ready set_dest_handler set_handler dest_hbr
      object_based_addressing outcome
  send-ranks r a = refl

  pub arrive-ranks : (r : ℕ) (a : A) → arrive (ranks h n owner scheme r) a ≡ some (outcome r a)
  unfolding arrive on_arrival ranks ready set_dest_handler set_handler dest_hbr
      object_based_addressing outcome
  arrive-ranks r a = refl

  ranks-routing : (r : ℕ) → (ranks h n owner scheme r).routing ≡ scheme r
  unfolding ranks ready set_dest_handler set_handler dest_hbr object_based_addressing
  ranks-routing r = refl

  module _ (law : IsRouting n scheme hops) (owned : (a : A) → owner a < n) where
    -- What the call of the handler on a rank does with a message.
    pub record Moved (r : ℕ) (a : A) (net next : Network A) : Type 0 where
      pub done : perform n (ranks h n owner scheme) r net (some (outcome r a)) ≡ some next
      pub sound : IsSound next
      pub weighed : (w : A → ℕ) → weigh w next ≡ w a + weigh w net
      pub nearer : potential next ≤ hops r (owner a) + potential net

    pub perform-Moved :
        (r : ℕ) (a : A) (net : Network A)
        → r < n
        → IsSound net
        → (next : Network A) × Moved r a net next
    unfolding outcome perform weigh potential
    perform-Moved r a net lr s = elim (Bool-cases (owner a == r)) [
      | inl here ↦ (
        record net { handled = (r, a) ∷ net.handled },
        record {
          done = rw here refl;
          sound = record { to_ranks = s.to_ranks; at_owners = (ground (arith, here), s.at_owners) };
          weighed = λ w. omega arith;
          nearer = omega arith;
        },
      )
      | inr away ↦
          let differ : r ≢ owner a = ground (arith, away) in
          let nx = (scheme r).next_hop (owner a) in
          let inside = law.inside r (owner a) lr (owned a) differ in
          let more =
            sum-append (λ (m : ℕ × A). suc (hops m.0 (owner m.1))) net.in_flight ((nx, a) ∷ []) in
          (
            record net { in_flight = net.in_flight ++ (nx, a) ∷ [] },
            record {
              done =
                  rw
                    (
                      away,
                      lt→ltb nx n inside,
                      ranks-routing r,
                      law.allowed r (owner a) lr (owned a) differ,
                    )
                    refl;
              sound = record {
                to_ranks =
                    All-append (λ (m : ℕ × A). m.0 < n) net.in_flight ((nx, a) ∷ []) s.to_ranks
                      (inside, tt);
                at_owners = s.at_owners;
              };
              weighed = λ w.
                  omega (arith, sum-append (λ (m : ℕ × A). w m.1) net.in_flight ((nx, a) ∷ []));
              nearer = omega (arith, more, law.closer r (owner a) lr (owned a) differ);
            },
          )
    ]
