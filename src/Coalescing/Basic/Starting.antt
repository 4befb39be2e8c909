-- ===== src/Coalescing/Basic/Starting.antt =====
-- am++/basic_coalesced_message_type.hpp: what the constructor makes.
use ampp.Prelude.{
  ℕ, ◌<◌, ◌≡◌, refl, sym, ap, subst, ◌∙◌, Bool, true, false, List, [], ◌∷◌, ◌++◌, some, ltb, ◌==◌,
  arith, Bool-cases, inl, inr, ◌⊎◌, All, count, length,
}
use ampp.Coalescing.Basic.{Layer, alloc_buffer, alloc_each, update, init}
use ampp.Coalescing.Basic.Steps.{Inv, history, deliveries, announced, batches, Fits}

module _ {A : Type 0} (size num_ranks : ℕ) (possible : ℕ → Bool) where
  -- Nothing was sent, and no message waits.
  pub record Started (s : Layer A) : Type 0 where
    pub same_ranks : s.num_ranks ≡ num_ranks
    pub same_possible : s.is_possible_dest ≡ possible
    pub same_size : s.coalescing_size ≡ size
    pub no_events : s.events ≡ []
    pub no_items : (r : ℕ) → (s.outgoing_buffers r).items ≡ []
    pub untold : (r : ℕ) → (s.outgoing_buffers r).registered_with_td ≡ false
    pub sized :
        (r : ℕ) → (s.outgoing_buffers r).valid ≡ true → (s.outgoing_buffers r).max_count ≡ size

  alloc-Started :
      (s : Layer A) (r : ℕ)
      → Started s
      → Started (record s {
        outgoing_buffers = update s.outgoing_buffers r (alloc_buffer s.coalescing_size);
      })
  alloc-Started s r st = record {
    same_ranks = st.same_ranks;
    same_possible = st.same_possible;
    same_size = st.same_size;
    no_events = st.no_events;
    no_items = λ i. elim (Bool-cases (r == i)) [
      | inl here ↦ rw here refl
      | inr away ↦ rw away (st.no_items i)
    ];
    untold = λ i. elim (Bool-cases (r == i)) [
      | inl here ↦ rw here refl
      | inr away ↦ rw away (st.untold i)
    ];
    sized = λ i. elim (Bool-cases (r == i)) [
      | inl here ↦ rw here (λ e. st.same_size)
      | inr away ↦ rw away (st.sized i)
    ];
  }

  alloc_each-Started :
      (listed : List ℕ) (s : Layer A)
      → All (λ (r : ℕ). r < num_ranks) listed
      → Started s
      → (s' : Layer A) × (alloc_each listed s ≡ some s')
        × Started s'
        × ((r : ℕ)
            → ((s.outgoing_buffers r).valid ≡ true) ⊎ (0 < count r listed)
            → (s'.outgoing_buffers r).valid ≡ true)
  unfolding alloc_each
  alloc_each-Started [] s all st = (s, refl, st, λ r h. from r h)
    where
      from :
          (r : ℕ)
          → ((s.outgoing_buffers r).valid ≡ true) ⊎ (0 < 0)
          → (s.outgoing_buffers r).valid ≡ true
      from r (inl e) = e
      from r (inr lt) = absurd (omega (arith, lt))
  alloc_each-Started (r ∷ rs) s (lt, all) st =
      let s1 : Layer A = record s {
        outgoing_buffers = update s.outgoing_buffers r (alloc_buffer s.coalescing_size);
      } in
      let (s', made, done, valid) = alloc_each-Started rs s1 all (alloc-Started s r st) in
      let rank : ltb r s.num_ranks ≡ true = ground (arith, lt, st.same_ranks) in
      (s', rw rank made, done, λ i h. valid i (here i h))
    where
      here :
          (i : ℕ)
          → ((s.outgoing_buffers i).valid ≡ true) ⊎ (0 < count i (r ∷ rs))
          → ((update s.outgoing_buffers r (alloc_buffer s.coalescing_size) i).valid ≡ true)
            ⊎ (0 < count i rs)
      here i h = elim (Bool-cases (r == i)) [
        | inl same ↦ inl (rw same refl)
        | inr other ↦ elim h [
          | inl e ↦ inl (rw other e)
          | inr many ↦ inr (ground (arith, many, other))
        ]
      ]

  pub init-Started :
      (listed : List ℕ)
      → All (λ (r : ℕ). r < num_ranks) listed
      → (s : Layer A) × (init size num_ranks possible listed ≡ some s)
        × Started s
        × ((r : ℕ) → 0 < count r listed → (s.outgoing_buffers r).valid ≡ true)
  unfolding init
  init-Started listed all =
      let (s, made, st, valid) = alloc_each-Started listed _ all (record {
        same_ranks = refl;
        same_possible = refl;
        same_size = refl;
        no_events = refl;
        no_items = λ r. refl;
        untold = λ r. refl;
        sized = λ r e. absurd (ground (arith, e));
      }) in
      (s, made, st, λ r lt. valid r (inr lt))

  pub Started-Inv : (s : Layer A) → 0 < size → Started s → Inv s
  Started-Inv s some_room st = record {
    some_room = omega (arith, some_room, st.same_size);
    good = λ r. record {
      sized = λ v. st.sized r v ∙ sym st.same_size;
      room = λ v. omega (arith, ap length (st.no_items r), some_room, st.same_size);
      unused = λ n. st.no_items r;
      told = λ p. absurd (omega (arith, p, ap length (st.no_items r)));
    };
    tally = λ r.
        ground (arith, ap (announced r) st.no_events, ap (batches r) st.no_events, st.untold r);
    fit = subst (All (Fits s.coalescing_size)) (sym st.no_events) tt;
  }

  pub Started-history : (s : Layer A) (r : ℕ) → Started s → history r s ≡ []
  Started-history s r st =
      ap (λ es. deliveries r es ++ (s.outgoing_buffers r).items) st.no_events ∙ st.no_items r
