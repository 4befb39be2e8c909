-- ===== src/Reductions/WriteThrough/Cells.antt =====
-- am++/reductions.hpp, per_thread_wt_cache_binop_reduction: what the cells hold.
use ampp.Prelude.{
  ℕ, zero, suc, ◌+◌, ◌*◌, ◌%◌, ◌/◌, ◌<◌, ◌≡◌, ◌≢◌, refl, sym, ap, subst, ◌∙◌, false, ◌&&◌, List, [],
  ◌∷◌, ◌++◌, some, ◌==◌, ◌⊎◌, inl, inr, arith, Bool-cases, store, store-cases, row_parts, row-lt,
  ==-refl,
}
use native.Mathlib.Nat.{mod-lt}
use ampp.Reductions.Combine.{Policy, get_size}
use ampp.Reductions.Combine.Dummies.{Found}
use ampp.Reductions.Combine.Weights.{Weight, Lawful, part, amount, amount-last}
use ampp.Reductions.WriteThrough.{
  Layer, Sizes, bucket, dummy_at, clear_cell, clear_cells, put, send_at,
}

module _ {Arg Key Value M : Type 0} (policy : Policy Arg Key Value) (z : Sizes)
    (rank_from_index : ℕ → ℕ) (lawful : Lawful policy) (weight : Weight policy M)
    (plus_self : (x : M) → weight.plus x x ≡ x) where
  abbrev pub size : ℕ
  size = get_size z.lg_size

  abbrev pub cell_count : ℕ
  cell_count = z.num_threads * z.num_possible_dests * size

  -- The destination that a cell belongs to.
  abbrev pub owner : ℕ → ℕ
  owner c = rank_from_index (c / size % z.num_possible_dests)

  -- A message that would change nothing, as what has been passed on already includes it.
  abbrev pub Absorbed : Arg → ℕ → List (Arg × ℕ) → Type 0
  Absorbed a d sent =
      weight.plus (amount policy weight (policy.get_key a) d sent)
        (weight.of_value (policy.get_value a))
      ≡ amount policy weight (policy.get_key a) d sent

  -- A cell holds a dummy value, or such a message.
  abbrev pub Good : ℕ → Arg → List (Arg × ℕ) → Type 0
  Good c a sent = (bucket policy z (policy.get_key a) ≢ c % size) ⊎ Absorbed a (owner c) sent

  Absorbed-last :
      (a : Arg) (d : ℕ) (sent : List (Arg × ℕ)) (m : Arg × ℕ)
      → Absorbed a d sent
      → Absorbed a d (sent ++ m ∷ [])
  Absorbed-last a d sent m h =
      let k = policy.get_key a in
      let x = weight.of_value (policy.get_value a) in
      ap (λ u. weight.plus u x) (amount-last policy weight k d sent m)
      ∙ weight.plus_assoc (amount policy weight k d sent) (part policy weight k d m) x
      ∙ ap (weight.plus (amount policy weight k d sent))
          (weight.plus_comm (part policy weight k d m) x)
      ∙ sym (weight.plus_assoc (amount policy weight k d sent) x (part policy weight k d m))
      ∙ ap (λ u. weight.plus u (part policy weight k d m)) h
      ∙ sym (amount-last policy weight k d sent m)

  part_here :
      (a : Arg) (d : ℕ)
      → part policy weight (policy.get_key a) d (a, d) ≡ weight.of_value (policy.get_value a)
  unfolding part
  part_here a d =
      rw (==-refl d, (lawful.same_key_iff (policy.get_key a) (policy.get_key a)).1 refl) refl

  -- What has just been passed on is included.
  Absorbed-sent : (a : Arg) (d : ℕ) (sent : List (Arg × ℕ)) → Absorbed a d (sent ++ (a, d) ∷ [])
  Absorbed-sent a d sent =
      let k = policy.get_key a in
      let x = weight.of_value (policy.get_value a) in
      let e =
        amount-last policy weight k d sent (a, d)
        ∙ ap (weight.plus (amount policy weight k d sent)) (part_here a d) in
      ap (λ u. weight.plus u x) e
      ∙ weight.plus_assoc (amount policy weight k d sent) x x
      ∙ ap (weight.plus (amount policy weight k d sent)) (plus_self x)
      ∙ sym e

  pub record Inv (s : Layer Arg) : Type 0 where
    pub starts :
        (tid d p : ℕ)
        → tid < z.num_threads
        → d < z.num_ranks
        → s.start_ptrs (tid * z.num_ranks + d) ≡ some p
        → (i : ℕ) × (i < z.num_possible_dests)
          × (p ≡ (tid * z.num_possible_dests + i) * size)
          × (rank_from_index i ≡ d)
    pub cells : (c : ℕ) → c < cell_count → Good c (s.values c) s.sent

  module _ (dummies : (h : ℕ) → h < size → Found policy z.fuel size h) (some_cell : 0 < size) where
    dummy_at-Good :
        (i : ℕ) (values : ℕ → Arg) (k : Key)
        → bucket policy z k ≢ i % size
        → (values' : ℕ → Arg) × (dummy_at policy z (some k) i values ≡ some values')
          × ((sent : List (Arg × ℕ)) → Good i (values' i) sent)
          × ((c : ℕ) → (i == c) ≡ false → values' c ≡ values c)
    unfolding dummy_at
    dummy_at-Good i values k away =
        let kv = policy.make_keyval k policy.default_value in
        let e = lawful.get_key-make_keyval k policy.default_value in
        let other : (bucket policy z (policy.get_key kv) == i % size) ≡ false =
          rw e (ground (arith, away)) in
        (
          store values i kv,
          rw other refl,
          (λ sent. rw (==-refl i) (inl (rw e away))),
          (λ c n. rw n refl),
        )

    pub clear_cells-Good :
        (n : ℕ) (values : ℕ → Arg)
        → (values' : ℕ → Arg) × (clear_cells policy z n values ≡ some values')
          × ((c : ℕ) (sent : List (Arg × ℕ)) → c < n → Good c (values' c) sent)
    unfolding clear_cells clear_cell
    clear_cells-Good zero values = (values, refl, λ c sent lt. absurd (omega (arith, lt)))
    clear_cells-Good (suc n) values =
        let (values', made, good) = clear_cells-Good n values in
        let (k, found, away) = dummies (n % size) (mod-lt n some_cell) in
        let (values'', written, here, kept) = dummy_at-Good n values' k away in
        (
          values'',
          ap (clear_cell policy z n) made ∙ ap (λ o. dummy_at policy z o n values') found ∙ written,
          λ c sent lt. elim (Bool-cases (n == c)) [
            | inl same ↦ subst (λ i. Good i (values'' i) sent) (ground (arith, same)) (here sent)
            | inr other ↦
                subst (λ a. Good c a sent) (sym (kept c other))
                  (good c sent (ground (arith, other, lt)))
          ],
        )

  -- Passing on a message that amounts to the same, for its key and destination, as the one that was
  -- to be sent.
  part-same :
      (a b : Arg) (d : ℕ) (sent : List (Arg × ℕ))
      → policy.get_key b ≡ policy.get_key a
      → weight.plus
          (amount policy weight (policy.get_key a) d sent)
          (weight.of_value (policy.get_value b))
        ≡ weight.plus
            (amount policy weight (policy.get_key a) d sent)
            (weight.of_value (policy.get_value a))
      → (k : Key) (e : ℕ)
      → weight.plus (amount policy weight k e sent) (part policy weight k e (b, d))
        ≡ weight.plus (amount policy weight k e sent) (part policy weight k e (a, d))
  unfolding part
  part-same a b d sent keys h k e =
      rw keys (elim (Bool-cases ((d == e) && policy.same_key (policy.get_key a) k)) [
        | inl here ↦
            let ek : policy.get_key a ≡ k =
              (lawful.same_key_iff (policy.get_key a) k).0 (ground (arith, here)) in
            let ed : d ≡ e = ground (arith, here) in
            rw here (
              subst
                (λ r.
                  weight.plus (amount policy weight k r sent) (weight.of_value (policy.get_value b))
                  ≡ weight.plus (amount policy weight k r sent)
                      (weight.of_value (policy.get_value a)))
                ed
                (subst
                  (λ l.
                    weight.plus (amount policy weight l d sent)
                      (weight.of_value (policy.get_value b))
                    ≡ weight.plus (amount policy weight l d sent)
                        (weight.of_value (policy.get_value a)))
                  ek h))
        | inr away ↦ rw away refl
      ])

  -- A message that is included changes no amount.
  part-Absorbed :
      (a : Arg) (d : ℕ) (sent : List (Arg × ℕ))
      → Absorbed a d sent
      → (k : Key) (e : ℕ)
      → weight.plus (amount policy weight k e sent) (part policy weight k e (a, d))
        ≡ amount policy weight k e sent
  unfolding part
  part-Absorbed a d sent h k e =
      elim (Bool-cases ((d == e) && policy.same_key (policy.get_key a) k)) [
        | inl here ↦
            let ek : policy.get_key a ≡ k =
              (lawful.same_key_iff (policy.get_key a) k).0 (ground (arith, here)) in
            let ed : d ≡ e = ground (arith, here) in
            rw here (
              subst
                (λ r.
                  weight.plus (amount policy weight k r sent) (weight.of_value (policy.get_value a))
                  ≡ amount policy weight k r sent)
                ed
                (subst
                  (λ l.
                    weight.plus (amount policy weight l d sent)
                      (weight.of_value (policy.get_value a))
                    ≡ amount policy weight l d sent)
                  ek h))
        | inr away ↦ rw away (weight.plus-unit (amount policy weight k e sent))
      ]

  -- What sending a message `a` to `d` does: the amounts grow by it, and the cells stay good.
  pub record Sends (a : Arg) (d : ℕ) (s s' : Layer Arg) : Type 0 where
    pub inv : Inv s'
    pub same : s'.start_ptrs ≡ s.start_ptrs
    pub grown :
        (k : Key) (e : ℕ)
        → amount policy weight k e s'.sent
          ≡ weight.plus (amount policy weight k e s.sent) (part policy weight k e (a, d))

  module _ (tid i : ℕ) (a : Arg) (d : ℕ) (s : Layer Arg) (inv : Inv s) (lt : tid < z.num_threads)
      (li : i < z.num_possible_dests) (here : rank_from_index i ≡ d)
      (small : bucket policy z (policy.get_key a) < size) where
    abbrev start : ℕ
    start = (tid * z.num_possible_dests + i) * size

    abbrev cell : ℕ
    cell = start + bucket policy z (policy.get_key a)

    cell-owner : owner cell ≡ d
    cell-owner =
        ap (λ r. rank_from_index (r % z.num_possible_dests))
          (row_parts size (tid * z.num_possible_dests + i) (bucket policy z (policy.get_key a))
            small).1
        ∙ ap rank_from_index (row_parts z.num_possible_dests tid i li).0
        ∙ here

    cell_place : cell % size ≡ bucket policy z (policy.get_key a)
    cell_place =
        (row_parts size (tid * z.num_possible_dests + i) (bucket policy z (policy.get_key a))
          small).0

    cell_in : cell < cell_count
    cell_in =
        row-lt (z.num_threads * z.num_possible_dests) size (tid * z.num_possible_dests + i)
          (bucket policy z (policy.get_key a))
          (row-lt z.num_threads z.num_possible_dests tid i lt li) small

    -- `b` is written and passed on in place of `a`.
    put-Sends :
        (b : Arg)
        → policy.get_key b ≡ policy.get_key a
        → weight.plus
            (amount policy weight (policy.get_key a) d s.sent)
            (weight.of_value (policy.get_value b))
          ≡ weight.plus
              (amount policy weight (policy.get_key a) d s.sent)
              (weight.of_value (policy.get_value a))
        → Sends a d s (put cell b d s)
    unfolding put
    put-Sends b keys h = record {
      inv = record {
        starts = inv.starts;
        cells = λ c inside.
            store-cases (λ v. Good c v (s.sent ++ (b, d) ∷ [])) s.values cell b c
              (λ e.
                subst (λ n. Good n b (s.sent ++ (b, d) ∷ [])) e
                  (inr (
                    subst (λ r. Absorbed b r (s.sent ++ (b, d) ∷ [])) (sym cell-owner)
                      (Absorbed-sent b d s.sent))))
              (λ away. elim (inv.cells c inside) [
                | inl n ↦ inl n
                | inr k ↦ inr (Absorbed-last (s.values c) (owner c) s.sent (b, d) k)
              ]);
      };
      same = refl;
      grown =
          λ k e. amount-last policy weight k e s.sent (b, d) ∙ part-same a b d s.sent keys h k e;
    }

    -- The cell's message has the key of `a`, so it is included in what has been passed on.
    cell-Absorbed :
        policy.get_key (s.values cell) ≡ policy.get_key a → Absorbed (s.values cell) d s.sent
    cell-Absorbed same = elim (inv.cells cell cell_in) [
      | inl n ↦ absurd (n (ap (bucket policy z) same ∙ sym cell_place))
      | inr k ↦ subst (λ r. Absorbed (s.values cell) r s.sent) cell-owner k
    ]

    abbrev before : M
    before = amount policy weight (policy.get_key a) d s.sent

    -- Combining with the cell's message adds no more than `a` itself.
    combined :
        policy.get_key (s.values cell) ≡ policy.get_key a
        → weight.plus before (
            weight.of_value
              (policy.combine (policy.get_value (s.values cell)) (policy.get_value a)))
          ≡ weight.plus before (weight.of_value (policy.get_value a))
    combined same =
        let x = weight.of_value (policy.get_value (s.values cell)) in
        let y = weight.of_value (policy.get_value a) in
        ap (weight.plus before)
          (weight.of_value-combine (policy.get_value (s.values cell)) (policy.get_value a))
        ∙ sym (weight.plus_assoc before x y)
        ∙ ap (λ u. weight.plus u y)
            (subst
              (λ k.
                weight.plus (amount policy weight k d s.sent) x ≡ amount policy weight k d s.sent)
              same (cell-Absorbed same))

    unchanged-Sends :
        policy.get_key (s.values cell) ≡ policy.get_key a
        → policy.combine (policy.get_value (s.values cell)) (policy.get_value a)
          ≡ policy.get_value (s.values cell)
        → Sends a d s s
    unchanged-Sends same e =
        let x = weight.of_value (policy.get_value (s.values cell)) in
        let h : Absorbed a d s.sent =
          sym (combined same)
          ∙ ap (λ v. weight.plus before (weight.of_value v)) e
          ∙ subst
              (λ k.
                weight.plus (amount policy weight k d s.sent) x ≡ amount policy weight k d s.sent)
              same (cell-Absorbed same) in
        record { inv = inv; same = refl; grown = λ k r. sym (part-Absorbed a d s.sent h k r) }

    pub send_at-Sends : Sends a d s (send_at policy z start a d s)
    unfolding send_at
    send_at-Sends =
        elim (Bool-cases (policy.same_key (policy.get_key a) (policy.get_key (s.values cell)))) [
          | inr other ↦ rw other (put-Sends a refl refl)
          | inl equal ↦
              let same = sym (
                (lawful.same_key_iff (policy.get_key a) (policy.get_key (s.values cell))).0
                  equal) in
              let new = policy.combine (policy.get_value (s.values cell)) (policy.get_value a) in
              let b = policy.make_keyval (policy.get_key a) new in
              elim (Bool-cases (policy.same_value new (policy.get_value (s.values cell)))) [
                | inl kept ↦
                    rw (equal, kept)
                      (unchanged-Sends same
                        ((lawful.same_value_iff new (policy.get_value (s.values cell))).0 kept))
                | inr changed ↦
                    rw (equal, changed)
                      (put-Sends b (lawful.get_key-make_keyval (policy.get_key a) new) (
                        ap (λ v. weight.plus before (weight.of_value v))
                          (lawful.get_value-make_keyval (policy.get_key a) new)
                        ∙ combined same))
              ]
        ]
