-- ===== src/Reductions/Locking/Steps.antt =====
-- am++/reductions.hpp, locking_cache_binop_reduction: what a message is worth, sent or held.
use ampp.Prelude.{
  ℕ, ◌+◌, ◌*◌, ◌%◌, ◌/◌, ◌<◌, ◌≡◌, ◌≢◌, refl, sym, ap, subst, ◌∙◌, true, false, List, ◌++◌, some,
  ◌==◌, if◌then◌else◌, inl, inr, arith, Bool-cases, store, store-cases, row_parts, ==-refl,
}
use ampp.Reductions.Combine.{Policy, get_size, get_bucket}
use ampp.Reductions.Combine.Dummies.{get_bucket-lt}
use ampp.Reductions.Combine.Weights.{Weight, Lawful, part, amount, amount-append, unit-plus}
use ampp.Reductions.Locking.{Layer, lock_spinlock, unlock_spinlock, written, exchange, is_held}

-- An exchange of a cell whose lock is free.
module _ {Arg : Type 0} where
  pub record Exchanged (i : ℕ) (kv : Arg) (s s' : Layer Arg) : Type 0 where
    pub free : (j : ℕ) → s.locks j ≡ 0 → s'.locks j ≡ 0
    pub values : s'.values ≡ store s.values i kv
    pub sent : s'.sent ≡ s.sent
    pub filled : s'.any_filled_entries ≡ s.any_filled_entries
    pub objects : s'.flush_objects ≡ s.flush_objects

  lock_spinlock-some :
      (i : ℕ) (s : Layer Arg)
      → s.locks i ≡ 0
      → lock_spinlock i s ≡ some (record s { locks = store s.locks i 1 })
  unfolding lock_spinlock
  lock_spinlock-some i s e = rw e refl

  unlock_spinlock-some :
      (i : ℕ) (s : Layer Arg)
      → s.locks i ≡ 1
      → unlock_spinlock i s ≡ some (record s { locks = store s.locks i 0 })
  unfolding unlock_spinlock
  unlock_spinlock-some i s e = rw e refl

  pub exchange-Exchanged :
      (i : ℕ) (kv : Arg) (s : Layer Arg)
      → s.locks i ≡ 0
      → (s' : Layer Arg) × (exchange i kv s ≡ some s') × Exchanged i kv s s'
  unfolding exchange written
  exchange-Exchanged i kv s e =
      let held_cell : Layer Arg = record s {
        locks = store s.locks i 1;
        values = store s.values i kv;
      } in
      let taken_lock : store s.locks i 1 i ≡ 1 = rw (==-refl i) refl in
      (
        record held_cell { locks = store (store s.locks i 1) i 0 },
        ap (written i kv) (lock_spinlock-some i s e) ∙ unlock_spinlock-some i held_cell taken_lock,
        record {
          free = λ j z.
              store-cases (λ (n : ℕ). n ≡ 0) (store s.locks i 1) i 0 j (λ h. refl)
                (λ away. rw away z);
          values = refl;
          sent = refl;
          filled = refl;
          objects = refl;
        },
      )

module _ {Arg Key Value M : Type 0} (policy : Policy Arg Key Value) (from_size : ℕ → Key)
    (lg_size fuel : ℕ) (lawful : Lawful policy) (weight : Weight policy M)
    (some_cell : 0 < get_size lg_size) where
  abbrev pub size : ℕ
  size = get_size lg_size

  abbrev pub place : Key → ℕ
  place k = get_bucket policy size k

  -- The weight for key `k` of a message in a cell.
  pub worth : Key → Arg → M
  worth k a =
      if policy.same_key (policy.get_key a) k
      then weight.of_value (policy.get_value a)
      else weight.unit

  -- What the cell for a key and a destination holds of it.
  abbrev pub held : Key → ℕ → Layer Arg → M
  held k d s = worth k (s.values (d * size + place k))

  abbrev pub total : Key → ℕ → Layer Arg → M
  total k d s = weight.plus (amount policy weight k d s.sent) (held k d s)

  -- A cell stands for one bucket of one destination.
  pub same_cell :
      (d e h g : ℕ) → h < size → g < size → d * size + h ≡ e * size + g → (d ≡ e) × (h ≡ g)
  same_cell d e h g lh lg eq =
      let one = row_parts size d h lh in
      let two = row_parts size e g lg in
      (sym one.1 ∙ ap (λ n. n / size) eq ∙ two.1, sym one.0 ∙ ap (λ n. n % size) eq ∙ two.0)

  pub part-worth : (k : Key) (d : ℕ) (a : Arg) → part policy weight k d (a, d) ≡ worth k a
  unfolding part worth
  part-worth k d a = rw (==-refl d) refl

  pub part_away :
      (k : Key) (d e : ℕ) (a : Arg) → (e == d) ≡ false → part policy weight k d (a, e) ≡ weight.unit
  unfolding part
  part_away k d e a h = rw h refl

  pub worth_away : (k : Key) (a : Arg) → policy.get_key a ≢ k → worth k a ≡ weight.unit
  unfolding worth
  worth_away k a n = elim (Bool-cases (policy.same_key (policy.get_key a) k)) [
    | inl same ↦ absurd (n ((lawful.same_key_iff (policy.get_key a) k).0 same))
    | inr other ↦ rw other refl
  ]

  -- A message in the wrong cell, or one with the identity, is worth nothing to the keys of the cell.
  pub not_held :
      (k : Key) (h : ℕ) (a : Arg)
      → is_held policy from_size lg_size fuel h a ≡ false
      → place k ≡ h
      → worth k a ≡ weight.unit
  unfolding is_held worth
  not_held k h a e here = elim (Bool-cases (policy.same_key (policy.get_key a) k)) [
    | inr other ↦ rw other refl
    | inl same ↦
        let ek = (lawful.same_key_iff (policy.get_key a) k).0 same in
        let hit : (place (policy.get_key a) == h) ≡ true = rw (ek, here) (==-refl h) in
        rw same (weight.of_value-identity a (ground (arith, e, hit)))
  ]

  worth_same :
      (k : Key) (a b : Arg)
      → policy.get_key a ≡ policy.get_key b
      → weight.of_value (policy.get_value a) ≡ weight.of_value (policy.get_value b)
      → worth k a ≡ worth k b
  unfolding worth
  worth_same k a b e w = rw (e, w) refl

  -- Combining two messages with one key.
  pub worth-combine :
      (k : Key) (a old : Arg)
      → policy.get_key old ≡ policy.get_key a
      → worth k (
          policy.make_keyval
            (policy.get_key a)
            (policy.combine (policy.get_value old) (policy.get_value a)))
        ≡ weight.plus (worth k old) (worth k a)
  unfolding worth
  worth-combine k a old e =
      rw (lawful.get_key-make_keyval, lawful.get_value-make_keyval, e)
        (elim (Bool-cases (policy.same_key (policy.get_key a) k)) [
          | inl same ↦ rw same (weight.of_value-combine (policy.get_value old) (policy.get_value a))
          | inr other ↦ rw other (sym (weight.plus-unit weight.unit))
        ])

  -- A message of the cell for `d` and `h` counts for no key of another cell.
  pub part_elsewhere :
      (k : Key) (d e h : ℕ) (a : Arg)
      → place (policy.get_key a) ≡ h
      → (d * size + h == e * size + place k) ≡ false
      → part policy weight k e (a, d) ≡ weight.unit
  part_elsewhere k d e h a at away = elim (Bool-cases (d == e)) [
    | inr other ↦ part_away k e d a other
    | inl same ↦
        let same_dest : d ≡ e = ground (arith, same) in
        subst (λ (x : ℕ). part policy weight k x (a, d) ≡ weight.unit) same_dest
          (part-worth k d a
            ∙ worth_away k a (λ eq. ground (arith, away, same_dest, sym at ∙ ap place eq)))
  ]

  -- What became of a cell: a message was put into it, and messages were passed on.
  pub record Moved (d h : ℕ) (kv : Arg) (extra : List (Arg × ℕ)) (s s' : Layer Arg) : Type 0 where
    pub free : (j : ℕ) → s.locks j ≡ 0 → s'.locks j ≡ 0
    pub values : s'.values ≡ store s.values (d * size + h) kv
    pub sent : s'.sent ≡ s.sent ++ extra

  -- The totals, if the cell's new message and what was passed on balance the old one and a gain.
  pub balance :
      (d h : ℕ) (kv : Arg) (extra : List (Arg × ℕ)) (s s' : Layer Arg)
      → h < size
      → Moved d h kv extra s s'
      → (gain : Key → ℕ → M)
      → ((k : Key)
          → place k ≡ h
          → weight.plus (amount policy weight k d extra) (worth k kv)
            ≡ weight.plus (worth k (s.values (d * size + h))) (gain k d))
      → ((k : Key) (e : ℕ)
          → (d * size + h == e * size + place k) ≡ false
          → (amount policy weight k e extra ≡ weight.unit) × (gain k e ≡ weight.unit))
      → (k : Key) (e : ℕ) → total k e s' ≡ weight.plus (total k e s) (gain k e)
  balance d h kv extra s s' lt moved gain here away k e =
      ap (λ (l : List (Arg × ℕ)). weight.plus (amount policy weight k e l) (held k e s')) moved.sent
      ∙ ap (λ (u : M). weight.plus u (held k e s')) (amount-append policy weight k e s.sent extra)
      ∙ weight.plus_assoc A X (held k e s')
      ∙ ap (λ (f : ℕ → Arg). weight.plus A (weight.plus X (worth k (f (e * size + place k)))))
          moved.values
      ∙ ap (weight.plus A) (
          store-cases (λ (v : Arg). weight.plus X (worth k v) ≡ weight.plus (held k e s) (gain k e))
            s.values (d * size + h) kv (e * size + place k) at_cell elsewhere)
      ∙ sym (weight.plus_assoc A (held k e s) (gain k e))
    where
      A : M
      A = amount policy weight k e s.sent

      X : M
      X = amount policy weight k e extra

      at_cell :
          d * size + h ≡ e * size + place k
          → weight.plus X (worth k kv) ≡ weight.plus (held k e s) (gain k e)
      at_cell eq =
          let (same_d, same_h) =
            same_cell d e h (place k) lt (get_bucket-lt policy size k some_cell) eq in
          subst
            (λ (x : ℕ).
              weight.plus (amount policy weight k x extra) (worth k kv)
              ≡ weight.plus (worth k (s.values (x * size + place k))) (gain k x))
            same_d
            (subst
              (λ (y : ℕ).
                weight.plus (amount policy weight k d extra) (worth k kv)
                ≡ weight.plus (worth k (s.values (d * size + y))) (gain k d))
              same_h (here k (sym same_h)))

      elsewhere :
          (d * size + h == e * size + place k) ≡ false
          → weight.plus X (worth k (s.values (e * size + place k)))
            ≡ weight.plus (held k e s) (gain k e)
      elsewhere off =
          rw ((away k e off).0, (away k e off).1)
            (unit-plus policy weight (held k e s) ∙ sym (weight.plus-unit (held k e s)))
