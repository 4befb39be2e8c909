-- ===== src/Reductions/Locking/Conserved.antt =====
-- am++/reductions.hpp, locking_cache_binop_reduction: sends and flushes keep what the messages
-- amount to, and a flush leaves nothing in the cells of its destination.
use ampp.Prelude.{
  ℕ, ◌+◌, ◌*◌, ◌<◌, ◌≡◌, refl, sym, ap, ◌∙◌, true, false, List, [], ◌∷◌, ◌++◌, some, ◌==◌, inl, inr,
  arith, Bool-cases, row-lt, append-nil,
}
use ampp.Reductions.Combine.{Policy, get_size}
use ampp.Reductions.Combine.Dummies.{get_bucket-lt}
use ampp.Reductions.Combine.Weights.{Weight, Lawful, part, amount, unit-plus}
use ampp.Reductions.Locking.{Layer, pass_on, mark_filled, is_held, replaced, after_replaced, send}
use ampp.Reductions.Locking.Steps.{
  Exchanged, exchange-Exchanged, place, worth, total, part-worth, part_elsewhere, not_held,
  worth-combine, Moved, balance,
}

module _ {Arg Key Value M : Type 0} (policy : Policy Arg Key Value) (from_size : ℕ → Key)
    (lg_size fuel : ℕ) (lawful : Lawful policy) (weight : Weight policy M)
    (some_cell : 0 < get_size lg_size) (nranks : ℕ) where
  abbrev pub cell : ℕ → ℕ → ℕ
  cell d h = d * get_size lg_size + h

  abbrev pub Free : Layer Arg → Type 0
  Free s = (j : ℕ) → j < nranks * get_size lg_size → s.locks j ≡ 0

  -- What a step does to the totals.
  pub record Grown (gain : Key → ℕ → M) (s s' : Layer Arg) : Type 0 where
    pub free : Free s'
    pub total_grown :
        (k : Key) (e : ℕ)
        → total policy from_size lg_size fuel lawful weight some_cell k e s'
          ≡ weight.plus
              (total policy from_size lg_size fuel lawful weight some_cell k e s)
              (gain k e)

  abbrev pub place_of : Key → ℕ
  place_of = place policy from_size lg_size fuel lawful weight some_cell

  abbrev pub worth_of : Key → Arg → M
  worth_of = worth policy from_size lg_size fuel lawful weight some_cell

  part_here : (k : Key) (d : ℕ) (a : Arg) → part policy weight k d (a, d) ≡ worth_of k a
  part_here = part-worth policy from_size lg_size fuel lawful weight some_cell

  elsewhere :
      (k : Key) (d e h : ℕ) (a : Arg)
      → place_of (policy.get_key a) ≡ h
      → (cell d h == cell e (place_of k)) ≡ false
      → part policy weight k e (a, d) ≡ weight.unit
  elsewhere = part_elsewhere policy from_size lg_size fuel lawful weight some_cell

  abbrev gain_of : Arg → ℕ → Key → ℕ → M
  gain_of a d k e = part policy weight k e (a, d)

  free_after : (i : ℕ) (kv : Arg) (s s' : Layer Arg) → Free s → Exchanged i kv s s' → Free s'
  free_after i kv s s' free ex j lt = ex.free j (free j lt)

  -- Nothing is passed on while a cell is written.
  pub kept_back :
      (d h : ℕ) (kv : Arg) (s s' : Layer Arg)
      → Exchanged (cell d h) kv s s'
      → Moved policy from_size lg_size fuel lawful weight some_cell d h kv [] s s'
  kept_back d h kv s s' ex = record {
    free = ex.free;
    values = ex.values;
    sent = ex.sent ∙ sym (append-nil s.sent);
  }

  -- The message that was in the cell is passed on.
  pub passed_on :
      (d h : ℕ) (kv old : Arg) (s s' : Layer Arg)
      → Exchanged (cell d h) kv s s'
      → Moved policy from_size lg_size fuel lawful weight some_cell d h kv
          ((old, d) ∷ [])
          s
          (pass_on old d s')
  unfolding pass_on
  passed_on d h kv old s s' ex = record {
    free = ex.free;
    values = ex.values;
    sent = ap (λ (l : List (Arg × ℕ)). l ++ (old, d) ∷ []) ex.sent;
  }

  -- The layer notes that its cells are filled.
  marked :
      (d h : ℕ) (kv : Arg) (s s' : Layer Arg)
      → Exchanged (cell d h) kv s s'
      → Moved policy from_size lg_size fuel lawful weight some_cell d h kv [] s (mark_filled d s')
  unfolding mark_filled
  marked d h kv s s' ex = record {
    free = ex.free;
    values = ex.values;
    sent = ex.sent ∙ sym (append-nil s.sent);
  }

  -- What is in a cell is passed on if it counts there, and counts nothing if not.
  pub held_old :
      (k : Key) (d h : ℕ) (old : Arg)
      → is_held policy from_size lg_size fuel h old ≡ true
      → amount policy weight k d ((old, d) ∷ [])
        ≡ worth policy from_size lg_size fuel lawful weight some_cell k old
  unfolding amount
  held_old k d h old e =
      weight.plus-unit (part policy weight k d (old, d))
      ∙ part-worth policy from_size lg_size fuel lawful weight some_cell k d old

  pub held_key :
      (h : ℕ) (old : Arg)
      → is_held policy from_size lg_size fuel h old ≡ true
      → place policy from_size lg_size fuel lawful weight some_cell (policy.get_key old) ≡ h
  unfolding is_held
  held_key h old e = ground (arith, e)

  pub one_elsewhere :
      (k : Key) (d e h : ℕ) (old : Arg)
      → place policy from_size lg_size fuel lawful weight some_cell (policy.get_key old) ≡ h
      → (cell d h == cell e (place policy from_size lg_size fuel lawful weight some_cell k)) ≡ false
      → amount policy weight k e ((old, d) ∷ []) ≡ weight.unit
  unfolding amount
  one_elsewhere k d e h old at away =
      weight.plus-unit (part policy weight k e (old, d))
      ∙ part_elsewhere policy from_size lg_size fuel lawful weight some_cell k d e h old at away

  -- A hash, converted to a key, lies in the bucket of its key.
  abbrev pub IsStable : Type 0
  IsStable = (k : Key) → place_of (from_size (policy.hash_key k)) ≡ place_of k

  pub Moved-Grown :
      (d h : ℕ) (kv : Arg) (extra : List (Arg × ℕ)) (gain : Key → ℕ → M) (s s' : Layer Arg)
      → h < get_size lg_size
      → Free s
      → Moved policy from_size lg_size fuel lawful weight some_cell d h kv extra s s'
      → ((k : Key)
          → place_of k ≡ h
          → weight.plus (amount policy weight k d extra) (worth_of k kv)
            ≡ weight.plus (worth_of k (s.values (cell d h))) (gain k d))
      → ((k : Key) (e : ℕ)
          → (cell d h == cell e (place_of k)) ≡ false
          → (amount policy weight k e extra ≡ weight.unit) × (gain k e ≡ weight.unit))
      → Grown gain s s'
  Moved-Grown d h kv extra gain s s' lt free moved here away = record {
    free = λ j inside. moved.free j (free j inside);
    total_grown =
        balance policy from_size lg_size fuel lawful weight some_cell d h kv extra s s' lt moved
          gain here away;
  }

  replaced-Grown :
      (a : Arg) (d h : ℕ) (s s' : Layer Arg)
      → h < get_size lg_size
      → place_of (policy.get_key a) ≡ h
      → Free s
      → Exchanged (cell d h) a s s'
      → Grown (gain_of a d) s (replaced policy from_size lg_size fuel h (s.values (cell d h)) d s')
  unfolding replaced amount
  replaced-Grown a d h s s' lt at free ex =
      elim (Bool-cases (is_held policy from_size lg_size fuel h (s.values (cell d h)))) [
        | inl e ↦ rw e (
            Moved-Grown d h a ((s.values (cell d h), d) ∷ []) (gain_of a d) s
              (pass_on (s.values (cell d h)) d s') lt free
              (passed_on d h a (s.values (cell d h)) s s' ex)
              (λ k here.
                ap (λ (u : M). weight.plus u (worth_of k a))
                  (held_old k d h (s.values (cell d h)) e)
                ∙ ap (weight.plus (worth_of k (s.values (cell d h)))) (sym (part_here k d a)))
              (λ k x away. (
                one_elsewhere k d x h (s.values (cell d h)) (held_key h (s.values (cell d h)) e)
                    away,
                elsewhere k d x h a at away,
              )))
        | inr e ↦ rw e (
            Moved-Grown d h a [] (gain_of a d) s (mark_filled d s') lt free (marked d h a s s' ex)
              (λ k here.
                unit-plus policy weight (worth_of k a)
                ∙ sym (unit-plus policy weight (worth_of k a))
                ∙ ap (λ (u : M). weight.plus u (worth_of k a))
                    (sym (
                      not_held policy from_size lg_size fuel lawful weight some_cell k h
                        (s.values (cell d h)) e here))
                ∙ ap (weight.plus (worth_of k (s.values (cell d h)))) (sym (part_here k d a)))
              (λ k x away. (refl, elsewhere k d x h a at away)))
      ]

  combined-Grown :
      (a : Arg) (d h : ℕ) (s s' : Layer Arg)
      → h < get_size lg_size
      → place_of (policy.get_key a) ≡ h
      → Free s
      → policy.get_key (s.values (cell d h)) ≡ policy.get_key a
      → Exchanged
          (cell d h)
          (policy.make_keyval
            (policy.get_key a)
            (policy.combine (policy.get_value (s.values (cell d h))) (policy.get_value a)))
          s
          s'
      → Grown (gain_of a d) s s'
  unfolding amount
  combined-Grown a d h s s' lt at free same ex =
      let new =
        policy.make_keyval (policy.get_key a)
          (policy.combine (policy.get_value (s.values (cell d h))) (policy.get_value a)) in
      Moved-Grown d h new [] (gain_of a d) s s' lt free (kept_back d h new s s' ex)
        (λ k here.
          unit-plus policy weight (worth_of k new)
          ∙ worth-combine policy from_size lg_size fuel lawful weight some_cell k a
              (s.values (cell d h)) same
          ∙ ap (weight.plus (worth_of k (s.values (cell d h)))) (sym (part_here k d a)))
        (λ k x away. (refl, elsewhere k d x h a at away))

  -- A send to a rank finds its cell unlocked.
  pub send-Grown :
      IsStable
      → (a : Arg) (d : ℕ) (s : Layer Arg) → d < nranks
      → Free s
      → (s' : Layer Arg) × (send policy from_size lg_size fuel a d s ≡ some s')
        × Grown (gain_of a d) s s'
  unfolding send
  send-Grown stable a d s ld free =
      let h = place_of (from_size (policy.hash_key (policy.get_key a))) in
      let at : place_of (policy.get_key a) ≡ h = sym (stable (policy.get_key a)) in
      let lt =
        get_bucket-lt policy (get_size lg_size) (from_size (policy.hash_key (policy.get_key a)))
          some_cell in
      let old = s.values (cell d h) in
      let unlocked = free (cell d h) (row-lt nranks (get_size lg_size) d h ld lt) in
      elim (Bool-cases (policy.same_key (policy.get_key a) (policy.get_key old))) [
        | inl same ↦
            let new =
              policy.make_keyval (policy.get_key a)
                (policy.combine (policy.get_value old) (policy.get_value a)) in
            let (s', made, ex) = exchange-Exchanged (cell d h) new s unlocked in
            (
              s',
              rw same made,
              combined-Grown a d h s s' lt at free
                  (sym ((lawful.same_key_iff (policy.get_key a) (policy.get_key old)).0 same)) ex,
            )
        | inr other ↦
            let (s', made, ex) = exchange-Exchanged (cell d h) a s unlocked in
            (
              replaced policy from_size lg_size fuel h old d s',
              rw other (ap (after_replaced policy from_size lg_size fuel h old d) made),
              replaced-Grown a d h s s' lt at free ex,
            )
      ]
