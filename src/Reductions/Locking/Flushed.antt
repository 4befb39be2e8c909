-- ===== src/Reductions/Locking/Flushed.antt =====
-- am++/reductions.hpp, locking_cache_binop_reduction: a flush passes on what the cells of its
-- destination hold.
use ampp.Prelude.{
  ℕ, zero, suc, ◌+◌, ◌*◌, ◌<◌, ◌≤◌, ◌≡◌, ◌≢◌, refl, sym, ap, ◌∙◌, Bool, true, false, ◌||◌, [], ◌∷◌,
  some, inl, inr, arith, Bool-cases, store, store-cases, row-lt,
}
use ampp.Reductions.Combine.{Policy, get_size}
use ampp.Reductions.Combine.Dummies.{Found, get_bucket-lt}
use ampp.Reductions.Combine.Weights.{Weight, Lawful, amount}
use ampp.Reductions.Locking.{
  Layer, pass_on, is_held, taken, flush_with, flush_cell, did_or, next_cell, flush_cells, emptied,
  flush,
}
use ampp.Reductions.Locking.Steps.{
  Exchanged, exchange-Exchanged, place, worth, held, total, worth_away, not_held,
}
use ampp.Reductions.Locking.Conserved.{
  Free, Grown, kept_back, passed_on, Moved-Grown, held_old, held_key, one_elsewhere,
}

module _ {Arg Key Value M : Type 0} (policy : Policy Arg Key Value) (from_size : ℕ → Key)
    (lg_size fuel : ℕ) (lawful : Lawful policy) (weight : Weight policy M)
    (some_cell : 0 < get_size lg_size) (nranks : ℕ) where
  abbrev pub Kept : Layer Arg → Layer Arg → Type 0
  Kept = Grown policy from_size lg_size fuel lawful weight some_cell nranks (λ k e. weight.unit)

  abbrev pub at_place : Key → ℕ
  at_place = place policy from_size lg_size fuel lawful weight some_cell

  abbrev pub value_of : Key → Arg → M
  value_of = worth policy from_size lg_size fuel lawful weight some_cell

  abbrev index : ℕ → ℕ → ℕ
  index d h = d * get_size lg_size + h

  abbrev OpenLocks : Layer Arg → Type 0
  OpenLocks = Free policy from_size lg_size fuel lawful weight some_cell nranks

  Kept-trans : (s t u : Layer Arg) → Kept s t → Kept t u → Kept s u
  Kept-trans s t u one two = record {
    free = two.free;
    total_grown = λ k e.
        two.total_grown k e
        ∙ weight.plus-unit (total policy from_size lg_size fuel lawful weight some_cell k e t)
        ∙ one.total_grown k e;
  }

  -- What a round of the loop leaves in its cell, and in the others.
  pub record Emptied (d h : ℕ) (s s' : Layer Arg) : Type 0 where
    pub kept : Kept s s'
    pub values :
        (kv : Arg) × (s'.values ≡ store s.values (index d h) kv)
        × ((k : Key) → at_place k ≡ h → value_of k kv ≡ weight.unit)

  -- A message with a key of another bucket counts for no key of the cell's.
  pub dummy_worth :
      (x : Key) (h : ℕ)
      → at_place x ≢ h
      → (k : Key) → at_place k ≡ h
      → value_of k (policy.make_keyval x policy.default_value) ≡ weight.unit
  dummy_worth x h differs k here =
      worth_away policy from_size lg_size fuel lawful weight some_cell k
        (policy.make_keyval x policy.default_value)
        (λ e.
          differs
            (ap at_place (sym (lawful.get_key-make_keyval x policy.default_value) ∙ e) ∙ here))

  taken-Emptied :
      (d h : ℕ) (kv : Arg) (s s' : Layer Arg)
      → h < get_size lg_size
      → OpenLocks s
      → ((k : Key) → at_place k ≡ h → value_of k kv ≡ weight.unit)
      → Exchanged (index d h) kv s s'
      → (did : Bool) × (s2 : Layer Arg) × (taken policy from_size lg_size fuel h
            (s.values (index d h))
            d
            (some s')
          ≡ some (did, s2))
        × Emptied d h s s2
  unfolding taken pass_on amount
  taken-Emptied d h kv s s' lt free nothing ex =
      let old = s.values (index d h) in
      elim (Bool-cases (is_held policy from_size lg_size fuel h old)) [
        | inl e ↦ (
          true,
          pass_on old d s',
          rw e refl,
          record {
            kept =
                Moved-Grown policy from_size lg_size fuel lawful weight some_cell nranks d h kv
                  ((old, d) ∷ []) (λ k x. weight.unit) s (pass_on old d s') lt free
                  (passed_on policy from_size lg_size fuel lawful weight some_cell nranks d h kv old
                    s s' ex)
                  (λ k here.
                    ap (λ (u : M). weight.plus u (value_of k kv))
                      (held_old policy from_size lg_size fuel lawful weight some_cell nranks k d h
                        old e)
                    ∙ ap (weight.plus (value_of k old)) (nothing k here))
                  (λ k x away. (
                    one_elsewhere policy from_size lg_size fuel lawful weight some_cell nranks k d x
                        h old
                        (held_key policy from_size lg_size fuel lawful weight some_cell nranks h old
                          e)
                        away,
                    refl,
                  ));
            values = (kv, ex.values, nothing);
          },
        )
        | inr e ↦ (
          false,
          s',
          rw e refl,
          record {
            kept =
                Moved-Grown policy from_size lg_size fuel lawful weight some_cell nranks d h kv []
                  (λ k x. weight.unit) s s' lt free
                  (kept_back policy from_size lg_size fuel lawful weight some_cell nranks d h kv s
                    s' ex)
                  (λ k here.
                    ap (weight.plus weight.unit) (nothing k here)
                    ∙ ap (λ (u : M). weight.plus u weight.unit)
                        (sym (
                          not_held policy from_size lg_size fuel lawful weight some_cell k h old e
                            here)))
                  (λ k x away. (refl, refl));
            values = (kv, ex.values, nothing);
          },
        )
      ]

  flush_cell-Emptied :
      (d h : ℕ) (s : Layer Arg)
      → Found policy fuel (get_size lg_size) h
      → d < nranks
      → h < get_size lg_size
      → OpenLocks s
      → (did : Bool) × (s' : Layer Arg) × (flush_cell policy from_size lg_size fuel d h s
          ≡ some (did, s'))
        × Emptied d h s s'
  unfolding flush_cell flush_with
  flush_cell-Emptied d h s (x, found, differs) ld lt free =
      let kv = policy.make_keyval x policy.default_value in
      let (s1, made, ex) =
        exchange-Exchanged (index d h) kv s
          (free (index d h) (row-lt nranks (get_size lg_size) d h ld lt)) in
      let (did, s2, took, done) = taken-Emptied d h kv s s1 lt free (dummy_worth x h differs) ex in
      (
        did,
        s2,
        ap (λ o. flush_with policy from_size lg_size fuel o d h s) found
            ∙ ap (taken policy from_size lg_size fuel h (s.values (index d h)) d) made
            ∙ took,
        done,
      )

  -- The cells of a destination up to `n` count nothing.
  abbrev EmptyBelow : ℕ → ℕ → Layer Arg → Type 0
  EmptyBelow n d s =
      (k : Key) → at_place k < n → value_of k (s.values (index d (at_place k))) ≡ weight.unit

  Emptied-EmptyBelow :
      (d h : ℕ) (s s' : Layer Arg) → Emptied d h s s' → EmptyBelow h d s → EmptyBelow (suc h) d s'
  Emptied-EmptyBelow d h s s' done below k lt =
      let (kv, written, nothing) = done.values in
      ap (λ (f : ℕ → Arg). value_of k (f (index d (at_place k)))) written
      ∙ store-cases (λ (v : Arg). value_of k v ≡ weight.unit) s.values (index d h) kv
          (index d (at_place k)) (λ here. nothing k (omega (arith, here)))
          (λ away. below k (ground (arith, away, lt)))

  flush_cells-Kept :
      ((h : ℕ) → h < get_size lg_size → Found policy fuel (get_size lg_size) h)
      → (d n : ℕ) (s : Layer Arg) → d < nranks
      → n ≤ get_size lg_size
      → OpenLocks s
      → (did : Bool) × (s' : Layer Arg) × (flush_cells policy from_size lg_size fuel d n s
          ≡ some (did, s'))
        × Kept s s'
        × EmptyBelow n d s'
  unfolding flush_cells next_cell did_or
  flush_cells-Kept dummies d zero s ld le free = (
    false,
    s,
    refl,
    record {
      free = free;
      total_grown = λ k e.
          sym
            (weight.plus-unit (total policy from_size lg_size fuel lawful weight some_cell k e s));
    },
    λ k lt. absurd (omega (arith, lt)),
  )
  flush_cells-Kept dummies d (suc h) s ld le free =
      let (did1, s1, made1, kept1, below) =
        flush_cells-Kept dummies d h s ld (omega (arith, le)) free in
      let (did2, s2, made2, done) =
        flush_cell-Emptied d h s1 (dummies h (omega (arith, le))) ld (omega (arith, le))
          kept1.free in
      (
        did1 || did2,
        s2,
        ap (next_cell policy from_size lg_size fuel d h) made1
            ∙ ap (did_or policy from_size lg_size fuel did1) made2,
        Kept-trans s s1 s2 kept1 done.kept,
        Emptied-EmptyBelow d h s1 s2 done below,
      )

  -- A flush of a rank, in a layer in which no lock is held.
  pub flush-Kept :
      ((h : ℕ) → h < get_size lg_size → Found policy fuel (get_size lg_size) h)
      → (d : ℕ) (s : Layer Arg) → d < nranks
      → OpenLocks s
      → (did : Bool) × (s' : Layer Arg) × (flush policy from_size lg_size fuel d s ≡ some (did, s'))
        × Kept s s'
        × ((k : Key)
            → held policy from_size lg_size fuel lawful weight some_cell k d s' ≡ weight.unit)
  unfolding flush emptied
  flush-Kept dummies d s ld free =
      let (did, s', made, kept, below) =
        flush_cells-Kept dummies d (get_size lg_size) s ld (omega arith) free in
      (
        did,
        record s' { any_filled_entries = 0 },
        ap (emptied policy from_size lg_size fuel) made,
        record { free = kept.free; total_grown = kept.total_grown },
        λ k. below k (get_bucket-lt policy (get_size lg_size) k some_cell),
      )
