-- ===== src/Reductions/Locking/Forgotten.antt =====
-- am++/reductions.hpp, locking_cache_binop_reduction: the mark that entries are filled is one for all
-- destinations.
use ampp.Prelude.{
  ℕ, ◌+◌, ◌*◌, ◌<◌, ◌≡◌, refl, ap, ◌∙◌, false, List, [], ◌∷◌, some, ◌==◌, inl, inr, Bool-cases,
  row-lt,
}
use ampp.Reductions.Combine.{Policy, get_size}
use ampp.Reductions.Combine.Dummies.{get_bucket-lt}
use ampp.Reductions.Locking.{
  Layer, Op, to_send, to_flush, pass_on, mark_filled, bucket, is_held, replaced, after_replaced,
  send, step_from, run,
}
use ampp.Reductions.Locking.Steps.{Exchanged, exchange-Exchanged}

-- A program that only sends, to ranks.
abbrev pub Sends : {Arg : Type 0} → ℕ → List (Op Arg) → Type 0
Sends nranks [] = Unit
Sends nranks (to_send a d ∷ ops) = (d < nranks) × Sends nranks ops
Sends nranks (to_flush d ∷ ops) = ⊥

module _ {Arg Key Value : Type 0} (policy : Policy Arg Key Value) (from_size : ℕ → Key)
    (lg_size fuel nranks : ℕ) (some_cell : 0 < get_size lg_size) where
  -- A layer whose mark is set, with every lock free.
  pub record Marked (s : Layer Arg) : Type 0 where
    pub free : (j : ℕ) → j < nranks * get_size lg_size → s.locks j ≡ 0
    pub set : (s.any_filled_entries == 0) ≡ false

  exchange-Marked :
      (i : ℕ) (kv : Arg) (s s' : Layer Arg) → Marked s → Exchanged i kv s s' → Marked s'
  exchange-Marked i kv s s' m ex = record {
    free = λ j lt. ex.free j (m.free j lt);
    set = ap (λ (n : ℕ). n == 0) ex.filled ∙ m.set;
  }

  replaced-Marked :
      (h : ℕ) (old : Arg) (d : ℕ) (s : Layer Arg)
      → Marked s
      → Marked (replaced policy from_size lg_size fuel h old d s)
        × ((replaced policy from_size lg_size fuel h old d s).flush_objects ≡ s.flush_objects)
  unfolding replaced pass_on mark_filled
  replaced-Marked h old d s m = elim (Bool-cases (is_held policy from_size lg_size fuel h old)) [
    | inl e ↦ rw e (record { free = m.free; set = m.set }, refl)
    | inr e ↦ rw (e, m.set) (record { free = m.free; set = refl }, refl)
  ]

  send-Marked :
      (a : Arg) (d : ℕ) (s : Layer Arg)
      → d < nranks
      → Marked s
      → (s' : Layer Arg) × (send policy from_size lg_size fuel a d s ≡ some s')
        × Marked s'
        × (s'.flush_objects ≡ s.flush_objects)
  unfolding send
  send-Marked a d s ld m =
      let x = from_size (policy.hash_key (policy.get_key a)) in
      let h = bucket policy from_size lg_size fuel x in
      let i = d * get_size lg_size + h in
      let old = s.values i in
      let unlocked = m.free i (
        row-lt nranks (get_size lg_size) d h ld
          (get_bucket-lt policy (get_size lg_size) x some_cell)) in
      elim (Bool-cases (policy.same_key (policy.get_key a) (policy.get_key old))) [
        | inl same ↦
            let new =
              policy.make_keyval (policy.get_key a)
                (policy.combine (policy.get_value old) (policy.get_value a)) in
            let (s', made, ex) = exchange-Exchanged i new s unlocked in
            (s', rw same made, exchange-Marked i new s s' m ex, ex.objects)
        | inr other ↦
            let (s', made, ex) = exchange-Exchanged i a s unlocked in
            let (marked, same) = replaced-Marked h old d s' (exchange-Marked i a s s' m ex) in
            (
              replaced policy from_size lg_size fuel h old d s',
              rw other (ap (after_replaced policy from_size lg_size fuel h old d) made),
              marked,
              same ∙ ex.objects,
            )
      ]

  -- In a layer whose mark is set and whose locks are free, every program of sends to ranks succeeds
  -- and tells the transport of no destination to flush, whatever the destinations are.
  pub sends-forgotten :
      (ops : List (Op Arg)) (s : Layer Arg)
      → Sends nranks ops
      → Marked s
      → (s' : Layer Arg) × (run policy from_size lg_size fuel (some s) ops ≡ some s')
        × (s'.flush_objects ≡ s.flush_objects)
  unfolding run step_from
  sends-forgotten [] s ok m = (s, refl, refl)
  sends-forgotten (to_send a d ∷ ops) s (ld, ok) m =
      let (s1, made, m1, same) = send-Marked a d s ld m in
      let (s2, rest, still) = sends-forgotten ops s1 ok m1 in
      (s2, ap (λ r. run policy from_size lg_size fuel r ops) made ∙ rest, still ∙ same)
  sends-forgotten (to_flush d ∷ ops) s ok m = absurd ok
