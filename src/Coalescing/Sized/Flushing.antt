-- ===== src/Coalescing/Sized/Flushing.antt =====
-- am++/size_coalesced_message_type.hpp: a buffer to which nothing is added is sent by the second flush.
use ampp.Prelude.{
  ℕ, ◌≡◌, refl, sym, ap, subst, ◌∙◌, true, false, not, ◌&&◌, arith, ltb, ◌==◌, List, [], ◌∷◌, ◌++◌,
  append-nil, Bool-cases, inl, inr,
}
use native.Mathlib.Decide.{dec_lt}
use ampp.Coalescing.Sized.{
  Buffer, returned, sender_active, masked, sent, clear, flushed, flush_dest,
}
use ampp.Coalescing.Sized.Sending.{Inv, history, delivered, send_buffer-sent, sent_log}

module _ {A : Type 0} where
  -- A flush that finds what the last one found.
  flush_dest-again :
      (b : Buffer A)
      → Inv b
      → (b' : Buffer A) × (flush_dest b.count_allocated b ≡ returned (b.count_allocated, b'))
        × Inv b'
        × (delivered b'.events ≡ history b)
        × (b'.count_allocated ≡ 0)
  unfolding flush_dest flushed clear
  flush_dest-again b inv = elim (dec_lt 0 b.count_allocated) [
    | yes some_count ↦
        let b1 = record b { count_allocated = sender_active } in
        let same : not (b.count_allocated == b.count_allocated) ≡ false = ground arith in
        let there : ltb 0 b.count_allocated && ltb b.count_allocated b.max_count ≡ true =
          ground (arith, some_count, inv.below) in
        let made =
          send_buffer-sent b.count_allocated b1 refl some_count
            (omega (arith, inv.below, inv.small)) (omega (arith, inv.below)) inv.written
            (inv.told some_count) in
        (
          record (clear b1) { events = b.events ++ sent b.items (masked b.count_allocated) ∷ [] },
          rw (same, there) (ap (flushed b.count_allocated) made),
          record {
            small = inv.small;
            below = omega (arith, inv.below);
            written = refl;
            told = λ p. absurd (omega (arith, p));
            bare = λ z. refl;
          },
          sym (append-nil (delivered (b.events ++ sent b.items (masked b.count_allocated) ∷ [])))
              ∙ sent_log b.events b.items (masked b.count_allocated),
          refl,
        )
    | no none_there ↦
        let zero_count : b.count_allocated ≡ 0 = omega (arith, none_there) in
        (
          b,
          ground (arith, zero_count),
          inv,
          sym (append-nil (delivered b.events))
              ∙ ap (λ (l : List A). delivered b.events ++ l) (sym (inv.bare zero_count)),
          zero_count,
        )
  ]

  flush_dest-empty :
      (last_active : ℕ) (b : Buffer A)
      → b.count_allocated ≡ 0
      → (last : ℕ) × (flush_dest last_active b ≡ returned (last, b))
  unfolding flush_dest
  flush_dest-empty last_active b e = elim (Bool-cases (b.count_allocated == last_active)) [
    | inl same ↦ (last_active, ground (arith, e, same))
    | inr changed ↦ (b.count_allocated, rw changed refl)
  ]

  flush_dest-first :
      (last_active : ℕ) (b : Buffer A)
      → (b.count_allocated == last_active) ≡ false
      → flush_dest last_active b ≡ returned (b.count_allocated, b)
  unfolding flush_dest
  flush_dest-first last_active b changed = rw changed refl

  -- Two flushes of a destination with nothing added in between return, keep the invariant of its
  -- buffer, and leave nothing in it: all messages so far have been sent, in order.
  pub flush_dest-twice :
      (last_active : ℕ) (b : Buffer A)
      → Inv b
      → (last1 : ℕ) × (b1 : Buffer A) × (last2 : ℕ) × (b2 : Buffer A) × (flush_dest last_active b
          ≡ returned (last1, b1))
        × (flush_dest last1 b1 ≡ returned (last2, b2))
        × Inv b2
        × (delivered b2.events ≡ history b)
        × (b2.items ≡ [])
  flush_dest-twice last_active b inv =
      let (b', made, inv', log, empty) = flush_dest-again b inv in
      elim (Bool-cases (b.count_allocated == last_active)) [
        | inl same ↦
            let e : b.count_allocated ≡ last_active = ground (arith, same) in
            let (last, idle) = flush_dest-empty b.count_allocated b' empty in
            (
              b.count_allocated,
              b',
              last,
              b',
              subst (λ n. flush_dest n b ≡ returned (b.count_allocated, b')) e made,
              idle,
              inv',
              log,
              inv'.bare empty,
            )
        | inr changed ↦ (
          b.count_allocated,
          b,
          b.count_allocated,
          b',
          flush_dest-first last_active b changed,
          made,
          inv',
          log,
          inv'.bare empty,
        )
      ]
