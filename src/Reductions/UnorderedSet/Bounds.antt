-- ===== src/Reductions/UnorderedSet/Bounds.antt =====
-- am++/reductions.hpp, unordered_set_remove_duplicates: the size of the sets.
use ampp.Prelude.{
  ℕ, zero, suc, ◌<◌, ◌≤◌, ◌≡◌, refl, ap, ◌∙◌, Bool, false, List, [], ◌∷◌, Option, some, ltb,
  store-cases, length, inl, inr, Bool-cases, arith,
}
use ampp.Reductions.UnorderedSet.Firsts.{ToRanks, send_from-insert_at}
use ampp.Reductions.UnorderedSet.{
  Layer, size_limit, member, clear_ranks, clear, init, inserted, insert_at, run,
}

module _ {Arg Stored : Type 0} (stored_value : Arg → Stored) (same : Stored → Stored → Bool)
    (nranks : ℕ) where
  -- A set in which no value is among those that were there before it.
  abbrev IsDistinct : List Stored → Type 0
  IsDistinct [] = Unit
  IsDistinct (v ∷ vs) = (member stored_value same nranks v vs ≡ false) × IsDistinct vs

  abbrev IsSound : List Stored → Type 0
  IsSound vs = (length vs ≤ size_limit) × IsDistinct vs

  -- Every set is within the limit and without repetitions.
  abbrev pub IsBounded : Layer Arg Stored → Type 0
  IsBounded s = (d : ℕ) → IsSound (s.cache d)

  not_big : (n : ℕ) → ltb size_limit n ≡ false → n ≤ size_limit
  not_big n small = ground (arith, small)

  inserted-IsSound :
      (v : Stored) (vs : List Stored)
      → member stored_value same nranks v vs ≡ false
      → IsSound vs
      → IsSound (inserted stored_value same nranks v vs)
  unfolding inserted
  inserted-IsSound v vs new (le, distinct) = elim (Bool-cases (ltb size_limit (suc (length vs)))) [
    | inl big ↦ rw big (omega arith, tt)
    | inr small ↦ rw small (not_big (suc (length vs)) small, (new, distinct))
  ]

  insert_at-IsBounded :
      (a : Arg) (d : ℕ) (s : Layer Arg Stored)
      → IsBounded s
      → IsBounded (insert_at stored_value same nranks a d s)
  unfolding insert_at
  insert_at-IsBounded a d s ok e =
      elim (Bool-cases (member stored_value same nranks (stored_value a) (s.cache d))) [
        | inl there ↦ rw there (ok e)
        | inr new ↦ rw new (
            store-cases IsSound s.cache d
              (inserted stored_value same nranks (stored_value a) (s.cache d)) e
              (λ here. inserted-IsSound (stored_value a) (s.cache d) new (ok d)) (λ away. ok e))
      ]

  clear_ranks-IsSound :
      (n : ℕ) (cache : ℕ → List Stored)
      → ((d : ℕ) → IsSound (cache d))
      → (d : ℕ) → IsSound (clear_ranks stored_value same nranks n cache d)
  unfolding clear_ranks
  clear_ranks-IsSound zero cache ok d = ok d
  clear_ranks-IsSound (suc i) cache ok d =
      store-cases IsSound (clear_ranks stored_value same nranks i cache) i [] d
        (λ here. (omega arith, tt)) (λ away. clear_ranks-IsSound i cache ok d)

  clear_ranks-length :
      (n : ℕ) (cache : ℕ → List Stored) (d : ℕ)
      → d < n
      → length (clear_ranks stored_value same nranks n cache d) ≡ 0
  unfolding clear_ranks
  clear_ranks-length zero cache d lt = absurd (omega (arith, lt))
  clear_ranks-length (suc i) cache d lt =
      store-cases (λ (ws : List Stored). length ws ≡ 0)
        (clear_ranks stored_value same nranks i cache) i [] d (λ here. refl)
        (λ away. clear_ranks-length i cache d (ground (arith, away, lt)))

  run-IsBounded :
      (ms : List (Arg × ℕ × Option ℕ)) (s : Layer Arg Stored)
      → ToRanks stored_value same nranks ms
      → IsBounded s
      → (s' : Layer Arg Stored) × (run stored_value same nranks (some s) ms ≡ some s')
        × IsBounded s'
  unfolding run
  run-IsBounded [] s ok bounded = (s, refl, bounded)
  run-IsBounded ((a, d, t) ∷ ms) s (lt, ok) bounded =
      let (s', made, bounded') =
        run-IsBounded ms (insert_at stored_value same nranks a d s) ok
          (insert_at-IsBounded a d s bounded) in
      (
        s',
        ap (λ r. run stored_value same nranks r ms)
              (send_from-insert_at stored_value same nranks a d t s lt)
            ∙ made,
        bounded',
      )

  -- A new layer takes every program of sends to ranks. After it, no set has more than 10000 values or
  -- a value twice, and `clear` empties the sets of all ranks.
  pub run-size :
      (ms : List (Arg × ℕ × Option ℕ))
      → ToRanks stored_value same nranks ms
      → (s : Layer Arg Stored) × (run stored_value same nranks
            (some (init stored_value same nranks))
            ms
          ≡ some s)
        × IsBounded s
        × ((d : ℕ) → d < nranks → length ((clear stored_value same nranks s).cache d) ≡ 0)
  unfolding init clear
  run-size ms ok =
      let (s, made, bounded) =
        run-IsBounded ms (init stored_value same nranks) ok
          (clear_ranks-IsSound nranks (λ d. []) (λ d. (omega arith, tt))) in
      (s, made, bounded, clear_ranks-length nranks s.cache)
