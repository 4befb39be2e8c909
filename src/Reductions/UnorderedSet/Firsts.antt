-- ===== src/Reductions/UnorderedSet/Firsts.antt =====
-- am++/reductions.hpp, unordered_set_remove_duplicates: what is passed on.
use ampp.Prelude.{
  ℕ, zero, suc, ◌+◌, ◌<◌, ◌≤◌, ◌≡◌, refl, sym, ap, ◌∙◌, Bool, false, ◌&&◌, ◌||◌, List, [], ◌∷◌,
  ◌++◌, Option, none, some, ltb, ◌==◌, if◌then◌else◌, store, store-cases, length, inl, inr,
  Bool-cases, arith, lt→ltb, ltb→lt,
}
use ampp.Reductions.UnorderedSet.{
  Layer, size_limit, member, clear_ranks, clear, init, inserted, insert_at, send, send_with_tid,
  send_from, run,
}

module _ {Arg Stored : Type 0} (stored_value : Arg → Stored) (same : Stored → Stored → Bool)
    (nranks : ℕ) where
  -- Whether a value is among those of messages for a destination.
  abbrev pub occurs : Stored → ℕ → List (Arg × ℕ) → Bool
  occurs v d [] = false
  occurs v d ((a, e) ∷ ms) = ((e == d) && same (stored_value a) v) || occurs v d ms

  -- The messages whose value has not been among those for the destination before.
  abbrev pub firsts : List (Arg × ℕ) → List (Arg × ℕ × Option ℕ) → List (Arg × ℕ)
  firsts seen [] = seen
  firsts seen ((a, d, t) ∷ ms) =
      firsts (if occurs (stored_value a) d seen then seen else seen ++ (a, d) ∷ []) ms

  abbrev pub ToRanks : List (Arg × ℕ × Option ℕ) → Type 0
  ToRanks [] = Unit
  ToRanks ((a, d, t) ∷ ms) = (d < nranks) × ToRanks ms

  -- The sets hold what has been passed on, and `n` more values fit in each.
  record Holds (n : ℕ) (s : Layer Arg Stored) : Type 0 where
    pub members :
        (v : Stored) (d : ℕ) → member stored_value same nranks v (s.cache d) ≡ occurs v d s.sent
    pub room : (d : ℕ) → length (s.cache d) + n ≤ size_limit

  occurs-last :
      (v : Stored) (d : ℕ) (ms : List (Arg × ℕ)) (a : Arg) (e : ℕ)
      → occurs v d (ms ++ (a, e) ∷ []) ≡ (((e == d) && same (stored_value a) v) || occurs v d ms)
  occurs-last v d [] a e = refl
  occurs-last v d ((b, f) ∷ ms) a e = ground (arith, occurs-last v d ms a e)

  inserted_fits :
      (n : ℕ) (v : Stored) (vs : List Stored)
      → length vs + suc n ≤ size_limit
      → inserted stored_value same nranks v vs ≡ v ∷ vs
  unfolding inserted
  inserted_fits n v vs room = elim (Bool-cases (ltb size_limit (suc (length vs)))) [
    | inl big ↦ absurd (omega (arith, ltb→lt size_limit (suc (length vs)) big, room))
    | inr small ↦ rw small refl
  ]

  insert_at-Holds :
      (n : ℕ) (a : Arg) (d : ℕ) (s : Layer Arg Stored)
      → Holds (suc n) s
      → Holds n (insert_at stored_value same nranks a d s)
        × ((insert_at stored_value same nranks a d s).sent
            ≡ (if occurs (stored_value a) d s.sent then s.sent else s.sent ++ (a, d) ∷ []))
  unfolding insert_at
  insert_at-Holds n a d s holds =
      elim (Bool-cases (member stored_value same nranks (stored_value a) (s.cache d))) [
        | inl there ↦
            rw (there, sym (holds.members (stored_value a) d) ∙ there)
              (record { members = holds.members; room = λ e. omega (arith, holds.room e) }, refl)
        | inr new ↦
            rw (new, sym (holds.members (stored_value a) d) ∙ new)
              (
                record {
                  members = λ v e. occurs-members v e;
                  room = λ e.
                      store-cases (λ (ws : List Stored). length ws + n ≤ size_limit) s.cache d
                        (inserted stored_value same nranks (stored_value a) (s.cache d)) e
                        (λ here.
                          rw (inserted_fits n (stored_value a) (s.cache d) (holds.room d))
                            (omega (arith, holds.room d)))
                        (λ away. omega (arith, holds.room e));
                },
                refl,
              )
      ]
    where
      occurs-members :
          (v : Stored) (e : ℕ)
          → member stored_value same nranks v
              (store s.cache d (inserted stored_value same nranks (stored_value a) (s.cache d)) e)
            ≡ occurs v e (s.sent ++ (a, d) ∷ [])
      occurs-members v e =
          store-cases
            (λ (ws : List Stored).
              member stored_value same nranks v ws
              ≡ (((d == e) && same (stored_value a) v) || occurs v e s.sent))
            s.cache d (inserted stored_value same nranks (stored_value a) (s.cache d)) e
            (λ here.
              ap (member stored_value same nranks v)
                (inserted_fits n (stored_value a) (s.cache d) (holds.room d))
              ∙ ground (arith, here, ap s.cache here, holds.members v e))
            (λ away. rw away (holds.members v e))
          ∙ sym (occurs-last v e s.sent a d)

  clear_ranks-empty : (n : ℕ) (d : ℕ) → clear_ranks stored_value same nranks n (λ e. []) d ≡ []
  unfolding clear_ranks
  clear_ranks-empty zero d = refl
  clear_ranks-empty (suc i) d =
      store-cases (λ (ws : List Stored). ws ≡ []) (clear_ranks stored_value same nranks i (λ e. []))
        i [] d (λ here. refl) (λ away. clear_ranks-empty i d)

  init-Holds : (n : ℕ) → n ≤ size_limit → Holds n (init stored_value same nranks)
  unfolding init clear
  init-Holds n le = record {
    members = λ v d. rw (clear_ranks-empty nranks d) refl;
    room = λ d. rw (clear_ranks-empty nranks d) (omega (arith, le));
  }

  -- A send to a rank is past the assertion.
  pub send_from-insert_at :
      (a : Arg) (d : ℕ) (u : Option ℕ) (s : Layer Arg Stored)
      → d < nranks
      → send_from stored_value same nranks (some s) (a, d, u)
        ≡ some (insert_at stored_value same nranks a d s)
  unfolding send_from send send_with_tid
  send_from-insert_at a d none s lt = rw (lt→ltb d nranks lt) refl
  send_from-insert_at a d (some tid) s lt = rw (lt→ltb d nranks lt) refl

  run-Holds :
      (ms : List (Arg × ℕ × Option ℕ)) (s : Layer Arg Stored)
      → ToRanks ms
      → Holds (length ms) s
      → (s' : Layer Arg Stored) × (run stored_value same nranks (some s) ms ≡ some s')
        × (s'.sent ≡ firsts s.sent ms)
  unfolding run
  run-Holds [] s ok holds = (s, refl, refl)
  run-Holds ((a, d, t) ∷ ms) s (lt, ok) holds =
      let s1 = insert_at stored_value same nranks a d s in
      let (holds1, sent1) = insert_at-Holds (length ms) a d s holds in
      let (s2, made, sent2) = run-Holds ms s1 ok holds1 in
      (
        s2,
        ap (λ r. run stored_value same nranks r ms) (send_from-insert_at a d t s lt) ∙ made,
        sent2 ∙ ap (λ (seen : List (Arg × ℕ)). firsts seen ms) sent1,
      )

  -- A new layer takes every program of at most 10000 sends to ranks, and passes on, in order, the
  -- messages whose stored value is not that of an earlier message to the same rank.
  pub run-firsts :
      (ms : List (Arg × ℕ × Option ℕ))
      → ToRanks ms
      → length ms ≤ size_limit
      → (s : Layer Arg Stored) × (run stored_value same nranks
            (some (init stored_value same nranks))
            ms
          ≡ some s)
        × (s.sent ≡ firsts [] ms)
  unfolding init clear
  run-firsts ms ok le = run-Holds ms (init stored_value same nranks) ok (init-Holds (length ms) le)
