-- ===== src/Detail/Signal/Calls.antt =====
-- am++/detail/signal.hpp: which handlers are called, and what scopes leave behind.
use ampp.Prelude.{
  ℕ, zero, suc, ◌+◌, ◌≤◌, ◌<◌, ◌≡◌, refl, sym, ap, subst, ◌∙◌, false, List, [], ◌∷◌, ◌++◌, map,
  Option, none, some, ◌==◌, All, append-nil, append_assoc, ==-refl, get_elem?, length, arith, inl,
  inr, Option-cases,
}
use ampp.Detail.Signal.{
  Handlers, Signal, Act, attaches, detaches, current, swap_in, attach, before, erase_first,
  swap_found, detach, act, acts, with_log, func, elem_at, call_from, call, detach_from,
  scoped_attach,
}

module _ {H : Type 0} where
  -- Whatever handlers do, the vectors that there are stay as they are.
  record Keeps (s s' : Signal H) : Type 0 where
    older : (v : ℕ) → v < s.next → s'.vectors v ≡ s.vectors v
    later : s.next ≤ s'.next

  swap_in-Keeps : (xs : Handlers H) (s : Signal H) → Keeps s (swap_in xs s)
  unfolding swap_in
  swap_in-Keeps xs s = record {
    older = λ v lt. (let away : (s.next == v) ≡ false = ground (arith, lt) in simp away refl);
    later = omega arith;
  }

  Keeps-trans : {s s' s'' : Signal H} → Keeps s s' → Keeps s' s'' → Keeps s s''
  Keeps-trans k k' = record {
    older = λ v lt. k'.older v (omega (arith, lt, k.later)) ∙ k.older v lt;
    later = omega (arith, k.later, k'.later);
  }

  swap_found-Keeps :
      (r : Option (Handlers H)) {s s' : Signal H} → swap_found r s ≡ some s' → Keeps s s'
  unfolding swap_found
  swap_found-Keeps none e = absurd (ground (arith, e))
  swap_found-Keeps (some xs) {s} e = subst (λ t. Keeps s t) (ground (arith, e)) (swap_in-Keeps xs s)

  act-Keeps : (a : Act H) {s s' : Signal H} → act a s ≡ some s' → Keeps s s'
  unfolding act attach detach
  act-Keeps (attaches p h) {s} e =
      subst (λ t. Keeps s t) (ground (arith, e)) (swap_in-Keeps (current s ++ (p, h) ∷ []) s)
  act-Keeps (detaches p) {s} e = swap_found-Keeps (erase_first p (current s)) e

  acts-none : (todo : List (Act H)) → acts todo none ≡ none
  unfolding acts
  acts-none [] = refl
  acts-none (a ∷ todo) = refl

  acts-Keeps : (todo : List (Act H)) {s s' : Signal H} → acts todo (some s) ≡ some s' → Keeps s s'
  unfolding acts
  acts-Keeps [] {s} {s'} e =
      let same : s ≡ s' = ground (arith, e) in
      let unchanged : Keeps s s = record { older = λ v lt. refl; later = omega arith } in
      subst (λ t. Keeps s t) same unchanged
  acts-Keeps (a ∷ todo) {s} e = elim (Option-cases (act a s)) [
    | inl failed ↦ absurd (ground (arith, sym (ap (acts todo) failed ∙ acts-none todo) ∙ e))
    | inr (mid, made) ↦
        Keeps-trans (act-Keeps a made) (acts-Keeps todo (sym (ap (acts todo) made) ∙ e))
  ]

  acts-append :
      (xs ys : List (Act H)) (r : Option (Signal H)) → acts (xs ++ ys) r ≡ acts ys (acts xs r)
  unfolding acts
  acts-append xs ys none = acts-none (xs ++ ys) ∙ sym (ap (acts ys) (acts-none xs) ∙ acts-none ys)
  acts-append [] ys (some s) = refl
  acts-append (a ∷ xs) ys (some s) = acts-append xs ys (act a s)

  -- What handlers do, one after the other.
  abbrev pub all_acts : (H → List (Act H)) → Handlers H → List (Act H)
  all_acts body [] = []
  all_acts body (x ∷ xs) = body x.1 ++ all_acts body xs

  module _ (body : H → List (Act H)) (vector : ℕ) where
    -- What is left of a loop over the handlers `xs` from here on.
    abbrev Loops : ℕ → ℕ → Handlers H → Signal H → List ℕ → Type 0
    Loops fuel i xs s log =
        call_from fuel body vector i (some (s, log))
        ≡ with_log (log ++ map (λ x. x.0) xs) (acts (all_acts body xs) (some s))

    call_from-none : (fuel i : ℕ) → call_from fuel body vector i none ≡ none
    unfolding call_from
    call_from-none zero i = refl
    call_from-none (suc fuel) i = refl

    call_from-Loops :
        (fuel i : ℕ) (xs : Handlers H) (s : Signal H) (log : List ℕ)
        → vector < s.next
        → ((k : ℕ) → get_elem? (s.vectors vector) (i + k) ≡ get_elem? xs k)
        → length xs < fuel
        → Loops fuel i xs s log
    unfolding call_from func elem_at with_log acts
    call_from-Loops zero i xs s log old rest lt = absurd (omega (arith, lt))
    call_from-Loops (suc fuel) i [] s log old rest lt =
        let here : get_elem? (s.vectors vector) i ≡ none =
          ap (get_elem? (s.vectors vector)) (omega arith) ∙ rest 0 in
        let stop : call_from (suc fuel) body vector i (some (s, log)) ≡ some (s, log) =
          rw (here, call_from) refl in
        stop ∙ ap (λ l. some (s, l)) (sym (append-nil log))
    call_from-Loops (suc fuel) i ((p, h) ∷ xs) s log old rest lt =
        let here : get_elem? (s.vectors vector) i ≡ some (p, h) =
          ap (get_elem? (s.vectors vector)) (omega arith) ∙ rest 0 in
        let after = λ (r : Option (Signal H)).
          call_from fuel body vector (i + 1) (with_log (log ++ p ∷ []) r) in
        let first : call_from (suc fuel) body vector i (some (s, log))
            ≡ after (acts (body h) (some s)) =
          rw (here, call_from) refl in
        let done : List ℕ = log ++ p ∷ map (λ x. x.0) xs in
        let all = acts-append (body h) (all_acts body xs) (some s) in
        elim (Option-cases (acts (body h) (some s))) [
          | inl failed ↦
              first
              ∙ ap after failed
              ∙ call_from-none fuel (i + 1)
              ∙ sym (
                  ap (with_log done)
                    (all ∙ ap (acts (all_acts body xs)) failed ∙ acts-none (all_acts body xs)))
          | inr (s', made) ↦
              let k = acts-Keeps (body h) made in
              let next =
                call_from-Loops fuel (i + 1) xs s' (log ++ p ∷ []) (omega (arith, old, k.later))
                  (λ j.
                    ap (λ v. get_elem? v (i + 1 + j)) (k.older vector old)
                    ∙ ap (get_elem? (s.vectors vector)) (omega arith)
                    ∙ rest (suc j))
                  (omega (arith, lt)) in
              first
              ∙ ap after made
              ∙ next
              ∙ ap (λ l. with_log l (acts (all_acts body xs) (some s')))
                  (append_assoc log (p ∷ []) (map (λ x. x.0) xs))
              ∙ sym (ap (with_log done) (all ∙ ap (acts (all_acts body xs)) made))
        ]

  -- Let the current vector lie below the next address, and the fuel be above its length. Whatever the
  -- handlers attach and detach meanwhile, a call calls each handler that is attached when it begins
  -- once, in the order in which they were attached, and no other: what they do to the signal is done
  -- one after the other, and the call fails only where that does.
  pub call-acts :
      (fuel : ℕ) (body : H → List (Act H)) (s : Signal H) (log : List ℕ)
      → s.sig < s.next
      → length (current s) < fuel
      → call fuel body s log
        ≡ with_log (log ++ map (λ x. x.0) (current s)) (acts (all_acts body (current s)) (some s))
  unfolding call
  call-acts fuel body s log old lt =
      call_from-Loops body s.sig fuel 0 (current s) s log old
        (λ k. ap (get_elem? (current s)) (omega arith)) lt

  -- No handler has the pointer.
  abbrev pub IsFresh : ℕ → Handlers H → Type 0
  IsFresh p xs = All (λ x. (x.0 == p) ≡ false) xs

  -- The pointers of some new handlers differ from one another and from those that there are.
  abbrev pub AllFresh : Handlers H → Handlers H → Type 0
  AllFresh xs [] = Unit
  AllFresh xs ((p, h) ∷ ys) = IsFresh p xs × AllFresh (xs ++ (p, h) ∷ []) ys

  erase_first-last :
      (p : ℕ) (h : H) (xs : Handlers H) → IsFresh p xs → erase_first p (xs ++ (p, h) ∷ []) ≡ some xs
  unfolding erase_first before
  erase_first-last p h [] fresh = rw (==-refl p) refl
  erase_first-last p h ((q, g) ∷ xs) (differs, fresh) =
      rw (differs, erase_first-last p h xs fresh) refl

  current-swap_in : (xs : Handlers H) (s : Signal H) → current (swap_in xs s) ≡ xs
  unfolding swap_in
  current-swap_in xs s = simp (==-refl s.next) refl

  -- Let nested scopes attach handlers whose pointers differ from one another and from those of the
  -- handlers that are attached. Then no detach fails, and the same handlers are attached at the end.
  scoped_attach-restores :
      (ys : Handlers H) (s : Signal H)
      → AllFresh (current s) ys
      → (s' : Signal H) × (scoped_attach ys s ≡ some s') × (current s' ≡ current s)
  unfolding scoped_attach attach detach_from detach swap_found
  scoped_attach-restores [] s fresh = (s, refl, refl)
  scoped_attach-restores ((p, h) ∷ ys) s (new, fresh) =
      let one = swap_in (current s ++ (p, h) ∷ []) s in
      let added = current-swap_in (current s ++ (p, h) ∷ []) s in
      let (s', made, same) =
        scoped_attach-restores ys one (subst (λ xs. AllFresh xs ys) (sym added) fresh) in
      let found : erase_first p (current s') ≡ some (current s) =
        ap (erase_first p) (same ∙ added) ∙ erase_first-last p h (current s) new in
      (
        swap_in (current s) s',
        ap (detach_from p) made ∙ ap (λ r. swap_found r s') found,
        current-swap_in (current s) s',
      )
