-- ===== src/Transport/Flush/Drain.antt =====
-- src/transport.cpp, transport_base: a flush ends, and calls everything.
use ampp.Prelude.{
  ℕ, zero, suc, ◌+◌, ◌<◌, ◌≤◌, ◌≡◌, refl, sym, ap, subst, ◌∙◌, Bool, true, false, ◌||◌, List, [],
  ◌∷◌, ◌++◌, some, append-nil, append_assoc, arith, if◌then◌else◌, All,
}
use ampp.Messaging.TaskResult.{tr_idle, tr_busy}
use ampp.Transport.Flush.{Transport, keep, run_back, drain, finish, flush}

module _ {F : Type 0} where
  abbrev pub weigh : (F → ℕ) → List F → ℕ
  weigh weight [] = 0
  weigh weight (f ∷ fs) = weight f + weigh weight fs

  weigh-append :
      (weight : F → ℕ) (xs ys : List F)
      → weigh weight (xs ++ ys) ≡ weigh weight xs + weigh weight ys
  weigh-append weight [] ys = omega arith
  weigh-append weight (x ∷ xs) ys = omega (arith, weigh-append weight xs ys)

  -- The objects that answered true, the latest first.
  abbrev pub kept : List (F × Bool) → List F → List F
  kept [] tmp = tmp
  kept ((f, again) ∷ new) tmp = kept new (keep again f tmp)

  abbrev pub Called : List (F × Bool) → F → Type 0
  Called new f =
      (before : List (F × Bool)) × (after : List (F × Bool)) × (b : Bool) × (new
        ≡ before ++ (f, b) ∷ after)

  Called-later : (c : F × Bool) (new : List (F × Bool)) (f : F) → Called new f → Called (c ∷ new) f
  Called-later c new f (before, after, b, e) =
      (c ∷ before, after, b, ap (λ (l : List (F × Bool)). c ∷ l) e)

  All-later :
      (c : F × Bool) (new : List (F × Bool)) (xs ys : List F)
      → All (Called new) (xs ++ ys)
      → All (Called (c ∷ new)) ys
  All-later c new (x ∷ xs) ys a = All-later c new xs ys a.1
  All-later c new [] [] a = tt
  All-later c new [] (y ∷ ys) a = (Called-later c new y a.0, All-later c new [] ys a.1)

  abbrev pub any_called : List (F × Bool) → Bool
  any_called [] = false
  any_called (c ∷ new) = true

or_true : (b : Bool) → true ≡ b || true
or_true true = refl
or_true false = refl

or_false : (b : Bool) → b ≡ b || false
or_false true = refl
or_false false = refl

module _ {F S : Type 0} where
  -- An object that is called adds only objects of less weight together.
  pub record Lighter (weight : F → ℕ) (body : F → Transport F S → Bool × Transport F S)
      : Type 0 where
    pub added : F → Transport F S → List F
    pub queue :
        (f : F) (t : Transport F S) → (body f t).1.flushes_needed ≡ added f t ++ t.flushes_needed
    pub lighter : (f : F) (t : Transport F S) → weigh weight (added f t) < weight f
    pub log : (f : F) (t : Transport F S) → (body f t).1.calls ≡ t.calls

  module _ (weight : F → ℕ) (body : F → Transport F S → Bool × Transport F S)
      (light : Lighter weight body) where
    -- The loop has ended: what it called, kept and left.
    record Drained (needed tmp : List F) (did : Bool) (t : Transport F S) (did' : Bool)
        (tmp' : List F) (t' : Transport F S) : Type 0 where
      new : List (F × Bool)
      log : t'.calls ≡ t.calls ++ new
      saved : tmp' ≡ kept new tmp
      busy : did' ≡ did || any_called new
      empty : t'.flushes_needed ≡ []
      called : All (Called new) needed

    one_more :
        (f : F) (rest tmp tmp' : List F) (did did' : Bool) (t t' : Transport F S)
        → let (again, t1) = run_back body f rest t in
          Drained t1.flushes_needed (keep again f tmp) true t1 did' tmp' t'
          → Drained (f ∷ rest) tmp did t did' tmp' t'
    unfolding run_back
    one_more f rest tmp tmp' did did' t t' d =
        let begun = record t { flushes_needed = rest } in
        let c : F × Bool = (f, (body f begun).0) in
        record {
          new = c ∷ d.new;
          log = d.log ∙ rw (light.log f begun) (append_assoc t.calls (c ∷ []) d.new);
          saved = d.saved;
          busy = d.busy ∙ or_true did;
          empty = d.empty;
          called = (
            ([], d.new, (body f begun).0, refl),
            All-later c d.new (light.added f begun) rest
                (subst (All (Called d.new)) (light.queue f begun) d.called),
          );
        }

    nothing :
        (tmp : List F) (did : Bool) (t : Transport F S)
        → t.flushes_needed ≡ []
        → Drained [] tmp did t did tmp t
    nothing tmp did t e = record {
      new = [];
      log = sym (append-nil t.calls);
      saved = refl;
      busy = or_false did;
      empty = e;
      called = tt;
    }

    drain-Drained :
        (fuel : ℕ) (needed tmp : List F) (did : Bool) (t : Transport F S)
        → t.flushes_needed ≡ needed
        → weigh weight needed ≤ fuel
        → (did' : Bool) × (tmp' : List F) × (t' : Transport F S) × (drain body fuel needed tmp did t
            ≡ some (did', tmp', t'))
          × Drained needed tmp did t did' tmp' t'
    unfolding drain
    drain-Drained zero [] tmp did t e h = (did, tmp, t, refl, nothing tmp did t e)
    drain-Drained (suc fuel) [] tmp did t e h = (did, tmp, t, refl, nothing tmp did t e)
    drain-Drained zero (f ∷ rest) tmp did t e h = ground (arith, h, light.lighter f t)
    drain-Drained (suc fuel) (f ∷ rest) tmp did t e h =
        let begun = record t { flushes_needed = rest } in
        let (again, t1) = run_back body f rest t in
        let (did', tmp', t', made, d) =
          drain-Drained fuel t1.flushes_needed (keep again f tmp) true t1 refl (
            unfold run_back in
            omega (
              arith,
              ap (weigh weight) (light.queue f begun),
              weigh-append weight (light.added f begun) rest,
              light.lighter f begun,
              h,
            )) in
        (did', tmp', t', made, one_more f rest tmp tmp' did did' t t' d)

    -- If every object that is called adds only objects of less weight together, a flush ends within
    -- as many calls as the objects weigh. Then it has called every object that was needed, says
    -- that it was busy exactly if there was any call, and what is needed next are the objects that
    -- answered true, each as often as it did, the one that was called last at the back.
    pub flush-ends :
        (fuel : ℕ) (t : Transport F S)
        → weigh weight t.flushes_needed ≤ fuel
        → (t' : Transport F S) × (new : List (F × Bool)) × (flush body fuel t
            ≡ some (if any_called new then tr_busy else tr_idle, t'))
          × (t'.calls ≡ t.calls ++ new)
          × (t'.flushes_needed ≡ kept new [])
          × All (Called new) t.flushes_needed
    unfolding flush finish
    flush-ends fuel t h =
        let (did, tmp, t', made, d) = drain-Drained fuel t.flushes_needed [] false t refl h in
        (
          record t' { flushes_needed = tmp ++ t'.flushes_needed },
          d.new,
          ap (finish body) made ∙ rw d.busy refl,
          d.log,
          rw (d.empty, d.saved) (append-nil (kept d.new [])),
          d.called,
        )
