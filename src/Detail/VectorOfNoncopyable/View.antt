-- ===== src/Detail/VectorOfNoncopyable/View.antt =====
-- am++/detail/vector_of_noncopyable.hpp, vector_of_noncopyable: what the elements are.
use ampp.Prelude.{
  ℕ, zero, suc, ◌+◌, ◌-◌, ◌*◌, ◌<◌, ◌≤◌, ◌≡◌, refl, ap, ◌∙◌, true, false, some, ◌==◌, ltb, leb,
  if◌then◌else◌, store, store-cases, inl, inr, Bool-cases, arith, lt→ltb,
}
use ampp.Detail.VectorOfNoncopyable.{
  Vector, swap_at, moved, increase_size, one_more, push_back_empty, swapped, push_back_swap,
  shift_down, erase,
}

module _ {T : Type 0} (fresh : T) where
  moved-same : (n : ℕ) (f : ℕ → T) (j : ℕ) → j < n → moved fresh n f j ≡ f j
  unfolding moved
  moved-same zero f j lt = absurd (omega (arith, lt))
  moved-same (suc n) f j lt =
      store-cases (λ (x : T). x ≡ f j) (moved fresh n f) n (f n) j (λ here. ap f here)
        (λ away. moved-same n f j (ground (arith, away, lt)))

  -- A vector that is within its array, and an array whose size can be doubled.
  pub record Fits (v : Vector T) : Type 0 where
    pub inside : v.size_ ≤ v.reserved_
    pub small : 2 * v.reserved_ + 1 < 18446744073709551616

  -- Room has been made for one more element.
  record Grown (v w : Vector T) : Type 0 where
    pub room : v.size_ < w.reserved_
    pub size : w.size_ ≡ v.size_
    pub same : (j : ℕ) → j < v.size_ → w.data_ j ≡ v.data_ j

  grown :
      (v : Vector T)
      → Fits v
      → Grown v (if leb v.reserved_ (v.size_ + 1) then increase_size fresh (v.size_ + 1) v else v)
  unfolding increase_size
  grown v fits = elim (Bool-cases (leb v.reserved_ (v.size_ + 1))) [
    | inl full ↦ rw full (record {
      room = ground (arith, fits.inside);
      size = refl;
      same = λ j lt. moved-same v.reserved_ v.data_ j (omega (arith, lt, fits.inside));
    })
    | inr free ↦ rw free (record { room = ground (arith, free); size = refl; same = λ j lt. refl })
  ]

  -- A vector that is within an array whose size can be doubled takes one more element. Its size grows
  -- by one, the element stands at the end, and the others keep their places.
  pub push_back_swap-last :
      (t : T) (v : Vector T)
      → Fits v
      → (w : Vector T) × (old : T) × (push_back_swap fresh t v ≡ some (w, old))
        × (w.size_ ≡ v.size_ + 1)
        × (w.size_ ≤ w.reserved_)
        × (w.data_ v.size_ ≡ t)
        × ((j : ℕ) → j < v.size_ → w.data_ j ≡ v.data_ j)
  unfolding push_back_swap push_back_empty one_more swapped
  push_back_swap-last t v fits =
      let u = if leb v.reserved_ (v.size_ + 1) then increase_size fresh (v.size_ + 1) v else v in
      let g = grown v fits in
      let at : u.size_ + 1 - 1 ≡ v.size_ = omega (arith, g.size) in
      let room : ltb u.size_ u.reserved_ ≡ true =
        lt→ltb u.size_ u.reserved_ (omega (arith, g.room, g.size)) in
      (
        record u { size_ = u.size_ + 1; data_ = store u.data_ (u.size_ + 1 - 1) t },
        u.data_ (u.size_ + 1 - 1),
        ap (swapped fresh t) (one_more-some u room),
        omega (arith, g.size),
        omega (arith, g.room, g.size),
        store-cases (λ (x : T). x ≡ t) u.data_ (u.size_ + 1 - 1) t v.size_ (λ here. refl)
            (λ away. ground (arith, away, at)),
        λ j lt.
            store-cases (λ (x : T). x ≡ v.data_ j) u.data_ (u.size_ + 1 - 1) t j
              (λ here. absurd (omega (arith, here, at, lt))) (λ away. g.same j lt),
      )
    where
      one_more-some :
          (u : Vector T)
          → ltb u.size_ u.reserved_ ≡ true
          → one_more fresh u ≡ some (record u { size_ = u.size_ + 1 })
      one_more-some u room = rw room refl

  shift_down-before : (n i : ℕ) (f : ℕ → T) (j : ℕ) → j < i → shift_down fresh n i f j ≡ f j
  unfolding shift_down swap_at
  shift_down-before zero i f j lt = refl
  shift_down-before (suc n) i f j lt =
      let a : (i + 1 == j) ≡ false = ground (arith, lt) in
      let b : (i == j) ≡ false = ground (arith, lt) in
      shift_down-before n (i + 1) (swap_at fresh i (i + 1) f) j (omega (arith, lt)) ∙ rw (a, b) refl

  shift_down-next :
      (n i : ℕ) (f : ℕ → T) (j : ℕ) → i ≤ j → j < i + n → shift_down fresh n i f j ≡ f (j + 1)
  unfolding shift_down swap_at
  shift_down-next zero i f j le lt = absurd (omega (arith, le, lt))
  shift_down-next (suc n) i f j le lt = elim (Bool-cases (i == j)) [
    | inl here ↦
        let eq : i ≡ j = ground (arith, here) in
        let a : (i + 1 == j) ≡ false = ground (arith, here) in
        shift_down-before n (i + 1) (swap_at fresh i (i + 1) f) j (omega (arith, eq))
        ∙ rw (a, here) (ap (λ (x : ℕ). f (x + 1)) eq)
    | inr later ↦
        let b : (i + 1 == j + 1) ≡ false = ground (arith, later) in
        let c : (i == j + 1) ≡ false = ground (arith, le) in
        shift_down-next n (i + 1) (swap_at fresh i (i + 1) f) j (ground (arith, later, le))
          (omega (arith, lt))
        ∙ rw (b, c) refl
  ]

  -- Erasing an element of a vector makes it shorter by one. The elements before it keep their places,
  -- those after it move down by one, and the place that is left holds a new element.
  pub erase-shifts :
      (i : ℕ) (v : Vector T)
      → i < v.size_
      → (suc (erase fresh i v).size_ ≡ v.size_)
        × ((j : ℕ) → j < i → (erase fresh i v).data_ j ≡ v.data_ j)
        × ((j : ℕ) → i ≤ j → suc j < v.size_ → (erase fresh i v).data_ j ≡ v.data_ (j + 1))
        × ((erase fresh i v).data_ (v.size_ - 1) ≡ fresh)
  unfolding erase
  erase-shifts i v lt =
      let end = v.size_ - 1 in
      let f = shift_down fresh (end - i) i v.data_ in
      (
        omega (arith, lt),
        λ j before.
            store-cases (λ (x : T). x ≡ v.data_ j) f end fresh j
              (λ here. absurd (omega (arith, here, before, lt)))
              (λ away. shift_down-before (end - i) i v.data_ j before),
        λ j le inside.
            store-cases (λ (x : T). x ≡ v.data_ (j + 1)) f end fresh j
              (λ here. absurd (omega (arith, here, inside)))
              (λ away. shift_down-next (end - i) i v.data_ j le (omega (arith, inside))),
        store-cases (λ (x : T). x ≡ fresh) f end fresh end (λ here. refl)
            (λ away. ground (arith, away)),
      )
