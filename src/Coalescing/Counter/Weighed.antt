-- ===== src/Coalescing/Counter/Weighed.antt =====
-- am++/counter_coalesced_message_type.hpp: no message is lost or sent twice.
use ampp.Prelude.{
  ℕ, zero, suc, ◌+◌, ◌≤◌, ◌<◌, ◌≡◌, refl, ap, ◌∙◌, Bool, true, false, List, [], ◌∷◌, ◌++◌, Option,
  none, some, ◌==◌, if◌then◌else◌, arith, store, Bool-cases, inl, inr,
}
use ampp.Coalescing.Counter.{
  Buffer, Worker, Choice, call_send, taken, idle, spinning, claiming, writing, emptying, releasing,
  passing,
}
use ampp.Coalescing.Counter.Totals.{}
use ampp.Coalescing.Counter.Invariant.{filled}

-- Quantities of messages, for any weights `v` of them.
module _ {A : Type 0} (v : A → ℕ) where
  abbrev pub value : Option A → ℕ
  value none = 0
  value (some a) = v a

  abbrev pub weigh : List (Option A) → ℕ
  weigh [] = 0
  weigh (o ∷ xs) = value o + weigh xs

  abbrev pub weigh_all : List (List (Option A)) → ℕ
  weigh_all [] = 0
  weigh_all (xs ∷ xss) = weigh xs + weigh_all xss

  -- What a thread has in hand.
  unfoldable pub holds : Worker A → ℕ
  holds (spinning a) = v a
  holds (claiming a) = v a
  holds (writing a i) = v a
  holds (emptying f n items) = weigh items
  holds (releasing f items) = weigh items
  holds (passing f items) = weigh items
  holds _ = 0

  -- What the buffer holds and what has been sent.
  abbrev pub stored : Buffer A → ℕ
  stored b = weigh (taken b.max_count b.slots) + weigh_all b.sent

  -- What a step brings in.
  unfoldable pub gain : Worker A → Choice A → ℕ
  gain idle (call_send a) = v a
  gain _ _ = 0

  abbrev pub weight_of : ℕ → Option (Worker A × Buffer A) → ℕ
  weight_of d none = d
  weight_of d (some (w, b)) = holds w + stored b

  pub if_both :
      {B : Type 0} (P : B → Type 0) (t : Bool) (x y : B) → P x → P y → P (if t then x else y)
  if_both P true x y hx hy = hx
  if_both P false x y hx hy = hy

  pub weigh-last : (xs : List (Option A)) (o : Option A) → weigh (xs ++ o ∷ []) ≡ weigh xs + value o
  weigh-last [] o = omega arith
  weigh-last (x ∷ xs) o = omega (arith, weigh-last xs o)

  pub weigh_all-last :
      (xss : List (List (Option A))) (xs : List (Option A))
      → weigh_all (xss ++ xs ∷ []) ≡ weigh_all xss + weigh xs
  weigh_all-last [] xs = omega arith
  weigh_all-last (ys ∷ xss) xs = omega (arith, weigh_all-last xss xs)

  pub weigh-taken_kept :
      (m x : ℕ) (o : Option A) (slots : ℕ → Option A)
      → m ≤ x
      → weigh (taken m (store slots x o)) ≡ weigh (taken m slots)
  unfolding taken
  weigh-taken_kept zero x o slots le = refl
  weigh-taken_kept (suc n) x o slots le =
      let away : (x == n) ≡ false = ground (arith, le) in
      let here : store slots x o n ≡ slots n = rw away refl in
      omega (
        arith,
        weigh-last (taken n (store slots x o)) (store slots x o n),
        weigh-last (taken n slots) (slots n),
        weigh-taken_kept n x o slots (omega (arith, le)),
        ap value here,
      )

  pub weigh-taken-store :
      (m x : ℕ) (o : Option A) (slots : ℕ → Option A)
      → x < m
      → value (slots x) ≡ 0
      → weigh (taken m (store slots x o)) ≡ weigh (taken m slots) + value o
  unfolding taken
  weigh-taken-store zero x o slots lt empty = absurd (omega (arith, lt))
  weigh-taken-store (suc n) x o slots lt empty = elim (Bool-cases (x == n)) [
    | inl here ↦
        let eq : x ≡ n = ground (arith, here) in
        let new : store slots x o n ≡ o = rw here refl in
        omega (
          arith,
          weigh-last (taken n (store slots x o)) (store slots x o n),
          weigh-last (taken n slots) (slots n),
          weigh-taken_kept n x o slots (omega (arith, eq)),
          ap value new,
          ap (λ (j : ℕ). value (slots j)) eq,
          empty,
        )
    | inr away ↦
        let same : store slots x o n ≡ slots n = rw away refl in
        omega (
          arith,
          weigh-last (taken n (store slots x o)) (store slots x o n),
          weigh-last (taken n slots) (slots n),
          weigh-taken-store n x o slots (ground (arith, lt, away)) empty,
          ap value same,
        )
  ]

  pub weigh-taken-none : (m : ℕ) → weigh (taken m (λ i. none)) ≡ 0
  unfolding taken
  weigh-taken-none zero = refl
  weigh-taken-none (suc n) =
      omega (arith, weigh-last (taken n (λ i. none)) none, weigh-taken-none n)

  -- Slots from `n` on that are not written add nothing.
  pub weigh-taken_more :
      (n k : ℕ) (slots : ℕ → Option A)
      → ((i : ℕ) → n ≤ i → value (slots i) ≡ 0)
      → weigh (taken (n + k) slots) ≡ weigh (taken n slots)
  unfolding taken
  weigh-taken_more n zero slots empty =
      let same : n + 0 ≡ n = omega arith in ap (λ (j : ℕ). weigh (taken j slots)) same
  weigh-taken_more n (suc k) slots empty =
      let next : n + suc k ≡ suc (n + k) = omega arith in
      ap (λ (j : ℕ). weigh (taken j slots)) next
      ∙ weigh-last (taken (n + k) slots) (slots (n + k))
      ∙ omega (arith, weigh-taken_more n k slots empty, empty (n + k) (omega arith))

  -- A slot that is not filled has no weight.
  pub value_zero : (o : Option A) → filled o ≡ 0 → value o ≡ 0
  value_zero none e = refl
  value_zero (some a) e = absurd (omega (arith, e))
