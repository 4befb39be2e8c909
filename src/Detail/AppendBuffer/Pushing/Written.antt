-- ===== src/Detail/AppendBuffer/Pushing/Written.antt =====
-- am++/detail/append_buffer.hpp, push_back by several threads: what a write to the table of chunks
-- leaves as it was.
use mathlib.Core.Option.{some-ne-none}
use ampp.Prelude.{
  ℕ, ◌-◌, ◌≤◌, ◌≡◌, ◌≢◌, refl, sym, ap, ◌∙◌, false, Option, none, some, ◌==◌, if◌then◌else◌, store,
  arith, inl, inr, Bool-cases, ==-refl,
}
use ampp.Detail.AppendBuffer.{chunk_offset, pos_to_chunk_num}
use ampp.Detail.AppendBuffer.Pushing.{elem, slot}
use ampp.Detail.AppendBuffer.Pushing.Inv.{present}

module _ {A : Type 0} (init : ℕ) (ptrs : ℕ → Option (ℕ → A)) (c : ℕ) (chunk : ℕ → A) where
  abbrev pub written : ℕ → Option (ℕ → A)
  written = store ptrs c (some chunk)

  pub present-written :
      (d : ℕ) → present init (written d) ≡ (if c == d then 1 else present init (ptrs d))
  present-written d = elim (Bool-cases (c == d)) [
    | inl here ↦ rw here refl
    | inr other ↦ rw other refl
  ]

  pub more_present : (d : ℕ) → present init (ptrs d) ≤ present init (written d)
  more_present d = ground (arith, present-written d, one (ptrs d))
    where
      one : (o : Option (ℕ → A)) → present init o ≤ 1
      one none = omega arith
      one (some old) = omega arith

  -- A chunk that was not there holds no elements, and the others are as they were.
  pub elem-new :
      (i : ℕ) (v : A) → ptrs c ≡ none → elem init ptrs i ≡ some v → elem init written i ≡ some v
  unfolding elem slot
  elem-new i v absent e = elim (Bool-cases (c == pos_to_chunk_num init i)) [
    | inl here ↦
        let at : ptrs (pos_to_chunk_num init i) ≡ none =
          ap ptrs (sym (ground (arith, here))) ∙ absent in
        absurd
          (some-ne-none v (sym e ∙ ap (slot (i - chunk_offset init (pos_to_chunk_num init i))) at))
    | inr other ↦ rw other e
  ]

module _ {A : Type 0} (init : ℕ) (ptrs : ℕ → Option (ℕ → A)) (j : ℕ) (chunk : ℕ → A) (x : A) where
  abbrev pub assigned : ℕ → Option (ℕ → A)
  assigned =
      let c = pos_to_chunk_num init j in
      store ptrs c (some (store chunk (j - chunk_offset init c) x))

  pub elem-assigned_self : elem init assigned j ≡ some x
  unfolding elem slot
  elem-assigned_self =
      let c = pos_to_chunk_num init j in rw (==-refl c, ==-refl (j - chunk_offset init c)) refl

  -- The other elements are as they were.
  pub elem-assigned_ne :
      (i : ℕ) (v : A)
      → ptrs (pos_to_chunk_num init j) ≡ some chunk
      → (pos_to_chunk_num init j ≡ pos_to_chunk_num init i
          → j - chunk_offset init (pos_to_chunk_num init j)
            ≢ i - chunk_offset init (pos_to_chunk_num init i))
      → elem init ptrs i ≡ some v
      → elem init assigned i ≡ some v
  unfolding elem slot
  elem-assigned_ne i v there apart e =
      elim (Bool-cases (pos_to_chunk_num init j == pos_to_chunk_num init i)) [
        | inl here ↦
            let same : pos_to_chunk_num init j ≡ pos_to_chunk_num init i = ground (arith, here) in
            let at : ptrs (pos_to_chunk_num init i) ≡ some chunk = ap ptrs (sym same) ∙ there in
            let old = sym (ap (slot (i - chunk_offset init (pos_to_chunk_num init i))) at) ∙ e in
            let differ : (j - chunk_offset init (pos_to_chunk_num init j)
                  == i - chunk_offset init (pos_to_chunk_num init i))
                ≡ false =
              ground (arith, apart same) in
            rw (here, differ) old
        | inr other ↦ rw other e
      ]
