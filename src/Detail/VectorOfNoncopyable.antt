-- ===== src/Detail/VectorOfNoncopyable.antt =====
-- am++/detail/vector_of_noncopyable.hpp, vector_of_noncopyable: a growing array whose elements are
-- swapped, never copied. `fresh` is T(). An access outside the array is not excluded by the
-- definitions: the array is a function of the index.
pub mod View
mod Tests
use ampp.Prelude.{
  ℕ, zero, suc, ◌+◌, ◌-◌, ◌*◌, ◌%◌, ◌^◌, Bool, Option, none, some, ◌==◌, ltb, leb, if◌then◌else◌,
  store,
}

pub record Vector (T : Type 0) : Type 0 where
  pub size_ : ℕ
  pub reserved_ : ℕ
  pub data_ : ℕ → T

module _ {T : Type 0} (fresh : T) where
  -- a.swap(b) for the elements at two places of one array.
  pub swap_at : ℕ → ℕ → (ℕ → T) → ℕ → T
  swap_at i j f = store (store f i (f j)) j (f i)

  -- The loop of `increase_size`: the new array takes the elements.
  pub moved : ℕ → (ℕ → T) → ℕ → T
  moved zero f = λ i. fresh
  moved (suc n) f = store (moved n f) n (f n)

  pub increase_size : ℕ → Vector T → Vector T
  unfolding moved
  increase_size min_new_size v =
      let doubled = 2 * v.reserved_ % 2 ^ 64 in
      record v {
        reserved_ = if ltb min_new_size doubled then doubled else min_new_size;
        data_ = moved v.reserved_ v.data_;
      }

  pub empty_vector : Vector T
  empty_vector = record { size_ = 0; reserved_ = 0; data_ = λ i. fresh }

  pub sized_vector : ℕ → Vector T
  sized_vector sz = record { size_ = sz; reserved_ = sz; data_ = λ i. fresh }

  pub is_empty : Vector T → Bool
  is_empty v = v.size_ == 0

  -- After the array has grown.
  one_more : Vector T → Option (Vector T)
  one_more v = if ltb v.size_ v.reserved_ then some (record v { size_ = v.size_ + 1 }) else none

  pub push_back_empty : Vector T → Option (Vector T)
  unfolding increase_size one_more
  push_back_empty v =
      one_more (if leb v.reserved_ (v.size_ + 1) then increase_size (v.size_ + 1) v else v)

  -- The element that was there comes back.
  swapped : T → Option (Vector T) → Option (Vector T × T)
  swapped t none = none
  swapped t (some v) =
      some (record v { data_ = store v.data_ (v.size_ - 1) t }, v.data_ (v.size_ - 1))

  pub push_back_swap : T → Vector T → Option (Vector T × T)
  unfolding push_back_empty swapped
  push_back_swap t v = swapped t (push_back_empty v)

  pub back : Vector T → T
  back v = v.data_ (v.size_ - 1)

  -- The loop of `erase` over the next `n` places from `i` on.
  pub shift_down : ℕ → ℕ → (ℕ → T) → ℕ → T
  unfolding swap_at
  shift_down zero i f = f
  shift_down (suc n) i f = shift_down n (i + 1) (swap_at i (i + 1) f)

  -- `i` is the place of the iterator.
  pub erase : ℕ → Vector T → Vector T
  unfolding shift_down
  erase i v =
      let end = v.size_ - 1 in
      record v { size_ = end; data_ = store (shift_down (end - i) i v.data_) end fresh }
