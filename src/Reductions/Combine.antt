-- ===== src/Reductions/Combine.antt =====
-- am++/reductions.hpp: what the caches that combine messages with equal keys share. The operations
-- on messages, keys and values are parameters, and a cell of a cache always holds a message.
pub mod Dummies
pub mod Weights
use Prim.Native.Nat.{bit_xor}
use ampp.Prelude.{
  ℕ, zero, suc, ◌+◌, ◌/◌, ◌%◌, ◌^◌, Bool, true, false, Option, none, some, ◌==◌, if◌then◌else◌, not,
}

-- `dummy_value` gives the key for an index; `default_value` is value_type().
pub record Policy (Arg Key Value : Type 0) : Type 0 where
  pub combine : Value → Value → Value
  pub opt_identity : Option Value
  pub get_key : Arg → Key
  pub get_value : Arg → Value
  pub make_keyval : Key → Value → Arg
  pub hash_key : Key → ℕ
  pub same_key : Key → Key → Bool
  pub same_value : Value → Value → Bool
  pub dummy_value : ℕ → Key
  pub default_value : Value

-- The dummy value of an integral key.
unfoldable pub integral_dummy_value : ℕ → ℕ
integral_dummy_value h = bit_xor h 1

unfoldable pub get_size : ℕ → ℕ
get_size lg_size = 2 ^ lg_size % 2 ^ 64

module _ {Arg Key Value : Type 0} (policy : Policy Arg Key Value) where
  -- With `no_identity_t` there is no identity.
  identity_test : Option Value → Arg → Bool
  identity_test none a = false
  identity_test (some e) a = policy.same_value (policy.get_value a) e

  unfoldable pub is_identity : Arg → Bool
  unfolding identity_test
  is_identity a = identity_test policy.opt_identity a

  unfoldable pub get_bucket : ℕ → Key → ℕ
  get_bucket size k =
      let h = policy.hash_key k in
      let h' = bit_xor h (h / size) in bit_xor h' (h' / size / size) % size

  -- The loop of `get_dummy_value` from index `i` on, on fuel.
  dummy_from : ℕ → ℕ → ℕ → ℕ → Option Key
  unfolding get_bucket
  dummy_from zero i size h = none
  dummy_from (suc fuel) i size h =
      let rest = dummy_from fuel (i + 1) size h in
      let x = policy.dummy_value i in if not (get_bucket size x == h) then some x else rest

  pub get_dummy_value : ℕ → ℕ → ℕ → Option Key
  unfolding dummy_from
  get_dummy_value fuel size h = dummy_from fuel 0 size h
