-- ===== src/Reductions/Combine/Weights.antt =====
-- am++/reductions.hpp, the combining caches: what the messages for a key amount to. A weight maps the
-- values into a commutative monoid, such that combining values adds their weights.
use ampp.Prelude.{ℕ, ◌≡◌, sym, ap, ◌∙◌, true, List, [], ◌∷◌, ◌++◌, ◌==◌, ◌&&◌, if◌then◌else◌, ◌↔◌}
use ampp.Reductions.Combine.{Policy, is_identity}

pub record Weight {Arg Key Value : Type 0} (policy : Policy Arg Key Value) (M : Type 0)
    : Type 0 where
  pub unit : M
  pub plus : M → M → M
  pub of_value : Value → M
  pub plus_comm : (x y : M) → plus x y ≡ plus y x
  pub plus_assoc : (x y z : M) → plus (plus x y) z ≡ plus x (plus y z)
  pub plus-unit : (x : M) → plus x unit ≡ x
  pub of_value-combine :
      (a b : Value) → of_value (policy.combine a b) ≡ plus (of_value a) (of_value b)
  pub of_value-identity :
      (a : Arg) → is_identity policy a ≡ true → of_value (policy.get_value a) ≡ unit

-- The tests and the constructor of messages do what their names say.
pub record Lawful {Arg Key Value : Type 0} (policy : Policy Arg Key Value) : Type 0 where
  pub same_key_iff : (k l : Key) → (policy.same_key k l ≡ true) ↔ (k ≡ l)
  pub same_value_iff : (v w : Value) → (policy.same_value v w ≡ true) ↔ (v ≡ w)
  pub get_key-make_keyval : (k : Key) (v : Value) → policy.get_key (policy.make_keyval k v) ≡ k
  pub get_value-make_keyval : (k : Key) (v : Value) → policy.get_value (policy.make_keyval k v) ≡ v

module _ {Arg Key Value M : Type 0} (policy : Policy Arg Key Value) (weight : Weight policy M) where
  -- A message's weight for a key and a destination.
  unfoldable pub part : Key → ℕ → Arg × ℕ → M
  part k d (a, e) =
      if (e == d) && policy.same_key (policy.get_key a) k
      then weight.of_value (policy.get_value a)
      else weight.unit

  -- What messages with their destinations amount to, for a key and a destination.
  unfoldable pub amount : Key → ℕ → List (Arg × ℕ) → M
  unfolding part
  amount k d [] = weight.unit
  amount k d (m ∷ ms) = weight.plus (part k d m) (amount k d ms)

  pub unit-plus : (x : M) → weight.plus weight.unit x ≡ x
  unit-plus x = weight.plus_comm weight.unit x ∙ weight.plus-unit x

  pub left_comm : (x y z : M) → weight.plus x (weight.plus y z) ≡ weight.plus y (weight.plus x z)
  left_comm x y z =
      sym (weight.plus_assoc x y z)
      ∙ ap (λ (u : M). weight.plus u z) (weight.plus_comm x y)
      ∙ weight.plus_assoc y x z

  pub amount-append :
      (k : Key) (d : ℕ) (ms ns : List (Arg × ℕ))
      → amount k d (ms ++ ns) ≡ weight.plus (amount k d ms) (amount k d ns)
  unfolding amount
  amount-append k d [] ns = sym (unit-plus (amount k d ns))
  amount-append k d (m ∷ ms) ns =
      ap (weight.plus (part k d m)) (amount-append k d ms ns)
      ∙ sym (weight.plus_assoc (part k d m) (amount k d ms) (amount k d ns))

  pub amount-last :
      (k : Key) (d : ℕ) (ms : List (Arg × ℕ)) (m : Arg × ℕ)
      → amount k d (ms ++ m ∷ []) ≡ weight.plus (amount k d ms) (part k d m)
  unfolding amount
  amount-last k d ms m =
      amount-append k d ms (m ∷ [])
      ∙ ap (weight.plus (amount k d ms)) (weight.plus-unit (part k d m))
