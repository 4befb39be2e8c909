-- ===== src/Transport/Requests/Sums.antt =====
-- am++/detail/mpi_request_manager.hpp: quantities of the slots.
use ampp.Prelude.{
  ℕ, ◌+◌, ◌≤◌, ◌≡◌, refl, Bool, true, false, not, List, [], ◌∷◌, ◌++◌, Option, none, some, ◌==◌,
  if◌then◌else◌, arith, length, length-append,
}
use ampp.Prelude.Sums.{sum, sum-append}
use ampp.Transport.Requests.{RequestInfo, Slot, place}

module _ {U : Type 0} where
  -- Has an active request.
  abbrev pub active : Slot U → ℕ
  active slot = if slot.1.slot_has_active_request then 1 else 0

  -- The weight of what a slot waits for.
  abbrev pub waits : (RequestInfo U → ℕ) → Slot U → ℕ
  waits v slot = if slot.1.slot_has_active_request then v slot.1 else 0

  -- Says that it is active without a request, or has a request that it says is not active.
  abbrev pub wrong : Slot U → ℕ
  wrong slot =
      if slot.1.slot_has_active_request
      then if slot.0 == 0 then 1 else 0
      else if slot.0 == 0
      then 0
      else 1

  -- A new request adds what it counts for, and the length grows if there was no place.
  pub record Placed (new : Slot U) (slots : List (Slot U)) (after : List (Slot U)) : Type 0 where
    pub counted : sum active after ≡ active new + sum active slots
    pub weighed : (v : RequestInfo U → ℕ) → sum (waits v) after ≡ waits v new + sum (waits v) slots
    pub right : sum wrong after ≤ wrong new + sum wrong slots

  abbrev pub PlacedIn : Slot U → List (Slot U) → Option (List (Slot U)) → Type 0
  PlacedIn new slots none = Unit
  PlacedIn new slots (some after) = Placed new slots after × (length after ≡ length slots)

  pub place-PlacedIn : (new : Slot U) (slots : List (Slot U)) → PlacedIn new slots (place new slots)
  unfolding place
  place-PlacedIn new [] = tt
  place-PlacedIn new (slot ∷ slots) =
      by_flag slot.1.slot_has_active_request refl (place new slots) (place-PlacedIn new slots)
    where
      by_flag :
          (flag : Bool)
          → slot.1.slot_has_active_request ≡ flag
          → (rest : Option (List (Slot U))) → PlacedIn new slots rest
          → PlacedIn new (slot ∷ slots) (
              if not flag
              then some (new ∷ slots)
              else elim rest [ none ↦ none | some placed ↦ some (slot ∷ placed) ])
      by_flag false free rest h = (
        record {
          counted = ground (arith, free);
          weighed = λ v. ground (arith, free);
          right = ground (arith, free);
        },
        refl,
      )
      by_flag true taken none h = tt
      by_flag true taken (some placed) (h, e) = (
        record {
          counted = omega (arith, h.counted);
          weighed = λ v. omega (arith, h.weighed v);
          right = omega (arith, h.right);
        },
        omega (arith, e),
      )

  pub added :
      (new : Slot U) (slots : List (Slot U))
      → Placed new slots (slots ++ new ∷ []) × (length (slots ++ new ∷ []) ≡ length slots + 1)
  added new slots = (
    record {
      counted = omega (arith, sum-append active slots (new ∷ []));
      weighed = λ v. omega (arith, sum-append (waits v) slots (new ∷ []));
      right = omega (arith, sum-append wrong slots (new ∷ []));
    },
    length-append slots (new ∷ []),
  )

  pub none_requested :
      (slots : List (Slot U))
      → sum wrong slots ≡ 0
      → sum (λ slot. if slot.0 == 0 then 0 else 1) slots ≡ 0
      → sum active slots ≡ 0
  none_requested [] right null = refl
  none_requested (slot ∷ slots) right null =
      let rest = none_requested slots (omega (arith, right)) (omega (arith, null)) in
      ground (arith, rest, right, null)

  pub none_active : (slots : List (Slot U)) → length slots ≡ 0 → sum active slots ≡ 0
  none_active [] e = refl
  none_active (slot ∷ slots) e = absurd (omega (arith, e))
