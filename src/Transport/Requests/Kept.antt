-- ===== src/Transport/Requests/Kept.antt =====
-- am++/detail/mpi_request_manager.hpp: what adding a request and completing requests keep.
use ampp.Prelude.{
  ℕ, ◌+◌, ◌≤◌, ◌≡◌, ◌≢◌, refl, ap, ◌∙◌, true, false, List, [], ◌∷◌, ◌++◌, Option, none, some, ◌==◌,
  if◌then◌else◌, arith, length, get_elem?, set, length-set,
}
use ampp.Prelude.Sums.{sum, sum-append, sum-without, sum-set}
use ampp.Transport.Requests.{
  RequestInfo, Slot, RequestManager, no_info, place, placed, add, complete, complete_all,
}
use ampp.Transport.Requests.Sums.{active, waits, wrong, PlacedIn, place-PlacedIn, added}

module _ {U S : Type 0} (default : U) where
  -- MPI_Testsome reports requests of the list, each once, since it sets a reported one to
  -- MPI_REQUEST_NULL.
  abbrev pub Reports : List (Slot U) → List (ℕ × S) → Type 0
  Reports slots [] = Unit
  Reports slots ((i, status) ∷ ds) =
      ((slot : Slot U) × (get_elem? slots i ≡ some slot) × (slot.0 ≢ 0))
      × Reports (set slots i (0, no_info default)) ds

  -- It returns MPI_UNDEFINED only if there is no request in the list.
  abbrev pub IsTestsome : (List (Slot U) → Option (List (ℕ × S))) → Type 0
  IsTestsome testsome = (slots : List (Slot U)) → elim (testsome slots) as (λ r. Type 0) [
    | none ↦ sum (λ slot. if slot.0 == 0 then 0 else 1) slots ≡ 0
    | some ds ↦ Reports slots ds
  ]

  pub record Inv (m : RequestManager U S) : Type 0 where
    pub counted : m.nreqs_active ≡ sum active m.slots
    pub right : sum wrong m.slots ≡ 0
    pub room : length m.slots ≤ m.indices_size

  -- The weight of what is waited for and of what was sent.
  unfoldable pub weigh : (RequestInfo U → ℕ) → RequestManager U S → ℕ
  weigh v m = sum (waits v) m.slots + sum (λ c. v c.1) m.mpi_msg_queue

  pub add-Inv :
      (req : ℕ) (info : RequestInfo U) (m : RequestManager U S)
      → req ≢ 0
      → Inv m
      → Inv (add default req info m)
        × ((v : RequestInfo U → ℕ)
            → weigh v (add default req info m)
              ≡ v (record info { slot_has_active_request = true }) + weigh v m)
  unfolding add placed weigh
  add-Inv req info m some_req inv =
      let new : Slot U = (req, record info { slot_has_active_request = true }) in
      let not_null : (req == 0) ≡ false = ground (arith, some_req) in
      rw not_null (from (place new m.slots) (place-PlacedIn new m.slots))
    where
      from :
          (rest : Option (List (Slot U)))
          → PlacedIn (req, record info { slot_has_active_request = true }) m.slots rest
          → Inv (
              placed default
                (req, record info { slot_has_active_request = true })
                (record m { nreqs_active = m.nreqs_active + 1 })
                rest)
            × ((v : RequestInfo U → ℕ)
                → weigh v (
                    placed default
                      (req, record info { slot_has_active_request = true })
                      (record m { nreqs_active = m.nreqs_active + 1 })
                      rest)
                  ≡ v (record info { slot_has_active_request = true }) + weigh v m)
      from none h =
          let (p, e) = added (req, record info { slot_has_active_request = true }) m.slots in
          (
            record {
              counted = omega (arith, inv.counted, p.counted);
              right = ground (arith, inv.right, p.right, some_req);
              room = omega (arith, inv.room, e);
            },
            λ v. omega (arith, p.weighed v),
          )
      from (some slots) (p, e) = (
        record {
          counted = omega (arith, inv.counted, p.counted);
          right = ground (arith, inv.right, p.right, some_req);
          room = omega (arith, inv.room, e);
        },
        λ v. omega (arith, p.weighed v),
      )

  pub add-null :
      (req : ℕ) (info : RequestInfo U) (m : RequestManager U S)
      → (req == 0) ≡ true
      → add default req info m ≡ m
  unfolding add
  add-null req info m null = rw null refl

  -- The loop over what was reported.
  pub completes :
      (ds : List (ℕ × S)) (m : RequestManager U S)
      → Reports m.slots ds
      → sum active m.slots ≡ m.nreqs_active + length ds
      → sum wrong m.slots ≡ 0
      → length m.slots ≤ m.indices_size
      → (m' : RequestManager U S) × (complete_all default ds (some m) ≡ some m')
        × Inv m'
        × ((v : RequestInfo U → ℕ) → weigh v m' ≡ weigh v m)
  unfolding complete_all complete weigh no_info
  completes [] m h count right room =
      (m, refl, record { counted = omega (arith, count); right = right; room = room }, λ v. refl)
  completes ((i, status) ∷ ds) m ((slot, e, not_null), later) count right room =
      let empty : Slot U = (0, no_info default) in
      let m1 : RequestManager U S = record m {
        slots = set m.slots i empty;
        mpi_msg_queue = m.mpi_msg_queue ++ (status, slot.1) ∷ [];
      } in
      let was = λ (f : Slot U → ℕ). sum-without f i m.slots slot e in
      let is = λ (f : Slot U → ℕ). sum-set f i m.slots slot empty e in
      let on : slot.1.slot_has_active_request ≡ true = ground (arith, was wrong, right, not_null) in
      let (m', made, inv, same) =
        completes ds m1 later (ground (arith, count, was active, is active, on))
          (ground (arith, right, was wrong, is wrong, on))
          (omega (arith, room, length-set m.slots i empty)) in
      (
        m',
        ap (λ o. complete_all default ds (complete default i status m o)) e ∙ made,
        inv,
        λ v. ground (
          arith,
          same v,
          was (waits v),
          is (waits v),
          sum-append (λ (c : S × RequestInfo U). v c.1) m.mpi_msg_queue ((status, slot.1) ∷ []),
          on,
        ),
      )

  -- As many are reported as are active, at most.
  pub Reports-le :
      (ds : List (ℕ × S)) (slots : List (Slot U))
      → Reports slots ds
      → sum wrong slots ≡ 0
      → length ds ≤ sum active slots
  unfolding no_info
  Reports-le [] slots h right = omega arith
  Reports-le ((i, status) ∷ ds) slots ((slot, e, not_null), later) right =
      let empty : Slot U = (0, no_info default) in
      let was = λ (f : Slot U → ℕ). sum-without f i slots slot e in
      let is = λ (f : Slot U → ℕ). sum-set f i slots slot empty e in
      let on : slot.1.slot_has_active_request ≡ true = ground (arith, was wrong, right, not_null) in
      let rest =
        Reports-le ds (set slots i empty) later (ground (arith, right, was wrong, is wrong, on)) in
      ground (arith, rest, was active, is active, on)
