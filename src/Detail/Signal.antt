-- ===== src/Detail/Signal.antt =====
-- am++/detail/signal.hpp: handlers that are attached, detached and called. The vectors of handlers lie
-- in a store and have numbers for addresses: `sig` is the address of the current one, and `attach` and
-- `detach` allocate a new one. No vector is freed: a call that still reads an old one holds a pointer
-- to it. A handler has a pointer, a number, and for what it does when it is called the calls of attach
-- and detach that it makes. `none` is a failed assertion, or a call that has run out of fuel.
pub mod Calls
mod Tests
use ampp.Prelude.{
  ℕ, zero, suc, ◌+◌, Bool, List, [], ◌∷◌, ◌++◌, Option, none, some, ◌==◌, if◌then◌else◌, get_elem?,
  length, store,
}

-- A vector holds pointers, with the handlers that they point to.
abbrev pub Handlers : Type 0 → Type 0
Handlers H = List (ℕ × H)

-- `next` is the address of the next vector.
pub record Signal (H : Type 0) : Type 0 where
  pub vectors : ℕ → Handlers H
  pub next : ℕ
  pub sig : ℕ

-- The signal, with the pointers of the handlers that have been called.
abbrev pub Called : Type 0 → Type 0
Called H = Option (Signal H × List ℕ)

-- What a handler does to the signal.
pub data Act (H : Type 0) : Type 0 where
  attaches : ℕ → H → Act H
  detaches : ℕ → Act H

module _ {H : Type 0} where
  pub new_signal : Signal H
  new_signal = record { vectors = λ a. []; next = 1; sig = 0 }

  -- *sig
  abbrev pub current : Signal H → Handlers H
  current s = s.vectors s.sig

  -- std::make_shared with the elements of the new vector, and the swap.
  pub swap_in : Handlers H → Signal H → Signal H
  swap_in xs s = record { vectors = store s.vectors s.next xs; next = s.next + 1; sig = s.next }

  pub attach : ℕ → H → Signal H → Signal H
  unfolding swap_in
  attach p h s = swap_in (current s ++ (p, h) ∷ []) s

  pub before : ℕ × H → Option (Handlers H) → Option (Handlers H)
  before x none = none
  before x (some xs) = some (x ∷ xs)

  -- The loop of `detach`.
  pub erase_first : ℕ → Handlers H → Option (Handlers H)
  unfolding before
  erase_first handle [] = none
  erase_first handle ((p, h) ∷ xs) =
      let rest = erase_first handle xs in if p == handle then some xs else before (p, h) rest

  pub swap_found : Option (Handlers H) → Signal H → Option (Signal H)
  unfolding swap_in
  swap_found none s = none
  swap_found (some xs) s = some (swap_in xs s)

  pub detach : ℕ → Signal H → Option (Signal H)
  unfolding erase_first swap_found
  detach handle s = swap_found (erase_first handle (current s)) s

  pub act : Act H → Signal H → Option (Signal H)
  unfolding attach detach
  act (attaches p h) s = some (attach p h s)
  act (detaches p) s = detach p s

  -- The body of a handler.
  pub acts : List (Act H) → Option (Signal H) → Option (Signal H)
  unfolding act
  acts todo none = none
  acts [] (some s) = some s
  acts (a ∷ todo) (some s) = acts todo (act a s)

  pub with_log : List ℕ → Option (Signal H) → Called H
  with_log log none = none
  with_log log (some s) = some (s, log)

  -- func(**i), which is noted in the log.
  pub func : (H → List (Act H)) → ℕ × H → Called H → Called H
  unfolding acts with_log
  func body x none = none
  func body (p, h) (some (s, log)) = with_log (log ++ p ∷ []) (acts (body h) (some s))

  -- The element that an iterator is at, in the vector at an address.
  pub elem_at : ℕ → ℕ → Signal H → Option (ℕ × H)
  elem_at vector i s = get_elem? (s.vectors vector) i

  -- The loop of `call` from iterator `i` on, over the vector that `sig_copy` points to.
  pub call_from : ℕ → (H → List (Act H)) → ℕ → ℕ → Called H → Called H
  unfolding func elem_at
  call_from fuel body vector i none = none
  call_from zero body vector i (some w) = none
  call_from (suc fuel) body vector i (some (s, log)) = elim (elem_at vector i s) [
    | none ↦ some (s, log)
    | some x ↦ call_from fuel body vector (i + 1) (func body x (some (s, log)))
  ]

  pub call : ℕ → (H → List (Act H)) → Signal H → List ℕ → Called H
  unfolding call_from
  call fuel body s log = call_from fuel body s.sig 0 (some (s, log))

  pub detach_from : ℕ → Option (Signal H) → Option (Signal H)
  unfolding detach
  detach_from p none = none
  detach_from p (some s) = detach p s

  -- Scopes of scoped_attach, one in the other: each attaches its handler, and detaches it at its end.
  pub scoped_attach : Handlers H → Signal H → Option (Signal H)
  unfolding attach detach_from
  scoped_attach [] s = some s
  scoped_attach ((p, h) ∷ xs) s = detach_from p (scoped_attach xs (attach p h s))
