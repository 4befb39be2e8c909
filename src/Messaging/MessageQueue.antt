-- ===== src/Messaging/MessageQueue.antt =====
-- am++/message_queue.hpp, message_queue: messages meet the receivers that wait for them.
-- What a receiver does to the queue when it is called is the parameter `body`; the calls that were
-- made are kept in `calls`. `none` is a failed assertion.
pub mod Steps
pub mod Order
mod Tests
use ampp.Prelude.{
  Bool, true, false, ◌&&◌, not, List, [], ◌∷◌, ◌++◌, Option, none, some, if◌then◌else◌,
}

pub record Queue (K V : Type 0) : Type 0 where
  pub messages : List V
  pub receivers_waiting : List K
  pub receive_all_active : Bool
  pub calls : List (K × V)

pub init : {K V : Type 0} → Queue K V
init = record { messages = []; receivers_waiting = []; receive_all_active = false; calls = [] }

abbrev pub is_empty {ℓ} : {A : Type ℓ} → List A → Bool
is_empty [] = true
is_empty (x ∷ xs) = false

abbrev pub assert {ℓ} : {A : Type ℓ} → Bool → Option A → Option A
assert true r = r
assert false r = none

-- The receiver at the front stays if it is the one that receives all.
stays : {K V : Type 0} → Queue K V → List K → Bool
stays q rest = q.receive_all_active && is_empty rest

module _ {K V : Type 0} (body : K → V → Queue K V → Queue K V) where
  -- k(msg), outside the lock.
  pub call : K → V → Queue K V → Queue K V
  call k v q = body k v (record q { calls = q.calls ++ (k, v) ∷ [] })

  pub call_each : K → List V → Queue K V → Queue K V
  unfolding call
  call_each k [] q = q
  call_each k (v ∷ vs) q = call_each k vs (call k v q)

  send_to : List K → V → Queue K V → Option (Queue K V)
  unfolding stays call
  send_to [] msg q = some (record q { messages = q.messages ++ msg ∷ [] })
  send_to (k ∷ rest) msg q =
      assert (is_empty q.messages)
        (some (call k msg (if stays q rest then q else record q { receivers_waiting = rest })))

  pub send : V → Queue K V → Option (Queue K V)
  unfolding send_to
  send msg q = send_to q.receivers_waiting msg q

  -- One round of the loop: the queue after it, and whether all the rest was taken by it.
  range_round : List K → V → List V → Queue K V → Option (Bool × Queue K V)
  unfolding stays call call_each
  range_round [] v vs q = some (true, record q { messages = q.messages ++ v ∷ vs })
  range_round (k ∷ rest) v vs q = assert (is_empty q.messages) (
      if stays q rest
      then some (true, call_each k (v ∷ vs) q)
      else some (false, call k v (record q { receivers_waiting = rest })))

  pub send_range : List V → Queue K V → Option (Queue K V)
  unfolding range_round
  send_range [] q = some q
  send_range (v ∷ vs) q = elim (range_round q.receivers_waiting v vs q) [
    | none ↦ none
    | some (done, q') ↦ let rest = send_range vs q' in if done then some q' else rest
  ]

  receive_from : List V → K → Queue K V → Option (Queue K V)
  unfolding call
  receive_from [] k q = some (record q { receivers_waiting = q.receivers_waiting ++ k ∷ [] })
  receive_from (v ∷ vs) k q =
      assert (is_empty q.receivers_waiting) (some (call k v (record q { messages = vs })))

  pub receive : K → Queue K V → Option (Queue K V)
  unfolding receive_from
  receive k q = assert (not q.receive_all_active) (receive_from q.messages k q)

  pub receive_all : K → Queue K V → Option (Queue K V)
  unfolding call_each
  receive_all k q = assert (not q.receive_all_active) (
      let done = call_each k q.messages (record q { messages = [] }) in
      some (record done {
        receivers_waiting = done.receivers_waiting ++ k ∷ [];
        receive_all_active = true;
      }))

pub data Op (K V : Type 0) : Type 0 where
  sends : V → Op K V
  sends_range : List V → Op K V
  receives : K → Op K V
  receives_all : K → Op K V

module _ {K V : Type 0} (body : K → V → Queue K V → Queue K V) where
  pub step : Queue K V → Op K V → Option (Queue K V)
  unfolding send send_range receive receive_all
  step q (sends v) = send body v q
  step q (sends_range vs) = send_range body vs q
  step q (receives k) = receive body k q
  step q (receives_all k) = receive_all body k q

  pub run : Queue K V → List (Op K V) → Option (Queue K V)
  unfolding step
  run q [] = some q
  run q (o ∷ os) = elim (step q o) [ none ↦ none | some q' ↦ run q' os ]

-- Receivers that leave the queue alone.
abbrev pub quiet : {K V : Type 0} → K → V → Queue K V → Queue K V
quiet k v q = q
