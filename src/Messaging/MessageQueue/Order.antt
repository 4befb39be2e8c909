-- ===== src/Messaging/MessageQueue/Order.antt =====
-- am++/message_queue.hpp, message_queue: every message is received once, in the order of sending.
use ampp.Prelude.{
  Bool, true, false, ◌≡◌, refl, sym, ◌∙◌, ap, subst, inl, List, [], ◌∷◌, ◌++◌, append-nil,
  append_assoc, some, arith,
}
use ampp.Messaging.MessageQueue.{
  Queue, Op, sends, sends_range, receives, receives_all, init, step, run, quiet,
}
use ampp.Messaging.MessageQueue.Steps.{
  Inv, history, Grows, send-Grows, send_range-Grows, receive-Grows, receive_all-Grows,
}

module _ {K V : Type 0} where
  pub sent : Op K V → List V
  sent (sends v) = v ∷ []
  sent (sends_range vs) = vs
  sent (receives k) = []
  sent (receives_all k) = []

  pub sent_all : List (Op K V) → List V
  unfolding sent
  sent_all [] = []
  sent_all (o ∷ os) = sent o ++ sent_all os

  -- Only `receive_all` turns the receiving of all on, and no operation turns it off.
  abbrev turned : Bool → Op K V → Bool
  turned on (receives_all k) = true
  turned on o = on

  -- The rule of the assertions: where one receiver receives all messages, no other comes.
  abbrev May : Bool → Op K V → Type 0
  May on (receives k) = on ≡ false
  May on (receives_all k) = on ≡ false
  May on o = Unit

  abbrev pub Allowed : Bool → List (Op K V) → Type 0
  Allowed on [] = Unit
  Allowed on (o ∷ os) = May on o × Allowed (turned on o) os

  step-Grows :
      (q : Queue K V) (o : Op K V)
      → Inv q
      → May q.receive_all_active o
      → Grows q (sent o) (turned q.receive_all_active o) (step quiet q o)
  unfolding step sent
  step-Grows q (sends v) i may = send-Grows q v i
  step-Grows q (sends_range vs) i may = send_range-Grows q vs i
  step-Grows q (receives k) i may =
      let (q', made, i', h, on) = receive-Grows q k may i in (q', made, i', h, on ∙ sym may)
  step-Grows q (receives_all k) i may = receive_all-Grows q k may i

  run-Grows :
      (os : List (Op K V)) (q : Queue K V)
      → Inv q
      → Allowed q.receive_all_active os
      → (q' : Queue K V) × (run quiet q os ≡ some q')
        × Inv q'
        × (history q' ≡ history q ++ sent_all os)
  unfolding run sent_all
  run-Grows [] q i ok = (q, refl, i, sym (append-nil (history q)))
  run-Grows (o ∷ os) q i ok =
      let (q', made, i', h, on) = step-Grows q o i ok.0 in
      let (q'', made', i'', h') = run-Grows os q' i' (subst (λ b. Allowed b os) (sym on) ok.1) in
      (
        q'',
        ground (arith, made, made'),
        i'',
        h'
            ∙ ap (λ (t : List V). t ++ sent_all os) h
            ∙ append_assoc (history q) (sent o) (sent_all os),
      )

-- Receivers that leave the queue as it is.
abbrev pub LeavesAlone : {K V : Type 0} → (K → V → Queue K V → Queue K V) → Type 0
LeavesAlone {K} {V} body = (k : K) (v : V) (q : Queue K V) → body k v q ≡ q

-- Let the receivers not use the queue when they are called. A program of sends and receives in which no
-- receiver comes after one that receives all messages runs with no failed assertion, and the messages
-- that were received, in the order of their receipt, and then those that still wait are the messages
-- that were sent, in the order of sending.
pub run-history :
    {K V : Type 0} (body : K → V → Queue K V → Queue K V) (os : List (Op K V))
    → LeavesAlone body
    → Allowed false os
    → (q : Queue K V) × (run body init os ≡ some q) × (history q ≡ sent_all os)
unfolding init
run-history body os alone ok =
    let (q, made, i, h) = run-Grows os init (record { apart = inl refl; kept = λ on. cc }) ok in
    let same : body ≡ quiet = λ i k v q. alone k v q i in
    (q, ap (λ b. run b init os) same ∙ made, h)
