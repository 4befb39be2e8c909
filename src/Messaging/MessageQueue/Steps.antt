-- ===== src/Messaging/MessageQueue/Steps.antt =====
-- am++/message_queue.hpp, message_queue: what one operation does to the messages.
use ampp.Prelude.{
  Bool, true, false, ◌≡◌, refl, sym, ◌∙◌, ap, ◌⊎◌, inl, inr, List, [], ◌∷◌, ◌++◌, map, append-nil,
  append_assoc, Option, some, arith, Bool-cases,
}
use ampp.Messaging.MessageQueue.{
  Queue, is_empty, quiet, call, call_each, stays, send_to, send, range_round, send_range,
  receive_from, receive, receive_all,
}

pub is_empty-snoc : {K : Type 0} (ks : List K) (k : K) → is_empty (ks ++ k ∷ []) ≡ false
is_empty-snoc [] k = refl
is_empty-snoc (x ∷ ks) k = refl

module _ {K V : Type 0} where
  -- Messages and receivers never wait at the same time, and a receiver of all waits for good.
  pub record Inv (q : Queue K V) : Type 0 where
    pub apart : (q.messages ≡ []) ⊎ (q.receivers_waiting ≡ [])
    pub kept : q.receive_all_active ≡ true → is_empty q.receivers_waiting ≡ false

  -- The messages in the order in which they were received, and then those that still wait.
  abbrev pub history : Queue K V → List V
  history q = map (λ c. c.1) q.calls ++ q.messages

  -- What a step gives: a state with the invariant whose history has grown by `vs`, with all
  -- messages going to one receiver or not.
  abbrev pub Grows : Queue K V → List V → Bool → Option (Queue K V) → Type 0
  Grows q vs on r =
      (q' : Queue K V) × (r ≡ some q')
      × Inv q'
      × (history q' ≡ history q ++ vs)
      × (q'.receive_all_active ≡ on)

  map-append_one :
      (cs : List (K × V)) (k : K) (v : V)
      → map (λ c. c.1) (cs ++ (k, v) ∷ []) ≡ map (λ c. c.1) cs ++ v ∷ []
  map-append_one [] k v = refl
  map-append_one (c ∷ cs) k v = ap (λ (t : List V). c.1 ∷ t) (map-append_one cs k v)

  history-call :
      (q : Queue K V) (k : K) (v : V)
      → q.messages ≡ []
      → history (call quiet k v q) ≡ history q ++ v ∷ []
  unfolding call
  history-call q k v m = rw m (rw append-nil (rw append-nil (map-append_one q.calls k v)))

  messages-call_each :
      (q : Queue K V) (k : K) (vs : List V)
      → ((call_each quiet k vs q).messages ≡ q.messages)
        × ((call_each quiet k vs q).receivers_waiting ≡ q.receivers_waiting)
        × ((call_each quiet k vs q).receive_all_active ≡ q.receive_all_active)
  unfolding call_each call
  messages-call_each q k [] = (refl, refl, refl)
  messages-call_each q k (v ∷ vs) = messages-call_each (call quiet k v q) k vs

  history-call_each :
      (q : Queue K V) (k : K) (vs : List V)
      → q.messages ≡ []
      → history (call_each quiet k vs q) ≡ history q ++ vs
  unfolding call_each
  history-call_each q k [] m = sym (append-nil _)
  history-call_each q k (v ∷ vs) m =
      history-call_each (call quiet k v q) k vs (unfold call in m)
      ∙ ap (λ (t : List V). t ++ vs) (history-call q k v m)
      ∙ append_assoc (history q) (v ∷ []) vs

  apart-messages :
      (q : Queue K V) (k : K) (rest : List K)
      → q.receivers_waiting ≡ k ∷ rest
      → Inv q
      → q.messages ≡ []
  apart-messages q k rest e i = elim i.apart [ inl m ↦ m | inr r ↦ cc ]

  -- A receiver that does not stay is taken off the front.
  serve-Inv :
      (q : Queue K V) (k : K) (rest : List K) (v : V)
      → q.receivers_waiting ≡ k ∷ rest
      → Inv q
      → stays q rest ≡ false
      → Inv (call quiet k v (record q { receivers_waiting = rest }))
  unfolding stays call
  serve-Inv q k rest v e i leaves = record {
    apart = inl (apart-messages q k rest e i);
    kept = λ on. ground arith;
  }

  history_wait :
      (q : Queue K V) (vs : List V)
      → history (record q { messages = q.messages ++ vs }) ≡ history q ++ vs
  history_wait q vs = sym (append_assoc (map (λ c. c.1) q.calls) q.messages vs)

  history-take :
      (q : Queue K V) (k : K) (v : V) (vs : List V)
      → q.messages ≡ v ∷ vs
      → history (call quiet k v (record q { messages = vs })) ≡ history q ++ []
  unfolding call
  history-take q k v vs e = rw (map-append_one q.calls k v) (
      append_assoc (map (λ c. c.1) q.calls) (v ∷ []) vs
      ∙ ap (λ (t : List V). map (λ c. c.1) q.calls ++ t) (sym e)
      ∙ sym (append-nil (history q)))

  send_to-Grows :
      (q : Queue K V) (rs : List K) (v : V)
      → q.receivers_waiting ≡ rs
      → Inv q
      → Grows q (v ∷ []) q.receive_all_active (send_to quiet rs v q)
  unfolding send_to
  send_to-Grows q [] v e i =
      (_, refl, record { apart = inr e; kept = i.kept }, history_wait q (v ∷ []), refl)
  send_to-Grows q (k ∷ rest) v e i =
      let m = apart-messages q k rest e i in
      let q' = record q { receivers_waiting = rest } in
      elim (Bool-cases (stays q rest)) [
        | inl on ↦ (
          call quiet k v q,
          rw (m, on),
          unfold call in record { apart = inl m; kept = i.kept },
          history-call q k v m,
          unfold call in refl,
        )
        | inr off ↦ (
          call quiet k v q',
          rw (m, off),
          serve-Inv q k rest v e i off,
          history-call q' k v m,
          unfold call in refl,
        )
      ]

  pub send-Grows :
      (q : Queue K V) (v : V) → Inv q → Grows q (v ∷ []) q.receive_all_active (send quiet v q)
  unfolding send
  send-Grows q v i = send_to-Grows q q.receivers_waiting v refl i

  pub send_range-Grows :
      (q : Queue K V) (vs : List V)
      → Inv q
      → Grows q vs q.receive_all_active (send_range quiet vs q)
  unfolding send_range range_round
  send_range-Grows q [] i = (q, refl, i, sym (append-nil (history q)), refl)
  send_range-Grows q (v ∷ vs) i = go q.receivers_waiting refl (λ q' i'. send_range-Grows q' vs i')
    where
      go :
          (rs : List K)
          → q.receivers_waiting ≡ rs
          → ((q' : Queue K V) → Inv q' → Grows q' vs q'.receive_all_active (send_range quiet vs q'))
          → Grows q (v ∷ vs) q.receive_all_active (send_range quiet (v ∷ vs) q)
      go [] e rest = (
        record q { messages = q.messages ++ v ∷ vs },
        ground (arith, e),
        record { apart = inr e; kept = i.kept },
        history_wait q (v ∷ vs),
        refl,
      )
      go (k ∷ rs) e rest =
          let m = apart-messages q k rs e i in
          let q' = record q { receivers_waiting = rs } in
          elim (Bool-cases (stays q rs)) [
            | inl on ↦
                let same = messages-call_each q k (v ∷ vs) in
                (
                  call_each quiet k (v ∷ vs) q,
                  ground (arith, e, m, on),
                  record { apart = inl (same.0 ∙ m); kept = ground (arith, same, i.kept) },
                  history-call_each q k (v ∷ vs) m,
                  same.2,
                )
            | inr off ↦
                let (q'', made, i'', h, on) =
                  rest (call quiet k v q') (serve-Inv q k rs v e i off) in
                (
                  q'',
                  ground (arith, e, m, off, made),
                  i'',
                  h
                      ∙ ap (λ (t : List V). t ++ vs) (history-call q' k v m)
                      ∙ append_assoc (history q) (v ∷ []) vs,
                  on ∙ unfold call in refl,
                )
          ]

  receive_from-Grows :
      (q : Queue K V) (vs : List V) (k : K)
      → q.messages ≡ vs
      → q.receive_all_active ≡ false
      → Inv q
      → Grows q [] false (receive_from quiet vs k q)
  unfolding receive_from
  receive_from-Grows q [] k e off i =
      (_, refl, record { apart = inl e; kept = λ on. cc }, sym (append-nil (history q)), off)
  receive_from-Grows q (v ∷ vs) k e off i =
      let r : q.receivers_waiting ≡ [] = elim i.apart [ inl m ↦ cc | inr r ↦ r ] in
      (
        call quiet k v (record q { messages = vs }),
        rw r,
        unfold call in record { apart = inr r; kept = λ on. cc },
        history-take q k v vs e,
        unfold call in off,
      )

  pub receive-Grows :
      (q : Queue K V) (k : K)
      → q.receive_all_active ≡ false
      → Inv q
      → Grows q [] false (receive quiet k q)
  unfolding receive
  receive-Grows q k off i = simp off (receive_from-Grows q q.messages k refl off i)

  pub receive_all-Grows :
      (q : Queue K V) (k : K)
      → q.receive_all_active ≡ false
      → Inv q
      → Grows q [] true (receive_all quiet k q)
  unfolding receive_all
  receive_all-Grows q k off i =
      let start = record q { messages = [] } in
      let done = call_each quiet k q.messages start in
      let same = messages-call_each start k q.messages in
      (
        record done {
          receivers_waiting = done.receivers_waiting ++ k ∷ [];
          receive_all_active = true;
        },
        simp off,
        record { apart = inl same.0; kept = λ on. is_empty-snoc done.receivers_waiting k },
        history-call_each start k q.messages refl
            ∙ ap (λ (t : List V). t ++ q.messages) (append-nil (map (λ c. c.1) q.calls))
            ∙ sym (append-nil (history q)),
        refl,
      )
