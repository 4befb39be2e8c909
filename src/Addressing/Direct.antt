-- ===== src/Addressing/Direct.antt =====
-- am++/object_based_addressing.hpp: oba_handler and object_based_addressing. A call of the user's
-- handler and a send of the coalesced message type are what an operation leads to; `none` is a failed
-- assertion. The map from a message to the rank that owns it, and the one to the part of it that is
-- sent, are the user's.
use ampp.Prelude.{ℕ, Bool, true, not, Option, none, some, ltb, ◌==◌, if◌then◌else◌}

-- What an operation leads to: a call of a handler, or a send to a rank, by a thread where it is named.
pub data Outcome (H A : Type 0) : Type 0 where
  called : H → A → Outcome H A
  sent : A → ℕ → Option ℕ → Outcome H A

pub record ObjectBasedAddressing (H A : Type 0) : Type 0 where
  pub initialized : Bool
  pub owner : A → ℕ
  pub sent_part : A → A
  pub my_rank : ℕ
  pub num_ranks : ℕ
  pub handler : H

-- The constructor, for the rank and the size of the transport, with the handler that a message type
-- has before one is set.
unfoldable pub object_based_addressing :
    {H A : Type 0} → H → ℕ → ℕ → (A → ℕ) → (A → A) → ObjectBasedAddressing H A
object_based_addressing handler rank size owner sent_part = record {
  initialized = true;
  owner = owner;
  sent_part = sent_part;
  my_rank = rank;
  num_ranks = size;
  handler = handler;
}

unfoldable pub set_handler :
    {H A : Type 0} → H → ObjectBasedAddressing H A → Option (ObjectBasedAddressing H A)
set_handler h oba = if oba.initialized then some (record oba { handler = h }) else none

unfoldable pub get_handler : {H A : Type 0} → ObjectBasedAddressing H A → Option H
get_handler oba = if oba.initialized then some (oba.handler) else none

-- A call of the handler that was found.
unfoldable pub called_by : {H A : Type 0} → A → Option H → Option (Outcome H A)
called_by arg none = none
called_by arg (some h) = some (called h arg)

unfoldable pub send_by :
    {H A : Type 0} → Option ℕ → A → ObjectBasedAddressing H A → Option (Outcome H A)
unfolding get_handler called_by
send_by tid arg oba =
    let dest = oba.owner arg in
    if not oba.initialized
    then none
    else if not (ltb dest oba.num_ranks)
    then none
    else if dest == oba.my_rank
    then called_by (oba.sent_part arg) (get_handler oba)
    else some (sent (oba.sent_part arg) dest tid)

unfoldable pub send : {H A : Type 0} → A → ObjectBasedAddressing H A → Option (Outcome H A)
unfolding send_by
send arg oba = send_by none arg oba

unfoldable pub send_with_tid :
    {H A : Type 0} → A → ℕ → ObjectBasedAddressing H A → Option (Outcome H A)
unfolding send_by
send_with_tid arg tid oba = send_by (some tid) arg oba
