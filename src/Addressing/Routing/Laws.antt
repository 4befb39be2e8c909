-- ===== src/Addressing/Routing/Laws.antt =====
-- am++/object_based_addressing.hpp: what a routing scheme promises.
use ampp.Prelude.{ℕ, suc, ◌<◌, ◌≤◌, ◌≡◌, ◌≢◌, true, some}
use ampp.Addressing.Routing.{Routing}

-- A scheme for `n` ranks, with the number of hops from one rank to another. A rank sends a message
-- for another rank to a rank that is nearer, which is among those that it can send to, at an index
-- below their count too, and which can receive from it.
pub record IsRouting (n : ℕ) (scheme : ℕ → Routing) (hops : ℕ → ℕ → ℕ) : Type 0 where
  pub arrived : (r i : ℕ) → r < n → i < n → hops r i ≡ 0 → r ≡ i
  pub inside : (r i : ℕ) → r < n → i < n → r ≢ i → (scheme r).next_hop i < n
  pub closer : (r i : ℕ) → r < n → i < n → r ≢ i → suc (hops ((scheme r).next_hop i) i) ≤ hops r i
  pub listed :
      (r i : ℕ)
      → r < n
      → i < n
      → r ≢ i
      → (j : ℕ) × (j < (scheme r).possible_dests.count)
        × ((scheme r).possible_dests.rank_from_index j ≡ some ((scheme r).next_hop i))
  pub allowed :
      (r i : ℕ)
      → r < n
      → i < n
      → r ≢ i
      → (scheme r).possible_dests.is_valid ((scheme r).next_hop i) ≡ true
  pub expected :
      (r i : ℕ)
      → r < n
      → i < n
      → r ≢ i
      → (scheme ((scheme r).next_hop i)).possible_sources.is_valid r ≡ true
