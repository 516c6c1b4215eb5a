-- ===== src/Server/Datastore/Local.antt =====
-- `AOVec` of be/server/src/util/aovec.rs, a vector that is only added to, and the datastore over it
-- in be/server/src/datastore.rs. Each function holds its lock throughout, so it is one step.
pub mod Offsets
mod Tests
use pictophone.Base.{ℕ, List, [], ◌∷◌, ◌++◌, length, take}
use pictophone.Base.Result.{Result, ok, values}
use pictophone.Server.{ServerError}

-- `sent` is what the broadcast channel has been sent, the oldest first.
pub record AoVec (A : Type 0) : Type 0 where
  pub vec : List A
  pub sent : List ℕ

module _ {A : Type 0} where
  unfoldable pub new : AoVec A
  new = record { vec = []; sent = [] }

  -- The length after it, and the vector then.
  unfoldable pub push : A → AoVec A → ℕ × AoVec A
  push t this =
      let vec' = this.vec ++ (t ∷ []) in
      (length vec', record { vec = vec'; sent = this.sent ++ (length vec' ∷ []) })

  -- `AOVec::take`
  unfoldable pub take_first : ℕ → AoVec A → List A
  take_first count this = take count this.vec

  -- `watch`: the length when it is read, after the subscription, and then what the subscription
  -- receives; a receiver that lags behind gets errors in place of what it missed.
  unfoldable pub watch : {E : Type 0} → AoVec A → List (Result E ℕ) → List ℕ
  watch when_read received = length when_read.vec ∷ values received

  -- `push_action` of `Local`, on what its vector holds; a `usize` always fits a `u64`.
  unfoldable pub push_action : A → AoVec A → Result ServerError ℕ × AoVec A
  push_action action actions = let (count, actions') = push action actions in (ok count, actions')
