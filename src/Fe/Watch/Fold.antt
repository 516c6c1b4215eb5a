-- ===== src/Fe/Watch/Fold.antt =====
-- `mapFold` of fe/src/watch.ts: a source that changes by itself and by actions. It can go on for
-- ever, so `rounds` says how many of its changes are taken. A promise that may reject is the time at
-- which it settles, with `none` where it rejects, and nothing comes after a rejection.
use pictophone.Base.{
  ℕ, zero, suc, ◌≡◌, refl, Option, none, some, List, [], ◌∷◌, leb, if◌then◌else◌, Bool-cases, inl,
  inr,
}
use pictophone.Fe.Watch.{Watchable}
use pictophone.Fe.Watch.Timeline.{Each, Always}

-- `foldFn` is called when an action comes, and `none` is that it throws, so that the promise rejects;
-- `mapFn` is called when the source changes, and gives the action that will come, if any.
module _ {Source Result Action : Type 0} (fold_fn : ℕ → Source → Action → Option (Watchable Source))
    (map_fn : ℕ → Source → Result × Option (ℕ × Action)) where
  pub after_action : Source → ℕ → Action → ℕ × Option (Watchable Source)
  after_action value time action = (time, fold_fn time value action)

  -- `Promise.race` of the source's next value and the action, and `foldFn` on the action.
  pub next_state :
      Source → List (ℕ × Source) → Option (ℕ × Action) → Option (ℕ × Option (Watchable Source))
  next_state value [] none = none
  next_state value [] (some (u, action)) = some (after_action value u action)
  next_state value ((t, later) ∷ next) none = some (t, some (record { value = later; next = next }))
  next_state value ((t, later) ∷ next) (some (u, action)) =
      if leb t u
      then some (t, some (record { value = later; next = next }))
      else some (after_action value u action)

  pub map_fold_next : ℕ → ℕ → Watchable Source → List (ℕ × Option Result)
  map_fold_next zero time input = []
  map_fold_next (suc rounds) time input =
      elim (next_state input.value input.next (map_fn time input.value).1) [
        | none ↦ []
        | some (t, none) ↦ (t, none) ∷ []
        | some (t, some changed) ↦
            (t, some (map_fn t changed.value).0) ∷ map_fold_next rounds t changed
      ]

  -- `mapFoldImpl`, called at `time`.
  pub map_fold : ℕ → ℕ → Watchable Source → Watchable (Option Result)
  map_fold rounds time input = record {
    value = some (map_fn time input.value).0;
    next = map_fold_next rounds time input;
  }

  module _ (P : Source → Type 0) where
    -- A next state, if one comes, is no rejection, and what it goes on with has the property.
    abbrev pub IsKept : Option (ℕ × Option (Watchable Source)) → Type 0
    IsKept none = Unit {0}
    IsKept (some (t, none)) = ⊥
    IsKept (some (t, some w)) = Always P w

    module _
        (keep : (s t : ℕ) (value : Source) (action : Action)
          → P value
          → (map_fn s value).1 ≡ some (t, action)
          → IsKept (some (t, fold_fn t value action))) where
      next_state-IsKept :
          (s : ℕ) (value : Source) (next : List (ℕ × Source)) (action : Option (ℕ × Action))
          → (map_fn s value).1 ≡ action
          → P value
          → Each P next
          → IsKept (next_state value next action)
      unfolding next_state after_action
      next_state-IsKept s value [] none e p h = tt
      next_state-IsKept s value [] (some (u, a)) e p h = keep s u value a p e
      next_state-IsKept s value ((t, later) ∷ next) none e p h = h
      next_state-IsKept s value ((t, later) ∷ next) (some (u, a)) e p h =
          elim (Bool-cases (leb t u)) [
            | inl first ↦ rw first h
            | inr second ↦ rw second (keep s u value a p e)
          ]

      module _ (Q : Option Result → Type 0)
          (shown : (t : ℕ) (value : Source) → P value → Q (some (map_fn t value).0)) where
        map_fold_next-Each :
            (rounds time : ℕ) (input : Watchable Source)
            → Always P input
            → Each Q (map_fold_next rounds time input)
        unfolding map_fold_next
        map_fold_next-Each zero time input h = tt
        map_fold_next-Each (suc rounds) time input h =
            go (λ t w k. (shown t w.value k.0, map_fold_next-Each rounds t w k))
              (next_state input.value input.next (map_fn time input.value).1)
              (next_state-IsKept time input.value input.next _ refl h.0 h.1)
          where
            go :
                ((t : ℕ) (w : Watchable Source)
                  → Always P w
                  → Q (some (map_fn t w.value).0) × Each Q (map_fold_next rounds t w))
                → (r : Option (ℕ × Option (Watchable Source))) → IsKept r
                → Each Q (elim r [
                  | none ↦ []
                  | some (t, none) ↦ (t, none) ∷ []
                  | some (t, some changed) ↦
                      (t, some (map_fn t changed.value).0) ∷ map_fold_next rounds t changed
                ])
            go later none k = tt
            go later (some (t, none)) k = absurd k
            go later (some (t, some w)) k = later t w k

        -- What holds of the source always, and is kept by each action that comes, is always shown, and
        -- nothing rejects.
        pub map_fold-Always :
            (rounds time : ℕ) (input : Watchable Source)
            → Always P input
            → Always Q (map_fold rounds time input)
        unfolding map_fold
        map_fold-Always rounds time input h =
            (shown time input.value h.0, map_fold_next-Each rounds time input h)
