-- ===== src/Server/Datastore/Cache.antt =====
-- The cache of fetched actions of be/server/src/datastore.rs.
use pictophone.Base.{
  ℕ, zero, suc, ◌+◌, ◌<◌, ◌≤◌, ◌≡◌, refl, ◌∙◌, ap, some, List, [], ◌∷◌, ◌++◌, map, length,
  get_elem?, length-append, inl, inr, Option-cases, arith,
}
use pictophone.Base.Outcome.{Outcome}
use pictophone.Base.Result.{Result}
use pictophone.Server.Datastore.{unwrapped, fill_cache, fetch_missed, fetch_action}

-- Every future of the cache is that of the fetch at its index, from an index on.
abbrev pub IsCoherent : {E A : Type 0} → (ℕ → Result E A) → ℕ → List (Outcome E A) → Type 0
IsCoherent fetch start [] = Unit {0}
IsCoherent fetch start (fut ∷ cache) =
    (fut ≡ unwrapped (fetch start)) × IsCoherent fetch (suc start) cache

module _ {E A : Type 0} (fetch : ℕ → Result E A) where
  IsCoherent-get_elem? :
      (start i : ℕ) (cache : List (Outcome E A))
      → IsCoherent fetch start cache
      → i < length cache
      → get_elem? cache i ≡ some (unwrapped (fetch (start + i)))
  IsCoherent-get_elem? start i [] h lt = absurd (omega arith)
  IsCoherent-get_elem? start zero (a ∷ cache) (h, hs) lt =
      let same : start + 0 ≡ start = omega arith in rw (h, same) refl
  IsCoherent-get_elem? start (suc i) (a ∷ cache) (h, hs) lt =
      let next : start + suc i ≡ suc start + i = omega arith in
      rw next (IsCoherent-get_elem? (suc start) i cache hs (omega arith))

  IsCoherent-found :
      (start i : ℕ) (cache : List (Outcome E A)) (fut : Outcome E A)
      → IsCoherent fetch start cache
      → get_elem? cache i ≡ some fut
      → fut ≡ unwrapped (fetch (start + i))
  IsCoherent-found start i [] fut h e = cc
  IsCoherent-found start zero (a ∷ cache) fut (h, hs) e =
      let same : start + 0 ≡ start = omega arith in rw same (cc)
  IsCoherent-found start (suc i) (a ∷ cache) fut (h, hs) e =
      let next : start + suc i ≡ suc start + i = omega arith in
      rw next (IsCoherent-found (suc start) i cache fut hs e)

  IsCoherent-append :
      (start : ℕ) (cache : List (Outcome E A))
      → IsCoherent fetch start cache
      → IsCoherent fetch start (cache ++ (unwrapped (fetch (start + length cache)) ∷ []))
  IsCoherent-append start [] h =
      let same : start + 0 ≡ start = omega arith in (ap (λ i. unwrapped (fetch i)) same, tt)
  IsCoherent-append start (a ∷ cache) (h, hs) =
      let next : start + suc (length cache) ≡ suc start + length cache = omega arith in
      (h, rw next (IsCoherent-append (suc start) cache hs))

  -- With enough fuel the loop ends with the index in the cache.
  fill_cache_lem :
      (index fuel : ℕ) (cache : List (Outcome E A))
      → IsCoherent fetch 0 cache
      → suc index ≤ fuel + length cache
      → IsCoherent fetch 0 (fill_cache fetch index fuel cache)
        × (index < length (fill_cache fetch index fuel cache))
  unfolding fill_cache
  fill_cache_lem index zero cache h le = (h, omega arith)
  fill_cache_lem index (suc fuel) cache h le =
      let grown : length (cache ++ (unwrapped (fetch (length cache)) ∷ [])) ≡ length cache + 1 =
        length-append cache (unwrapped (fetch (length cache)) ∷ []) in
      let at_end : 0 + length cache ≡ length cache = omega arith in
      let pushed = rw at_end at (IsCoherent-append 0 cache h) in
      let more =
        fill_cache_lem index fuel (cache ++ (unwrapped (fetch (length cache)) ∷ [])) pushed
          (omega arith) in
      ground (arith, more, h)

  fetch_missed_lem :
      (index : ℕ) (cache : List (Outcome E A))
      → IsCoherent fetch 0 cache
      → ((fetch_missed fetch index cache).1 ≡ unwrapped (fetch index))
        × IsCoherent fetch 0 (fetch_missed fetch index cache).0
        × (get_elem? (fetch_missed fetch index cache).0 index ≡ some (unwrapped (fetch index)))
  unfolding fetch_missed
  fetch_missed_lem index cache h =
      let (coherent, lt) = fill_cache_lem index (suc index) cache h (omega arith) in
      let here : 0 + index ≡ index = omega arith in
      let found =
        rw here at
          (IsCoherent-get_elem? 0 index (fill_cache fetch index (suc index) cache) coherent lt) in
      (rw found refl, coherent, found)

  -- From a cache whose futures are those of the fetches at their indices, whether an action is there
  -- or not, waiting for it gives what the fetch at its index gives if that succeeds, and panics if
  -- that fails; the new cache is as the old one was, and holds the index.
  pub fetch_action_lem :
      (index : ℕ) (cache : List (Outcome E A))
      → IsCoherent fetch 0 cache
      → ((fetch_action fetch index cache).1 ≡ unwrapped (fetch index))
        × IsCoherent fetch 0 (fetch_action fetch index cache).0
        × (get_elem? (fetch_action fetch index cache).0 index ≡ some (unwrapped (fetch index)))
  unfolding fetch_action
  fetch_action_lem index cache h = elim (Option-cases (get_elem? cache index)) [
    | inl missing ↦ rw (missing, fetch_action) (fetch_missed_lem index cache h)
    | inr (fut, found) ↦
        let here : 0 + index ≡ index = omega arith in
        let same = rw here at (IsCoherent-found 0 index cache fut h found) in
        rw (found, fetch_action) (same, h, found ∙ ap some same)
  ]

  -- What fetches of some indices, one after the other, give from a cache on.
  abbrev pub fetch_actions : List ℕ → List (Outcome E A) → List (Outcome E A)
  fetch_actions [] cache = []
  fetch_actions (index ∷ indices) cache =
      let (cache', answer) = fetch_action fetch index cache in answer ∷ fetch_actions indices cache'

  fetch_actions-IsCoherent :
      (indices : List ℕ) (cache : List (Outcome E A))
      → IsCoherent fetch 0 cache
      → fetch_actions indices cache ≡ map (λ index. unwrapped (fetch index)) indices
  fetch_actions-IsCoherent [] cache h = refl
  fetch_actions-IsCoherent (index ∷ indices) cache h =
      let (answer, kept, _) = fetch_action_lem index cache h in
      rw (answer, fetch_actions-IsCoherent indices _ kept) refl

  -- However often actions are fetched and in whatever order, an empty cache does not change what comes
  -- of it: each fetch gives what the fetch at its index gives, and panics if that fails.
  pub fetch_actions_lem :
      (indices : List ℕ) → fetch_actions indices [] ≡ map (λ index. unwrapped (fetch index)) indices
  fetch_actions_lem indices = fetch_actions-IsCoherent indices [] tt
