-- ===== src/Fe/Watch.antt =====
-- fe/src/watch.ts: a value that changes. A promise of the next `Watchable` is the time at which it
-- resolves and what to; so a watched value is the one it has and its later ones, each with its time.
-- Of two promises in a race the earlier wins, and the first of the two at the same time. A function
-- that makes a watched value is given the time at which it is called. Promises that may reject are in
-- Fe/Watch/Fold.antt.
pub mod Timeline
pub mod Fold
use pictophone.Base.{ℕ, Option, none, some, List, [], ◌∷◌, leb, if◌then◌else◌}

pub record Watchable (T : Type 0) : Type 0 where
  pub value : T
  pub next : List (ℕ × T)

-- `Promise.race([])` never resolves.
unfoldable pub from_constant : {T : Type 0} → T → Watchable T
from_constant value = record { value = value; next = [] }

-- What the results of `iter.next()` make of the value so far; `none` is `done`.
pub from_results : {T : Type 0} → T → List (ℕ × Option T) → List (ℕ × T)
from_results init [] = []
from_results init ((time, none) ∷ results) = (time, init) ∷ []
from_results init ((time, some value) ∷ results) = (time, value) ∷ from_results value results

pub from_iterator : {T : Type 0} → List (ℕ × Option T) → T → Watchable T
from_iterator iter init = record { value = init; next = from_results init iter }

-- `iter[Symbol.asyncIterator]()` is the iterator's results.
pub from_iterable : {T : Type 0} → List (ℕ × Option T) → T → Watchable T
unfolding from_iterator
from_iterable iter init = from_iterator iter init

-- `none` is a promise that never resolves.
pub from_promise : {T : Type 0} → Option (ℕ × T) → T → Watchable T
from_promise none init = record { value = init; next = [] }
from_promise (some (time, value)) init = record { value = init; next = (time, value) ∷ [] }

pub map_next : {A B : Type 0} → (A → B) → List (ℕ × A) → List (ℕ × B)
map_next fn [] = []
map_next fn ((time, a) ∷ next) = (time, fn a) ∷ map_next fn next

pub map : {A B : Type 0} → (A → B) → Watchable A → Watchable B
map fn outer = record { value = fn outer.value; next = map_next fn outer.next }

module _ {A B : Type 0} (fn : ℕ → A → Watchable B) where
  -- `helper` of `switchMap`, after its first value.
  pub switch_next : List (ℕ × A) → List (ℕ × B) → List (ℕ × B)
  switch_next [] inner = inner
  switch_next ((t, a) ∷ outer) [] = (t, (fn t a).value) ∷ switch_next outer (fn t a).next
  switch_next ((t, a) ∷ outer) ((u, b) ∷ inner) =
      let switched = (t, (fn t a).value) ∷ switch_next outer (fn t a).next in
      let kept = (u, b) ∷ switch_next ((t, a) ∷ outer) inner in if leb t u then switched else kept

  -- `switchMap`, called at the time `start`.
  pub switch_map : ℕ → Watchable A → Watchable B
  switch_map start outer =
      let inner = fn start outer.value in
      record { value = inner.value; next = switch_next outer.next inner.next }

module _ {A B : Type 0} where
  pub combine_next : A → List (ℕ × A) → B → List (ℕ × B) → List (ℕ × (A × B))
  combine_next a [] b [] = []
  combine_next a [] b ((u, b') ∷ ys) = (u, (a, b')) ∷ combine_next a [] b' ys
  combine_next a ((t, a') ∷ xs) b [] = (t, (a', b)) ∷ combine_next a' xs b []
  combine_next a ((t, a') ∷ xs) b ((u, b') ∷ ys) =
      let left = (t, (a', b)) ∷ combine_next a' xs b ((u, b') ∷ ys) in
      let right = (u, (a, b')) ∷ combine_next a ((t, a') ∷ xs) b' ys in
      if leb t u then left else right

  pub combine : Watchable A → Watchable B → Watchable (A × B)
  combine a b = record {
    value = (a.value, b.value);
    next = combine_next a.value a.next b.value b.next;
  }
