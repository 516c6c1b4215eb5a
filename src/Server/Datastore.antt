-- ===== src/Server/Datastore.antt =====
-- be/server/src/datastore.rs: from the lengths of the log that Firestore reports to the stream of
-- its actions, and the cache of fetched actions. The fetch from Firestore is the parameter `fetch`.
pub mod Document
pub mod Push
pub mod Local
pub mod Watch
pub mod Cache
use pictophone.Base.{
  Bool, true, false, ℕ, zero, suc, ◌-◌, max, leb, if◌then◌else◌, Option, none, some, List, [], ◌∷◌,
  ◌++◌, map, length, get_elem?,
}
use pictophone.Base.Outcome.{Outcome, unwrap, ok, err, panic, ◌>>=◌}
use pictophone.Base.Result.{Result}

-- `start, start + 1, …`, so many of them.
abbrev pub count_from : ℕ → ℕ → List ℕ
count_from start zero = []
count_from start (suc n) = start ∷ count_from (suc start) n

-- `start..end`
abbrev pub range : ℕ → ℕ → List ℕ
range start end = count_from start (end - start)

-- The stream of `fill_in_gaps` from the indices below `ceil` on.
pub unfold_ranges : {E : Type 0} → ℕ → List (Result E ℕ) → List (Result E ℕ)
unfold_ranges ceil [] = []
unfold_ranges ceil (Result.err e ∷ numbers) = Result.err e ∷ unfold_ranges ceil numbers
unfold_ranges ceil (Result.ok new_ceil ∷ numbers) =
    map Result.ok (range ceil new_ceil) ++ unfold_ranges (max new_ceil ceil) numbers

pub fill_in_gaps : {E : Type 0} → List (Result E ℕ) → List (Result E ℕ)
fill_in_gaps numbers = unfold_ranges 0 numbers

-- A future of the cache: what the fetch of an action gives, and a panic of its `unwrap` on an error.
abbrev pub unwrapped : {E A : Type 0} → Result E A → Outcome E A
unwrapped (Result.ok a) = ok a
unwrapped (Result.err e) = panic

-- What a stream yields, and whether whoever reads it panics after that.
pub record Watched (E A : Type 0) : Type 0 where
  pub items : List (Result E A)
  pub panicked : Bool

pub watch_item : {E A : Type 0} → Outcome E A → Watched E A → Watched E A
watch_item (ok a) rest = record { items = Result.ok a ∷ rest.items; panicked = rest.panicked }
watch_item (err e) rest = record { items = Result.err e ∷ rest.items; panicked = rest.panicked }
watch_item panic rest = record { items = []; panicked = true }

-- `and_then`: an error stays, and an index is fetched before the next item is read.
pub and_then : {E A : Type 0} → (ℕ → Outcome E A) → List (Result E ℕ) → Watched E A
and_then fetch [] = record { items = []; panicked = false }
and_then fetch (Result.err e ∷ indices) = watch_item (err e) (and_then fetch indices)
and_then fetch (Result.ok index ∷ indices) = watch_item (fetch index) (and_then fetch indices)

-- `watch_log`, from the counts that Firestore reports. Whatever the cache, an action is fetched as
-- the future at its index (Datastore/Cache.antt).
pub watch_log : {E A : Type 0} → (ℕ → Result E A) → List (Result E ℕ) → Watched E A
watch_log fetch counts = and_then (λ index. unwrapped (fetch index)) (fill_in_gaps counts)

-- The loop of `fetch_action` on a cache miss, on fuel.
pub fill_cache : {E A : Type 0} → (ℕ → Result E A) → ℕ → ℕ → List (Outcome E A) → List (Outcome E A)
fill_cache fetch index zero cache = cache
fill_cache fetch index (suc fuel) cache =
    let rest = fill_cache fetch index fuel (cache ++ (unwrapped (fetch (length cache)) ∷ [])) in
    if leb (length cache) index then rest else cache

-- `Firestore::fetch_action`: the cache after it, which keeps its futures whether they panic or not,
-- and what comes of waiting for the future. The fetch of the handle is `fetch`.
pub fetch_missed :
    {E A : Type 0} → (ℕ → Result E A) → ℕ → List (Outcome E A) → List (Outcome E A) × Outcome E A
fetch_missed fetch index cache =
    let filled = fill_cache fetch index (suc index) cache in
    (filled, (unwrap (get_elem? filled index) >>= λ fut. fut))

pub fetch_action :
    {E A : Type 0} → (ℕ → Result E A) → ℕ → List (Outcome E A) → List (Outcome E A) × Outcome E A
fetch_action fetch index cache = elim (get_elem? cache index) [
  | some fut ↦ (cache, fut)
  | none ↦ fetch_missed fetch index cache
]
