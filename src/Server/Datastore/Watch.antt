-- ===== src/Server/Datastore/Watch.antt =====
-- The log as the server watches it (be/server/src/datastore.rs).
use pictophone.Base.{
  false, ℕ, zero, suc, ◌+◌, ◌-◌, ◌≤◌, max, ◌≡◌, refl, sym, ◌∙◌, ap, map-append, List, [], ◌∷◌, ◌++◌,
  map, length, take, arith,
}
use pictophone.Base.Result.{Result, values, values-map_ok, ◌>>=◌}
use pictophone.Server.Datastore.{
  count_from, range, unfold_ranges, fill_in_gaps, watch_log, unwrapped, watch_item, and_then,
}

-- The largest of the counts.
abbrev pub highest : List ℕ → ℕ
highest [] = 0
highest (n ∷ ns) = max n (highest ns)

count_from-append :
    (start m n : ℕ) → count_from start m ++ count_from (start + m) n ≡ count_from start (m + n)
count_from-append start zero n =
    let same : start + 0 ≡ start = omega arith in
    let none_more : 0 + n ≡ n = omega arith in rw (same, none_more) refl
count_from-append start (suc m) n =
    let next : start + suc m ≡ suc start + m = omega arith in
    let more : suc m + n ≡ suc (m + n) = omega arith in
    rw (next, more, count_from-append (suc start) m n) refl

range-append :
    (a b c : ℕ) → range a b ++ range (max b a) (max (max b a) c) ≡ range a (max a (max b c))
range-append a b c =
    let to : max b a ≡ a + (b - a) = ground arith in
    ap (λ s. range a b ++ count_from s (max (max b a) c - max b a)) to
    ∙ count_from-append a (b - a) (max (max b a) c - max b a)
    ∙ ap (count_from a) (ground arith)

module _ {E : Type 0} where
  values-append :
      {A : Type 0} (xs : List A) (l : List (Result E A))
      → values (map Result.ok xs ++ l) ≡ xs ++ values l
  values-append [] l = refl
  values-append (x ∷ xs) l = rw (values-append xs l)

  values-unfold_ranges :
      (ceil : ℕ) (numbers : List (Result E ℕ))
      → values (unfold_ranges ceil numbers) ≡ range ceil (max ceil (highest (values numbers)))
  unfolding unfold_ranges
  values-unfold_ranges ceil [] =
      let none_left : max ceil 0 - ceil ≡ 0 = ground arith in rw none_left refl
  values-unfold_ranges ceil (Result.err e ∷ numbers) = values-unfold_ranges ceil numbers
  values-unfold_ranges ceil (Result.ok n ∷ numbers) =
      values-append (range ceil n) (unfold_ranges (max n ceil) numbers)
      ∙ ap (λ l. range ceil n ++ l) (values-unfold_ranges (max n ceil) numbers)
      ∙ range-append ceil n (highest (values numbers))

  -- However the reported counts jump, repeat or fall back, the indices that come out are all those
  -- below the largest count, each once and in increasing order.
  pub values-fill_in_gaps :
      (numbers : List (Result E ℕ))
      → values (fill_in_gaps numbers) ≡ range 0 (highest (values numbers))
  unfolding fill_in_gaps
  values-fill_in_gaps numbers =
      let same : max 0 (highest (values numbers)) ≡ highest (values numbers) = ground arith in
      values-unfold_ranges 0 numbers ∙ ap (range 0) same

  values-cons :
      {A : Type 0} (r : Result E A) (l l' : List (Result E A))
      → values l ≡ values l'
      → values (r ∷ l) ≡ values (r ∷ l')
  values-cons (Result.ok a) l l' h = ap (λ t. a ∷ t) h
  values-cons (Result.err e) l l' h = h

  map-values :
      {A : Type 0} (fetch : ℕ → Result E A) (l : List (Result E ℕ))
      → values (map (λ index. index >>= fetch) l) ≡ values (map fetch (values l))
  map-values fetch [] = refl
  map-values fetch (Result.err e ∷ l) = map-values fetch l
  map-values fetch (Result.ok n ∷ l) = values-cons (fetch n) _ _ (map-values fetch l)

  -- What Firestore holds from an index on.
  abbrev pub Stores : {A : Type 0} → (ℕ → Result E A) → ℕ → List A → Type 0
  Stores fetch start [] = Unit {0}
  Stores fetch start (a ∷ log) = (fetch start ≡ Result.ok a) × Stores fetch (suc start) log

  values-fetched :
      {A : Type 0} (fetch : ℕ → Result E A) (start n : ℕ) (log : List A)
      → Stores fetch start log
      → n ≤ length log
      → values (map fetch (count_from start n)) ≡ take n log
  values-fetched fetch start zero log h le = refl
  values-fetched fetch start (suc n) [] h le = absurd (omega arith)
  values-fetched fetch start (suc n) (a ∷ log) (h, hs) le =
      rw (h, values-fetched fetch (suc start) n log hs (omega arith)) refl

  -- Each of the indices is fetched without an error.
  abbrev AllFetched : {A : Type 0} → (ℕ → Result E A) → List ℕ → Type 0
  AllFetched fetch [] = Unit {0}
  AllFetched {A} fetch (index ∷ l) = ((a : A) × (fetch index ≡ Result.ok a)) × AllFetched fetch l

  AllFetched-count_from :
      {A : Type 0} (fetch : ℕ → Result E A) (start n : ℕ) (log : List A)
      → Stores fetch start log
      → n ≤ length log
      → AllFetched fetch (count_from start n)
  AllFetched-count_from fetch start zero log h le = tt
  AllFetched-count_from fetch start (suc n) [] h le = absurd (omega arith)
  AllFetched-count_from fetch start (suc n) (a ∷ log) (h, hs) le =
      ((a, h), AllFetched-count_from fetch (suc start) n log hs (omega arith))

  -- Where no fetch fails, nothing panics.
  and_then_lem :
      {A : Type 0} (fetch : ℕ → Result E A) (l : List (Result E ℕ))
      → AllFetched fetch (values l)
      → and_then (λ index. unwrapped (fetch index)) l
        ≡ record { items = map (λ index. index >>= fetch) l; panicked = false }
  unfolding and_then watch_item
  and_then_lem fetch [] h = refl
  and_then_lem fetch (Result.err e ∷ l) h = rw (and_then_lem fetch l h) refl
  and_then_lem fetch (Result.ok index ∷ l) ((a, e), h) = rw (e, and_then_lem fetch l h) refl

  fetched_without_panic :
      {A : Type 0} (fetch : ℕ → Result E A) (log : List A) (counts : List (Result E ℕ))
      → Stores fetch 0 log
      → highest (values counts) ≤ length log
      → watch_log fetch counts
        ≡ record { items = map (λ index. index >>= fetch) (fill_in_gaps counts); panicked = false }
  unfolding watch_log
  fetched_without_panic fetch log counts h le =
      let all : highest (values counts) - 0 ≡ highest (values counts) = omega arith in
      and_then_lem fetch (fill_in_gaps counts) (
        rw (values-fill_in_gaps counts, all)
          (AllFetched-count_from fetch 0 (highest (values counts)) log h le))

  -- If the log is stored and no reported count is past its end, then its actions are watched in
  -- order, each once, up to the largest count, and no fetch panics.
  pub values-watch_log :
      {A : Type 0} (fetch : ℕ → Result E A) (log : List A) (counts : List (Result E ℕ))
      → Stores fetch 0 log
      → highest (values counts) ≤ length log
      → (values (watch_log fetch counts).items ≡ take (highest (values counts)) log)
        × ((watch_log fetch counts).panicked ≡ false)
  values-watch_log fetch log counts h le =
      let all : highest (values counts) - 0 ≡ highest (values counts) = omega arith in
      let watched = fetched_without_panic fetch log counts h le in
      (
        ap (λ w. values w.items) watched
            ∙ map-values fetch (fill_in_gaps counts)
            ∙ ap (λ l. values (map fetch l)) (values-fill_in_gaps counts)
            ∙ rw all (values-fetched fetch 0 (highest (values counts)) log h le),
        ap (λ w. w.panicked) watched,
      )

  unfold_ranges-ok :
      (ceil : ℕ) (ns : List ℕ)
      → unfold_ranges {E = E} ceil (map Result.ok ns)
        ≡ map Result.ok (values (unfold_ranges {E = E} ceil (map Result.ok ns)))
  unfolding unfold_ranges
  unfold_ranges-ok ceil [] = refl
  unfold_ranges-ok ceil (n ∷ ns) =
      let rest = unfold_ranges {E = E} (max n ceil) (map Result.ok ns) in
      ap (λ l. map Result.ok (range ceil n) ++ l) (unfold_ranges-ok (max n ceil) ns)
      ∙ sym (map-append Result.ok (range ceil n) (values rest))
      ∙ ap (map Result.ok) (sym (values-append (range ceil n) rest))

  fetched_in_order :
      {A : Type 0} (fetch : ℕ → Result E A) (start n : ℕ) (log : List A)
      → Stores fetch start log
      → n ≤ length log
      → map (λ index. index >>= fetch) (map Result.ok (count_from start n))
        ≡ map Result.ok (take n log)
  fetched_in_order fetch start zero log h le = refl
  fetched_in_order fetch start (suc n) [] h le = absurd (omega arith)
  fetched_in_order fetch start (suc n) (a ∷ log) (h, hs) le =
      rw (h, fetched_in_order fetch (suc start) n log hs (omega arith)) refl

  -- If the log is stored and the reports are counts and none is past its end, then what is watched is
  -- the actions up to the largest count, and no error.
  pub watch_log-ok :
      {A : Type 0} (fetch : ℕ → Result E A) (log : List A) (ns : List ℕ)
      → Stores fetch 0 log
      → highest ns ≤ length log
      → (watch_log fetch (map Result.ok ns)).items ≡ map Result.ok (take (highest ns) log)
  unfolding fill_in_gaps
  watch_log-ok fetch log ns h le =
      let all : max 0 (highest ns) - 0 ≡ highest ns = ground arith in
      ap (λ w. w.items)
        (fetched_without_panic fetch log (map Result.ok ns) h (rw (values-map_ok E ns) le))
      ∙ ap (map (λ index. index >>= fetch)) (
          unfold_ranges-ok 0 ns
          ∙ ap (map Result.ok) (
              values-unfold_ranges 0 (map Result.ok ns)
              ∙ ap (λ l. range 0 (max 0 (highest l))) (values-map_ok E ns)
              ∙ ap (count_from 0) all))
      ∙ fetched_in_order fetch 0 (highest ns) log h le
