-- ===== src/Fe/Watch/Timeline.antt =====
-- What a watched value of fe/src/watch.ts is at each time.
use pictophone.Base.{
  ℕ, ◌≡◌, refl, Option, none, some, List, [], ◌∷◌, leb, if◌then◌else◌, arith, Bool-cases, inl, inr,
}
use pictophone.Fe.Watch.{
  Watchable, from_results, from_iterator, from_iterable, map_next, map, switch_next, switch_map,
  combine_next, combine,
}

-- The value at a time, from the value so far and what comes next.
abbrev pub now : {T : Type 0} → T → List (ℕ × T) → ℕ → T
now value [] t = value
now value ((time, later) ∷ next) t = if leb time t then now later next t else value

abbrev pub at : {T : Type 0} → Watchable T → ℕ → T
at w t = now w.value w.next t

-- What holds of every value that comes.
abbrev pub Each : {T : Type 0} → (T → Type 0) → List (ℕ × T) → Type 0
Each P [] = Unit {0}
Each P ((t, value) ∷ next) = P value × Each P next

abbrev pub Always : {T : Type 0} → (T → Type 0) → Watchable T → Type 0
Always P w = P w.value × Each P w.next

pub now-Each :
    {T : Type 0} (P : T → Type 0) (value : T) (next : List (ℕ × T)) (t : ℕ)
    → P value
    → Each P next
    → P (now value next t)
now-Each P value [] t p h = p
now-Each P value ((s, later) ∷ next) t p (q, h) = elim (Bool-cases (leb s t)) [
  | inl past ↦ rw past (now-Each P later next t q h)
  | inr future ↦ rw future p
]

-- The values that come before the end.
abbrev pub pushed : {T : Type 0} → List (ℕ × Option T) → List (ℕ × T)
pushed [] = []
pushed ((time, none) ∷ results) = []
pushed ((time, some value) ∷ results) = (time, value) ∷ pushed results

now-from_results :
    {T : Type 0} (init : T) (results : List (ℕ × Option T)) (t : ℕ)
    → now init (from_results init results) t ≡ now init (pushed results) t
unfolding from_results
now-from_results init [] t = refl
now-from_results init ((time, none) ∷ results) t = ground arith
now-from_results init ((time, some value) ∷ results) t =
    ground (arith, now-from_results value results t)

pub at-from_iterator :
    {T : Type 0} (init : T) (iter : List (ℕ × Option T)) (t : ℕ)
    → at (from_iterator iter init) t ≡ now init (pushed iter) t
unfolding from_iterator
at-from_iterator init iter t = now-from_results init iter t

-- At every time an iterable is watched as the last value that it yielded by then, or as the initial
-- one, whether it has ended or not.
pub at-from_iterable :
    {T : Type 0} (init : T) (iter : List (ℕ × Option T)) (t : ℕ)
    → at (from_iterable iter init) t ≡ now init (pushed iter) t
unfolding from_iterable
at-from_iterable init iter t = at-from_iterator init iter t

module _ {A B : Type 0} where
  now-map_next :
      (fn : A → B) (value : A) (next : List (ℕ × A)) (t : ℕ)
      → now (fn value) (map_next fn next) t ≡ fn (now value next t)
  unfolding map_next
  now-map_next fn value [] t = refl
  now-map_next fn value ((time, later) ∷ next) t = ground (arith, now-map_next fn later next t)

  -- At every time `map` shows the function's value at what the watched value is then.
  pub at-map : (fn : A → B) (outer : Watchable A) (t : ℕ) → at (map fn outer) t ≡ fn (at outer t)
  unfolding map
  at-map fn outer t = now-map_next fn outer.value outer.next t

  now-combine_next :
      (a : A) (xs : List (ℕ × A)) (b : B) (ys : List (ℕ × B)) (t : ℕ)
      → now (a, b) (combine_next a xs b ys) t ≡ (now a xs t, now b ys t)
  unfolding combine_next
  now-combine_next a [] b [] t = refl
  now-combine_next a [] b ((u, b') ∷ ys) t = ground (arith, now-combine_next a [] b' ys t)
  now-combine_next a ((s, a') ∷ xs) b [] t = ground (arith, now-combine_next a' xs b [] t)
  now-combine_next a ((s, a') ∷ xs) b ((u, b') ∷ ys) t =
      ground (
        arith,
        now-combine_next a' xs b ((u, b') ∷ ys) t,
        now-combine_next a ((s, a') ∷ xs) b' ys t,
      )

  -- At every time the combination of two watched values is the pair of what they are then.
  pub at-combine :
      (a : Watchable A) (b : Watchable B) (t : ℕ) → at (combine a b) t ≡ (at a t, at b t)
  unfolding combine
  at-combine a b t = now-combine_next a.value a.next b.value b.next t

  module _ (fn : ℕ → A → Watchable B) where
    -- The inner value at a time: of the watched value that was made at the outer's last change.
    abbrev pub latest : Watchable B → List (ℕ × A) → ℕ → B
    latest inner [] t = at inner t
    latest inner ((time, a) ∷ outer) t =
        if leb time t then latest (fn time a) outer t else at inner t

    now-switch_next :
        (outer : List (ℕ × A)) (value : B) (inner : List (ℕ × B)) (t : ℕ)
        → now value (switch_next fn outer inner) t
          ≡ latest (record { value = value; next = inner }) outer t
    unfolding switch_next
    now-switch_next [] value inner t = refl
    now-switch_next ((s, a) ∷ outer) value [] t =
        ground (arith, now-switch_next outer (fn s a).value (fn s a).next t)
    now-switch_next ((s, a) ∷ outer) value ((u, b) ∷ inner) t = elim (Bool-cases (leb s u)) [
      | inl first ↦
          let later = now-switch_next outer (fn s a).value (fn s a).next t in
          rw (first, later) (ground arith)
      | inr second ↦
          let later = now-switch_next ((s, a) ∷ outer) b inner t in
          rw (second, later) (ground arith)
    ]

    -- At every time `switchMap` shows what the watched value shows that was made at the last change
    -- of the outer one, and nothing of those made before.
    pub at-switch_map :
        (start : ℕ) (outer : Watchable A) (t : ℕ)
        → at (switch_map fn start outer) t ≡ latest (fn start outer.value) outer.next t
    unfolding switch_map
    at-switch_map start outer t =
        now-switch_next outer.next (fn start outer.value).value (fn start outer.value).next t

-- What holds between an outer value and what each watched value that is made from it ever shows
-- holds between the outer value and what `switchMap` shows at a time.
pub latest-Shows :
    {A B : Type 0} (fn : ℕ → A → Watchable B) (Q : A → B → Type 0)
    → ((s : ℕ) (a : A) (t : ℕ) → Q a (at (fn s a) t))
    → (a : A) (inner : Watchable B) (outer : List (ℕ × A)) (t : ℕ) → Q a (at inner t)
    → Q (now a outer t) (latest fn inner outer t)
latest-Shows fn Q each a inner [] t q = q
latest-Shows fn Q each a inner ((s, b) ∷ outer) t q = elim (Bool-cases (leb s t)) [
  | inl past ↦ rw past (latest-Shows fn Q each b (fn s b) outer t (each s b t))
  | inr future ↦ rw future q
]

-- What always holds of every watched value that is made holds of all that `switchMap` shows later.
switch_next-Each :
    {A B : Type 0} (fn : ℕ → A → Watchable B) (P : B → Type 0)
    → ((s : ℕ) (a : A) → Always P (fn s a))
    → (outer : List (ℕ × A)) (inner : List (ℕ × B)) → Each P inner
    → Each P (switch_next fn outer inner)
unfolding switch_next
switch_next-Each fn P each [] inner h = h
switch_next-Each fn P each ((t, a) ∷ outer) [] h =
    let (p, q) = each t a in (p, switch_next-Each fn P each outer (fn t a).next q)
switch_next-Each fn P each ((t, a) ∷ outer) ((u, b) ∷ inner) (h, hs) = elim (Bool-cases (leb t u)) [
  | inl first ↦
      let (p, q) = each t a in rw first (p, switch_next-Each fn P each outer (fn t a).next q)
  | inr second ↦ rw second (h, switch_next-Each fn P each ((t, a) ∷ outer) inner hs)
]

pub switch_map-Each :
    {A B : Type 0} (fn : ℕ → A → Watchable B) (P : B → Type 0)
    → ((s : ℕ) (a : A) → Always P (fn s a))
    → (start : ℕ) (outer : Watchable A) → Each P (switch_map fn start outer).next
unfolding switch_map
switch_map-Each fn P each start outer =
    switch_next-Each fn P each outer.next _ (each start outer.value).1
