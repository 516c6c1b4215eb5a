-- ===== src/Server/Datastore/Local/Offsets.antt =====
-- The lengths that a watcher of the vector of be/server/src/util/aovec.rs is told.
use pictophone.Base.{
  ℕ, zero, suc, ◌+◌, max, List, [], ◌∷◌, ◌++◌, map, length, drop, ◌≡◌, refl, sym, ap, ◌∙◌, arith,
  length-append, drop-append, take_all,
}
use mathlib.Core.List.{append-nil, append_assoc}
use pictophone.Base.Result.{Result, ok, values, values-map_ok}
use pictophone.Server.{ServerError}
use pictophone.Server.Datastore.{count_from, range, fill_in_gaps}
use pictophone.Server.Datastore.Watch.{highest, values-fill_in_gaps}
use pictophone.Server.Datastore.Local.{AoVec, push, take_first, watch, push_action}

module _ {A : Type 0} where
  abbrev pub push_all : List A → AoVec A → AoVec A
  push_all [] this = this
  push_all (t ∷ ts) this = push_all ts (push t this).1

  vec-push_all : (ts : List A) (this : AoVec A) → (push_all ts this).vec ≡ this.vec ++ ts
  unfolding push
  vec-push_all [] this = sym (append-nil this.vec)
  vec-push_all (t ∷ ts) this = vec-push_all ts (push t this).1 ∙ append_assoc this.vec (t ∷ []) ts

  sent-push_all :
      (ts : List A) (this : AoVec A)
      → (push_all ts this).sent ≡ this.sent ++ count_from (suc (length this.vec)) (length ts)
  unfolding push
  sent-push_all [] this = sym (append-nil this.sent)
  sent-push_all (t ∷ ts) this =
      let grown : length (this.vec ++ (t ∷ [])) ≡ suc (length this.vec) =
        omega (arith, length-append this.vec (t ∷ [])) in
      sent-push_all ts (push t this).1
      ∙ append_assoc this.sent (length (this.vec ++ (t ∷ [])) ∷ []) _
      ∙ rw grown refl

  push_all_twice :
      (before after : List A) (this : AoVec A)
      → push_all after (push_all before this) ≡ push_all (before ++ after) this
  push_all_twice [] after this = refl
  push_all_twice (t ∷ before) after this = push_all_twice before after (push t this).1

highest-count_from : (n k : ℕ) → max n (highest (count_from (suc n) k)) ≡ n + k
highest-count_from n zero = ground arith
highest-count_from n (suc k) = ground (arith, highest-count_from (suc n) k)

-- What the watcher is told last is the largest.
highest_told :
    (n a b m : ℕ) → m ≡ n + a → max m (highest (count_from (suc n) (a + b))) ≡ n + (a + b)
highest_told n a b m e = ground (arith, e, highest-count_from n (a + b))

module _ {A : Type 0} where
  -- What has been sent since a subscription to `this`.
  abbrev pub since : AoVec A → AoVec A → List (Result ServerError ℕ)
  since this now = map ok (drop (length this.sent) now.sent)

  since-push_all :
      (this : AoVec A) (before after : List A)
      → values (since this (push_all after (push_all before this)))
        ≡ count_from (suc (length this.vec)) (length before + length after)
  since-push_all this before after =
      values-map_ok ServerError _
      ∙ ap (λ v. drop (length this.sent) v.sent) (push_all_twice before after this)
      ∙ ap (drop (length this.sent)) (sent-push_all (before ++ after) this)
      ∙ drop-append this.sent _
      ∙ ap (count_from (suc (length this.vec))) (length-append before after)

  length-push_all :
      (ts : List A) (this : AoVec A) → length (push_all ts this).vec ≡ length this.vec + length ts
  length-push_all ts this = ap length (vec-push_all ts this) ∙ length-append this.vec ts

  -- A watcher subscribes, elements are pushed before it reads the length, more are pushed after it,
  -- and it receives all that was sent since the subscription: with the gaps filled in it is told
  -- every index below the last length once and in order, though what it hears repeats lengths and
  -- falls back.
  pub fill_in_gaps-watch :
      (this : AoVec A) (before after : List A)
      → values (
          fill_in_gaps {E = ServerError} (
            map ok
              (watch (push_all before this) (since this (push_all after (push_all before this))))))
        ≡ range 0 (length (push_all after (push_all before this)).vec)
  unfolding watch
  fill_in_gaps-watch this before after =
      let n = length this.vec in
      values-fill_in_gaps _
      ∙ ap (range 0) (
          ap highest
            {y = length (push_all before this).vec
              ∷ values (since this (push_all after (push_all before this)))}
            (values-map_ok ServerError _)
          ∙ ap (λ l. max (length (push_all before this).vec) (highest l))
              (since-push_all this before after)
          ∙ highest_told n (length before) (length after) _ (length-push_all before this)
          ∙ omega
              (arith, length-push_all after (push_all before this), length-push_all before this))

  -- The local datastore appends what is pushed to it and returns how many actions it then holds.
  pub push_action-appends :
      (action : A) (actions : AoVec A)
      → ((push_action action actions).0 ≡ ok (length actions.vec + 1))
        × ((push_action action actions).1.vec ≡ actions.vec ++ (action ∷ []))
        × (take_first (length actions.vec + 1) (push_action action actions).1
            ≡ actions.vec ++ (action ∷ []))
  unfolding push_action push take_first
  push_action-appends action actions =
      let grown = length-append actions.vec (action ∷ []) in
      (ap ok grown, refl, rw (sym grown) (take_all (actions.vec ++ (action ∷ []))))
