-- ===== src/Pb/Runtime/Steps/Groups.antt =====
-- A message that is built field by field: what the loop makes of the fields that the tests write,
-- and what stands in a group of which at most one field is set.
use mathlib.Core.Option
use pictophone.Base.{
  ℕ, ◌≡◌, refl, ◌∙◌, ap, true, false, List, [], ◌∷◌, Option, none, some, arith, if◌then◌else◌, ◌==◌,
  Bool-cases, inl, inr,
}
use pictophone.Pb.Runtime.{Jspb, IsLawful, Field, unset, object, object_of, in_group}

-- A value is stored only if there is one.
abbrev pub if_some : {M A : Type 0} → (M → A → M) → M → Option A → M
if_some set m none = m
if_some set m (some v) = set m v

abbrev pub Slots : Type 0 → Type 0
Slots M = List (ℕ × Option M)

-- No field of the list has a value.
abbrev pub AllNone : {M : Type 0} → Slots M → Type 0
AllNone [] = Unit {0}
AllNone ((n, none) ∷ l) = AllNone l
AllNone ((n, some v) ∷ l) = ⊥

-- At most one field of the list has a value.
abbrev pub AtMostOne : {M : Type 0} → Slots M → Type 0
AtMostOne [] = Unit {0}
AtMostOne ((n, none) ∷ l) = AtMostOne l
AtMostOne ((n, some v) ∷ l) = AllNone l

abbrev pub numbers : {M : Type 0} → Slots M → List ℕ
numbers [] = []
numbers ((n, o) ∷ l) = n ∷ numbers l

-- No field number stands twice.
abbrev pub AreDistinct : List ℕ → Type 0
AreDistinct [] = Unit {0}
AreDistinct (n ∷ l) = (in_group n l ≡ false) × AreDistinct l

abbrev pub value_at : {M : Type 0} → ℕ → Slots M → Option M
value_at k [] = none
value_at k ((n, o) ∷ l) = if n == k then o else value_at k l

-- The values, each turned into another by its field's function.
abbrev pub map_slots : {M : Type 0} → (ℕ → M → M) → Slots M → Slots M
map_slots f [] = []
map_slots f ((n, o) ∷ l) = (n, Option.map (f n) o) ∷ map_slots f l

AllNone-map_slots : {M : Type 0} (f : ℕ → M → M) (l : Slots M) → AllNone l → AllNone (map_slots f l)
AllNone-map_slots f [] h = tt
AllNone-map_slots f ((n, none) ∷ l) h = AllNone-map_slots f l h
AllNone-map_slots f ((n, some v) ∷ l) h = absurd h

pub AtMostOne-map_slots :
    {M : Type 0} (f : ℕ → M → M) (l : Slots M) → AtMostOne l → AtMostOne (map_slots f l)
AtMostOne-map_slots f [] h = tt
AtMostOne-map_slots f ((n, none) ∷ l) h = AtMostOne-map_slots f l h
AtMostOne-map_slots f ((n, some v) ∷ l) h = AllNone-map_slots f l h

-- An observation that each restored value shares with its original.
pub map-map_restored :
    {M A : Type 0} (f : M → A) (g : M → M) (o : Option M)
    → ((x : M) → o ≡ some x → f (g x) ≡ f x)
    → Option.map f (Option.map g o) ≡ Option.map f o
map-map_restored f g none h = refl
map-map_restored f g (some x) h = ap some (h x refl)

value_at-AllNone : {M : Type 0} (k : ℕ) (l : Slots M) → AllNone l → value_at k l ≡ none
value_at-AllNone k [] h = refl
value_at-AllNone k ((n, none) ∷ l) h = ground (arith, value_at-AllNone k l h)
value_at-AllNone k ((n, some v) ∷ l) h = absurd h

value_at_absent :
    {M : Type 0} (k : ℕ) (l : Slots M) → in_group k (numbers l) ≡ false → value_at k l ≡ none
value_at_absent k [] h = refl
value_at_absent k ((n, o) ∷ l) h = ground (arith, value_at_absent k l)

abbrev pub or_field : {M : Type 0} → Option M → Field M → Field M
or_field none old = old
or_field (some v) old = object v

pub object_of-or_field : (M : Type 0) (o : Option M) → object_of (or_field o unset) ≡ o
object_of-or_field M none = refl
object_of-or_field M (some v) = refl

module _ (J : Jspb) where
  -- A nested message is set only if it was read.
  abbrev pub set_slot : J.Message → ℕ → List ℕ → Option J.Message → J.Message
  set_slot m n g o = if_some (λ m' v. J.set_oneof_wrapper_field m' n g (some v)) m o

  abbrev pub set_slots : J.Message → List ℕ → Slots J.Message → J.Message
  set_slots m g [] = m
  set_slots m g ((n, o) ∷ l) = set_slots (set_slot m n g o) g l

  -- A nested message outside any group.
  abbrev pub set_object : J.Message → ℕ → Option J.Message → J.Message
  set_object m n o = if_some (λ m' v. J.set_wrapper_field m' n (some v)) m o

module _ (J : Jspb) (L : IsLawful J) where
  get_field-set_slots_none :
      (m : J.Message) (g : List ℕ) (l : Slots J.Message) (k : ℕ)
      → AllNone l
      → J.get_field (set_slots J m g l) k ≡ J.get_field m k
  get_field-set_slots_none m g [] k h = refl
  get_field-set_slots_none m g ((n, none) ∷ l) k h = get_field-set_slots_none m g l k h
  get_field-set_slots_none m g ((n, some v) ∷ l) k h = absurd h

  pub get_field-set_object :
      (m : J.Message) (n : ℕ) (o : Option J.Message) (k : ℕ)
      → J.get_field (set_object J m n o) k
        ≡ (if n == k then or_field o (J.get_field m k) else J.get_field m k)
  get_field-set_object m n none k = ground arith
  get_field-set_object m n (some v) k = L.get_field-set_wrapper_field m n (some v) k

  -- A field outside the group is not touched.
  pub get_field-set_slots_outside :
      (m : J.Message) (g : List ℕ) (l : Slots J.Message) (k : ℕ)
      → in_group k g ≡ false
      → in_group k (numbers l) ≡ false
      → J.get_field (set_slots J m g l) k ≡ J.get_field m k
  get_field-set_slots_outside m g [] k out h = refl
  get_field-set_slots_outside m g ((n, none) ∷ l) k out h =
      get_field-set_slots_outside m g l k out (ground arith)
  get_field-set_slots_outside m g ((n, some v) ∷ l) k out h =
      get_field-set_slots_outside (J.set_oneof_wrapper_field m n g (some v)) g l k out
        (ground arith)
      ∙ ground (arith, L.get_field-set_oneof_wrapper_field m n g v k)

  -- Of a group with at most one value every field holds what it was given.
  pub get_field-set_slots :
      (m : J.Message) (g : List ℕ) (l : Slots J.Message) (k : ℕ)
      → in_group k g ≡ true
      → J.get_field m k ≡ unset
      → AreDistinct (numbers l)
      → AtMostOne l
      → object_of (J.get_field (set_slots J m g l) k) ≡ value_at k l
  get_field-set_slots m g [] k ing clear d h = ap object_of clear
  get_field-set_slots m g ((n, none) ∷ l) k ing clear d h = elim (Bool-cases (n == k)) [
    | inl here ↦ get_field-set_slots m g l k ing clear d.1 h ∙ ground (arith, value_at_absent k l)
    | inr there ↦ rw there (get_field-set_slots m g l k ing clear d.1 h)
  ]
  get_field-set_slots m g ((n, some v) ∷ l) k ing clear d h =
      ap object_of (
        get_field-set_slots_none (J.set_oneof_wrapper_field m n g (some v)) g l k h
        ∙ L.get_field-set_oneof_wrapper_field m n g v k)
      ∙ ground (arith, value_at-AllNone k l h)
