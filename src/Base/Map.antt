-- ===== src/Base/Map.antt =====
-- `BTreeMap` with text keys, as an association list. The order of the keys is not modelled.
use Prim.Native.String.{String}
use mathlib.Core.Path.{◌≡◌, refl}
use mathlib.Core.Logic.{◌⊎◌}
use mathlib.Core.Bool.{Bool, true, false}
use mathlib.Core.Option.{Option, none, some}
use mathlib.Core.List.{List, [], ◌∷◌}
use native.Mathlib.Omega.{arith}
use text.Mathlib.Text.{◌==◌ as str_eq}
use text.Mathlib.TextEquality.{eq_iff}
use pictophone.Base.Tests.{if◌then◌else◌}

module _ {V : Type 0} where
  unfoldable pub lookup : String → List (String × V) → Option V
  lookup key [] = none
  lookup key ((name, here) ∷ rest) = if str_eq name key then some here else lookup key rest

  pub lookup-nil : (key : String) → lookup key [] ≡ none
  unfolding lookup
  lookup-nil key = refl

  -- The entry of the key is replaced, or a new one comes last.
  unfoldable pub insert : String → V → List (String × V) → List (String × V)
  insert key new [] = (key, new) ∷ []
  insert key new ((name, here) ∷ rest) =
      if str_eq name key then (key, new) ∷ rest else (name, here) ∷ insert key new rest

  pub lookup-insert :
      (key asked : String) (new : V) (entries : List (String × V))
      → lookup asked (insert key new entries)
        ≡ (if str_eq key asked then some new else lookup asked entries)
  unfolding lookup insert
  lookup-insert key asked new [] = refl
  lookup-insert key asked new ((name, here) ∷ rest) =
      let later = lookup-insert key asked new rest in
      ground (arith, later, eq_iff name key, eq_iff name asked, eq_iff key asked)

  -- What is found after an insertion is the new value or was there before.
  pub lookup-insert-some :
      (k j : String) (v : V) (m : List (String × V)) {w : V}
      → lookup j (insert k v m) ≡ some w
      → (w ≡ v) ⊎ (lookup j m ≡ some w)
  lookup-insert-some k j v m h = ground (arith, lookup-insert k j v m)

-- `BTreeMap::contains_key`
abbrev pub contains_key : {V : Type 0} → String → List (String × V) → Bool
contains_key k m = elim (lookup k m) [ none ↦ false | some _ ↦ true ]

-- `unwrap_or_default` and `or_default`
abbrev pub or_default : {A : Type 0} → A → Option A → A
or_default d none = d
or_default d (some a) = a

-- `Option::or`
abbrev pub or_old : {A : Type 0} → Option A → Option A → Option A
or_old none old = old
or_old (some new) old = some new
