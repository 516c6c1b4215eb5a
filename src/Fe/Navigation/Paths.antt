-- ===== src/Fe/Navigation/Paths.antt =====
-- Which locations of fe/src/navigation.ts come back from their paths.
use Prim.Native.String.{◌++◌ as ◌<>◌}
use Prim.Native.String.append
use Prim.Native.Char.{Char, code}
use pictophone.Base.{
  ◌≤◌, ◌≡◌, refl, ◌∙◌, String, Bool, true, false, ◌||◌, List, [], ◌∷◌, ◌==◌, if◌then◌else◌, length,
  arith, Bool-cases, inl, inr,
}
use pictophone.Fe.Navigation.{
  Location, home, game, unknown, onto_first, split, parse_location, serialize_location,
}

abbrev pub has_slash : String → Bool
has_slash String.[] = false
has_slash (String.◌∷◌ c s) = code c == b'/' || has_slash s

split_no_slash : (s : String) → has_slash s ≡ false → split s ≡ s ∷ []
unfolding split
split_no_slash String.[] h = refl
split_no_slash (String.◌∷◌ c s) h = ground (arith, split_no_slash s)

length-onto_first : (c : Char) (ss : List String) → length (onto_first c ss) ≡ length ss
length-onto_first c [] = refl
length-onto_first c (s ∷ ss) = refl

length-split : (s : String) → 1 ≤ length (split s)
unfolding split
length-split String.[] = omega arith
length-split (String.◌∷◌ c s) = ground (arith, length-split s, length-onto_first c (split s))

split_slash : (s : String) → has_slash s ≡ true → 2 ≤ length (split s)
unfolding split
split_slash String.[] h = cc
split_slash (String.◌∷◌ c s) h =
    ground (arith, length-split s, split_slash s, length-onto_first c (split s))

split_games : (id : String) → split ("/games/" <> id) ≡ "" ∷ "games" ∷ split id
unfolding split
split_games id = rw (
  append.cons, append.cons, append.cons, append.cons, append.cons, append.cons, append.cons,
  append.nil,
)

-- The path of a game leads back to that game exactly where its id has no slash; with a slash it
-- leads to the page for unknown locations.
pub parse-serialize_game :
    (id : String)
    → parse_location (serialize_location (game id)) ≡ (if has_slash id then unknown else game id)
unfolding parse_location serialize_location
parse-serialize_game id = rw (split_games id) (elim (Bool-cases (has_slash id)) [
  | inl slash ↦ rw slash (ground (arith, split_slash id))
  | inr plain ↦ rw (plain, split_no_slash id plain) refl
])

-- A location whose path leads back to it.
abbrev pub IsLinkable : Location → Type 0
IsLinkable home = Unit {0}
IsLinkable (game id) = has_slash id ≡ false
IsLinkable unknown = Unit {0}

-- Every location but a game whose id has a slash comes back from its path.
pub parse-serialize_location :
    (l : Location) → IsLinkable l → parse_location (serialize_location l) ≡ l
unfolding parse_location serialize_location
parse-serialize_location home h = refl
parse-serialize_location (game id) h = parse-serialize_game id ∙ rw h
parse-serialize_location unknown h = refl
