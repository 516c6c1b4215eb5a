-- ===== src/Fe/Navigation.antt =====
-- fe/src/navigation.ts: the locations of the client and their paths.
pub mod Paths
use Prim.Native.String.{◌++◌ as ◌<>◌}
use Prim.Native.Char.{Char, code}
use pictophone.Base.{
  ℕ, String, str_eq, Bool, false, ◌&&◌, Option, none, some, List, [], ◌∷◌, ◌==◌, if◌then◌else◌,
  length, get_elem?,
}

pub data Location : Type 0 where
  home : Location
  game : String → Location
  unknown : Location

-- `c` in front of the first text.
abbrev pub onto_first : Char → List String → List String
onto_first c [] = []
onto_first c (s ∷ ss) = (String.◌∷◌ c s) ∷ ss

-- `pathname.split('/')`
pub split : String → List String
split String.[] = "" ∷ []
split (String.◌∷◌ c s) = if code c == b'/' then "" ∷ split s else onto_first c (split s)

-- `segments[i] === s`, which is false where there is no such segment.
abbrev pub segment_is : List String → ℕ → String → Bool
segment_is segments i s = elim (get_elem? segments i) [ none ↦ false | some t ↦ str_eq t s ]

-- `segments[i]`, where there is one.
abbrev pub segment : List String → ℕ → String
segment segments i = elim (get_elem? segments i) [ none ↦ "" | some t ↦ t ]

pub parse_location : String → Location
unfolding split
parse_location pathname =
    let segments = split pathname in
    if length segments == 2 && segment_is segments 1 ""
    then home
    else if length segments == 3 && segment_is segments 1 "games"
    then game (segment segments 2)
    else unknown

pub serialize_location : Location → String
serialize_location home = "/"
serialize_location (game game_id) = "/games/" <> game_id
serialize_location unknown = "/404"
