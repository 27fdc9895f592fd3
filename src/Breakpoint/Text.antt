-- ===== src/Breakpoint/Text.antt =====
-- Strings as lists of character codes, with what Em68030/Core/ConditionEvaluator.h does to them. A position
-- in a string is the rest of the string from there.
use em68030_win_ui3cpp.Common.{
  ℕ, ◌+◌, ◌-◌, Bool, true, false, ◌&&◌, ◌||◌, List, [], ◌∷◌, Option, none, some, leb, ◌==◌,
  if◌then◌else◌,
}

abbrev pub Text : Type 0
Text = List ℕ

abbrev pub within : ℕ → ℕ → ℕ → Bool
within lo hi c = leb lo c && leb c hi

abbrev pub is_empty : Text → Bool
is_empty [] = true
is_empty (c ∷ cs) = false

-- 'a' to 'z' and 'A' to 'Z'.
abbrev pub to_upper : ℕ → ℕ
to_upper c = if within 97 122 c then c - 32 else c

abbrev pub to_lower : ℕ → ℕ
to_lower c = if within 65 90 c then c + 32 else c

abbrev pub is_alnum : ℕ → Bool
is_alnum c = within 48 57 c || within 65 90 c || within 97 122 c

unfoldable pub skip_spaces : Text → Text
skip_spaces [] = []
skip_spaces (c ∷ cs) = let rest = skip_spaces cs in if c == 32 then rest else c ∷ cs

abbrev pub before_spaces : ℕ → Text → Text
before_spaces c [] = if c == 32 then [] else c ∷ []
before_spaces c (d ∷ ds) = c ∷ d ∷ ds

unfoldable pub drop_spaces_end : Text → Text
drop_spaces_end [] = []
drop_spaces_end (c ∷ cs) = before_spaces c (drop_spaces_end cs)

abbrev pub trim : Text → Text
trim t = drop_spaces_end (skip_spaces t)

abbrev pub prepend : ℕ → Option (Text × Text) → Option (Text × Text)
prepend c none = none
prepend c (some (before, after)) = some (c ∷ before, after)

-- `find`: the text before the first such character and the text behind it.
unfoldable pub find : ℕ → Text → Option (Text × Text)
find mark [] = none
find mark (c ∷ cs) = let rest = find mark cs in if c == mark then some ([], cs) else prepend c rest

-- The letters and digits at the front, and the rest.
unfoldable pub token : Text → Text × Text
token [] = ([], [])
token (c ∷ cs) = let t = token cs in if is_alnum c then (c ∷ t.0, t.1) else ([], c ∷ cs)

-- `[`, `{` and `(`, and what closes them.
abbrev pub opens : ℕ → Bool
opens c = (c == 91) || (c == 123) || (c == 40)

abbrev pub closes : ℕ → Bool
closes c = (c == 93) || (c == 125) || (c == 41)

abbrev pub in_part : ℕ → Text × List Text → Text × List Text
in_part c (part, parts) = (c ∷ part, parts)

-- The part from here on and the parts behind it. `depth` is `up - down`, so that it may be negative.
unfoldable pub split_from : ℕ → ℕ → ℕ → ℕ → Text → Text × List Text
split_from d0 d1 up down [] = ([], [])
split_from d0 d1 up down (c ∷ []) = (c ∷ [], [])
split_from d0 d1 up down (c ∷ d ∷ cs) =
    let deeper = split_from d0 d1 (up + 1) down (d ∷ cs) in
    let shallower = split_from d0 d1 up (down + 1) (d ∷ cs) in
    let behind = split_from d0 d1 up down cs in
    let on = split_from d0 d1 up down (d ∷ cs) in
    if opens c
    then in_part c deeper
    else if closes c
    then in_part c shallower
    else if (up == down) && (c == d0) && (d == d1)
    then ([], behind.0 ∷ behind.1)
    else in_part c on

unfoldable pub split_outside_nesting : Text → ℕ → ℕ → List Text
split_outside_nesting t d0 d1 = let r = split_from d0 d1 0 0 t in r.0 ∷ r.1
