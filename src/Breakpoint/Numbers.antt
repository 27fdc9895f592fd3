-- ===== src/Breakpoint/Numbers.antt =====
-- `ParseNumber` of Em68030/Core/ConditionEvaluator.h, with `strtoull` as the C standard has it.
use em68030_win_ui3cpp.Common.{
  ℕ, ◌+◌, ◌-◌, ◌*◌, ◌%◌, ◌^◌, Bool, true, false, ◌&&◌, ◌||◌, [], ◌∷◌, Option, none, some, ltb, leb,
  ◌==◌, if◌then◌else◌,
}
use em68030_win_ui3cpp.Breakpoint.Text.{Text, within}

-- The value of a digit or letter; 36 for what is neither.
abbrev pub digit : ℕ → ℕ
digit c =
    if within 48 57 c
    then c - 48
    else if within 65 90 c
    then c - 55
    else if within 97 122 c
    then c - 87
    else 36

unfoldable pub skip_white : Text → Text
skip_white [] = []
skip_white (c ∷ cs) =
    let rest = skip_white cs in if (c == 32) || within 9 13 c then rest else c ∷ cs

unfoldable pub digits : ℕ → ℕ → Text → ℕ × Text
digits base acc [] = (acc, [])
digits base acc (c ∷ cs) =
    let rest = digits base (acc * base + digit c) cs in
    if ltb (digit c) base then rest else (acc, c ∷ cs)

-- The number at the front, where there is a digit.
unfoldable pub some_digits : ℕ → Text → Option (ℕ × Text)
some_digits base [] = none
some_digits base (c ∷ cs) = if ltb (digit c) base then some (digits base 0 (c ∷ cs)) else none

-- In base 16, "0x" before a digit is skipped.
unfoldable pub skip_prefix : ℕ → Text → Text
skip_prefix base (c ∷ x ∷ d ∷ cs) =
    if (base == 16) && (c == 48) && ((x == 120) || (x == 88)) && ltb (digit d) 16
    then d ∷ cs
    else c ∷ x ∷ d ∷ cs
skip_prefix base t = t

-- The range of `unsigned long long`; a minus sign negates in it.
abbrev pub limited : Bool → ℕ → ℕ
limited negative v =
    if leb (2 ^ 64) v then 2 ^ 64 - 1 else if negative then (2 ^ 64 - v) % 2 ^ 64 else v

unfoldable pub signed : Text → Bool × Text
signed [] = (false, [])
signed (c ∷ cs) = if c == 45 then (true, cs) else if c == 43 then (false, cs) else (false, c ∷ cs)

unfoldable pub strtoull : ℕ → Text → Option (ℕ × Text)
strtoull base t =
    let sign = signed (skip_white t) in
    elim (some_digits base (skip_prefix base sign.1)) [
      | none ↦ none
      | some r ↦ some (limited sign.0 r.0, r.1)
    ]

unfoldable pub number_base : Text → ℕ × Text
number_base [] = (10, [])
number_base (c ∷ []) = if c == 36 then (16, []) else (10, c ∷ [])
number_base (c ∷ d ∷ cs) =
    if (c == 48) && ((d == 120) || (d == 88))
    then (16, cs)
    else if c == 36
    then (16, d ∷ cs)
    else (10, c ∷ d ∷ cs)

-- The value and where it ends.
unfoldable pub parse_number : Text → Option (ℕ × Text)
parse_number t =
    let start = number_base t in
    elim (strtoull start.0 start.1) [ none ↦ none | some r ↦ some (r.0 % 2 ^ 32, r.1) ]
