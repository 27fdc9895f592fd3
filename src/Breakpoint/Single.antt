-- ===== src/Breakpoint/Single.antt =====
-- `EvaluateSingleCondition` of Em68030/Core/ConditionEvaluator.h. `none` is a loop out of fuel.
use em68030_win_ui3cpp.Common.{
  ℕ, suc, zero, Bool, true, false, not, ◌&&◌, ◌||◌, [], ◌∷◌, Option, none, some, bit_and, ltb, leb,
  length, ◌==◌, if◌then◌else◌,
}
use em68030_win_ui3cpp.Common.Size.{Size, byte, word, long}
use em68030_win_ui3cpp.Cpu.State.{Mc68030}
use em68030_win_ui3cpp.Cpu.Access.{Board, translate_read, memory_read}
use em68030_win_ui3cpp.Breakpoint.Text.{Text, to_lower, skip_spaces, find, token}
use em68030_win_ui3cpp.Breakpoint.Numbers.{parse_number}
use em68030_win_ui3cpp.Breakpoint.Values.{parse_register_value, parse_addr_expression}

pub record Outcome (A S : Type 0) : Type 0 where
  pub value : A
  pub after : S

abbrev pub outcome : {A S : Type 0} → A → S → Outcome A S
outcome v s = record { value = v; after = s }

pub data Comparison : Type 0 where
  eq ne lt gt le ge : Comparison

abbrev pub compare_by : Comparison → ℕ → ℕ → Bool
compare_by eq a b = a == b
compare_by ne a b = not (a == b)
compare_by lt a b = ltb a b
compare_by gt a b = ltb b a
compare_by le a b = leb a b
compare_by ge a b = leb b a

-- "==" and "!=".
unfoldable pub equality : Text → Option (Comparison × Text)
equality (c ∷ d ∷ cs) =
    if (c == 61) && (d == 61)
    then some (eq, cs)
    else if (c == 33) && (d == 61)
    then some (ne, cs)
    else none
equality t = none

-- "<=", ">=", "<" and ">".
unfoldable pub order : Text → Option (Comparison × Text)
order [] = none
order (c ∷ []) = if c == 60 then some (lt, []) else if c == 62 then some (gt, []) else none
order (c ∷ d ∷ cs) =
    if (c == 60) && (d == 61)
    then some (le, cs)
    else if (c == 62) && (d == 61)
    then some (ge, cs)
    else if c == 60
    then some (lt, d ∷ cs)
    else if c == 62
    then some (gt, d ∷ cs)
    else none

unfoldable pub operator : Text → Option (Comparison × Text)
operator t = elim (equality t) [ some r ↦ some r | none ↦ order t ]

-- What follows "IN".
abbrev pub ends_word : Text → Bool
ends_word [] = true
ends_word (c ∷ cs) = (c == 32) || (c == 123)

unfoldable pub membership : Text → Option Text
membership (c ∷ d ∷ cs) =
    if ((c == 73) || (c == 105)) && ((d == 78) || (d == 110)) && ends_word cs then some cs else none
membership t = none

-- A set's text, between braces.
unfoldable pub set_text : Text → Option Text
set_text [] = none
set_text (c ∷ cs) =
    if c == 123 then elim (find 125 cs) [ some r ↦ some r.0 | none ↦ none ] else none

unfoldable pub skip_separators : Text → Text
skip_separators [] = []
skip_separators (c ∷ cs) =
    let rest = skip_separators cs in if (c == 32) || (c == 44) then rest else c ∷ cs

-- The size behind a bracket, and what follows.
unfoldable pub size_of : Text → Size × Text
size_of (c ∷ d ∷ cs) =
    if c == 46
    then (if to_lower d == 98 then byte else if to_lower d == 108 then long else word, cs)
    else (word, c ∷ d ∷ cs)
size_of t = (word, t)

module _ {Mem : Type 0} where
  -- A register, or else a number; and where it ends.
  unfoldable pub next_value : Text → Mc68030 Mem → Option (ℕ × Text)
  next_value t s =
      let word_at = token t in
      elim (parse_register_value word_at.0 s) [
        | some v ↦ some (v, word_at.1)
        | none ↦ parse_number t
      ]

  unfoldable pub in_set : ℕ → ℕ → Text → Mc68030 Mem → Option Bool
  in_set zero lhs t s = none
  in_set (suc n) lhs t s = elim (skip_separators t) [
    | [] ↦ some false
    | c ∷ cs ↦ elim (next_value (c ∷ cs) s) [
      | none ↦ some true
      | some (v, rest) ↦ let found = in_set n lhs rest s in if lhs == v then some true else found
    ]
  ]

  unfoldable pub compare_with : Comparison → ℕ → Text → Mc68030 Mem → Bool
  compare_with by lhs t s = elim (next_value (skip_spaces t) s) [
    | none ↦ true
    | some r ↦ compare_by by lhs r.0
  ]

  -- Behind the mask of `&`.
  unfoldable pub test_masked : ℕ → Text → Mc68030 Mem → Bool
  test_masked lhs t s = elim (equality (skip_spaces t)) [
    | none ↦ not (lhs == 0)
    | some r ↦ compare_with r.0 lhs r.1 s
  ]

  unfoldable pub test_mask : ℕ → Text → Mc68030 Mem → Bool
  test_mask lhs t s = elim (parse_number (skip_spaces t)) [
    | none ↦ true
    | some r ↦ test_masked (bit_and lhs r.0) r.1 s
  ]

  unfoldable pub test_set : ℕ → Text → Mc68030 Mem → Option Bool
  test_set lhs t s = elim (set_text (skip_spaces t)) [
    | none ↦ some true
    | some members ↦ in_set (suc (length members)) lhs members s
  ]

  unfoldable pub test_other : ℕ → Text → Mc68030 Mem → Option Bool
  test_other lhs t s = elim (membership t) [ some rest ↦ test_set lhs rest s | none ↦ some true ]

  -- What follows the left side.
  unfoldable pub test_lhs : ℕ → Text → Mc68030 Mem → Option Bool
  test_lhs lhs [] s = some (not (lhs == 0))
  test_lhs lhs (c ∷ cs) s = elim (operator (c ∷ cs)) [
    | some r ↦ some (compare_with r.0 lhs r.1 s)
    | none ↦ if c == 38 then some (test_mask lhs cs s) else test_other lhs (c ∷ cs) s
  ]

  abbrev pub decide_lhs : Option (ℕ × Text) → Mc68030 Mem → Option Bool
  decide_lhs none s = some true
  decide_lhs (some (lhs, rest)) s = test_lhs lhs (skip_spaces rest) s

module _ {Mem : Type 0} (board : Board Mem) where
  -- A value in memory, at the physical address.
  unfoldable pub read_lhs :
      Size → ℕ → Text → Mc68030 Mem → Outcome (Option (ℕ × Text)) (Mc68030 Mem)
  read_lhs z addr rest s =
      let pa = translate_read board addr false s in
      let v = memory_read board z pa.value pa.after in outcome (some (v.value, rest)) v.after

  unfoldable pub bracketed : Text → Mc68030 Mem → Outcome (Option (ℕ × Text)) (Mc68030 Mem)
  bracketed t s = elim (find 93 t) [
    | none ↦ outcome none s
    | some (inside, behind) ↦ elim (parse_addr_expression inside s) [
      | none ↦ outcome none s
      | some addr ↦ let z = size_of behind in read_lhs z.0 addr z.1 s
    ]
  ]

  -- The left side; `none` ends the evaluation with true.
  unfoldable pub parse_lhs : ℕ → Text → Mc68030 Mem → Outcome (Option (ℕ × Text)) (Mc68030 Mem)
  parse_lhs c cs s = if c == 91 then bracketed cs s else outcome (next_value (c ∷ cs) s) s

  unfoldable pub evaluate_trimmed : Text → Mc68030 Mem → Outcome (Option Bool) (Mc68030 Mem)
  evaluate_trimmed [] s = outcome (some true) s
  evaluate_trimmed (c ∷ cs) s =
      let lhs = parse_lhs c cs s in outcome (decide_lhs lhs.value lhs.after) lhs.after

  unfoldable pub evaluate_single_condition :
      Text → Mc68030 Mem → Outcome (Option Bool) (Mc68030 Mem)
  evaluate_single_condition t s = evaluate_trimmed (skip_spaces t) s
