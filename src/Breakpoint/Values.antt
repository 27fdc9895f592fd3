-- ===== src/Breakpoint/Values.antt =====
-- `ParseRegisterValue` and `ParseAddrExpression` of Em68030/Core/ConditionEvaluator.h.
use em68030_win_ui3cpp.Common.{
  ℕ, ◌-◌, not, ◌&&◌, ◌||◌, [], ◌∷◌, Option, none, some, ◌==◌, if◌then◌else◌,
}
use mathlib.Core.Option.{map}
use em68030_win_ui3cpp.Cpu.State.{Mc68030, add32, sub32, address_register}
use em68030_win_ui3cpp.Cpu.Addressing.{data_register}
use em68030_win_ui3cpp.Breakpoint.Text.{Text, within, to_upper, skip_spaces, drop_spaces_end, trim}
use em68030_win_ui3cpp.Breakpoint.Numbers.{parse_number}

-- The first operator behind the two characters: the text before it, the operator and the text behind.
abbrev pub longer : ℕ → Option (Text × ℕ × Text) → Option (Text × ℕ × Text)
longer c none = none
longer c (some (before, op, after)) = some (c ∷ before, op, after)

unfoldable pub find_operator : ℕ → ℕ → Text → Option (Text × ℕ × Text)
find_operator second_last last [] = none
find_operator second_last last (c ∷ cs) =
    let rest = find_operator last c cs in
    if ((c == 43) || (c == 45)) && not (((last == 120) || (last == 88)) && (second_last == 48))
    then some ([], c, cs)
    else longer c rest

module _ {Mem : Type 0} where
  -- D0 to D7, A0 to A7, SR, PC and SP.
  unfoldable pub parse_register_value : Text → Mc68030 Mem → Option ℕ
  parse_register_value (n0 ∷ c1 ∷ []) s =
      let c0 = to_upper n0 in
      if (c0 == 68) && within 48 55 c1
      then some (data_register (c1 - 48) s)
      else if (c0 == 65) && within 48 55 c1
      then some (address_register (c1 - 48) s)
      else if (c0 == 83) && ((c1 == 82) || (c1 == 114))
      then some s.sr
      else if (c0 == 80) && ((c1 == 67) || (c1 == 99))
      then some s.pc
      else if ((n0 == 83) && (c1 == 80)) || ((n0 == 115) && (c1 == 112))
      then some (address_register 7 s)
      else none
  parse_register_value t s = none

  -- A number, or else a register.
  unfoldable pub parse_value : Text → Mc68030 Mem → Option ℕ
  parse_value t s = elim (parse_number t) [ some r ↦ some r.0 | none ↦ parse_register_value t s ]

  unfoldable pub parse_sum : Text → ℕ → Text → Mc68030 Mem → Option ℕ
  parse_sum left op right s = elim (parse_value (drop_spaces_end left) s) [
    | none ↦ none
    | some l ↦
        map (λ (r : ℕ). if op == 43 then add32 l r else sub32 l r)
          (parse_value (skip_spaces right) s)
  ]

  unfoldable pub parse_expression : Text → Mc68030 Mem → Option ℕ
  parse_expression [] s = none
  parse_expression (c ∷ cs) s = elim (find_operator 0 c cs) [
    | none ↦ parse_value (c ∷ cs) s
    | some (before, op, after) ↦ parse_sum (c ∷ before) op after s
  ]

  unfoldable pub parse_addr_expression : Text → Mc68030 Mem → Option ℕ
  parse_addr_expression raw s = parse_expression (trim raw) s
