-- ===== src/Breakpoint/Evaluate.antt =====
-- `EvaluateCondition` and `EvaluateLeaf` of Em68030/Core/ConditionEvaluator.h. `none` is a recursion out of
-- fuel.
use em68030_win_ui3cpp.Common.{
  ℕ, zero, suc, ◌+◌, Bool, true, false, not, ◌&&◌, List, [], ◌∷◌, Option, none, some, ◌==◌,
  if◌then◌else◌,
}
use em68030_win_ui3cpp.Cpu.State.{Mc68030}
use em68030_win_ui3cpp.Cpu.Access.{Board}
use em68030_win_ui3cpp.Breakpoint.Text.{Text, is_empty, trim, split_outside_nesting}
use em68030_win_ui3cpp.Breakpoint.Single.{Outcome, outcome, evaluate_single_condition}

-- The parentheses close at the end and not before.
unfoldable pub is_matched : ℕ → ℕ → Text → Bool
is_matched up down [] = true
is_matched up down (c ∷ cs) =
    let up_after = (if c == 40 then up + 1 else up) in
    let down_after = (if c == 41 then down + 1 else down) in
    let rest = is_matched up_after down_after cs in
    if (up_after == down_after) && not (is_empty cs) then false else rest

abbrev pub ends_with : ℕ → Text → Bool
ends_with mark [] = false
ends_with mark (c ∷ []) = c == mark
ends_with mark (c ∷ d ∷ cs) = ends_with mark (d ∷ cs)

abbrev pub drop_last : Text → Text
drop_last [] = []
drop_last (c ∷ []) = []
drop_last (c ∷ d ∷ cs) = c ∷ drop_last (d ∷ cs)

-- What stands between outer parentheses.
unfoldable pub grouped : Text → Option Text
grouped [] = none
grouped (c ∷ cs) =
    if (c == 40) && ends_with 41 cs && is_matched 0 0 (c ∷ cs) then some (drop_last cs) else none

abbrev pub Result : Type 0 → Type 0
Result Mem = Outcome (Option Bool) (Mc68030 Mem)

abbrev pub Evaluator : Type 0 → Type 0
Evaluator Mem = Text → Mc68030 Mem → Result Mem

module _ {Mem : Type 0} where
  abbrev pub or_next : Result Mem → (Mc68030 Mem → Result Mem) → Result Mem
  or_next r next = elim (r.value) [ some true ↦ r | some false ↦ next r.after | none ↦ r ]

  abbrev pub and_next : Result Mem → (Mc68030 Mem → Result Mem) → Result Mem
  and_next r next = elim (r.value) [ some true ↦ next r.after | some false ↦ r | none ↦ r ]

  -- The loop over the clauses of one `&&`.
  unfoldable pub all_hold : Evaluator Mem → List Text → Mc68030 Mem → Result Mem
  all_hold leaf [] s = outcome (some true) s
  all_hold leaf (t ∷ ts) s = and_next (leaf t s) (all_hold leaf ts)

  -- The loop over the clauses of one `||`.
  unfoldable pub any_holds : Evaluator Mem → List Text → Mc68030 Mem → Result Mem
  any_holds leaf [] s = outcome (some false) s
  any_holds leaf (t ∷ ts) s =
      or_next (all_hold leaf (split_outside_nesting t 38 38) s) (any_holds leaf ts)

module _ {Mem : Type 0} (board : Board Mem) where
  unfoldable pub evaluate_clause : Evaluator Mem → Text → Mc68030 Mem → Result Mem
  evaluate_clause condition t s = elim (grouped t) [
    | some inside ↦ condition inside s
    | none ↦ evaluate_single_condition board t s
  ]

  unfoldable pub evaluate_leaf : Evaluator Mem → Text → Mc68030 Mem → Result Mem
  evaluate_leaf condition raw s =
      if is_empty (trim raw) then outcome (some true) s else evaluate_clause condition (trim raw) s

  unfoldable pub evaluate_condition : ℕ → Text → Mc68030 Mem → Result Mem
  evaluate_condition zero t s = outcome none s
  evaluate_condition (suc n) t s =
      if is_empty t
      then outcome (some true) s
      else any_holds (evaluate_leaf (evaluate_condition n)) (split_outside_nesting t 124 124) s
