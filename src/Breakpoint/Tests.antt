-- ===== src/Breakpoint/Tests.antt =====
-- Conditions at concrete inputs.
use em68030_win_ui3cpp.Common.{◌≡◌, arith, true, [], ◌∷◌}
use em68030_win_ui3cpp.Cpu.Keeping.{Keeps}
use em68030_win_ui3cpp.Cpu.Samples.{board, user_state}
use em68030_win_ui3cpp.Breakpoint.Text.{Text, split_outside_nesting}
use em68030_win_ui3cpp.Breakpoint.Evaluate.{evaluate_condition}
use em68030_win_ui3cpp.Breakpoint.Splitting.{joined, joined-split_outside_nesting}
use em68030_win_ui3cpp.Breakpoint.Members.{is_decided}
use em68030_win_ui3cpp.Breakpoint.Deciding.{evaluate_condition-is_decided}
use em68030_win_ui3cpp.Breakpoint.Reading.{evaluate_condition-Keeps}

-- "(D0 == 0x36 || A0)&&[$10].b<1", with D0 = 54.
abbrev sample : Text
sample =
    40 ∷ 68 ∷ 48 ∷ 32 ∷ 61 ∷ 61 ∷ 32 ∷ 48 ∷ 120 ∷ 51 ∷ 54 ∷ 32 ∷ 124 ∷ 124 ∷ 32 ∷ 65 ∷ 48 ∷ 41 ∷ 38
    ∷ 38 ∷ 91 ∷ 36 ∷ 49 ∷ 48 ∷ 93 ∷ 46 ∷ 98 ∷ 60 ∷ 49 ∷ []

joined-split_outside_nesting_example :
    joined 124 124 (split_outside_nesting sample 124 124) ≡ sample
joined-split_outside_nesting_example = joined-split_outside_nesting sample 124 124

evaluate_condition-is_decided_example :
    is_decided (evaluate_condition board 30 sample user_state).value ≡ true
evaluate_condition-is_decided_example =
    evaluate_condition-is_decided board 30 sample user_state (omega arith)

evaluate_condition-Keeps_example :
    Keeps user_state (evaluate_condition board 30 sample user_state).after
evaluate_condition-Keeps_example = evaluate_condition-Keeps board 30 sample user_state
