-- ===== src/Breakpoint/Members.antt =====
-- The members of a set in Em68030/Core/ConditionEvaluator.h: the loop over them ends, and with it the
-- evaluation of a comparison.
use em68030_win_ui3cpp.Common.{
  ℕ, zero, suc, ◌≤◌, ◌<◌, ◌≡◌, refl, arith, Bool, true, false, [], ◌∷◌, Option, none, some, length,
  ◌==◌, if◌then◌else◌,
}
use em68030_win_ui3cpp.Cpu.State.{Mc68030}
use em68030_win_ui3cpp.Cpu.Keeping.{if-P}
use em68030_win_ui3cpp.Breakpoint.Text.{Text, skip_spaces}
use em68030_win_ui3cpp.Breakpoint.Single.{
  Comparison, skip_separators, next_value, in_set, set_text, test_set, test_other, test_lhs,
  membership, compare_with, operator, test_mask, decide_lhs,
}
use em68030_win_ui3cpp.Breakpoint.Lengths.{Shortens, skip_separators-Short, next_value-Shortens}

-- A result was found within the fuel.
abbrev pub is_decided : Option Bool → Bool
is_decided none = false
is_decided (some b) = true

abbrev pub Decided : Option Bool → Type 0
Decided o = is_decided o ≡ true

module _ {Mem : Type 0} where
  -- A member of the set, or the end of what is understood.
  member-Decided :
      (n lhs : ℕ) (s : Mc68030 Mem) (m : ℕ) (found : Option (ℕ × Text))
      → Shortens m found
      → ((rest : Text) → length rest < m → Decided (in_set n lhs rest s))
      → Decided (elim found [
        | none ↦ some true
        | some (v, rest) ↦ let more = in_set n lhs rest s in if lhs == v then some true else more
      ])
  member-Decided n lhs s m none h k = refl
  member-Decided n lhs s m (some (v, rest)) h k = if-P Decided (lhs == v) _ _ refl (k rest h)

  members-Decided :
      (n lhs : ℕ) (t : Text) (s : Mc68030 Mem)
      → length t ≤ n
      → ((rest : Text) → length rest < n → Decided (in_set n lhs rest s))
      → Decided (elim t [
        | [] ↦ some false
        | c ∷ cs ↦ elim (next_value (c ∷ cs) s) [
          | none ↦ some true
          | some (v, rest) ↦
              let found = in_set n lhs rest s in if lhs == v then some true else found
        ]
      ])
  members-Decided n lhs [] s h k = refl
  members-Decided n lhs (c ∷ cs) s h k =
      member-Decided n lhs s (suc (length cs)) (next_value (c ∷ cs) s)
        (next_value-Shortens s (c ∷ cs)) (λ rest short. k rest (omega arith))

  -- The loop over a set ends.
  in_set-Decided :
      (n lhs : ℕ) (t : Text) (s : Mc68030 Mem) → length t < n → Decided (in_set n lhs t s)
  unfolding in_set
  in_set-Decided zero lhs t s h = absurd (omega arith)
  in_set-Decided (suc n) lhs t s h =
      members-Decided n lhs (skip_separators t) s (omega (arith, skip_separators-Short t))
        (λ rest short. in_set-Decided n lhs rest s short)

  in_members-Decided :
      (lhs : ℕ) (found : Option Text) (s : Mc68030 Mem)
      → Decided (elim found [
        | none ↦ some true
        | some members ↦ in_set (suc (length members)) lhs members s
      ])
  in_members-Decided lhs none s = refl
  in_members-Decided lhs (some members) s =
      in_set-Decided (suc (length members)) lhs members s (omega arith)

  other-Decided :
      (lhs : ℕ) (found : Option Text) (s : Mc68030 Mem)
      → Decided (elim found [ some rest ↦ test_set lhs rest s | none ↦ some true ])
  unfolding test_set
  other-Decided lhs none s = refl
  other-Decided lhs (some rest) s = in_members-Decided lhs (set_text (skip_spaces rest)) s

  operator-Decided :
      (lhs c : ℕ) (cs : Text) (found : Option (Comparison × Text)) (s : Mc68030 Mem)
      → Decided (elim found [
        | some r ↦ some (compare_with r.0 lhs r.1 s)
        | none ↦ if c == 38 then some (test_mask lhs cs s) else test_other lhs (c ∷ cs) s
      ])
  unfolding test_other
  operator-Decided lhs c cs (some r) s = refl
  operator-Decided lhs c cs none s =
      if-P Decided (c == 38) _ _ refl (other-Decided lhs (membership (c ∷ cs)) s)

  test_lhs-Decided : (lhs : ℕ) (t : Text) (s : Mc68030 Mem) → Decided (test_lhs lhs t s)
  unfolding test_lhs
  test_lhs-Decided lhs [] s = refl
  test_lhs-Decided lhs (c ∷ cs) s = operator-Decided lhs c cs (operator (c ∷ cs)) s

  pub decide_lhs-Decided :
      (found : Option (ℕ × Text)) (s : Mc68030 Mem) → Decided (decide_lhs found s)
  decide_lhs-Decided none s = refl
  decide_lhs-Decided (some (lhs, rest)) s = test_lhs-Decided lhs (skip_spaces rest) s
