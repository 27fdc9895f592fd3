-- ===== src/Breakpoint/Reading.antt =====
-- What evaluating a condition leaves alone, in Em68030/Core/ConditionEvaluator.h.
use em68030_win_ui3cpp.Common.{
  ℕ, zero, suc, refl, Bool, true, false, List, [], ◌∷◌, Option, none, some, ◌==◌,
}
use em68030_win_ui3cpp.Common.Size.{Size}
use em68030_win_ui3cpp.Cpu.State.{Mc68030}
use em68030_win_ui3cpp.Cpu.Access.{Board, translate_read}
use em68030_win_ui3cpp.Cpu.Keeping.{
  if-P, Keeps, Keeps-trans, translate_read-Keeps, memory_read-Keeps,
}
use em68030_win_ui3cpp.Breakpoint.Text.{
  Text, is_empty, trim, skip_spaces, find, split_outside_nesting,
}
use em68030_win_ui3cpp.Breakpoint.Values.{parse_addr_expression}
use em68030_win_ui3cpp.Breakpoint.Single.{
  Outcome, outcome, size_of, read_lhs, bracketed, parse_lhs, evaluate_trimmed,
  evaluate_single_condition,
}
use em68030_win_ui3cpp.Breakpoint.Evaluate.{
  Result, Evaluator, grouped, or_next, and_next, all_hold, any_holds, evaluate_clause,
  evaluate_leaf, evaluate_condition,
}

module _ {Mem : Type 0} where
  abbrev KeepsIn : {A : Type 0} → Mc68030 Mem → Outcome A (Mc68030 Mem) → Type 0
  KeepsIn s r = Keeps s r.after

  abbrev AllKeep : Evaluator Mem → Type 0
  AllKeep f = (t : Text) (s : Mc68030 Mem) → KeepsIn s (f t s)

  and_next-KeepsIn :
      (v : Option Bool) (a : Mc68030 Mem) (next : Mc68030 Mem → Result Mem) (s : Mc68030 Mem)
      → Keeps s a
      → KeepsIn a (next a)
      → KeepsIn s (and_next (outcome v a) next)
  and_next-KeepsIn none a next s p q = p
  and_next-KeepsIn (some false) a next s p q = p
  and_next-KeepsIn (some true) a next s p q = Keeps-trans s a _ p q

  or_next-KeepsIn :
      (v : Option Bool) (a : Mc68030 Mem) (next : Mc68030 Mem → Result Mem) (s : Mc68030 Mem)
      → Keeps s a
      → KeepsIn a (next a)
      → KeepsIn s (or_next (outcome v a) next)
  or_next-KeepsIn none a next s p q = p
  or_next-KeepsIn (some true) a next s p q = p
  or_next-KeepsIn (some false) a next s p q = Keeps-trans s a _ p q

  all_hold-KeepsIn :
      (leaf : Evaluator Mem) (ts : List Text) (s : Mc68030 Mem)
      → AllKeep leaf
      → KeepsIn s (all_hold leaf ts s)
  unfolding all_hold
  all_hold-KeepsIn leaf [] s h = refl
  all_hold-KeepsIn leaf (t ∷ ts) s h =
      and_next-KeepsIn (leaf t s).value (leaf t s).after (all_hold leaf ts) s (h t s)
        (all_hold-KeepsIn leaf ts (leaf t s).after h)

  any_holds-KeepsIn :
      (leaf : Evaluator Mem) (ts : List Text) (s : Mc68030 Mem)
      → AllKeep leaf
      → KeepsIn s (any_holds leaf ts s)
  unfolding any_holds
  any_holds-KeepsIn leaf [] s h = refl
  any_holds-KeepsIn leaf (t ∷ ts) s h =
      let first = all_hold leaf (split_outside_nesting t 38 38) s in
      or_next-KeepsIn first.value first.after (any_holds leaf ts) s
        (all_hold-KeepsIn leaf (split_outside_nesting t 38 38) s h)
        (any_holds-KeepsIn leaf ts first.after h)

module _ {Mem : Type 0} (board : Board Mem) where
  read_lhs-KeepsIn :
      (z : Size) (addr : ℕ) (rest : Text) (s : Mc68030 Mem)
      → KeepsIn s (read_lhs board z addr rest s)
  unfolding read_lhs
  read_lhs-KeepsIn z addr rest s =
      let pa = translate_read board addr false s in
      Keeps-trans s pa.after _ (translate_read-Keeps board addr false s)
        (memory_read-Keeps board z pa.value pa.after)

  -- A value at the address, where the text is one.
  at_address-KeepsIn :
      (found : Option ℕ) (behind : Text) (s : Mc68030 Mem)
      → KeepsIn {A = Option (ℕ × Text)} s (elim found [
        | none ↦ outcome none s
        | some addr ↦ let z = size_of behind in read_lhs board z.0 addr z.1 s
      ])
  at_address-KeepsIn none behind s = refl
  at_address-KeepsIn (some addr) behind s =
      read_lhs-KeepsIn (size_of behind).0 addr (size_of behind).1 s

  inside-KeepsIn :
      (found : Option (Text × Text)) (s : Mc68030 Mem)
      → KeepsIn {A = Option (ℕ × Text)} s (elim found [
        | none ↦ outcome none s
        | some (inside, behind) ↦ elim (parse_addr_expression inside s) [
          | none ↦ outcome none s
          | some addr ↦ let z = size_of behind in read_lhs board z.0 addr z.1 s
        ]
      ])
  inside-KeepsIn none s = refl
  inside-KeepsIn (some (inside, behind)) s =
      at_address-KeepsIn (parse_addr_expression inside s) behind s

  parse_lhs-KeepsIn : (c : ℕ) (cs : Text) (s : Mc68030 Mem) → KeepsIn s (parse_lhs board c cs s)
  unfolding parse_lhs bracketed
  parse_lhs-KeepsIn c cs s = if-P (KeepsIn s) (c == 91) _ _ (inside-KeepsIn (find 93 cs) s) refl

  trimmed-KeepsIn : AllKeep (evaluate_trimmed board)
  unfolding evaluate_trimmed
  trimmed-KeepsIn [] s = refl
  trimmed-KeepsIn (c ∷ cs) s = parse_lhs-KeepsIn c cs s

  single-KeepsIn : AllKeep (evaluate_single_condition board)
  unfolding evaluate_single_condition
  single-KeepsIn t s = trimmed-KeepsIn (skip_spaces t) s

  clause_of-KeepsIn :
      (condition : Evaluator Mem) (found : Option Text) (t : Text) (s : Mc68030 Mem)
      → AllKeep condition
      → KeepsIn s (elim found [
        | some inside ↦ condition inside s
        | none ↦ evaluate_single_condition board t s
      ])
  clause_of-KeepsIn condition none t s h = single-KeepsIn t s
  clause_of-KeepsIn condition (some inside) t s h = h inside s

  leaf-KeepsIn :
      (condition : Evaluator Mem) → AllKeep condition → AllKeep (evaluate_leaf board condition)
  unfolding evaluate_leaf evaluate_clause
  leaf-KeepsIn condition h raw s =
      if-P (KeepsIn s) (is_empty (trim raw)) _ _ refl
        (clause_of-KeepsIn condition (grouped (trim raw)) (trim raw) s h)

  -- Evaluating a condition changes no register of the CPU and neither halts nor stops it: the state after
  -- is the state before but for the page caches, the MMU and the bus.
  pub evaluate_condition-Keeps :
      (n : ℕ) (t : Text) (s : Mc68030 Mem) → Keeps s (evaluate_condition board n t s).after
  unfolding evaluate_condition
  evaluate_condition-Keeps zero t s = refl
  evaluate_condition-Keeps (suc n) t s = if-P (KeepsIn s) (is_empty t) _ _ refl (
      any_holds-KeepsIn (evaluate_leaf board (evaluate_condition board n))
        (split_outside_nesting t 124 124) s
        (leaf-KeepsIn (evaluate_condition board n) (evaluate_condition-Keeps n)))
