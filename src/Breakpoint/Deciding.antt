-- ===== src/Breakpoint/Deciding.antt =====
-- The recursion of Em68030/Core/ConditionEvaluator.h ends: what the fuel is enough for.
use em68030_win_ui3cpp.Common.{
  ℕ, zero, suc, ◌≤◌, ◌<◌, ◌≡◌, refl, arith, Bool, true, false, ◌&&◌, List, [], ◌∷◌, Option, none,
  some, length, length-append, ap, ◌==◌,
}
use em68030_win_ui3cpp.Cpu.State.{Mc68030}
use em68030_win_ui3cpp.Cpu.Access.{Board}
use em68030_win_ui3cpp.Cpu.Keeping.{if-P}
use em68030_win_ui3cpp.Breakpoint.Text.{
  Text, is_empty, trim, skip_spaces, split_outside_nesting, split_from,
}
use em68030_win_ui3cpp.Breakpoint.Single.{
  outcome, parse_lhs, evaluate_trimmed, evaluate_single_condition,
}
use em68030_win_ui3cpp.Breakpoint.Evaluate.{
  Result, Evaluator, is_matched, ends_with, drop_last, grouped, or_next, and_next, all_hold,
  any_holds, evaluate_clause, evaluate_leaf, evaluate_condition,
}
use em68030_win_ui3cpp.Breakpoint.Splitting.{join_from, joined-split_outside_nesting}
use em68030_win_ui3cpp.Breakpoint.Members.{is_decided, Decided, decide_lhs-Decided}
use em68030_win_ui3cpp.Breakpoint.Lengths.{trim-Short}

abbrev AllWithin : ℕ → List Text → Type 0
AllWithin n [] = 0 ≤ n
AllWithin n (t ∷ ts) = (length t ≤ n) × AllWithin n ts

join_from-AllWithin :
    (d0 d1 n : ℕ) (part : Text) (parts : List Text)
    → length (join_from d0 d1 part parts) ≤ n
    → AllWithin n (part ∷ parts)
join_from-AllWithin d0 d1 n part [] h = (h, omega arith)
join_from-AllWithin d0 d1 n part (next ∷ parts) h =
    let tail = join_from d0 d1 next parts in
    let whole = length-append part (d0 ∷ d1 ∷ tail) in
    (omega arith, join_from-AllWithin d0 d1 n next parts (omega arith))

-- No part is longer than the text.
split-AllWithin :
    (t : Text) (d0 d1 n : ℕ) → length t ≤ n → AllWithin n (split_outside_nesting t d0 d1)
unfolding split_outside_nesting
split-AllWithin t d0 d1 n h =
    let r = split_from d0 d1 0 0 t in
    let same : length (join_from d0 d1 r.0 r.1) ≡ length t =
      ap length (joined-split_outside_nesting t d0 d1) in
    join_from-AllWithin d0 d1 n r.0 r.1 (omega arith)

drop_last-shorter : (t : Text) → length (drop_last t) ≤ length t
drop_last-shorter [] = omega arith
drop_last-shorter (c ∷ []) = omega arith
drop_last-shorter (c ∷ d ∷ cs) = omega (arith, drop_last-shorter (d ∷ cs))

abbrev Inside : ℕ → Option Text → Type 0
Inside n none = 0 ≤ n
Inside n (some t) = length t < n

grouped-Inside : (t : Text) → Inside (length t) (grouped t)
unfolding grouped
grouped-Inside [] = omega arith
grouped-Inside (c ∷ cs) =
    if-P (Inside (suc (length cs))) ((c == 40) && ends_with 41 cs && is_matched 0 0 (c ∷ cs)) _ _
      (omega (arith, drop_last-shorter cs)) (omega arith)

module _ {Mem : Type 0} where
  abbrev DecidedIn : Result Mem → Type 0
  DecidedIn r = Decided r.value

  -- A text that is not longer is decided.
  abbrev DecidesWithin : ℕ → Evaluator Mem → Type 0
  DecidesWithin n f = (t : Text) (s : Mc68030 Mem) → length t ≤ n → DecidedIn (f t s)

  and_next-Decided :
      (v : Option Bool) (a : Mc68030 Mem) (next : Mc68030 Mem → Result Mem)
      → Decided v
      → DecidedIn (next a)
      → DecidedIn (and_next (outcome v a) next)
  and_next-Decided none a next p q = absurd (cc)
  and_next-Decided (some false) a next p q = refl
  and_next-Decided (some true) a next p q = q

  or_next-Decided :
      (v : Option Bool) (a : Mc68030 Mem) (next : Mc68030 Mem → Result Mem)
      → Decided v
      → DecidedIn (next a)
      → DecidedIn (or_next (outcome v a) next)
  or_next-Decided none a next p q = absurd (cc)
  or_next-Decided (some true) a next p q = refl
  or_next-Decided (some false) a next p q = q

  all_hold-Decided :
      (leaf : Evaluator Mem) (n : ℕ) (ts : List Text) (s : Mc68030 Mem)
      → DecidesWithin n leaf
      → AllWithin n ts
      → DecidedIn (all_hold leaf ts s)
  unfolding all_hold
  all_hold-Decided leaf n [] s h w = refl
  all_hold-Decided leaf n (t ∷ ts) s h w =
      and_next-Decided (leaf t s).value (leaf t s).after (all_hold leaf ts) (h t s w.0)
        (all_hold-Decided leaf n ts (leaf t s).after h w.1)

  any_holds-Decided :
      (leaf : Evaluator Mem) (n : ℕ) (ts : List Text) (s : Mc68030 Mem)
      → DecidesWithin n leaf
      → AllWithin n ts
      → DecidedIn (any_holds leaf ts s)
  unfolding any_holds
  any_holds-Decided leaf n [] s h w = refl
  any_holds-Decided leaf n (t ∷ ts) s h w =
      let clauses = split_outside_nesting t 38 38 in
      let first = all_hold leaf clauses s in
      or_next-Decided first.value first.after (any_holds leaf ts)
        (all_hold-Decided leaf n clauses s h (split-AllWithin t 38 38 n w.0))
        (any_holds-Decided leaf n ts first.after h w.1)

module _ {Mem : Type 0} (board : Board Mem) where
  trimmed-Decided : (t : Text) (s : Mc68030 Mem) → DecidedIn (evaluate_trimmed board t s)
  unfolding evaluate_trimmed
  trimmed-Decided [] s = refl
  trimmed-Decided (c ∷ cs) s =
      let lhs = parse_lhs board c cs s in decide_lhs-Decided lhs.value lhs.after

  clause_of-Decided :
      (condition : Evaluator Mem) (found : Option Text) (n : ℕ) (t : Text) (s : Mc68030 Mem)
      → Inside (length t) found
      → length t ≤ n
      → ((inside : Text) → length inside < n → DecidedIn (condition inside s))
      → DecidedIn (elim found [
        | some inside ↦ condition inside s
        | none ↦ evaluate_single_condition board t s
      ])
  unfolding evaluate_single_condition
  clause_of-Decided condition none n t s inside w h = trimmed-Decided (skip_spaces t) s
  clause_of-Decided condition (some inner) n t s inside w h = h inner (omega arith)

  leaf-DecidesWithin :
      (condition : Evaluator Mem) (n : ℕ)
      → ((t : Text) (s : Mc68030 Mem) → length t < n → DecidedIn (condition t s))
      → DecidesWithin n (evaluate_leaf board condition)
  unfolding evaluate_leaf evaluate_clause
  leaf-DecidesWithin condition n h raw s w =
      let t = trim raw in
      if-P DecidedIn (is_empty t) _ _ refl (
        clause_of-Decided condition (grouped t) n t s (grouped-Inside t)
          (omega (arith, trim-Short raw)) (λ inside short. h inside s short))

  -- With fuel above a condition's length its evaluation ends with a result, for every state of the CPU
  -- and every memory: the fuel runs out neither in nested groups nor in the members of a set.
  pub evaluate_condition-is_decided :
      (n : ℕ) (t : Text) (s : Mc68030 Mem)
      → length t < n
      → is_decided (evaluate_condition board n t s).value ≡ true
  unfolding evaluate_condition
  evaluate_condition-is_decided zero t s h = absurd (omega arith)
  evaluate_condition-is_decided (suc n) t s h = if-P DecidedIn (is_empty t) _ _ refl (
      any_holds-Decided (evaluate_leaf board (evaluate_condition board n)) n
        (split_outside_nesting t 124 124) s
        (leaf-DecidesWithin (evaluate_condition board n) n (evaluate_condition-is_decided n))
        (split-AllWithin t 124 124 n (omega arith)))
