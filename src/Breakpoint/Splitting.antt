-- ===== src/Breakpoint/Splitting.antt =====
-- The splitting of a condition at `||` and `&&`, in Em68030/Core/ConditionEvaluator.h.
use em68030_win_ui3cpp.Common.{
  ℕ, ◌+◌, ◌≡◌, refl, ap, arith, Bool, true, ◌&&◌, List, [], ◌∷◌, ◌++◌, ◌==◌,
}
use em68030_win_ui3cpp.Cpu.Keeping.{if-P, if-P_eq}
use em68030_win_ui3cpp.Breakpoint.Text.{
  Text, opens, closes, in_part, split_from, split_outside_nesting,
}

-- Parts with the two characters between them.
abbrev pub join_from : ℕ → ℕ → Text → List Text → Text
join_from d0 d1 part [] = part
join_from d0 d1 part (next ∷ parts) = part ++ (d0 ∷ d1 ∷ join_from d0 d1 next parts)

abbrev pub joined : ℕ → ℕ → List Text → Text
joined d0 d1 [] = []
joined d0 d1 (part ∷ parts) = join_from d0 d1 part parts

abbrev Joins : ℕ → ℕ → Text → Text × List Text → Type 0
Joins d0 d1 t r = join_from d0 d1 r.0 r.1 ≡ t

in_part-Joins :
    (d0 d1 c : ℕ) (t : Text) (r : Text × List Text)
    → Joins d0 d1 t r
    → Joins d0 d1 (c ∷ t) (in_part c r)
in_part-Joins d0 d1 c t (part, []) h = ap (λ (x : Text). c ∷ x) h
in_part-Joins d0 d1 c t (part, next ∷ parts) h = ap (λ (x : Text). c ∷ x) h

-- Where the two characters stand.
cut-Joins :
    (d0 d1 c d : ℕ) (b : Bool) (t : Text) (r : Text × List Text)
    → (b && (c == d0) && (d == d1)) ≡ true
    → Joins d0 d1 t r
    → Joins d0 d1 (c ∷ d ∷ t) ([], r.0 ∷ r.1)
cut-Joins d0 d1 c d b t r h q =
    let first : c ≡ d0 = ground arith in
    let second : d ≡ d1 = ground arith in rw (first, second) (ap (λ (x : Text). d0 ∷ d1 ∷ x) q)

split_from-Joins : (d0 d1 up down : ℕ) (t : Text) → Joins d0 d1 t (split_from d0 d1 up down t)
unfolding split_from
split_from-Joins d0 d1 up down [] = refl
split_from-Joins d0 d1 up down (c ∷ []) = refl
split_from-Joins d0 d1 up down (c ∷ d ∷ cs) =
    let t = c ∷ d ∷ cs in
    let P : Text × List Text → Type 0 = Joins d0 d1 t in
    let on = λ (u v : ℕ).
      in_part-Joins d0 d1 c (d ∷ cs) (split_from d0 d1 u v (d ∷ cs))
        (split_from-Joins d0 d1 u v (d ∷ cs)) in
    if-P P (opens c) _ _ (on (up + 1) down) (
      if-P P (closes c) _ _ (on up (down + 1)) (
        if-P_eq P ((up == down) && (c == d0) && (d == d1)) _ _
          (λ h.
            cut-Joins d0 d1 c d (up == down) cs (split_from d0 d1 up down cs) h
              (split_from-Joins d0 d1 up down cs))
          (λ h. on up down)))

-- Splitting at two characters loses nothing: the parts with those two characters between them
-- are the text.
pub joined-split_outside_nesting :
    (t : Text) (d0 d1 : ℕ) → joined d0 d1 (split_outside_nesting t d0 d1) ≡ t
unfolding split_outside_nesting
joined-split_outside_nesting t d0 d1 = split_from-Joins d0 d1 0 0 t
