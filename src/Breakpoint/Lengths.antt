-- ===== src/Breakpoint/Lengths.antt =====
-- What the parsers of Em68030/Core/ConditionEvaluator.h leave of a text is no longer than it, and shorter
-- where they found something.
use em68030_win_ui3cpp.Common.{
  ℕ, suc, ◌+◌, ◌*◌, ◌≤◌, ◌<◌, ◌≡◌, arith, Bool, true, ◌&&◌, ◌||◌, [], ◌∷◌, Option, none, some,
  length, ltb, ◌==◌,
}
use em68030_win_ui3cpp.Cpu.State.{Mc68030}
use em68030_win_ui3cpp.Cpu.Keeping.{if-P, if-P_eq}
use em68030_win_ui3cpp.Breakpoint.Text.{
  Text, within, is_alnum, skip_spaces, before_spaces, drop_spaces_end, trim, token,
}
use em68030_win_ui3cpp.Breakpoint.Numbers.{
  digit, skip_white, digits, some_digits, skip_prefix, signed, strtoull, number_base, parse_number,
}
use em68030_win_ui3cpp.Breakpoint.Values.{parse_register_value}
use em68030_win_ui3cpp.Breakpoint.Single.{skip_separators, next_value}

abbrev Short : ℕ → Text → Type 0
Short n t = length t ≤ n

abbrev ShortRest : {A : Type 0} → ℕ → A × Text → Type 0
ShortRest n r = length r.1 ≤ n

-- Nothing was found, or the rest is shorter.
abbrev pub Shortens : {A : Type 0} → ℕ → Option (A × Text) → Type 0
Shortens n none = 0 ≤ n
Shortens n (some r) = length r.1 < n

skip_spaces-Short : (t : Text) → Short (length t) (skip_spaces t)
unfolding skip_spaces
skip_spaces-Short [] = omega arith
skip_spaces-Short (c ∷ cs) =
    let rest = skip_spaces-Short cs in
    if-P (Short (suc (length cs))) (c == 32) _ _ (omega arith) (omega arith)

before_spaces-Short : (c : ℕ) (t : Text) → Short (suc (length t)) (before_spaces c t)
before_spaces-Short c [] = if-P (Short 1) (c == 32) _ _ (omega arith) (omega arith)
before_spaces-Short c (d ∷ ds) = omega arith

drop_spaces_end-Short : (t : Text) → Short (length t) (drop_spaces_end t)
unfolding drop_spaces_end
drop_spaces_end-Short [] = omega arith
drop_spaces_end-Short (c ∷ cs) =
    omega (arith, before_spaces-Short c (drop_spaces_end cs), drop_spaces_end-Short cs)

pub trim-Short : (t : Text) → length (trim t) ≤ length t
trim-Short t = omega (arith, drop_spaces_end-Short (skip_spaces t), skip_spaces-Short t)

pub skip_separators-Short : (t : Text) → length (skip_separators t) ≤ length t
unfolding skip_separators
skip_separators-Short [] = omega arith
skip_separators-Short (c ∷ cs) =
    let rest = skip_separators-Short cs in
    if-P (Short (suc (length cs))) ((c == 32) || (c == 44)) _ _ (omega arith) (omega arith)

skip_white-Short : (t : Text) → Short (length t) (skip_white t)
unfolding skip_white
skip_white-Short [] = omega arith
skip_white-Short (c ∷ cs) =
    let rest = skip_white-Short cs in
    if-P (Short (suc (length cs))) ((c == 32) || within 9 13 c) _ _ (omega arith) (omega arith)

digits-ShortRest : (base acc : ℕ) (t : Text) → ShortRest (length t) (digits base acc t)
unfolding digits
digits-ShortRest base acc [] = omega arith
digits-ShortRest base acc (c ∷ cs) =
    let rest = digits-ShortRest base (acc * base + digit c) cs in
    if-P (ShortRest (suc (length cs))) (ltb (digit c) base) _ _ (omega arith) (omega arith)

first_digit :
    (base acc c : ℕ) (cs : Text)
    → ltb (digit c) base ≡ true
    → ShortRest (length cs) (digits base acc (c ∷ cs))
unfolding digits
first_digit base acc c cs h = rw h (digits-ShortRest base (acc * base + digit c) cs)

some_digits-Shortens : (base : ℕ) (t : Text) → Shortens (length t) (some_digits base t)
unfolding some_digits
some_digits-Shortens base [] = omega arith
some_digits-Shortens base (c ∷ cs) =
    if-P_eq (Shortens (suc (length cs))) (ltb (digit c) base) _ _
      (λ h. let rest = first_digit base 0 c cs h in omega arith) (λ h. omega arith)

skip_prefix-Short : (base : ℕ) (t : Text) → Short (length t) (skip_prefix base t)
unfolding skip_prefix
skip_prefix-Short base [] = omega arith
skip_prefix-Short base (c ∷ []) = omega arith
skip_prefix-Short base (c ∷ x ∷ []) = omega arith
skip_prefix-Short base (c ∷ x ∷ d ∷ cs) =
    if-P (Short (suc (suc (suc (length cs)))))
      ((base == 16) && (c == 48) && ((x == 120) || (x == 88)) && ltb (digit d) 16) _ _ (omega arith)
      (omega arith)

signed-ShortRest : (t : Text) → ShortRest (length t) (signed t)
unfolding signed
signed-ShortRest [] = omega arith
signed-ShortRest (c ∷ cs) =
    let P : Bool × Text → Type 0 = ShortRest (suc (length cs)) in
    if-P P (c == 45) _ _ (omega arith) (if-P P (c == 43) _ _ (omega arith) (omega arith))

number_base-ShortRest : (t : Text) → ShortRest (length t) (number_base t)
unfolding number_base
number_base-ShortRest [] = omega arith
number_base-ShortRest (c ∷ []) =
    if-P (ShortRest {A = ℕ} 1) (c == 36) _ _ (omega arith) (omega arith)
number_base-ShortRest (c ∷ d ∷ cs) =
    let P : ℕ × Text → Type 0 = ShortRest (suc (suc (length cs))) in
    if-P P ((c == 48) && ((d == 120) || (d == 88))) _ _ (omega arith)
      (if-P P (c == 36) _ _ (omega arith) (omega arith))

Shortens-mono : {A : Type 0} (m n : ℕ) (r : Option (A × Text)) → m ≤ n → Shortens m r → Shortens n r
Shortens-mono m n none h s = omega arith
Shortens-mono m n (some r) h s = omega arith

-- A found value that is changed.
Shortens-found :
    {A B : Type 0} (f : A → B) (n : ℕ) (r : Option (A × Text))
    → Shortens n r
    → Shortens n (elim r [ none ↦ none | some x ↦ some (f x.0, x.1) ])
Shortens-found f n none h = h
Shortens-found f n (some r) h = h

strtoull-Shortens : (base : ℕ) (t : Text) → Shortens (length t) (strtoull base t)
unfolding strtoull
strtoull-Shortens base t =
    let sign = signed (skip_white t) in
    let rest = skip_prefix base sign.1 in
    let bound : length rest ≤ length t =
      omega (
        arith,
        skip_prefix-Short base sign.1,
        signed-ShortRest (skip_white t),
        skip_white-Short t,
      ) in
    Shortens-found _ _ (some_digits base rest)
      (Shortens-mono (length rest) (length t) _ bound (some_digits-Shortens base rest))

pub parse_number-Shortens : (t : Text) → Shortens (length t) (parse_number t)
unfolding parse_number
parse_number-Shortens t =
    let start = number_base t in
    Shortens-found _ _ (strtoull start.0 start.1) (
      Shortens-mono (length start.1) (length t) _ (number_base-ShortRest t)
        (strtoull-Shortens start.0 start.1))

abbrev Divides : Text → Text × Text → Type 0
Divides t r = length r.0 + length r.1 ≡ length t

token-Divides : (t : Text) → Divides t (token t)
unfolding token
token-Divides [] = omega arith
token-Divides (c ∷ cs) =
    let rest = token-Divides cs in
    if-P (Divides (c ∷ cs)) (is_alnum c) _ _ (omega arith) (omega arith)

-- A value that was found ends there, or else the number does.
either-Shortens :
    (n : ℕ) (found : Option ℕ) (rest : Text) (other : Option (ℕ × Text))
    → length rest < n
    → Shortens n other
    → Shortens n (elim found [ some v ↦ some (v, rest) | none ↦ other ])
either-Shortens n none rest other h k = k
either-Shortens n (some v) rest other h k = h

module _ {Mem : Type 0} (s : Mc68030 Mem) where
  register_or_number :
      (t : Text) (word_at : Text × Text)
      → Divides t word_at
      → Shortens (length t) (elim (parse_register_value word_at.0 s) [
        | some v ↦ some (v, word_at.1)
        | none ↦ parse_number t
      ])
  unfolding parse_register_value
  register_or_number t ([], rest) h = parse_number-Shortens t
  register_or_number t (c ∷ cs, rest) h =
      either-Shortens (length t) (parse_register_value (c ∷ cs) s) rest (parse_number t)
        (omega arith) (parse_number-Shortens t)

  pub next_value-Shortens : (t : Text) → Shortens (length t) (next_value t s)
  unfolding next_value
  next_value-Shortens t = register_or_number t (token t) (token-Divides t)
