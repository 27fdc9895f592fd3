-- ===== src/Alu/Rotating.antt =====
-- The rotates undo one another.
use native.Mathlib.Nat.{mod-eq_of_lt}
use em68030_win_ui3cpp.Common.{
  ℕ, zero, suc, ◌+◌, ◌-◌, ◌*◌, ◌/◌, ◌%◌, ◌^◌, ◌<◌, ◌≡◌, refl, ap, ◌∙◌, arith, bit_and, bit_or,
}
use em68030_win_ui3cpp.Common.Bits.{bit_and_mask, bit_or_fields, bit_or_comm}
use em68030_win_ui3cpp.Alu.Size.{Size, byte, word, long, bits, modulus, sign_mask}
use em68030_win_ui3cpp.Alu.Shifts.{Shifted}
use em68030_win_ui3cpp.Alu.Rotates.{
  mask, top_bit, rotate_left_loop, rotate_left, rotate_right_loop, rotate_right, rotate_left_x_loop,
  rotate_right_x_loop,
}

masked : (s : Size) (a : ℕ) → bit_and a (mask s) ≡ a % modulus s
masked byte a = bit_and_mask 8 a
masked word a = bit_and_mask 16 a
masked long a = bit_and_mask 32 a

top_value : (s : Size) (r : ℕ) → top_bit s r ≡ r / 2 ^ (bits s - 1) % 2
top_value s r = bit_and_mask 1 (r / 2 ^ (bits s - 1))

-- `((r << 1) | c) & mask` and `(r >> 1) | (c << (bits - 1))`.
abbrev left_word : Size → ℕ → ℕ → ℕ
left_word s r c = bit_and (bit_or (r * 2) c) (mask s)

abbrev right_word : Size → ℕ → ℕ → ℕ
right_word s r c = bit_and (bit_or (r / 2) (c * 2 ^ (bits s - 1))) (mask s)

left_word_lem : (s : Size) (r c : ℕ) → c < 2 → left_word s r c ≡ (r * 2 + c) % modulus s
left_word_lem s r c h =
    masked s (bit_or (r * 2) c) ∙ ap (λ (t : ℕ). t % modulus s) (bit_or_fields 1 r c h)

right_word_lem :
    (s : Size) (r c : ℕ) → r < modulus s → c < 2 → right_word s r c ≡ r / 2 + c * sign_mask s
right_word_lem byte r c h k = omega (
  arith,
  masked byte (bit_or (r / 2) (c * 2 ^ 7)),
  bit_or_comm (r / 2) (c * 2 ^ 7),
  bit_or_fields 7 c (r / 2) (omega arith),
)
right_word_lem word r c h k = omega (
  arith,
  masked word (bit_or (r / 2) (c * 2 ^ 15)),
  bit_or_comm (r / 2) (c * 2 ^ 15),
  bit_or_fields 15 c (r / 2) (omega arith),
)
right_word_lem long r c h k = omega (
  arith,
  masked long (bit_or (r / 2) (c * 2 ^ 31)),
  bit_or_comm (r / 2) (c * 2 ^ 31),
  bit_or_fields 31 c (r / 2) (omega arith),
)

-- A word shifted left by one with `c` below, read back.
halves :
    (s : Size) (r c : ℕ)
    → r < modulus s
    → c < 2
    → let w = (r * 2 + c) % modulus s in
      let t = r / 2 ^ (bits s - 1) % 2 in
      (w < modulus s) × (w % 2 ≡ c) × (w / 2 + t * sign_mask s ≡ r) × (t < 2)
halves byte r c h k = omega arith
halves word r c h k = omega arith
halves long r c h k = omega arith

abbrev left_x : Size → Shifted → Shifted
left_x s v = record { r = left_word s v.r v.c; c = top_bit s v.r }

abbrev right_x : Size → Shifted → Shifted
right_x s v = record { r = right_word s v.r v.c; c = bit_and v.r 1 }

record Fits (s : Size) (v : Shifted) : Type 0 where
  r_fits : v.r < modulus s
  c_fits : v.c < 2

left_x-Fits : (s : Size) (v : Shifted) → Fits s v → Fits s (left_x s v)
left_x-Fits s v f = record {
  r_fits = rw (left_word_lem s v.r v.c f.c_fits) (halves s v.r v.c f.r_fits f.c_fits).0;
  c_fits = rw (top_value s v.r) (halves s v.r v.c f.r_fits f.c_fits).3;
}

right_x-left_x : (s : Size) (v : Shifted) → Fits s v → right_x s (left_x s v) ≡ v
right_x-left_x s v f =
    let h = halves s v.r v.c f.r_fits f.c_fits in
    let w = left_word_lem s v.r v.c f.c_fits in
    let t = top_value s v.r in
    let fits = left_x-Fits s v f in
    let back : right_word s (left_word s v.r v.c) (top_bit s v.r) ≡ v.r =
      right_word_lem s (left_word s v.r v.c) (top_bit s v.r) fits.r_fits fits.c_fits
      ∙ ap (λ (a : ℕ). a / 2 + top_bit s v.r * sign_mask s) w
      ∙ ap (λ (a : ℕ). (v.r * 2 + v.c) % modulus s / 2 + a * sign_mask s) t
      ∙ h.2 in
    let low : bit_and (left_word s v.r v.c) 1 ≡ v.c =
      bit_and_mask 1 (left_word s v.r v.c) ∙ ap (λ (a : ℕ). a % 2) w ∙ h.1 in
    λ i. record { r = back i; c = low i }

rotate_left_x_loop-suc :
    (s : Size) (n : ℕ) (v : Shifted)
    → rotate_left_x_loop s (suc n) v ≡ left_x s (rotate_left_x_loop s n v)
unfolding rotate_left_x_loop
rotate_left_x_loop-suc s zero v = refl
rotate_left_x_loop-suc s (suc n) v = rotate_left_x_loop-suc s n (left_x s v)

left_x_loop-Fits : (s : Size) (n : ℕ) (v : Shifted) → Fits s v → Fits s (rotate_left_x_loop s n v)
unfolding rotate_left_x_loop
left_x_loop-Fits s zero v f = f
left_x_loop-Fits s (suc n) v f = left_x_loop-Fits s n (left_x s v) (left_x-Fits s v f)

-- The two loops through X are inverse on the word and X together.
x_loops :
    (s : Size) (n : ℕ) (v : Shifted)
    → Fits s v
    → rotate_right_x_loop s n (rotate_left_x_loop s n v) ≡ v
unfolding rotate_right_x_loop
x_loops s zero v f = unfold rotate_left_x_loop in refl
x_loops s (suc n) v f =
    ap (λ (w : Shifted). rotate_right_x_loop s n (right_x s w)) (rotate_left_x_loop-suc s n v)
    ∙ ap (rotate_right_x_loop s n)
        (right_x-left_x s (rotate_left_x_loop s n v) (left_x_loop-Fits s n v f))
    ∙ x_loops s n v f

abbrev left_plain : Size → Shifted → Shifted
left_plain s v = record { r = left_word s v.r (top_bit s v.r); c = top_bit s v.r }

rotate_left_loop-suc :
    (s : Size) (n : ℕ) (v : Shifted)
    → rotate_left_loop s (suc n) v ≡ left_plain s (rotate_left_loop s n v)
unfolding rotate_left_loop
rotate_left_loop-suc s zero v = refl
rotate_left_loop-suc s (suc n) v = rotate_left_loop-suc s n (left_plain s v)

top-lt : (s : Size) (r : ℕ) → r < modulus s → top_bit s r < 2
top-lt s r h = rw (top_value s r) (halves s r 0 h (omega arith)).3

left_plain-lt : (s : Size) (v : Shifted) → v.r < modulus s → (left_plain s v).r < modulus s
left_plain-lt s v h =
    (left_x-Fits s (record { r = v.r; c = top_bit s v.r })
      (record { r_fits = h; c_fits = top-lt s v.r h })).r_fits

rotate_left_loop-lt :
    (s : Size) (n : ℕ) (v : Shifted) → v.r < modulus s → (rotate_left_loop s n v).r < modulus s
unfolding rotate_left_loop
rotate_left_loop-lt s zero v h = h
rotate_left_loop-lt s (suc n) v h = rotate_left_loop-lt s n (left_plain s v) (left_plain-lt s v h)

-- The right loop's word does not depend on the `c` that it starts with.
right_loop_r :
    (s : Size) (n : ℕ) (v w : Shifted)
    → v.r ≡ w.r
    → (rotate_right_loop s n v).r ≡ (rotate_right_loop s n w).r
unfolding rotate_right_loop
right_loop_r s zero v w e = e
right_loop_r s (suc n) v w e = right_loop_r s n _ _ (ap (λ (r : ℕ). right_word s r (bit_and r 1)) e)

undo_round :
    (s : Size) (v : Shifted)
    → v.r < modulus s
    → right_word s (left_plain s v).r (bit_and (left_plain s v).r 1) ≡ v.r
undo_round s v h =
    let w : Shifted = record { r = v.r; c = top_bit s v.r } in
    let back = right_x-left_x s w (record { r_fits = h; c_fits = top-lt s v.r h }) in
    ap (right_word s (left_plain s v).r) (ap (λ (u : Shifted). u.c) back)
    ∙ ap (λ (u : Shifted). u.r) back

plain_loops :
    (s : Size) (n : ℕ) (v w : Shifted)
    → v.r < modulus s
    → w.r ≡ (rotate_left_loop s n v).r
    → (rotate_right_loop s n w).r ≡ v.r
unfolding rotate_right_loop
plain_loops s zero v w h e = unfold rotate_left_loop in e
plain_loops s (suc n) v w h e =
    let u = rotate_left_loop s n v in
    plain_loops s n v (record { r = right_word s w.r (bit_and w.r 1); c = bit_and w.r 1 }) h
      (ap (λ (r : ℕ). right_word s r (bit_and r 1))
          (e ∙ ap (λ (q : Shifted). q.r) (rotate_left_loop-suc s n v))
        ∙ undo_round s u (rotate_left_loop-lt s n v h))

masked_id : (s : Size) (a : ℕ) → a < modulus s → bit_and a (mask s) ≡ a
masked_id s a h = masked s a ∙ mod-eq_of_lt h

-- ROR undoes ROL by the same count.
pub rotate_right-rotate_left :
    (s : Size) (value count : ℕ)
    → value < modulus s
    → (rotate_right s (rotate_left s value count).result count).result ≡ value
unfolding rotate_left rotate_right
rotate_right-rotate_left s value count h =
    let start : Shifted = record { r = bit_and value (mask s); c = 0 } in
    let same : start.r ≡ value = masked_id s value h in
    let r = (rotate_left_loop s count start).r in
    let hs : start.r < modulus s = rw same h in
    plain_loops s count start _ hs (masked_id s r (rotate_left_loop-lt s count start hs)) ∙ same
