-- ===== src/Lance/Ring.antt =====
-- A transmit ring in memory: who owns a descriptor, and what its memory keeps.
use em68030_win_ui3cpp.Common.{
  ℕ, zero, suc, ◌+◌, ◌*◌, ◌/◌, ◌%◌, ◌^◌, ◌≤◌, ◌<◌, ◌≡◌, refl, sym, ap, ◌∙◌, arith, inl, inr, Bool,
  true, false, bit_and, bit_or, ◌==◌, if◌then◌else◌, has, Bool-cases,
}
use em68030_win_ui3cpp.Common.Bits.{bit_and_mask, bit_or_fields, bit_and_bit, bit_at_div}
use em68030_win_ui3cpp.Common.Size.{Size, word}
use em68030_win_ui3cpp.Lance.State.{Dma, Lance}
use em68030_win_ui3cpp.Lance.Rings.{returned, flags_of}

-- The device owns a descriptor with that status word.
abbrev pub owned : ℕ → Bool
owned w = has (flags_of w) 0x80

-- The status word with OWN clear.
abbrev pub handed_back : ℕ → ℕ
handed_back w = returned (bit_and (flags_of w) 0x7f) w

pub handed_back_lem : (w : ℕ) → handed_back w ≡ w / 256 % 128 * 256 + w % 256
handed_back_lem w = omega (
  arith,
  bit_and_mask 7 (flags_of w),
  bit_and_mask 8 w,
  ap (λ (t : ℕ). bit_or (t * 2 ^ 8) (bit_and w 0xff)) (bit_and_mask 7 (flags_of w)),
  ap (λ (t : ℕ). bit_or (flags_of w % 2 ^ 7 * 2 ^ 8) t) (bit_and_mask 8 w),
  bit_or_fields 8 (flags_of w % 2 ^ 7) (w % 2 ^ 8) (omega arith),
)

owned_lem : (w : ℕ) → owned w ≡ (w / 2 ^ 15 % 2 == 1)
owned_lem w = ground (arith, bit_and_bit 7 (flags_of w), bit_at_div 7 (flags_of w))

pub handed_back-fits : (w : ℕ) → handed_back w < 2 ^ 16
handed_back-fits w = omega (arith, handed_back_lem w)

pub not_owned-handed_back : (w : ℕ) → owned (handed_back w) ≡ false
not_owned-handed_back w = let v = handed_back w in ground (arith, owned_lem v, handed_back_lem w)

-- The status words of a ring of `len` descriptors are in memory that keeps what is poked, and nothing
-- else that the device does to a descriptor touches them, in every state that `Holds` says so of.
pub record IsRing {Mem : Type 0} (dma : Dma Mem) (base len : ℕ) : Type 1 where
  pub Holds : Mem → Type 0
  pub not_empty : 0 < len
  pub peek_holds : (z : Size) (a : ℕ) (m : Mem) → Holds m → Holds (dma.peek z a m).after
  pub peek_keeps :
      (z : Size) (a j : ℕ) (m : Mem)
      → Holds m
      → j < len
      → (dma.peek word (base + j * 8 + 2) (dma.peek z a m).after).value
        ≡ (dma.peek word (base + j * 8 + 2) m).value
  pub status_holds :
      (i v : ℕ) (m : Mem) → Holds m → i < len → Holds (dma.poke word (base + i * 8 + 2) v m)
  pub poke_status :
      (i j v : ℕ) (m : Mem)
      → Holds m
      → i < len
      → j < len
      → v < 2 ^ 16
      → (dma.peek word (base + j * 8 + 2) (dma.poke word (base + i * 8 + 2) v m)).value
        ≡ (if i == j then v else (dma.peek word (base + j * 8 + 2) m).value)
  pub length_holds :
      (i v : ℕ) (m : Mem) → Holds m → i < len → Holds (dma.poke word (base + i * 8 + 6) v m)
  pub poke_length :
      (i j v : ℕ) (m : Mem)
      → Holds m
      → i < len
      → j < len
      → (dma.peek word (base + j * 8 + 2) (dma.poke word (base + i * 8 + 6) v m)).value
        ≡ (dma.peek word (base + j * 8 + 2) m).value

-- How many of the first `n` numbers pass.
abbrev pub count : (ℕ → Bool) → ℕ → ℕ
count p zero = 0
count p (suc n) = (if p n then 1 else 0) + count p n

pub count_le : (p : ℕ → Bool) (n : ℕ) → count p n ≤ n
count_le p zero = omega arith
count_le p (suc n) = ground (arith, count_le p n)

count-same : (p q : ℕ → Bool) (n : ℕ) → ((j : ℕ) → j < n → q j ≡ p j) → count q n ≡ count p n
count-same p q zero h = refl
count-same p q (suc n) h =
    let rest = count-same p q n (λ j l. h j (omega arith)) in rw (h n (omega arith), rest) refl

-- One number fewer passes.
pub count-fewer :
    (p q : ℕ → Bool) (i n : ℕ)
    → i < n
    → p i ≡ true
    → q i ≡ false
    → ((j : ℕ) → j < n → (i == j) ≡ false → q j ≡ p j)
    → suc (count q n) ≡ count p n
count-fewer p q i zero l t f h = absurd (omega arith)
count-fewer p q i (suc n) l t f h = elim (Bool-cases (i == n)) [
  | inl e ↦
      let at : i ≡ n = ground arith in
      let before = count-same p q n (λ j l. h j (omega arith) (ground arith)) in
      let tn : p n ≡ true = ap p (sym at) ∙ t in
      let fn : q n ≡ false = ap q (sym at) ∙ f in rw (tn, fn, before) (omega arith)
  | inr e ↦
      let rest = count-fewer p q i n (ground arith) t f (λ j l. h j (omega arith)) in
      rw (h n (omega arith) e) (omega (arith, rest))
]

abbrev pub status : {Mem : Type 0} → Dma Mem → Lance → Mem → ℕ → ℕ
status dma d m j = (dma.peek word (d.tx_ring_addr + j * 8 + 2) m).value
