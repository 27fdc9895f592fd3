-- ===== src/Cpu/Frames.antt =====
-- Exception frames on a stack in RAM: what the pushes of `RaiseException` and `RaiseBusError` lay down.
use mathlib.Core.Path.{subst}
use em68030_win_ui3cpp.Common.{
  ℕ, suc, ◌+◌, ◌-◌, ◌*◌, ◌^◌, ◌<◌, ◌≤◌, ◌≡◌, inr, ap, ◌∙◌, arith, List, [], ◌∷◌, length,
}
use em68030_win_ui3cpp.Common.Bits.{bit_and_mask}
use em68030_win_ui3cpp.Common.Size.{Size, word, long, modulus}
use em68030_win_ui3cpp.Common.Bytes.{
  last, read_be, write_be, read_be-write_be, read_be-write_be_apart, length-write_be,
}
use em68030_win_ui3cpp.Cpu.State.{Mc68030, sub32}
use em68030_win_ui3cpp.Cpu.Access.{Board}
use em68030_win_ui3cpp.Cpu.Fetch.{push_word, push_long}
use em68030_win_ui3cpp.Cpu.Exceptions.{push_frame, push_fault_frame, format_vector}
use em68030_win_ui3cpp.Cpu.Keeping.{push_word-Keeps, push_long-Keeps}
use em68030_win_ui3cpp.Cpu.Ram.{Ram, Ready, write_word-Writes, write_long-Writes}

-- A value on the stack.
pub record Field : Type 0 where
  pub width : Size
  pub at : ℕ
  pub value : ℕ

abbrev pub field : Size → ℕ → ℕ → Field
field z a v = record { width = z; at = a; value = v }

-- The fields lie from `top` on in the bytes of a range that starts at `base`.
abbrev pub Laid : ℕ → List ℕ → ℕ → List Field → Type 0
Laid base bytes top [] = Unit {0}
Laid base bytes top (f ∷ fs) =
    (top ≤ f.at)
    × (f.at + last f.width < base + length bytes)
    × (read_be f.width bytes (f.at - base) ≡ f.value)
    × Laid base bytes top fs

-- A write below the fields.
Laid-below :
    (base : ℕ) (bytes : List ℕ) (top : ℕ) (z : Size) (a v : ℕ) (fs : List Field)
    → base ≤ a
    → a + last z < top
    → Laid base bytes top fs
    → Laid base (write_be z v bytes (a - base)) a fs
Laid-below base bytes top z a v [] low below h = tt
Laid-below base bytes top z a v (f ∷ fs) low below h = (
  omega (arith, h.0),
  omega (arith, h.1, length-write_be z v bytes (a - base)),
  read_be-write_be_apart f.width z v bytes (a - base) (f.at - base) (inr (omega (arith, h.0)))
      ∙ h.2,
  Laid-below base bytes top z a v fs low below h.3,
)

Laid-push :
    (base : ℕ) (bytes : List ℕ) (top : ℕ) (z : Size) (a v : ℕ) (fs : List Field)
    → base ≤ a
    → a + last z < top
    → top ≤ base + length bytes
    → v < modulus z
    → Laid base bytes top fs
    → Laid base (write_be z v bytes (a - base)) a (field z a v ∷ fs)
Laid-push base bytes top z a v fs low below high hv h = (
  omega arith,
  omega (arith, length-write_be z v bytes (a - base)),
  read_be-write_be z v bytes (a - base) hv (omega arith),
  Laid-below base bytes top z a v fs low below h,
)

module _ {Mem : Type 0} {board : Board Mem} {base size : ℕ} (ram : Ram board base size) where
  -- The CPU's stack starts at `top` in the RAM and holds these fields.
  pub record OnStack (top : ℕ) (fs : List Field) (s : Mc68030 Mem) : Type 0 where
    pub bytes : List ℕ
    pub ready : Ready ram bytes s
    pub at_top : s.a7 ≡ top
    pub laid : Laid base bytes top fs
    pub within : top ≤ base + size
    pub in_space : top < 2 ^ 32

  abbrev lowered : ℕ → Mc68030 Mem → Mc68030 Mem
  lowered n s = record s { a7 = sub32 s.a7 n }

  lowered-Ready :
      (n : ℕ) (bytes : List ℕ) (s : Mc68030 Mem) → Ready ram bytes s → Ready ram bytes (lowered n s)
  lowered-Ready n bytes s r = record {
    holds = r.holds;
    settled = r.settled;
    off = r.off;
    no_page = r.no_page;
  }

  -- A value of `z` was written at the lowered stack pointer.
  pushed-OnStack :
      (z : Size) (v top lower : ℕ) (fs : List Field) (s t : Mc68030 Mem) (o : OnStack top fs s)
      → top ≡ lower + suc (last z)
      → base ≤ lower
      → v < modulus z
      → Ready ram (write_be z v o.bytes (lower - base)) t
      → t.a7 ≡ lower
      → OnStack lower (field z lower v ∷ fs) t
  pushed-OnStack z v top lower fs s t o down room hv ready at_top =
      let all = ram.length-Holds o.bytes s.machine.bus o.ready.holds in
      record {
        bytes = write_be z v o.bytes (lower - base);
        ready = ready;
        at_top = at_top;
        laid =
            Laid-push base o.bytes top z lower v fs room (omega arith)
              (omega (arith, all, o.within)) hv o.laid;
        within = omega (arith, o.within);
        in_space = omega (arith, o.in_space);
      }

  pub push_word-OnStack :
      (v top lower : ℕ) (fs : List Field) (s : Mc68030 Mem)
      → top ≡ lower + 2
      → base ≤ lower
      → v < 2 ^ 16
      → OnStack top fs s
      → OnStack lower (field word lower v ∷ fs) (push_word board v s)
  unfolding push_word
  push_word-OnStack v top lower fs s down room hv o =
      let moved : sub32 s.a7 2 ≡ lower = omega (arith, o.at_top, o.in_space) in
      pushed-OnStack word v top lower fs s _ o down room hv
        (subst (λ (x : ℕ). Ready ram (write_be word v o.bytes (x - base)) (push_word board v s))
          moved
          (write_word-Writes ram (sub32 s.a7 2) v o.bytes (lowered 2 s)
            (omega (arith, moved, o.within)) (lowered-Ready 2 o.bytes s o.ready)))
        (ap (λ (x : Mc68030 Mem). x.a7) (push_word-Keeps board v s) ∙ moved)

  pub push_long-OnStack :
      (v top lower : ℕ) (fs : List Field) (s : Mc68030 Mem)
      → top ≡ lower + 4
      → base ≤ lower
      → v < 2 ^ 32
      → OnStack top fs s
      → OnStack lower (field long lower v ∷ fs) (push_long board v s)
  unfolding push_long
  push_long-OnStack v top lower fs s down room hv o =
      let moved : sub32 s.a7 4 ≡ lower = omega (arith, o.at_top, o.in_space) in
      pushed-OnStack long v top lower fs s _ o down room hv
        (subst (λ (x : ℕ). Ready ram (write_be long v o.bytes (x - base)) (push_long board v s))
          moved
          (write_long-Writes ram (sub32 s.a7 4) v o.bytes (lowered 4 s)
            (omega (arith, moved, o.within)) (lowered-Ready 4 o.bytes s o.ready)))
        (ap (λ (x : Mc68030 Mem). x.a7) (push_long-Keeps board v s) ∙ moved)

  -- The frame of format 0, from `f` on.
  abbrev pub frame_fields : ℕ → ℕ → ℕ → ℕ → List Field
  frame_fields f vector sr pc =
      field word f sr ∷ field long (f + 2) pc ∷ field word (f + 6) (format_vector vector) ∷ []

  pub push_frame-OnStack :
      (f vector sr : ℕ) (s : Mc68030 Mem)
      → base ≤ f
      → sr < 2 ^ 16
      → s.pc < 2 ^ 32
      → OnStack (f + 8) [] s
      → OnStack f (frame_fields f vector sr s.pc) (push_frame board vector sr s)
  unfolding push_frame
  push_frame-OnStack f vector sr s room hsr hpc o =
      push_word-OnStack sr (f + 2) f _ _ (omega arith) room hsr (
        push_long-OnStack s.pc (f + 6) (f + 2) _ _ (omega arith) (omega arith) hpc (
          push_word-OnStack (format_vector vector) (f + 8) (f + 6) [] s (omega arith) (omega arith)
            (omega (arith, bit_and_mask 12 (vector * 4))) o))

  -- The frame of format $A.
  abbrev pub fault_fields : ℕ → ℕ → ℕ → ℕ → ℕ → List Field
  fault_fields f address ssw sr pc =
      field word f sr
      ∷ field long (f + 0x02) pc
      ∷ field word (f + 0x06) 0xa008
      ∷ field word (f + 0x08) 0
      ∷ field word (f + 0x0a) ssw
      ∷ field word (f + 0x0c) 0
      ∷ field word (f + 0x0e) 0
      ∷ field long (f + 0x10) address
      ∷ field word (f + 0x14) 0
      ∷ field word (f + 0x16) 0
      ∷ field long (f + 0x18) 0
      ∷ field long (f + 0x1c) 0
      ∷ []

  word_at :
      (k v f : ℕ) (fs : List Field) (s : Mc68030 Mem)
      → base ≤ f
      → v < 2 ^ 16
      → OnStack (f + (k + 2)) fs s
      → OnStack (f + k) (field word (f + k) v ∷ fs) (push_word board v s)
  word_at k v f fs s room hv o =
      push_word-OnStack v (f + (k + 2)) (f + k) fs s (omega arith) (omega arith) hv o

  long_at :
      (k v f : ℕ) (fs : List Field) (s : Mc68030 Mem)
      → base ≤ f
      → v < 2 ^ 32
      → OnStack (f + (k + 4)) fs s
      → OnStack (f + k) (field long (f + k) v ∷ fs) (push_long board v s)
  long_at k v f fs s room hv o =
      push_long-OnStack v (f + (k + 4)) (f + k) fs s (omega arith) (omega arith) hv o

  -- The frame of a bus error, where its 32 bytes lie in RAM and the MMU is off: A7 points to SR, PC is
  -- at offset 2, the format and vector word 0xA008 at 6, the special status word at 10, the fault
  -- address at 16, and every other word is 0.
  pub push_fault_frame-OnStack :
      (f address ssw sr : ℕ) (s : Mc68030 Mem)
      → base ≤ f
      → address < 2 ^ 32
      → ssw < 2 ^ 16
      → sr < 2 ^ 16
      → s.pc < 2 ^ 32
      → OnStack (f + 32) [] s
      → OnStack f (fault_fields f address ssw sr s.pc) (push_fault_frame board address ssw sr s)
  unfolding push_fault_frame
  push_fault_frame-OnStack f address ssw sr s room ha hssw hsr hpc o =
      let z : 0 < 2 ^ 16 = omega arith in
      let zero_long : 0 < 2 ^ 32 = omega arith in
      push_word-OnStack sr (f + 2) f _ _ (omega arith) room hsr (
        long_at 0x02 s.pc f _ _ room hpc (
          word_at 0x06 0xa008 f _ _ room (omega arith) (
            word_at 0x08 0 f _ _ room z (
              word_at 0x0a ssw f _ _ room hssw (
                word_at 0x0c 0 f _ _ room z (
                  word_at 0x0e 0 f _ _ room z (
                    long_at 0x10 address f _ _ room ha (
                      word_at 0x14 0 f _ _ room z (
                        word_at 0x16 0 f _ _ room z (
                          long_at 0x18 0 f _ _ room zero_long
                            (long_at 0x1c 0 f _ _ room zero_long o)))))))))))
