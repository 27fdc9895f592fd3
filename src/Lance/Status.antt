-- ===== src/Lance/Status.antt =====
-- What CSR0 shows when it is read.
use em68030_win_ui3cpp.Common.{
  ℕ, ◌-◌, ◌*◌, ◌^◌, ◌<◌, ◌≡◌, refl, ap, ◌∙◌, arith, Bool, true, false, bit_and, bit_or,
  if◌then◌else◌, has,
}
use em68030_win_ui3cpp.Common.Bits.{
  bit_and-zero, bit_or-zero, bit_and_bit, bit_at, bit_at-bit_or, bit_at-lt, bit_at_div,
}
use em68030_win_ui3cpp.Common.Bits.Masks.{bit_and-bit_or, bit_and_assoc}
use em68030_win_ui3cpp.Lance.State.{Lance, csr0, clear16, wants_interrupt, read_csr}

-- A mask does not see bits outside it that are set or cleared.
abbrev change : Bool → ℕ → ℕ → ℕ
change set v bits = if set then bit_or v bits else clear16 v bits

change-unseen :
    (set : Bool) (v bits mask : ℕ)
    → bit_and bits mask ≡ 0
    → bit_and (0xffff - bits) mask ≡ mask
    → bit_and (change set v bits) mask ≡ bit_and v mask
change-unseen true v bits mask apart rest =
    bit_and-bit_or v bits mask
    ∙ ap (bit_or (bit_and v mask)) apart
    ∙ bit_or-zero (bit_and v mask) (bit_and v mask) (omega arith)
change-unseen false v bits mask apart rest =
    bit_and_assoc v (0xffff - bits) mask ∙ ap (bit_and v) rest

-- It sees a bit as it was set or cleared.
change-seen :
    (k v bits : ℕ) (set : Bool)
    → bit_at k bits ≡ 1
    → bit_and (0xffff - bits) (2 ^ k) ≡ 0
    → bit_and (change set v bits) (2 ^ k) ≡ (if set then 2 ^ k else 0)
change-seen k v bits true one rest =
    let on : bit_at k (bit_or v bits) ≡ 1 = ground (arith, bit_at-bit_or k v bits, bit_at-lt k v) in
    bit_and_bit k (bit_or v bits) ∙ ap (λ (t : ℕ). t * 2 ^ k) on ∙ omega arith
change-seen k v bits false one rest =
    bit_and_assoc v (0xffff - bits) (2 ^ k) ∙ ap (bit_and v) rest ∙ bit_and-zero v

-- What is shown: three groups of bits are set or cleared.
abbrev shown : Bool → Bool → Bool → ℕ → ℕ
shown err on intr v = change intr (change on (change err v 0x8000) 0x0030) 0x0080

unseen :
    (err on intr : Bool) (v mask : ℕ)
    → bit_and 0x8000 mask ≡ 0
    → bit_and 0x7fff mask ≡ mask
    → bit_and 0x0030 mask ≡ 0
    → bit_and 0xffcf mask ≡ mask
    → bit_and 0x0080 mask ≡ 0
    → bit_and 0xff7f mask ≡ mask
    → bit_and (shown err on intr v) mask ≡ bit_and v mask
unseen err on intr v mask a b c d e f =
    change-unseen intr (change on (change err v 0x8000) 0x0030) 0x0080 mask e f
    ∙ change-unseen on (change err v 0x8000) 0x0030 mask c d
    ∙ change-unseen err v 0x8000 mask a b

has-if : (x m : ℕ) (b : Bool) → 0 < m → bit_and x m ≡ (if b then m else 0) → has x m ≡ b
has-if x m true p h = ground arith
has-if x m false p h = ground arith

shown_lem :
    (err on intr : Bool) (v : ℕ)
    → (has (shown err on intr v) 0x8000 ≡ err)
      × (has (shown err on intr v) 0x0020 ≡ on)
      × (has (shown err on intr v) 0x0010 ≡ on)
      × (has (shown err on intr v) 0x0080 ≡ intr)
shown_lem err on intr v =
    let a = change err v 0x8000 in
    let b = change on a 0x0030 in
    let c = change intr b 0x0080 in
    (
      has-if c 0x8000 err (omega arith) (
          change-unseen intr b 0x0080 0x8000 refl refl
          ∙ change-unseen on a 0x0030 0x8000 refl refl
          ∙ change-seen 15 v 0x8000 err (bit_at_div 15 0x8000) refl),
      has-if c 0x0020 on (omega arith) (
          change-unseen intr b 0x0080 0x0020 refl refl
          ∙ change-seen 5 a 0x0030 on (bit_at_div 5 0x0030) refl),
      has-if c 0x0010 on (omega arith) (
          change-unseen intr b 0x0080 0x0010 refl refl
          ∙ change-seen 4 a 0x0030 on (bit_at_div 4 0x0030) refl),
      has-if c 0x0080 intr (omega arith) (change-seen 7 b 0x0080 intr (bit_at_div 7 0x0080) refl),
    )

-- Reading CSR0 shows ERR exactly where one of BABL, CERR, MISS and MERR is stored, RXON and TXON
-- exactly while the device runs, INTR exactly where a status bit and INEA are stored, and the other
-- bits as they are stored.
pub read_csr_lem :
    (d : Lance)
    → (has (read_csr 0 d) 0x8000 ≡ has (csr0 d) 0x7800)
      × (has (read_csr 0 d) 0x0020 ≡ d.running)
      × (has (read_csr 0 d) 0x0010 ≡ d.running)
      × (has (read_csr 0 d) 0x0080 ≡ wants_interrupt (csr0 d))
      × (bit_and (read_csr 0 d) 0x7f4f ≡ bit_and (csr0 d) 0x7f4f)
unfolding read_csr
read_csr_lem d =
    let v = csr0 d in
    let err = has v 0x7800 in
    let a = change err v 0x8000 in
    let b = change d.running a 0x0030 in
    let intr = wants_interrupt b in
    let on_status : bit_and b 0x7f00 ≡ bit_and v 0x7f00 =
      change-unseen d.running a 0x0030 0x7f00 refl refl
      ∙ change-unseen err v 0x8000 0x7f00 refl refl in
    let on_enable : bit_and b 0x0040 ≡ bit_and v 0x0040 =
      change-unseen d.running a 0x0030 0x0040 refl refl
      ∙ change-unseen err v 0x8000 0x0040 refl refl in
    let same : intr ≡ wants_interrupt v = rw (on_status, on_enable) refl in
    let (h15, h5, h4, h7) = shown_lem err d.running intr v in
    (h15, h5, h4, h7 ∙ same, unseen err d.running intr v 0x7f4f refl refl refl refl refl refl)
