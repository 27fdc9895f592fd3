-- ===== src/Common/Bytes.antt =====
-- Numbers of one, two and four bytes in a big-endian array.
use em68030_win_ui3cpp.Common.{
  ℕ, ◌+◌, ◌*◌, ◌/◌, ◌%◌, ◌^◌, ◌<◌, ◌≡◌, refl, ◌⊎◌, arith, List, bit_or, ◌==◌, if◌then◌else◌, length,
  get_or, set, get_or-set, length-set, ◌∙◌,
}
use em68030_win_ui3cpp.Common.Bits.{bit_or_fields}
use em68030_win_ui3cpp.Common.Size.{Size, byte, word, long, modulus}

-- The offset of the last byte.
abbrev pub last : Size → ℕ
last byte = 0
last word = 1
last long = 3

unfoldable pub read_be : Size → List ℕ → ℕ → ℕ
read_be byte m i = get_or m i 0
read_be word m i = bit_or (get_or m i 0 * 2 ^ 8) (get_or m (i + 1) 0)
read_be long m i =
    bit_or
      (bit_or (bit_or (get_or m i 0 * 2 ^ 24) (get_or m (i + 1) 0 * 2 ^ 16))
        (get_or m (i + 2) 0 * 2 ^ 8))
      (get_or m (i + 3) 0)

unfoldable pub write_be : Size → ℕ → List ℕ → ℕ → List ℕ
write_be byte v m i = set m i v
write_be word v m i = set (set m i (v / 2 ^ 8 % 2 ^ 8)) (i + 1) (v % 2 ^ 8)
write_be long v m i =
    set
      (set (set (set m i (v / 2 ^ 24 % 2 ^ 8)) (i + 1) (v / 2 ^ 16 % 2 ^ 8)) (i + 2)
        (v / 2 ^ 8 % 2 ^ 8))
      (i + 3) (v % 2 ^ 8)

pub length-write_be : (z : Size) (v : ℕ) (m : List ℕ) (i : ℕ) → length (write_be z v m i) ≡ length m
unfolding write_be
length-write_be byte v m i = length-set m i v
length-write_be word v m i = length-set (set m i _) (i + 1) _ ∙ length-set m i _
length-write_be long v m i =
    length-set (set (set (set m i _) (i + 1) _) (i + 2) _) (i + 3) _
    ∙ length-set (set (set m i _) (i + 1) _) (i + 2) _
    ∙ length-set (set m i _) (i + 1) _
    ∙ length-set m i _

-- A long by its four bytes.
pub long_by_bytes :
    (a b c d : ℕ)
    → b < 256
    → c < 256
    → d < 256
    → bit_or (bit_or (bit_or (a * 2 ^ 24) (b * 2 ^ 16)) (c * 2 ^ 8)) d
      ≡ a * 2 ^ 24 + b * 2 ^ 16 + c * 2 ^ 8 + d
long_by_bytes a b c d hb hc hd =
    let first : bit_or (a * 2 ^ 24) (b * 2 ^ 16) ≡ (a * 2 ^ 8 + b) * 2 ^ 16 =
      omega (arith, bit_or_fields 24 a (b * 2 ^ 16) (omega arith)) in
    let second : bit_or ((a * 2 ^ 8 + b) * 2 ^ 16) (c * 2 ^ 8)
        ≡ (a * 2 ^ 16 + b * 2 ^ 8 + c) * 2 ^ 8 =
      omega (arith, bit_or_fields 16 (a * 2 ^ 8 + b) (c * 2 ^ 8) (omega arith)) in
    rw (first, second) (omega (arith, bit_or_fields 8 (a * 2 ^ 16 + b * 2 ^ 8 + c) d (omega arith)))

-- What is written is read back, where the bytes lie in the array.
pub read_be-write_be :
    (z : Size) (v : ℕ) (m : List ℕ) (i : ℕ)
    → v < modulus z
    → i + last z < length m
    → read_be z (write_be z v m i) i ≡ v
unfolding read_be write_be
read_be-write_be byte v m i hv h = ground (arith, get_or-set m i i v 0)
read_be-write_be word v m i hv h =
    let m1 = set m i (v / 2 ^ 8 % 2 ^ 8) in
    let b0 : get_or (set m1 (i + 1) (v % 2 ^ 8)) i 0 ≡ v / 2 ^ 8 % 2 ^ 8 =
      ground
        (arith, get_or-set m1 (i + 1) i (v % 2 ^ 8) 0, get_or-set m i i (v / 2 ^ 8 % 2 ^ 8) 0) in
    let b1 : get_or (set m1 (i + 1) (v % 2 ^ 8)) (i + 1) 0 ≡ v % 2 ^ 8 =
      ground
        (arith, get_or-set m1 (i + 1) (i + 1) (v % 2 ^ 8) 0, length-set m i (v / 2 ^ 8 % 2 ^ 8)) in
    rw (b0, b1) (omega (arith, bit_or_fields 8 (v / 2 ^ 8 % 2 ^ 8) (v % 2 ^ 8) (omega arith)))
read_be-write_be long v m i hv h =
    let m1 = set m i (v / 2 ^ 24 % 2 ^ 8) in
    let m2 = set m1 (i + 1) (v / 2 ^ 16 % 2 ^ 8) in
    let m3 = set m2 (i + 2) (v / 2 ^ 8 % 2 ^ 8) in
    let m4 = set m3 (i + 3) (v % 2 ^ 8) in
    let n1 = length-set m i (v / 2 ^ 24 % 2 ^ 8) in
    let n2 = length-set m1 (i + 1) (v / 2 ^ 16 % 2 ^ 8) in
    let n3 = length-set m2 (i + 2) (v / 2 ^ 8 % 2 ^ 8) in
    let at : (j : ℕ)
        → get_or m4 j 0 ≡ (
            if i + 3 == j
            then v % 2 ^ 8
            else if i + 2 == j
            then v / 2 ^ 8 % 2 ^ 8
            else if i + 1 == j
            then v / 2 ^ 16 % 2 ^ 8
            else if i == j
            then v / 2 ^ 24 % 2 ^ 8
            else get_or m j 0) =
      λ j. ground (
        arith,
        get_or-set m3 (i + 3) j (v % 2 ^ 8) 0,
        get_or-set m2 (i + 2) j (v / 2 ^ 8 % 2 ^ 8) 0,
        get_or-set m1 (i + 1) j (v / 2 ^ 16 % 2 ^ 8) 0,
        get_or-set m i j (v / 2 ^ 24 % 2 ^ 8) 0,
      ) in
    let b0 : get_or m4 i 0 ≡ v / 2 ^ 24 % 2 ^ 8 = ground (arith, at i) in
    let b1 : get_or m4 (i + 1) 0 ≡ v / 2 ^ 16 % 2 ^ 8 = ground (arith, at (i + 1)) in
    let b2 : get_or m4 (i + 2) 0 ≡ v / 2 ^ 8 % 2 ^ 8 = ground (arith, at (i + 2)) in
    let b3 : get_or m4 (i + 3) 0 ≡ v % 2 ^ 8 = ground (arith, at (i + 3)) in
    rw (b0, b1, b2, b3)
      (long_by_bytes (v / 2 ^ 24 % 2 ^ 8) (v / 2 ^ 16 % 2 ^ 8) (v / 2 ^ 8 % 2 ^ 8) (v % 2 ^ 8)
          (omega arith) (omega arith) (omega arith)
        ∙ omega arith)

get_or-write_be :
    (z : Size) (v : ℕ) (m : List ℕ) (i j : ℕ)
    → (j < i) ⊎ (i + last z < j)
    → get_or (write_be z v m i) j 0 ≡ get_or m j 0
unfolding write_be
get_or-write_be byte v m i j h = ground (arith, get_or-set m i j v 0)
get_or-write_be word v m i j h = ground (
  arith,
  get_or-set (set m i (v / 2 ^ 8 % 2 ^ 8)) (i + 1) j (v % 2 ^ 8) 0,
  get_or-set m i j (v / 2 ^ 8 % 2 ^ 8) 0,
)
get_or-write_be long v m i j h =
    let m1 = set m i (v / 2 ^ 24 % 2 ^ 8) in
    let m2 = set m1 (i + 1) (v / 2 ^ 16 % 2 ^ 8) in
    let m3 = set m2 (i + 2) (v / 2 ^ 8 % 2 ^ 8) in
    ground (
      arith,
      get_or-set m3 (i + 3) j (v % 2 ^ 8) 0,
      get_or-set m2 (i + 2) j (v / 2 ^ 8 % 2 ^ 8) 0,
      get_or-set m1 (i + 1) j (v / 2 ^ 16 % 2 ^ 8) 0,
      get_or-set m i j (v / 2 ^ 24 % 2 ^ 8) 0,
    )

-- A write elsewhere is not seen.
pub read_be-write_be_apart :
    (y z : Size) (v : ℕ) (m : List ℕ) (i j : ℕ)
    → (j + last y < i) ⊎ (i + last z < j)
    → read_be y (write_be z v m i) j ≡ read_be y m j
unfolding read_be
read_be-write_be_apart byte z v m i j h = get_or-write_be z v m i j (ground arith)
read_be-write_be_apart word z v m i j h =
    rw (get_or-write_be z v m i j (ground arith), get_or-write_be z v m i (j + 1) (ground arith))
      refl
read_be-write_be_apart long z v m i j h =
    rw
      (
        get_or-write_be z v m i j (ground arith),
        get_or-write_be z v m i (j + 1) (ground arith),
        get_or-write_be z v m i (j + 2) (ground arith),
        get_or-write_be z v m i (j + 3) (ground arith),
      )
      refl
