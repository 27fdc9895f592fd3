-- ===== src/Nvram/Laws.antt =====
-- What is read back from the NVRAM, and what the clock registers show.
use em68030_win_ui3cpp.Common.{
  ℕ, ◌+◌, ◌*◌, ◌/◌, ◌%◌, ◌^◌, ◌≤◌, ◌<◌, ◌≡◌, refl, ◌∙◌, arith, true, List, bit_and, bit_or, ltb,
  ◌==◌, if◌then◌else◌, length, get_or, set, get_or-set, length-set,
}
use em68030_win_ui3cpp.Common.Bits.{bit_and_mask, bit_or_fields}
use em68030_win_ui3cpp.Nvram.Device.{
  Calendar, Nvram, read_byte, read_word, read_long, write_byte, write_word, write_long,
}

abbrev pub base : ℕ
base = 0xfffe0000

-- Below the clock registers an address reads the array.
pub read_ram :
    (now : Calendar) (i : ℕ) (d : Nvram)
    → i < 0x7f8
    → read_byte now (base + i) d ≡ get_or d.nvram i 0
unfolding read_byte
read_ram now i d h = ground arith

pub write_ram :
    (i v : ℕ) (d : Nvram)
    → i < 2048
    → write_byte (base + i) v d ≡ record d { nvram = set d.nvram i v }
unfolding write_byte
write_ram i v d h = ground arith

-- A byte that is written below the clock registers is read back, at any time, and every other byte
-- there stays as it was.
pub read_byte-write_byte :
    (now : Calendar) (i j v : ℕ) (d : Nvram)
    → length d.nvram ≡ 2048
    → i < 0x7f8
    → j < 0x7f8
    → read_byte now (base + j) (write_byte (base + i) v d)
      ≡ (if i == j then v else read_byte now (base + j) d)
read_byte-write_byte now i j v d n hi hj =
    let stored = read_ram now j (record d { nvram = set d.nvram i v }) hj in
    let inside : ltb i (length d.nvram) ≡ true = ground arith in
    rw (write_ram i v d (omega arith), read_ram now j d hj, stored, get_or-set d.nvram i j v 0)
      (ground (arith, inside))

four_bytes :
    (a b c d : ℕ)
    → b < 256
    → c < 256
    → d < 256
    → bit_or (bit_or (a * 2 ^ 8) b * 2 ^ 16) (bit_or (c * 2 ^ 8) d)
      ≡ a * 2 ^ 24 + b * 2 ^ 16 + c * 2 ^ 8 + d
four_bytes a b c d hb hc hd =
    rw (bit_or_fields 8 a b hb, bit_or_fields 8 c d hd)
      (omega (arith, bit_or_fields 16 (a * 2 ^ 8 + b) (c * 2 ^ 8 + d) (omega arith)))

-- Four bytes of the array, read as a long.
pub read_long_ram :
    (now : ℕ → Calendar) (i : ℕ) (d : Nvram)
    → i + 4 ≤ 0x7f8
    → get_or d.nvram (i + 1) 0 < 256
    → get_or d.nvram (i + 2) 0 < 256
    → get_or d.nvram (i + 3) 0 < 256
    → read_long now (base + i) d
      ≡ get_or d.nvram i 0 * 2 ^ 24
        + get_or d.nvram (i + 1) 0 * 2 ^ 16
        + get_or d.nvram (i + 2) 0 * 2 ^ 8
        + get_or d.nvram (i + 3) 0
unfolding read_long read_word
read_long_ram now i d h h1 h2 h3 =
    let a1 : (base + i + 1) % 2 ^ 32 ≡ base + (i + 1) = omega arith in
    let a2 : (base + i + 2) % 2 ^ 32 ≡ base + (i + 2) = omega arith in
    let a3 : (base + (i + 2) + 1) % 2 ^ 32 ≡ base + (i + 3) = omega arith in
    rw
      (
        a1,
        a2,
        a3,
        read_ram (now 0) i d (omega arith),
        read_ram (now 1) (i + 1) d (omega arith),
        read_ram (now 2) (i + 2) d (omega arith),
        read_ram (now 3) (i + 3) d (omega arith),
      )
      (four_bytes (get_or d.nvram i 0) _ _ _ h1 h2 h3)

abbrev stored_long : ℕ → ℕ → List ℕ → List ℕ
stored_long i v m =
    set (set (set (set m i (v / 2 ^ 24)) (i + 1) (v / 2 ^ 16 % 256)) (i + 2) (v / 2 ^ 8 % 256))
      (i + 3) (v % 256)

write_long_ram :
    (i v : ℕ) (d : Nvram)
    → i + 4 ≤ 0x7f8
    → v < 2 ^ 32
    → write_long (base + i) v d ≡ record d { nvram = stored_long i v d.nvram }
unfolding write_long write_word
write_long_ram i v d h hv =
    let a1 : (base + i + 1) % 2 ^ 32 ≡ base + (i + 1) = omega arith in
    let a2 : (base + i + 2) % 2 ^ 32 ≡ base + (i + 2) = omega arith in
    let a3 : (base + (i + 2) + 1) % 2 ^ 32 ≡ base + (i + 3) = omega arith in
    let v0 : v / 2 ^ 16 / 2 ^ 8 ≡ v / 2 ^ 24 = omega arith in
    let v1 : bit_and (v / 2 ^ 16) 0xff ≡ v / 2 ^ 16 % 256 = bit_and_mask 8 (v / 2 ^ 16) in
    let v2 : bit_and v 0xffff / 2 ^ 8 ≡ v / 2 ^ 8 % 256 = omega (arith, bit_and_mask 16 v) in
    let v3 : bit_and (bit_and v 0xffff) 0xff ≡ v % 256 =
      omega (arith, bit_and_mask 16 v, bit_and_mask 8 (bit_and v 0xffff)) in
    rw
      (
        a1,
        a2,
        a3,
        v0,
        v1,
        v2,
        v3,
        write_ram i (v / 2 ^ 24) d (omega arith),
        write_ram (i + 1) (v / 2 ^ 16 % 256) (record d { nvram = set d.nvram i (v / 2 ^ 24) })
            (omega arith),
        write_ram (i + 2) (v / 2 ^ 8 % 256)
            (record d { nvram = set (set d.nvram i (v / 2 ^ 24)) (i + 1) (v / 2 ^ 16 % 256) })
            (omega arith),
        write_ram (i + 3) (v % 256)
            (record d {
              nvram =
                  set (set (set d.nvram i (v / 2 ^ 24)) (i + 1) (v / 2 ^ 16 % 256)) (i + 2)
                    (v / 2 ^ 8 % 256);
            })
            (omega arith),
      )
      refl

-- A long that is written below the clock registers is read back, whatever time passes between the
-- four bytes.
pub read_long-write_long :
    (now : ℕ → Calendar) (i v : ℕ) (d : Nvram)
    → length d.nvram ≡ 2048
    → i + 4 ≤ 0x7f8
    → v < 2 ^ 32
    → read_long now (base + i) (write_long (base + i) v d) ≡ v
read_long-write_long now i v d n h hv =
    let m = stored_long i v d.nvram in
    let b0 : get_or m i 0 ≡ v / 2 ^ 24 = ground (arith, stored i 0) in
    let b1 : get_or m (i + 1) 0 ≡ v / 2 ^ 16 % 256 = ground (arith, stored (i + 1) 0) in
    let b2 : get_or m (i + 2) 0 ≡ v / 2 ^ 8 % 256 = ground (arith, stored (i + 2) 0) in
    let b3 : get_or m (i + 3) 0 ≡ v % 256 = ground (arith, stored (i + 3) 0) in
    rw (write_long_ram i v d h hv) (
      read_long_ram now i (record d { nvram = m }) h (omega arith) (omega arith) (omega arith)
      ∙ omega arith)
  where
    -- A read of the four writes.
    stored :
        (j z : ℕ)
        → get_or (stored_long i v d.nvram) j z ≡ (
            if i + 3 == j
            then v % 256
            else if i + 2 == j
            then v / 2 ^ 8 % 256
            else if i + 1 == j
            then v / 2 ^ 16 % 256
            else if i == j
            then v / 2 ^ 24
            else get_or d.nvram j z)
    stored j z =
        let m1 = set d.nvram i (v / 2 ^ 24) in
        let m2 = set m1 (i + 1) (v / 2 ^ 16 % 256) in
        let m3 = set m2 (i + 2) (v / 2 ^ 8 % 256) in
        ground (
          arith,
          get_or-set m3 (i + 3) j (v % 256) z,
          get_or-set m2 (i + 2) j (v / 2 ^ 8 % 256) z,
          get_or-set m1 (i + 1) j (v / 2 ^ 16 % 256) z,
          get_or-set d.nvram i j (v / 2 ^ 24) z,
          length-set d.nvram i (v / 2 ^ 24),
          length-set m1 (i + 1) (v / 2 ^ 16 % 256),
          length-set m2 (i + 2) (v / 2 ^ 8 % 256),
        )
