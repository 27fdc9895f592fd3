-- ===== src/Loader/Placing.antt =====
-- The bytes that a segment leaves in a region of RAM.
use em68030_win_ui3cpp.Common.{
  ℕ, zero, suc, ◌+◌, ◌-◌, ◌%◌, ◌^◌, ◌≤◌, ◌<◌, ◌≡◌, refl, ap, ◌∙◌, arith, Bool, inl, inr, Bool-cases,
  ◌&&◌, List, length, get_or, set, get_or-set, ltb, leb, ◌==◌, if◌then◌else◌,
}
use mathlib.Core.Path.{subst}
use em68030_win_ui3cpp.Common.Size.{byte}
use em68030_win_ui3cpp.Common.Bytes.{write_be}
use em68030_win_ui3cpp.Cpu.Keeping.{if-P_eq}
use em68030_win_ui3cpp.Memory.Store.{Store}
use em68030_win_ui3cpp.Memory.Access.{Devices}
use em68030_win_ui3cpp.Memory.Debug.{poke}
use em68030_win_ui3cpp.Memory.Interface.{bus_dma}
use em68030_win_ui3cpp.Memory.Holding.{length-HoldsRegion}
use em68030_win_ui3cpp.Memory.Poking.{in_bus, Bytes, poke-Bytes}
use em68030_win_ui3cpp.Loader.Elf.{Loaded, at32, read_u32, poke_file, poke_zeros, load_segment}

-- From index `j` on, `n` bytes of the file from `offset` on.
abbrev pub overlaid : ℕ → List ℕ → ℕ → ℕ → List ℕ → ℕ → ℕ
overlaid n file offset j old x =
    if leb j x && ltb x (j + n) then get_or file (offset + (x - j)) 0 else get_or old x 0

-- From index `j` on, `n` zeros.
abbrev pub zeroed : ℕ → ℕ → (ℕ → ℕ) → ℕ → ℕ
zeroed n j old x = if leb j x && ltb x (j + n) then 0 else old x

-- The values of one header of a segment.
abbrev pub offset_of : List ℕ → Bool → ℕ → ℕ
offset_of file big ph = read_u32 file (ph + 4) big

abbrev pub address_of : List ℕ → Bool → ℕ → ℕ
address_of file big ph = read_u32 file (ph + 8) big

abbrev pub filesz_of : List ℕ → Bool → ℕ → ℕ
filesz_of file big ph = read_u32 file (ph + 16) big

abbrev pub memsz_of : List ℕ → Bool → ℕ → ℕ
memsz_of file big ph = read_u32 file (ph + 20) big

module _ {World : Type 0} (devices : Devices World) (i base size : ℕ) where
  -- The region's bytes after, by index.
  abbrev pub Becomes : (ℕ → ℕ) → Store World → Type 0
  Becomes f m =
      (bytes : List ℕ) × Bytes devices i base size bytes m × ((x : ℕ) → get_or bytes x 0 ≡ f x)

  poked :
      (j v : ℕ) (bytes : List ℕ) (m : Store World)
      → Bytes devices i base size bytes m
      → j < size
      → Bytes devices i base size (set bytes j v) (poke byte (base + j) v m)
  unfolding write_be
  poked j v bytes m h inside =
      let at : base + j - base ≡ j = omega arith in
      subst (λ (x : ℕ). Bytes devices i base size (set bytes x v) (poke byte (base + j) v m)) at
        (poke-Bytes devices i base size byte (base + j) v bytes m h (omega arith) (omega arith))

  poke_file-Becomes :
      (n : ℕ) (file : List ℕ) (offset j : ℕ) (bytes : List ℕ) (m : Store World)
      → offset + n < 2 ^ 32
      → j + n ≤ size
      → Bytes devices i base size bytes m
      → Becomes
          (overlaid n file offset j bytes)
          (poke_file (bus_dma devices) n file offset (base + j) m)
  unfolding poke_file
  poke_file-Becomes zero file offset j bytes m fits inside h = (bytes, h, λ x. ground arith)
  poke_file-Becomes (suc n) file offset j bytes m fits inside h =
      let v = at32 file offset in
      let byte_of : v ≡ get_or file offset 0 = ap (λ (k : ℕ). get_or file k 0) (omega arith) in
      let space = h.in_space in
      let next : (base + j + 1) % 2 ^ 32 ≡ base + suc j = omega arith in
      let following : (offset + 1) % 2 ^ 32 ≡ suc offset = omega arith in
      let now = poked j v bytes m h (omega arith) in
      let all = length-HoldsRegion devices i base size bytes (in_bus m) h in
      let (bs, held, values) =
        poke_file-Becomes n file (suc offset) (suc j) (set bytes j v) (poke byte (base + j) v m)
          (omega arith) (omega arith) now in
      rw (next, following) (bs, held, λ x. values x ∙ shifted x byte_of all)
    where
      shifted :
          (x : ℕ)
          → at32 file offset ≡ get_or file offset 0
          → length bytes ≡ size
          → overlaid n file (suc offset) (suc j) (set bytes j (at32 file offset)) x
            ≡ overlaid (suc n) file offset j bytes x
      shifted x e all =
          let v = at32 file offset in
          let stored = get_or-set bytes j x v 0 in
          elim (Bool-cases (ltb j x)) [
            | inl above ↦
                let same : suc offset + (x - suc j) ≡ offset + (x - j) = ground arith in
                rw same (ground (arith, stored, all))
            | inr below ↦ elim (Bool-cases (x == j)) [
              | inl here ↦
                  let same : offset + (x - j) ≡ offset = ground arith in
                  rw same (ground (arith, stored, e, all))
              | inr under ↦ ground (arith, stored, all)
            ]
          ]

  poke_zeros-Becomes :
      (n j : ℕ) (bytes : List ℕ) (m : Store World)
      → j + n ≤ size
      → Bytes devices i base size bytes m
      → Becomes (zeroed n j (λ x. get_or bytes x 0)) (poke_zeros (bus_dma devices) n (base + j) m)
  unfolding poke_zeros
  poke_zeros-Becomes zero j bytes m inside h = (bytes, h, λ x. ground arith)
  poke_zeros-Becomes (suc n) j bytes m inside h =
      let space = h.in_space in
      let next : (base + j + 1) % 2 ^ 32 ≡ base + suc j = omega arith in
      let now = poked j 0 bytes m h (omega arith) in
      let all = length-HoldsRegion devices i base size bytes (in_bus m) h in
      let (bs, held, values) =
        poke_zeros-Becomes n (suc j) (set bytes j 0) (poke byte (base + j) 0 m) (omega arith) now in
      rw next (bs, held, λ x. values x ∙ ground (arith, get_or-set bytes j x 0 0, all))

  -- A segment after the test of its bytes.
  filled-Becomes :
      (n : ℕ) (file : List ℕ) (offset j : ℕ) (bytes : List ℕ) (m : Store World)
      → offset + n ≤ length file
      → length file < 2 ^ 32
      → j + n ≤ size
      → Bytes devices i base size bytes m
      → Becomes (overlaid n file offset j bytes) (
          if ltb 0 n && leb ((offset + n) % 2 ^ 32) (length file)
          then poke_file (bus_dma devices) n file offset (base + j) m
          else m)
  filled-Becomes n file offset j bytes m whole small inside h =
      let wraps : (offset + n) % 2 ^ 32 ≡ offset + n = omega arith in
      if-P_eq (Becomes (overlaid n file offset j bytes)) _ _ _
        (λ e. poke_file-Becomes n file offset j bytes m (omega arith) inside h)
        (λ e. let nothing : n ≡ 0 = ground (arith, e, wraps) in (bytes, h, λ x. ground arith))

  -- A PT_LOAD segment that the file holds, into RAM that no device covers: the file's bytes from the
  -- segment's offset on lie at its address, zeros follow up to its size in memory, every other byte of
  -- the RAM is as it was, and one more segment is counted. For a file below 4 GB, a size in memory that
  -- is no less than the one in the file, and a segment that lies in the RAM.
  pub load_segment-Places :
      (file : List ℕ) (big : Bool) (ph j : ℕ) (bytes : List ℕ) (s : Loaded (Store World))
      → let offset = offset_of file big ph in
        let filesz = filesz_of file big ph in
        let memsz = memsz_of file big ph in
        length file < 2 ^ 32
        → offset + filesz ≤ length file
        → filesz ≤ memsz
        → address_of file big ph ≡ base + j
        → j + memsz ≤ size
        → Bytes devices i base size bytes s.mem
        → let t = load_segment (bus_dma devices) file big ph s in
          Becomes (zeroed (memsz - filesz) (j + filesz) (overlaid filesz file offset j bytes)) t.mem
          × (t.segments ≡ s.segments + 1)
  unfolding load_segment
  load_segment-Places file big ph j bytes s small whole sizes at inside h =
      let offset = offset_of file big ph in
      let filesz = filesz_of file big ph in
      let memsz = memsz_of file big ph in
      let (bs, held, values) =
        filled-Becomes filesz file offset j bytes s.mem whole small (omega arith) h in
      let space = h.in_space in
      let behind : (base + j + filesz) % 2 ^ 32 ≡ base + (j + filesz) = omega arith in
      let (cs, kept, zeros) =
        poke_zeros-Becomes (memsz - filesz) (j + filesz) bs _ (omega arith) held in
      rw (at, behind)
        (
          (
            cs,
            kept,
            λ x.
                zeros x
                ∙ ap
                    (λ (v : ℕ).
                      if leb (j + filesz) x && ltb x (j + filesz + (memsz - filesz)) then 0 else v)
                    (values x),
          ),
          refl,
        )
