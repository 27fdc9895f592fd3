-- ===== src/Loader/Loading.antt =====
-- A file that is refused leaves the memory as it was.
use em68030_win_ui3cpp.Common.{
  ℕ, zero, suc, ◌+◌, ◌*◌, ◌%◌, ◌^◌, ◌≤◌, ◌<◌, ◌≡◌, refl, arith, ◌⊎◌, inl, inr, Bool, true, false,
  not, List, ltb, ◌==◌, if◌then◌else◌, length, get_or, Bool-cases,
}
use em68030_win_ui3cpp.Memory.Interface.{Dma}
use em68030_win_ui3cpp.Loader.Elf.{
  ElfError, ElfLoadResult, Loaded, read_u16, read_u32, load_segment, load_segments, finish,
  load_elf, lacks_magic, lacks_encoding, is_no_program,
}

module _ {Mem : Type 0} (dma : Dma Mem) where
  -- Where no segment has been loaded, nothing has been written.
  load_segments-none :
      (n i e_phoff e_phentsize : ℕ) (file : List ℕ) (big : Bool) (s : Loaded Mem)
      → (s.segments ≤ (load_segments dma n i file big e_phoff e_phentsize s).segments)
        × ((load_segments dma n i file big e_phoff e_phentsize s).segments ≡ s.segments
            → (load_segments dma n i file big e_phoff e_phentsize s).mem ≡ s.mem)
  unfolding load_segments load_segment
  load_segments-none zero i e_phoff e_phentsize file big s = (omega arith, λ h. refl)
  load_segments-none (suc n) i e_phoff e_phentsize file big s =
      let ph = (e_phoff + i * e_phentsize) % 2 ^ 32 in
      elim (Bool-cases (ltb (length file) ((ph + e_phentsize) % 2 ^ 32))) [
        | inl e ↦ rw e (omega arith, λ h. refl)
        | inr e ↦ elim (Bool-cases (read_u32 file ph big == 1)) [
          | inl p ↦
              let (more, _) =
                load_segments-none n (suc i) e_phoff e_phentsize file big
                  (load_segment dma file big ph s) in
              rw (e, p) (omega (arith, more), λ h. absurd (omega (arith, more)))
          | inr p ↦ rw (e, p) (load_segments-none n (suc i) e_phoff e_phentsize file big s)
        ]
      ]

  -- What `LoadElf` comes to: a result that counts at least one segment, or an error and the memory it
  -- was given.
  abbrev pub IsLoaded : Mem → (ElfError ⊎ ElfLoadResult) × Mem → Type 0
  IsLoaded m r =
      ((l : ElfLoadResult) × (r.0 ≡ inr l) × (0 < l.segments_loaded))
      ⊎ ((e : ElfError) × (r.0 ≡ inl e) × (r.1 ≡ m))

  if-IsLoaded :
      (m : Mem) (b : Bool) (e : ElfError) (r : (ElfError ⊎ ElfLoadResult) × Mem)
      → IsLoaded m r
      → IsLoaded m (if b then (inl e, m) else r)
  if-IsLoaded m true e r h = inr (e, refl, refl)
  if-IsLoaded m false e r h = h

  finish-IsLoaded :
      (e_entry e_machine : ℕ) (m : Mem) (s : Loaded Mem)
      → (s.segments ≡ 0 → s.mem ≡ m)
      → IsLoaded m (finish dma e_entry e_machine s)
  unfolding finish
  finish-IsLoaded e_entry e_machine m s h = elim (Bool-cases (s.segments == 0)) [
    | inl e ↦ rw e (inr (ElfError.no_segments, refl, h (ground arith)))
    | inr e ↦ rw e (inl (_, refl, ground arith))
  ]

  -- Whatever the file holds, `LoadElf` either gives a result that counts at least one segment, or
  -- throws and leaves the memory as it was.
  pub load_elf-IsLoaded : (file : List ℕ) (m : Mem) → IsLoaded m (load_elf dma file m)
  unfolding load_elf
  load_elf-IsLoaded file m =
      let big = get_or file 5 0 == 2 in
      let start : Loaded Mem = record {
        mem = m;
        min_addr = 0xffffffff;
        max_addr = 0;
        segments = 0;
      } in
      let untouched =
        load_segments-none (read_u16 file 44 big) 0 (read_u32 file 28 big) (read_u16 file 42 big)
          file big start in
      let e_type = read_u16 file 16 big in
      let loaded =
        load_segments dma (read_u16 file 44 big) 0 file big (read_u32 file 28 big)
          (read_u16 file 42 big) start in
      let done =
        finish-IsLoaded (read_u32 file 24 big) (read_u16 file 18 big) m loaded (untouched.1) in
      if-IsLoaded m (lacks_magic file) ElfError.not_elf _ (
        if-IsLoaded m (not (get_or file 4 0 == 1)) ElfError.not_32_bit _ (
          if-IsLoaded m (lacks_encoding file) ElfError.unknown_encoding _
            (if-IsLoaded m (is_no_program e_type) (ElfError.not_executable e_type) _ done)))
