-- ===== src/Loader/Tests.antt =====
-- The loader at concrete inputs.
use em68030_win_ui3cpp.Common.{
  arith, ℕ, ◌≡◌, refl, inl, inr, List, [], ◌∷◌, ◌==◌, if◌then◌else◌, replicate,
}
use em68030_win_ui3cpp.Memory.Interface.{Dma}
use em68030_win_ui3cpp.Memory.Interface.{bus_dma}
use em68030_win_ui3cpp.Memory.Store.{Store, RegionType, empty_memory, add_region}
use em68030_win_ui3cpp.Memory.Access.{Devices}
use em68030_win_ui3cpp.Memory.Invariant.{
  IsConsistent, empty_memory-IsConsistent, add_region-IsConsistent,
}
use em68030_win_ui3cpp.Memory.Regions.{none_in_empty}
use em68030_win_ui3cpp.Common.{◌-◌, ◌+◌, true}
use em68030_win_ui3cpp.Memory.Poking.{Bytes}
use em68030_win_ui3cpp.Memory.Store.{find_device}
use em68030_win_ui3cpp.Loader.Elf.{Loaded}
use em68030_win_ui3cpp.Loader.Placing.{
  Becomes, zeroed, overlaid, offset_of, filesz_of, memsz_of, load_segment-Places,
}
use em68030_win_ui3cpp.Loader.Elf.{
  ElfError, load_elf, load_segments, load_segment, poke_file, poke_zeros, finish, read_u16,
  read_u32,
}
use em68030_win_ui3cpp.Loader.Loading.{IsLoaded, load_elf-IsLoaded}

-- A memory of bytes, each at its own address.
abbrev Cells : Type 0
Cells = ℕ → ℕ

abbrev ram : Dma Cells
ram = record {
  peek = λ z a m. record { value = m a; after = m };
  poke = λ z a v m. λ x. if x == a then v else m x;
}

-- A big-endian executable of 52 bytes without program headers.
abbrev bare : List ℕ
bare =
    0x7f
    ∷ 0x45
    ∷ 0x4c
    ∷ 0x46
    ∷ 1
    ∷ 2
    ∷ 1
    ∷ 0
    ∷ 0
    ∷ 0
    ∷ 0
    ∷ 0
    ∷ 0
    ∷ 0
    ∷ 0
    ∷ 0
    ∷ 0
    ∷ 2
    ∷ replicate 34 0

bare_has_no_segments : (load_elf ram bare (λ a. 0)).0 ≡ inl ElfError.no_segments
unfolding load_elf load_segments finish read_u16 read_u32
bare_has_no_segments = refl

-- One with a segment of a byte of the file and a zero, at 0x10.
abbrev program : List ℕ
program =
    0x7f ∷ 0x45 ∷ 0x4c ∷ 0x46 ∷ 1 ∷ 2 ∷ 1 ∷ 0 ∷ 0 ∷ 0 ∷ 0 ∷ 0 ∷ 0 ∷ 0 ∷ 0 ∷ 0 ∷ 0 ∷ 2 ∷ 0 ∷ 4 ∷ 0
    ∷ 0 ∷ 0 ∷ 1 ∷ 0 ∷ 0 ∷ 0 ∷ 16 ∷ 0 ∷ 0 ∷ 0 ∷ 52 ∷ 0 ∷ 0 ∷ 0 ∷ 0 ∷ 0 ∷ 0 ∷ 0 ∷ 0 ∷ 0 ∷ 0 ∷ 0 ∷ 32
    ∷ 0 ∷ 1 ∷ 0 ∷ 0 ∷ 0 ∷ 0 ∷ 0 ∷ 0 ∷ 0 ∷ 0 ∷ 0 ∷ 1 ∷ 0 ∷ 0 ∷ 0 ∷ 0 ∷ 0 ∷ 0 ∷ 0 ∷ 16 ∷ 0 ∷ 0 ∷ 0 ∷ 0
    ∷ 0 ∷ 0 ∷ 0 ∷ 1 ∷ 0 ∷ 0 ∷ 0 ∷ 2 ∷ 0 ∷ 0 ∷ 0 ∷ 0 ∷ 0 ∷ 0 ∷ 0 ∷ 0 ∷ []

program_is_loaded :
    ((load_elf ram program (λ a. 9)).0
      ≡ inr (record {
        entry_point = 16;
        start_address = 16;
        end_address = 18;
        machine = 4;
        segments_loaded = 1;
      }))
    × ((load_elf ram program (λ a. 9)).1 16 ≡ 0x7f)
    × ((load_elf ram program (λ a. 9)).1 17 ≡ 0)
    × ((load_elf ram program (λ a. 9)).1 18 ≡ 9)
unfolding load_elf load_segments load_segment poke_file poke_zeros finish read_u16 read_u32
program_is_loaded = (refl, refl, refl, refl)

load_elf-IsLoaded_example : IsLoaded ram (λ a. 9) (load_elf ram program (λ a. 9))
load_elf-IsLoaded_example = load_elf-IsLoaded ram program (λ a. 9)

-- A bus with 64 bytes of RAM, and no device.
abbrev no_devices : Devices ℕ
no_devices = record {
  device_read = λ z d a s. record { value = 0; after = s };
  device_write = λ z d a v s. s;
}

abbrev bus : Store ℕ
bus = add_region 0 64 RegionType.ram (empty_memory 0)

bus-IsConsistent : IsConsistent bus
unfolding empty_memory
bus-IsConsistent =
    add_region-IsConsistent 0 64 RegionType.ram (empty_memory 0) (empty_memory-IsConsistent 0)
      (omega arith) (λ j a h. none_in_empty a)

bus-Bytes : Bytes no_devices 0 0 64 (replicate 64 0) bus
unfolding empty_memory add_region find_device
bus-Bytes = record {
  consistent = bus-IsConsistent;
  content = refl;
  at_base = refl;
  of_size = refl;
  writable = refl;
  in_space = omega arith;
  uncovered = λ a low high. refl;
}

abbrev nothing_yet : Loaded (Store ℕ)
nothing_yet = record { mem = bus; min_addr = 0xffffffff; max_addr = 0; segments = 0 }

load_segment-Places_example :
    let t = load_segment (bus_dma no_devices) program true 52 nothing_yet in
    Becomes no_devices 0 0 64
      (zeroed
        (memsz_of program true 52 - filesz_of program true 52)
        (16 + filesz_of program true 52)
        (overlaid
          (filesz_of program true 52)
          program
          (offset_of program true 52)
          16
          (replicate 64 0)))
      t.mem
    × (t.segments ≡ 1)
unfolding read_u32
load_segment-Places_example =
    load_segment-Places no_devices 0 0 64 program true 52 16 (replicate 64 0) nothing_yet
      (omega arith) (omega arith) (omega arith) refl (omega arith) bus-Bytes
