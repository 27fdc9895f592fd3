-- ===== src/Cpu/Addressing.antt =====
-- The effective addresses of Em68030/Core/AddressingModes.h and AddressingModes.cpp. A size is a Size;
-- `s_rmwAddress` is a field of the CPU.
use em68030_win_ui3cpp.Common.{
  ℕ, ◌+◌, ◌*◌, ◌/◌, ◌%◌, ◌^◌, ◌&&◌, Option, none, some, bit_and, leb, ◌==◌, if◌then◌else◌, has,
  get_or,
}
use em68030_win_ui3cpp.Common.Size.{Size, byte, word, long}
use em68030_win_ui3cpp.Mmu.Walk.{Reading}
use em68030_win_ui3cpp.Cpu.State.{Mc68030, add32, sub32, address_register, set_address_register}
use em68030_win_ui3cpp.Cpu.Access.{
  Board, reading, read_byte, read_word, read_long, write_byte, write_word, write_long,
}
use em68030_win_ui3cpp.Cpu.Fetch.{fetch_word, fetch_long}

pub data AddressingMode : Type 0 where
  data_reg_direct addr_reg_direct addr_reg_indirect addr_reg_post_inc addr_reg_pre_dec :
      AddressingMode
  addr_reg_disp addr_reg_index abs_short abs_long immediate pc_disp pc_index : AddressingMode

-- Mode 7; `none` is the exception for a field that is no mode.
unfoldable pub decode_special : ℕ → Option (AddressingMode × ℕ)
decode_special reg_field =
    if reg_field == 0
    then some (abs_short, 0)
    else if reg_field == 1
    then some (abs_long, 0)
    else if reg_field == 2
    then some (pc_disp, 0)
    else if reg_field == 3
    then some (pc_index, 0)
    else if reg_field == 4
    then some (immediate, 0)
    else none

unfoldable pub decode_mode : ℕ → ℕ → Option (AddressingMode × ℕ)
decode_mode mode_field reg_field =
    if mode_field == 0
    then some (data_reg_direct, reg_field)
    else if mode_field == 1
    then some (addr_reg_direct, reg_field)
    else if mode_field == 2
    then some (addr_reg_indirect, reg_field)
    else if mode_field == 3
    then some (addr_reg_post_inc, reg_field)
    else if mode_field == 4
    then some (addr_reg_pre_dec, reg_field)
    else if mode_field == 5
    then some (addr_reg_disp, reg_field)
    else if mode_field == 6
    then some (addr_reg_index, reg_field)
    else if mode_field == 7
    then decode_special reg_field
    else none

-- The casts of `int8_t` and `int16_t` to 32 bits.
abbrev pub extend8 : ℕ → ℕ
extend8 v = if leb 0x80 (v % 2 ^ 8) then v % 2 ^ 8 + 0xffffff00 else v % 2 ^ 8

abbrev pub extend16 : ℕ → ℕ
extend16 v = if leb 0x8000 (v % 2 ^ 16) then v % 2 ^ 16 + 0xffff0000 else v % 2 ^ 16

abbrev pub bytes : Size → ℕ
bytes byte = 1
bytes word = 2
bytes long = 4

-- A7 stays even.
abbrev pub increment : ℕ → Size → ℕ
increment reg z = if (reg == 7) && (bytes z == 1) then 2 else bytes z

module _ {Mem : Type 0} where
  abbrev pub data_register : ℕ → Mc68030 Mem → ℕ
  data_register reg s = get_or s.d reg 0

  -- The index register, extended and scaled.
  unfoldable pub index_value : ℕ → Mc68030 Mem → ℕ
  index_value ext s =
      let reg = bit_and (bit_and (ext / 2 ^ 12) 0xf) 7 in
      let v = (if has ext 0x8000 then address_register reg s else data_register reg s) in
      let extended = (if has ext 0x0800 then v else extend16 v) in
      extended * 2 ^ bit_and (ext / 2 ^ 9) 3 % 2 ^ 32

module _ {Mem : Type 0} (board : Board Mem) where
  -- A displacement of no, one or two words: `size` is 2 for a word and 3 for a long.
  unfoldable pub fetch_displacement : ℕ → Mc68030 Mem → Reading (Mc68030 Mem)
  fetch_displacement size s =
      let w = fetch_word board s in
      if size == 2
      then reading (extend16 w.value) w.after
      else if size == 3
      then fetch_long board s
      else reading 0 s

  -- The full extension word.
  unfoldable pub resolve_full : ℕ → ℕ → ℕ → Mc68030 Mem → Reading (Mc68030 Mem)
  resolve_full ext base_addr index_val s =
      let disp = fetch_displacement (bit_and (ext / 2 ^ 4) 3) s in
      let base = (if has ext 0x0080 then 0 else base_addr) in
      let idx = (if has ext 0x0040 then 0 else index_val) in
      let iis = bit_and ext 7 in
      let based = add32 base disp.value in
      let pre = read_long board (add32 based idx) disp.after in
      let pre_outer = fetch_displacement (bit_and iis 3) pre.after in
      let post = read_long board based disp.after in
      let post_outer = fetch_displacement (bit_and iis 3) post.after in
      if iis == 0
      then reading (add32 based idx) disp.after
      else if bit_and iis 4 == 0
      then reading (add32 pre.value pre_outer.value) pre_outer.after
      else reading (add32 (add32 post.value idx) post_outer.value) post_outer.after

  unfoldable pub resolve_indexed : ℕ → Mc68030 Mem → Reading (Mc68030 Mem)
  resolve_indexed base_addr s =
      let ext = fetch_word board s in
      let index_val = index_value ext.value ext.after in
      if has ext.value 0x0100
      then resolve_full ext.value base_addr index_val ext.after
      else reading (add32 (add32 base_addr (extend8 ext.value)) index_val) ext.after

  unfoldable pub resolve_address : AddressingMode → ℕ → Size → Mc68030 Mem → Reading (Mc68030 Mem)
  resolve_address addr_reg_indirect reg z s = reading (address_register reg s) s
  resolve_address addr_reg_post_inc reg z s =
      let addr = address_register reg s in
      reading addr (set_address_register reg (add32 addr (increment reg z)) s)
  resolve_address addr_reg_pre_dec reg z s =
      let addr = sub32 (address_register reg s) (increment reg z) in
      reading addr (set_address_register reg addr s)
  resolve_address addr_reg_disp reg z s =
      let disp = fetch_word board s in
      reading (add32 (address_register reg disp.after) (extend16 disp.value)) disp.after
  resolve_address addr_reg_index reg z s = resolve_indexed (address_register reg s) s
  resolve_address abs_short reg z s =
      let addr = fetch_word board s in reading (extend16 addr.value) addr.after
  resolve_address abs_long reg z s = fetch_long board s
  resolve_address pc_disp reg z s =
      let disp = fetch_word board s in reading (add32 s.pc (extend16 disp.value)) disp.after
  resolve_address pc_index reg z s = resolve_indexed s.pc s
  resolve_address data_reg_direct reg z s = reading 0 s
  resolve_address addr_reg_direct reg z s = reading 0 s
  resolve_address immediate reg z s = reading 0 s

  unfoldable pub read_sized : Size → ℕ → Mc68030 Mem → Reading (Mc68030 Mem)
  read_sized byte addr s = read_byte board addr s
  read_sized word addr s = read_word board addr s
  read_sized long addr s = read_long board addr s

  unfoldable pub write_sized : Size → ℕ → ℕ → Mc68030 Mem → Mc68030 Mem
  write_sized byte addr v s = write_byte board addr (v % 2 ^ 8) s
  write_sized word addr v s = write_word board addr (v % 2 ^ 16) s
  write_sized long addr v s = write_long board addr v s
