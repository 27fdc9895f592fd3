-- ===== src/Cpu/Operands.antt =====
-- `ReadValue`, `WriteValue`, `ReadValueForModify` and `WriteValueFromModify` of
-- Em68030/Core/AddressingModes.cpp.
use em68030_win_ui3cpp.Common.{ℕ, bit_and, bit_or, set}
use em68030_win_ui3cpp.Common.Size.{Size, byte, word, long}
use em68030_win_ui3cpp.Mmu.Walk.{Reading}
use em68030_win_ui3cpp.Cpu.State.{Mc68030, address_register, set_address_register}
use em68030_win_ui3cpp.Cpu.Access.{Board, reading}
use em68030_win_ui3cpp.Cpu.Fetch.{fetch_word, fetch_long}
use em68030_win_ui3cpp.Cpu.Addressing.{
  AddressingMode, data_reg_direct, addr_reg_direct, immediate, extend16, data_register,
  resolve_address, read_sized, write_sized,
}

-- The low part of a register is replaced.
unfoldable pub merge : Size → ℕ → ℕ → ℕ
merge byte old v = bit_or (bit_and old 0xffffff00) (bit_and v 0xff)
merge word old v = bit_or (bit_and old 0xffff0000) (bit_and v 0xffff)
merge long old v = v

unfoldable pub low_part : Size → ℕ → ℕ
low_part byte v = bit_and v 0xff
low_part word v = bit_and v 0xffff
low_part long v = v

-- An address register has no bytes: a byte is the whole register.
unfoldable pub address_part : Size → ℕ → ℕ
address_part word v = bit_and v 0xffff
address_part byte v = v
address_part long v = v

unfoldable pub address_value : Size → ℕ → ℕ
address_value word v = extend16 v
address_value byte v = v
address_value long v = v

module _ {Mem : Type 0} where
  unfoldable pub write_data_register : Size → ℕ → ℕ → Mc68030 Mem → Mc68030 Mem
  write_data_register z reg v s = record s { d = set s.d reg (merge z (data_register reg s) v) }

  unfoldable pub write_address_register : Size → ℕ → ℕ → Mc68030 Mem → Mc68030 Mem
  write_address_register z reg v s = set_address_register reg (address_value z v) s

module _ {Mem : Type 0} (board : Board Mem) where
  unfoldable pub read_immediate : Size → Mc68030 Mem → Reading (Mc68030 Mem)
  read_immediate byte s = let w = fetch_word board s in reading (bit_and w.value 0xff) w.after
  read_immediate word s = fetch_word board s
  read_immediate long s = fetch_long board s

  -- A mode that names memory.
  unfoldable pub read_operand : AddressingMode → ℕ → Size → Mc68030 Mem → Reading (Mc68030 Mem)
  read_operand mode reg z s =
      let ea = resolve_address board mode reg z s in read_sized board z ea.value ea.after

  unfoldable pub read_value : AddressingMode → ℕ → Size → Mc68030 Mem → Reading (Mc68030 Mem)
  read_value data_reg_direct reg z s = reading (low_part z (data_register reg s)) s
  read_value addr_reg_direct reg z s = reading (address_part z (address_register reg s)) s
  read_value immediate reg z s = read_immediate z s
  read_value mode reg z s = read_operand mode reg z s

  -- The address is kept for the write.
  unfoldable pub read_operand_for_modify :
      AddressingMode → ℕ → Size → Mc68030 Mem → Reading (Mc68030 Mem)
  read_operand_for_modify mode reg z s =
      let ea = resolve_address board mode reg z s in
      read_sized board z ea.value (record (ea.after) { rmw_address = ea.value })

  unfoldable pub read_value_for_modify :
      AddressingMode → ℕ → Size → Mc68030 Mem → Reading (Mc68030 Mem)
  read_value_for_modify data_reg_direct reg z s = reading (low_part z (data_register reg s)) s
  read_value_for_modify addr_reg_direct reg z s =
      reading (address_part z (address_register reg s)) s
  read_value_for_modify mode reg z s = read_operand_for_modify mode reg z s

  unfoldable pub write_value_from_modify : AddressingMode → ℕ → Size → ℕ → Mc68030 Mem → Mc68030 Mem
  write_value_from_modify data_reg_direct reg z v s = write_data_register z reg v s
  write_value_from_modify addr_reg_direct reg z v s = write_address_register z reg v s
  write_value_from_modify mode reg z v s = write_sized board z s.rmw_address v s

  unfoldable pub write_operand : AddressingMode → ℕ → Size → ℕ → Mc68030 Mem → Mc68030 Mem
  write_operand mode reg z v s =
      let ea = resolve_address board mode reg z s in write_sized board z ea.value v ea.after

  unfoldable pub write_value : AddressingMode → ℕ → Size → ℕ → Mc68030 Mem → Mc68030 Mem
  write_value data_reg_direct reg z v s = write_data_register z reg v s
  write_value addr_reg_direct reg z v s = write_address_register z reg v s
  write_value mode reg z v s = write_operand mode reg z v s
