-- ===== src/Cpu/Modifying.antt =====
-- The effective addresses of Em68030/Core/AddressingModes.cpp: an operand that is read and written, and
-- the two modes that step through memory.
use em68030_win_ui3cpp.Common.{
  ℕ, ◌-◌, ◌%◌, ◌^◌, ◌<◌, ◌≡◌, refl, ap, ◌∙◌, arith, Bool, true, false, List, length, length-set,
  get_or-set, ◌==◌, if◌then◌else◌,
}
use em68030_win_ui3cpp.Common.Size.{Size, byte, word, long, modulus}
use em68030_win_ui3cpp.Common.Bytes.{read_be}
use em68030_win_ui3cpp.Cpu.State.{Mc68030, add32, sub32, address_register, set_address_register}
use em68030_win_ui3cpp.Cpu.Access.{Board}
use em68030_win_ui3cpp.Cpu.Keeping.{
  Keeps, Keeps-trans, read_byte-Keeps, read_word-Keeps, read_long-Keeps, write_byte-Keeps,
  write_word-Keeps, write_long-Keeps,
}
use em68030_win_ui3cpp.Cpu.Ram.{
  Ram, Ready, Within, Reads, Writes, read_byte-Reads, read_word-Reads, read_long-Reads,
  write_byte-Writes, write_word-Writes, write_long-Writes,
}
use em68030_win_ui3cpp.Cpu.Addressing.{
  AddressingMode, data_reg_direct, addr_reg_direct, addr_reg_indirect, addr_reg_post_inc,
  addr_reg_pre_dec, addr_reg_disp, addr_reg_index, abs_short, abs_long, immediate, pc_disp,
  pc_index, resolve_address, read_sized, write_sized, increment,
}
use em68030_win_ui3cpp.Cpu.Operands.{
  read_operand_for_modify, read_value_for_modify, write_value_from_modify,
}

-- The mode names memory.
abbrev pub is_memory : AddressingMode → Bool
is_memory data_reg_direct = false
is_memory addr_reg_direct = false
is_memory immediate = false
is_memory _ = true

module _ {Mem : Type 0} (board : Board Mem) where
  -- What the two halves of a modification do in a mode that names memory.
  abbrev Halves : AddressingMode → ℕ → Size → ℕ → Mc68030 Mem → Mc68030 Mem → Type 0
  Halves mode reg z v s t =
      (read_value_for_modify board mode reg z s ≡ read_operand_for_modify board mode reg z s)
      × (write_value_from_modify board mode reg z v t ≡ write_sized board z t.rmw_address v t)

  halves :
      (mode : AddressingMode) (reg : ℕ) (z : Size) (v : ℕ) (s t : Mc68030 Mem)
      → is_memory mode ≡ true
      → Halves mode reg z v s t
  unfolding read_value_for_modify write_value_from_modify
  halves data_reg_direct reg z v s t h = absurd (cc)
  halves addr_reg_direct reg z v s t h = absurd (cc)
  halves immediate reg z v s t h = absurd (cc)
  halves addr_reg_indirect reg z v s t h = (refl, refl)
  halves addr_reg_post_inc reg z v s t h = (refl, refl)
  halves addr_reg_pre_dec reg z v s t h = (refl, refl)
  halves addr_reg_disp reg z v s t h = (refl, refl)
  halves addr_reg_index reg z v s t h = (refl, refl)
  halves abs_short reg z v s t h = (refl, refl)
  halves abs_long reg z v s t h = (refl, refl)
  halves pc_disp reg z v s t h = (refl, refl)
  halves pc_index reg z v s t h = (refl, refl)

  read_sized-Keeps : (z : Size) (a : ℕ) (s : Mc68030 Mem) → Keeps s (read_sized board z a s).after
  unfolding read_sized
  read_sized-Keeps byte a s = read_byte-Keeps board a s
  read_sized-Keeps word a s = read_word-Keeps board a s
  read_sized-Keeps long a s = read_long-Keeps board a s

  write_sized-Keeps : (z : Size) (a v : ℕ) (s : Mc68030 Mem) → Keeps s (write_sized board z a v s)
  unfolding write_sized
  write_sized-Keeps byte a v s = write_byte-Keeps board a (v % 2 ^ 8) s
  write_sized-Keeps word a v s = write_word-Keeps board a (v % 2 ^ 16) s
  write_sized-Keeps long a v s = write_long-Keeps board a v s

module _ {Mem : Type 0} {board : Board Mem} {base size : ℕ} (ram : Ram board base size) where
  read_sized-Reads :
      (z : Size) (a : ℕ) (bytes : List ℕ) (s : Mc68030 Mem)
      → Within ram z a
      → Ready ram bytes s
      → Reads ram z a bytes (read_sized board z a s)
  unfolding read_sized
  read_sized-Reads byte a bytes s w r = read_byte-Reads ram a bytes s w r
  read_sized-Reads word a bytes s w r = read_word-Reads ram a bytes s w r
  read_sized-Reads long a bytes s w r = read_long-Reads ram a bytes s w r

  write_sized-Writes :
      (z : Size) (a v : ℕ) (bytes : List ℕ) (s : Mc68030 Mem)
      → v < modulus z
      → Within ram z a
      → Ready ram bytes s
      → Writes ram z a v bytes (write_sized board z a v s)
  unfolding write_sized
  write_sized-Writes byte a v bytes s h w r =
      let whole : v % 2 ^ 8 ≡ v = omega arith in rw whole (write_byte-Writes ram a v bytes s w r)
  write_sized-Writes word a v bytes s h w r =
      let whole : v % 2 ^ 16 ≡ v = omega arith in rw whole (write_word-Writes ram a v bytes s w r)
  write_sized-Writes long a v bytes s h w r = write_long-Writes ram a v bytes s w r

  -- The state with the address resolved and kept.
  abbrev pub resolved : AddressingMode → ℕ → Size → Mc68030 Mem → Mc68030 Mem
  resolved mode reg z s =
      let ea = resolve_address board mode reg z s in record (ea.after) { rmw_address = ea.value }

  -- In every mode that names memory, an operand that is read for a modification and written back has
  -- its address resolved once: the value read is the one at that address, the value written
  -- stands there afterwards and no other byte changes, and after the address is resolved no register,
  -- PC included, changes. Where the operand lies in RAM, with the MMU off.
  pub write_value_from_modify-Modifies :
      (mode : AddressingMode) (reg : ℕ) (z : Size) (v : ℕ) (bytes : List ℕ) (s : Mc68030 Mem)
      → is_memory mode ≡ true
      → v < modulus z
      → Within ram z (resolve_address board mode reg z s).value
      → Ready ram bytes (resolve_address board mode reg z s).after
      → let a = (resolve_address board mode reg z s).value in
        let r = read_value_for_modify board mode reg z s in
        let t = write_value_from_modify board mode reg z v r.after in
        (r.value ≡ read_be z bytes (a - base))
        × Writes ram z a v bytes t
        × Keeps (resolved mode reg z s) t
  unfolding read_operand_for_modify
  write_value_from_modify-Modifies mode reg z v bytes s memory hv w ready =
      let a = (resolve_address board mode reg z s).value in
      let there = resolved mode reg z s in
      let r = read_sized board z a there in
      let got = read_sized-Reads z a bytes there w (record {
        holds = ready.holds;
        settled = ready.settled;
        off = ready.off;
        no_page = ready.no_page;
      }) in
      let kept = read_sized-Keeps board z a there in
      let same : r.after.rmw_address ≡ a = ap (λ (x : Mc68030 Mem). x.rmw_address) kept in
      let h = halves board mode reg z v s r.after memory in
      let first : read_value_for_modify board mode reg z s ≡ r = h.0 in
      let second : write_value_from_modify board mode reg z v r.after
          ≡ write_sized board z a v r.after =
        h.1 ∙ ap (λ (x : ℕ). write_sized board z x v r.after) same in
      rw (first, second)
        (
          got.0,
          write_sized-Writes z a v bytes r.after hv w got.1,
          Keeps-trans there r.after _ kept (write_sized-Keeps board z a v r.after),
        )

increment-small : (reg : ℕ) (z : Size) → increment reg z < 2 ^ 32
increment-small reg byte = ground arith
increment-small reg word = ground arith
increment-small reg long = ground arith

sub32-add32 : (a b : ℕ) → a < 2 ^ 32 → b < 2 ^ 32 → sub32 (add32 a b) b ≡ a
sub32-add32 a b ha hb = omega arith

module _ {Mem : Type 0} (board : Board Mem) where
  register-set :
      (reg j v : ℕ) (s : Mc68030 Mem)
      → reg < 8
      → length s.a ≡ 7
      → address_register j (set_address_register reg v s)
        ≡ (if reg == j then v else address_register j s)
  unfolding address_register set_address_register
  register-set reg j v s h all = ground (arith, get_or-set s.a reg j v 0)

  length-set_address_register :
      (reg v : ℕ) (s : Mc68030 Mem) → length (set_address_register reg v s).a ≡ length s.a
  unfolding set_address_register
  length-set_address_register reg v s = ground (arith, length-set s.a reg v)

  -- A register that is written twice, at last with what it was.
  restored :
      (reg j v : ℕ) (s : Mc68030 Mem)
      → reg < 8
      → length s.a ≡ 7
      → address_register j
          (set_address_register reg (address_register reg s) (set_address_register reg v s))
        ≡ address_register j s
  restored reg j v s h all =
      let x = address_register reg s in
      let up = set_address_register reg v s in
      let still = length-set_address_register reg v s ∙ all in
      ground (arith, register-set reg j x up h still, register-set reg j v s h all)

  -- What `(An)+` steps over, `-(An)` steps back over, at every size: it gives the same address, and all
  -- eight address registers are as before. For a register number below 8.
  pub pre_dec-post_inc :
      (reg j : ℕ) (z : Size) (s : Mc68030 Mem)
      → reg < 8
      → length s.a ≡ 7
      → address_register reg s < 2 ^ 32
      → let up = (resolve_address board addr_reg_post_inc reg z s).after in
        let down = resolve_address board addr_reg_pre_dec reg z up in
        (down.value ≡ (resolve_address board addr_reg_post_inc reg z s).value)
        × (address_register j down.after ≡ address_register j s)
  unfolding resolve_address
  pre_dec-post_inc reg j z s h all range =
      let inc = increment reg z in
      let up = set_address_register reg (add32 (address_register reg s) inc) s in
      let small : inc < 2 ^ 32 = increment-small reg z in
      let risen : address_register reg up ≡ add32 (address_register reg s) inc =
        ground (arith, register-set reg reg (add32 (address_register reg s) inc) s h all) in
      let back : sub32 (address_register reg up) inc ≡ address_register reg s =
        ap (λ (x : ℕ). sub32 x inc) risen ∙ sub32-add32 (address_register reg s) inc range small in
      (back, rw back (restored reg j (add32 (address_register reg s) inc) s h all))
