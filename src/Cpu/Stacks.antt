-- ===== src/Cpu/Stacks.antt =====
-- The user's and the supervisor's stack pointers across every switch of the processor's mode.
use em68030_win_ui3cpp.Common.{
  ℕ, ◌+◌, ◌^◌, ◌≤◌, ◌≡◌, refl, ap, ◌∙◌, arith, Bool, true, if◌then◌else◌, has,
}
use em68030_win_ui3cpp.Cpu.State.{
  Mc68030, sub32, get_supervisor_mode, set_sr, set_supervisor_mode, supervisor_bit, with_supervisor,
}
use em68030_win_ui3cpp.Cpu.Access.{Board}
use em68030_win_ui3cpp.Cpu.Exceptions.{enter_stack, push_frame, push_fault_frame, format_vector}
use em68030_win_ui3cpp.Cpu.Status.{with_supervisor-IsSet}
use em68030_win_ui3cpp.Cpu.Keeping.{if-P, Keeps, push_word-Keeps, push_long-Keeps}
use em68030_win_ui3cpp.Cpu.Fetch.{push_word, push_long}

-- The two stacks, wherever their pointers are kept: that of the current mode is A7.
pub record Stacks : Type 0 where
  pub user : ℕ
  pub supervisor : ℕ

-- `n` bytes on the supervisor's stack.
abbrev pub push_supervisor : ℕ → Stacks → Stacks
push_supervisor n k = record k { supervisor = sub32 k.supervisor n }

abbrev pick : Bool → ℕ → ℕ → ℕ → Stacks
pick b a7 usp ssp =
    if b then record { user = usp; supervisor = a7 } else record { user = a7; supervisor = ssp }

unfoldable pub stacks : {Mem : Type 0} → Mc68030 Mem → Stacks
stacks s = pick (get_supervisor_mode s) s.a7 s.usp s.ssp

module _ {Mem : Type 0} where
  -- `SetSR` keeps both stacks, whatever the modes before and after.
  pub set_sr-stacks : (v : ℕ) (s : Mc68030 Mem) → stacks (set_sr v s) ≡ stacks s
  unfolding set_sr stacks
  set_sr-stacks v s = ground arith

  -- In supervisor mode with the supervisor's stack, and the user's pointer saved.
  abbrev pub entered : Mc68030 Mem → Mc68030 Mem
  entered s = enter_stack s.sr (set_supervisor_mode true s)

  pub entered-stacks : (s : Mc68030 Mem) → stacks (entered s) ≡ stacks s
  unfolding stacks enter_stack set_supervisor_mode with_supervisor
  entered-stacks s = ground (arith, with_supervisor-IsSet s.sr)

  -- The registers that stay.
  abbrev pub Switches : Mc68030 Mem → Mc68030 Mem → Type 0
  Switches s t =
      t ≡ record s { sr = with_supervisor true s.sr; usp = t.usp; a7 = t.a7; pages = t.pages }

  pub entered_lem : (s : Mc68030 Mem) → Switches s (entered s)
  unfolding enter_stack set_supervisor_mode
  entered_lem s = if-P (Switches s) (has s.sr supervisor_bit) _ _ refl refl

  -- The second state is the first with `n` bytes pushed.
  abbrev pub Pushes : ℕ → Mc68030 Mem → Mc68030 Mem → Type 0
  Pushes n s t = Keeps (record s { a7 = sub32 s.a7 n }) t

  pub Pushes-trans :
      (m n : ℕ) (s t u : Mc68030 Mem)
      → m + n ≤ 2 ^ 32
      → Pushes m s t
      → Pushes n t u
      → Pushes (m + n) s u
  Pushes-trans m n s t u h p q =
      q
      ∙ ap
          (λ (x : Mc68030 Mem). record x {
            a7 = sub32 x.a7 n;
            pages = u.pages;
            machine = u.machine;
          })
          p
      ∙ ap (λ (x : ℕ). record s { a7 = x; pages = u.pages; machine = u.machine }) (omega arith)

module _ {Mem : Type 0} (board : Board Mem) where
  word_Pushes : (v : ℕ) (s : Mc68030 Mem) → Pushes 2 s (push_word board v s)
  word_Pushes = push_word-Keeps board

  long_Pushes : (v : ℕ) (s : Mc68030 Mem) → Pushes 4 s (push_long board v s)
  long_Pushes = push_long-Keeps board

  -- A word below a part of a frame, and a long.
  word_below :
      (n v : ℕ) (s t : Mc68030 Mem) → n ≤ 64 → Pushes n s t → Pushes (n + 2) s (push_word board v t)
  word_below n v s t h p = Pushes-trans n 2 s t _ (omega arith) p (word_Pushes v t)

  long_below :
      (n v : ℕ) (s t : Mc68030 Mem) → n ≤ 64 → Pushes n s t → Pushes (n + 4) s (push_long board v t)
  long_below n v s t h p = Pushes-trans n 4 s t _ (omega arith) p (long_Pushes v t)

  pub push_frame-Pushes :
      (vector sr : ℕ) (s : Mc68030 Mem) → Pushes 8 s (push_frame board vector sr s)
  unfolding push_frame
  push_frame-Pushes vector sr s =
      word_below 6 sr s _ (omega arith)
        (long_below 2 s.pc s _ (omega arith) (word_Pushes (format_vector vector) s))

  pub push_fault_frame-Pushes :
      (address ssw sr : ℕ) (s : Mc68030 Mem) → Pushes 32 s (push_fault_frame board address ssw sr s)
  unfolding push_fault_frame
  push_fault_frame-Pushes address ssw sr s =
      let w =
        λ (n v : ℕ) (t : Mc68030 Mem) (h : n ≤ 64) (p : Pushes n s t). word_below n v s t h p in
      let l =
        λ (n v : ℕ) (t : Mc68030 Mem) (h : n ≤ 64) (p : Pushes n s t). long_below n v s t h p in
      w 30 sr _ (omega arith) (
        l 26 s.pc _ (omega arith) (
          w 24 0xa008 _ (omega arith) (
            w 22 0 _ (omega arith) (
              w 20 ssw _ (omega arith) (
                w 18 0 _ (omega arith) (
                  w 16 0 _ (omega arith) (
                    l 12 address _ (omega arith) (
                      w 10 0 _ (omega arith)
                        (w 8 0 _ (omega arith) (l 4 0 _ (omega arith) (long_Pushes 0 s)))))))))))
