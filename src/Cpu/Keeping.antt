-- ===== src/Cpu/Keeping.antt =====
-- What an access of the memory leaves alone: everything but the page caches, the MMU and the bus.
use em68030_win_ui3cpp.Common.{
  ℕ, ◌≡◌, refl, ap, ◌∙◌, ◌/◌, ◌%◌, ◌^◌, Bool, true, false, if◌then◌else◌,
}
use em68030_win_ui3cpp.Common.Size.{Size, byte, word, long}
use em68030_win_ui3cpp.Mmu.Walk.{Reading}
use em68030_win_ui3cpp.Cpu.State.{Mc68030, add32, sub32, is_pending}
use em68030_win_ui3cpp.Cpu.Access.{
  Board, translate_in, translate_read, translate_write, memory_read, memory_write, keep_page,
  read_translated, read_byte, read_split, read_word, read_long, write_translated, write_byte,
  write_split, write_word, write_long, ends_page, crosses_page, forget_page,
}
use em68030_win_ui3cpp.Cpu.Fetch.{push_word, push_long}

pub if-P {ℓ κ} :
    {A : Type ℓ} (P : A → Type κ) (b : Bool) (x y : A) → P x → P y → P (if b then x else y)
if-P P true x y p q = p
if-P P false x y p q = q

-- The same with the test's outcome at hand.
pub if-P_eq {ℓ κ} :
    {A : Type ℓ} (P : A → Type κ) (b : Bool) (x y : A)
    → (b ≡ true → P x)
    → (b ≡ false → P y)
    → P (if b then x else y)
if-P_eq P true x y p q = p refl
if-P_eq P false x y p q = q refl

-- The same where the outcome is known.
pub if-P_true {ℓ κ} :
    {A : Type ℓ} (P : A → Type κ) (b : Bool) (x y : A) → b ≡ true → P x → P (if b then x else y)
if-P_true P true x y h p = p
if-P_true P false x y h p = absurd (cc)

pub if-P_false {ℓ κ} :
    {A : Type ℓ} (P : A → Type κ) (b : Bool) (x y : A) → b ≡ false → P y → P (if b then x else y)
if-P_false P true x y h p = absurd (cc)
if-P_false P false x y h p = p

module _ {Mem : Type 0} where
  -- The second state is the first with other page caches, another MMU and another bus.
  abbrev pub Keeps : Mc68030 Mem → Mc68030 Mem → Type 0
  Keeps s t = t ≡ record s { pages = t.pages; machine = t.machine }

  pub Keeps-trans : (s t u : Mc68030 Mem) → Keeps s t → Keeps t u → Keeps s u
  Keeps-trans s t u p q =
      q ∙ ap (λ (x : Mc68030 Mem). record x { pages = u.pages; machine = u.machine }) p

  abbrev pub KeepsRead : Mc68030 Mem → Reading (Mc68030 Mem) → Type 0
  KeepsRead s r = Keeps s r.after

module _ {Mem : Type 0} (board : Board Mem) where
  pub translate_read-Keeps :
      (addr : ℕ) (p : Bool) (s : Mc68030 Mem) → Keeps s (translate_read board addr p s).after
  unfolding translate_read translate_in
  translate_read-Keeps addr p s = if-P (KeepsRead s) _ _ _ refl refl

  pub memory_read-Keeps :
      (z : Size) (pa : ℕ) (s : Mc68030 Mem) → Keeps s (memory_read board z pa s).after
  unfolding memory_read
  memory_read-Keeps z pa s = refl

  keep_page-Keeps : (addr pa : ℕ) (s : Mc68030 Mem) → Keeps s (keep_page addr pa s)
  unfolding keep_page
  keep_page-Keeps addr pa s = if-P (Keeps s) s.machine.mmu.enabled _ _ refl refl

  read_translated-Keeps :
      (z : Size) (addr : ℕ) (s : Mc68030 Mem) → Keeps s (read_translated board z addr s).after
  unfolding read_translated
  read_translated-Keeps z addr s =
      let t = translate_read board addr false s in
      let paged = keep_page addr t.value t.after in
      let translated = translate_read-Keeps addr false s in
      if-P (KeepsRead s) (is_pending t.after) _ _ translated (
        Keeps-trans s t.after _ translated (
          Keeps-trans t.after paged _ (keep_page-Keeps addr t.value t.after)
            (memory_read-Keeps z t.value paged)))

  pub read_byte-Keeps : (addr : ℕ) (s : Mc68030 Mem) → Keeps s (read_byte board addr s).after
  unfolding read_byte
  read_byte-Keeps addr s =
      if-P (KeepsRead s) (is_pending s) _ _ refl
        (if-P (KeepsRead s) _ _ _ (memory_read-Keeps byte _ s) (read_translated-Keeps byte addr s))

  read_split-Keeps : (addr : ℕ) (s : Mc68030 Mem) → Keeps s (read_split board addr s).after
  unfolding read_split
  read_split-Keeps addr s =
      let pa_hi = translate_read board addr false s in
      let hi = memory_read board byte pa_hi.value pa_hi.after in
      let pa_lo = translate_read board (add32 addr 1) false hi.after in
      let first = translate_read-Keeps addr false s in
      let second = Keeps-trans s pa_hi.after _ first (
        Keeps-trans pa_hi.after hi.after _ (memory_read-Keeps byte pa_hi.value pa_hi.after)
          (translate_read-Keeps (add32 addr 1) false hi.after)) in
      if-P (KeepsRead s) (is_pending pa_hi.after) _ _ first (
        if-P (KeepsRead s) (is_pending pa_lo.after) _ _ second
          (Keeps-trans s pa_lo.after _ second (memory_read-Keeps byte pa_lo.value pa_lo.after)))

  pub read_word-Keeps : (addr : ℕ) (s : Mc68030 Mem) → Keeps s (read_word board addr s).after
  unfolding read_word
  read_word-Keeps addr s = if-P (KeepsRead s) (is_pending s) _ _ refl (
      if-P (KeepsRead s) _ _ _ (memory_read-Keeps word _ s) (
        if-P (KeepsRead s) (ends_page addr s) _ _ (read_split-Keeps addr s)
          (read_translated-Keeps word addr s)))

  pub read_long-Keeps : (addr : ℕ) (s : Mc68030 Mem) → Keeps s (read_long board addr s).after
  unfolding read_long
  read_long-Keeps addr s =
      let hi = read_word board addr s in
      if-P (KeepsRead s) (is_pending s) _ _ refl (
        if-P (KeepsRead s) _ _ _ (memory_read-Keeps long _ s) (
          if-P (KeepsRead s) (crosses_page addr s) _ _
            (Keeps-trans s hi.after _ (read_word-Keeps addr s)
              (read_word-Keeps (add32 addr 2) hi.after))
            (read_translated-Keeps long addr s)))

  translate_write-Keeps :
      (addr : ℕ) (s : Mc68030 Mem) → Keeps s (translate_write board addr s).after
  unfolding translate_write translate_in
  translate_write-Keeps addr s = refl

  memory_write-Keeps :
      (z : Size) (pa v : ℕ) (s : Mc68030 Mem) → Keeps s (memory_write board z pa v s)
  unfolding memory_write
  memory_write-Keeps z pa v s = refl

  write_translated-Keeps :
      (z : Size) (addr v : ℕ) (s : Mc68030 Mem) → Keeps s (write_translated board z addr v s)
  unfolding write_translated
  write_translated-Keeps z addr v s =
      let t = translate_write board addr s in
      let translated = translate_write-Keeps addr s in
      if-P (Keeps s) (is_pending t.after) _ _ translated
        (Keeps-trans s t.after _ translated (memory_write-Keeps z t.value v t.after))

  pub write_byte-Keeps : (addr v : ℕ) (s : Mc68030 Mem) → Keeps s (write_byte board addr v s)
  unfolding write_byte
  write_byte-Keeps addr v s =
      if-P (Keeps s) (is_pending s) _ _ refl
        (Keeps-trans s (forget_page s) _ refl (write_translated-Keeps byte addr v (forget_page s)))

  write_split-Keeps : (addr v : ℕ) (s : Mc68030 Mem) → Keeps s (write_split board addr v s)
  unfolding write_split
  write_split-Keeps addr v s =
      let pa_hi = translate_write board addr s in
      let hi = memory_write board byte pa_hi.value (v / 2 ^ 8 % 2 ^ 8) pa_hi.after in
      let pa_lo = translate_write board (add32 addr 1) hi in
      let first = translate_write-Keeps addr s in
      let second = Keeps-trans s pa_hi.after _ first (
        Keeps-trans pa_hi.after hi _
          (memory_write-Keeps byte pa_hi.value (v / 2 ^ 8 % 2 ^ 8) pa_hi.after)
          (translate_write-Keeps (add32 addr 1) hi)) in
      if-P (Keeps s) (is_pending pa_hi.after) _ _ first (
        if-P (Keeps s) (is_pending pa_lo.after) _ _ second (
          Keeps-trans s pa_lo.after _ second
            (memory_write-Keeps byte pa_lo.value (v % 2 ^ 8) pa_lo.after)))

  pub write_word-Keeps : (addr v : ℕ) (s : Mc68030 Mem) → Keeps s (write_word board addr v s)
  unfolding write_word
  write_word-Keeps addr v s = if-P (Keeps s) (is_pending s) _ _ refl (
      Keeps-trans s (forget_page s) _ refl (
        if-P (Keeps (forget_page s)) (ends_page addr s) _ _
          (write_split-Keeps addr v (forget_page s))
          (write_translated-Keeps word addr v (forget_page s))))

  pub write_long-Keeps : (addr v : ℕ) (s : Mc68030 Mem) → Keeps s (write_long board addr v s)
  unfolding write_long
  write_long-Keeps addr v s =
      let hi = write_word board addr (v / 2 ^ 16) (forget_page s) in
      if-P (Keeps s) (is_pending s) _ _ refl (
        Keeps-trans s (forget_page s) _ refl (
          if-P (Keeps (forget_page s)) (crosses_page addr s) _ _
            (Keeps-trans (forget_page s) hi _ (write_word-Keeps addr (v / 2 ^ 16) (forget_page s))
              (write_word-Keeps (add32 addr 2) (v % 2 ^ 16) hi))
            (write_translated-Keeps long addr v (forget_page s))))

  pub push_word-Keeps :
      (v : ℕ) (s : Mc68030 Mem) → Keeps (record s { a7 = sub32 s.a7 2 }) (push_word board v s)
  unfolding push_word
  push_word-Keeps v s = write_word-Keeps (sub32 s.a7 2) v (record s { a7 = sub32 s.a7 2 })

  pub push_long-Keeps :
      (v : ℕ) (s : Mc68030 Mem) → Keeps (record s { a7 = sub32 s.a7 4 }) (push_long board v s)
  unfolding push_long
  push_long-Keeps v s = write_long-Keeps (sub32 s.a7 4) v (record s { a7 = sub32 s.a7 4 })
