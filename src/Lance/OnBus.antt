-- ===== src/Lance/OnBus.antt =====
-- The memory of Em68030/Core/Memory.cpp behind the LANCE: a ring in a region of RAM.
use em68030_win_ui3cpp.Common.{
  ℕ, ◌+◌, ◌-◌, ◌*◌, ◌^◌, ◌<◌, ◌≤◌, ◌≡◌, ◌⊎◌, sym, ◌∙◌, arith, inl, inr, List, ◌==◌, Bool-cases,
}
use em68030_win_ui3cpp.Common.Size.{word}
use em68030_win_ui3cpp.Common.Bytes.{read_be-write_be, read_be-write_be_apart}
use em68030_win_ui3cpp.Memory.Store.{Store}
use em68030_win_ui3cpp.Memory.Access.{Devices, fits}
use em68030_win_ui3cpp.Memory.Debug.{peek, poke}
use em68030_win_ui3cpp.Memory.Interface.{bus_dma}
use em68030_win_ui3cpp.Memory.Holding.{length-HoldsRegion}
use em68030_win_ui3cpp.Memory.Poking.{in_bus, Bytes, Spares, peek-Bytes, peek_slot, poke-Bytes}
use em68030_win_ui3cpp.Lance.Ring.{IsRing}

module _ {World : Type 0} (devices : Devices World) (i base size : ℕ) where
  pub poked_same :
      (a v : ℕ) (bytes : List ℕ) (m : Store World)
      → Bytes devices i base size bytes m
      → base ≤ a
      → a + 1 < base + size
      → v < 2 ^ 16
      → (peek devices word a (poke word a v m)).value ≡ v
  poked_same a v bytes m h low high fits =
      let all = length-HoldsRegion devices i base size bytes (in_bus m) h in
      peek_slot devices i base size a _ _
        (poke-Bytes devices i base size word a v bytes m h low high) low high
      ∙ read_be-write_be word v bytes (a - base) fits (omega (arith, all))

  pub poked_apart :
      (a c v : ℕ) (bytes : List ℕ) (m : Store World)
      → Bytes devices i base size bytes m
      → base ≤ a
      → a + 1 < base + size
      → base ≤ c
      → c + 1 < base + size
      → (a + 1 < c) ⊎ (c + 1 < a)
      → (peek devices word c (poke word a v m)).value ≡ (peek devices word c m).value
  poked_apart a c v bytes m h low high low_c high_c away =
      peek_slot devices i base size c _ _
        (poke-Bytes devices i base size word a v bytes m h low high) low_c high_c
      ∙ read_be-write_be_apart word word v bytes (a - base) (c - base)
          (elim away [ inl l ↦ inr (omega arith) | inr l ↦ inl (omega arith) ])
      ∙ sym (peek_slot devices i base size c bytes m h low_c high_c)

  -- A ring of `len` descriptors that lies in the region.
  unfoldable pub bus_ring :
      (ring len : ℕ)
      → Spares devices i base size
      → 0 < len
      → base ≤ ring
      → ring + len * 8 ≤ base + size
      → IsRing (bus_dma devices) ring len
  bus_ring ring len spares some_slot low high = record {
    Holds = λ m. (bytes : List ℕ) × Bytes devices i base size bytes m;
    not_empty = some_slot;
    peek_holds = λ z a m h. (h.0, peek-Bytes devices i base size z a h.0 m spares h.1);
    peek_keeps = λ z a j m h l.
        peek_slot devices i base size (ring + j * 8 + 2) h.0 _
          (peek-Bytes devices i base size z a h.0 m spares h.1) (omega arith) (omega arith)
        ∙ sym (
            peek_slot devices i base size (ring + j * 8 + 2) h.0 m h.1 (omega arith) (omega arith));
    status_holds = λ n v m h l. (
      _,
      poke-Bytes devices i base size word (ring + n * 8 + 2) v h.0 m h.1 (omega arith)
          (omega arith),
    );
    poke_status = λ n j v m h k l fits. elim (Bool-cases (n == j)) [
      | inl e ↦
          let at : n ≡ j = ground arith in
          rw (e, at) (poked_same (ring + j * 8 + 2) v h.0 m h.1 (omega arith) (omega arith) fits)
      | inr e ↦ rw e (
          poked_apart (ring + n * 8 + 2) (ring + j * 8 + 2) v h.0 m h.1 (omega arith) (omega arith)
            (omega arith) (omega arith) (ground arith))
    ];
    length_holds = λ n v m h l. (
      _,
      poke-Bytes devices i base size word (ring + n * 8 + 6) v h.0 m h.1 (omega arith)
          (omega arith),
    );
    poke_length = λ n j v m h k l.
        poked_apart (ring + n * 8 + 6) (ring + j * 8 + 2) v h.0 m h.1 (omega arith) (omega arith)
          (omega arith) (omega arith) (ground arith);
  }
