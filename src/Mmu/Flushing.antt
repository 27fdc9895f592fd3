-- ===== src/Mmu/Flushing.antt =====
-- Which entries the four flushes make invalid.
use em68030_win_ui3cpp.Common.{
  ℕ, zero, suc, ◌+◌, ◌≡◌, refl, Bool, not, ◌&&◌, List, [], ◌∷◌, ◌==◌, if◌then◌else◌, get_or,
  replicate,
}
use em68030_win_ui3cpp.Mmu.State.{Mmu, AtcEntry, no_entry, clear_bits}
use em68030_win_ui3cpp.Mmu.Translate.{
  clear_tag, flush_where, flush_all, on_page, of_fc, flush, flush_by_fc, flush_by_fc_and_address,
}

flush_where-get_or :
    (p : AtcEntry → Bool) (es : List AtcEntry) (i : ℕ)
    → let e = get_or es i no_entry in
      get_or (flush_where p es) i no_entry ≡ (if not (e.tag == 0) && p e then clear_tag e else e)
unfolding flush_where
flush_where-get_or p [] i = refl
flush_where-get_or p (e ∷ es) zero = refl
flush_where-get_or p (e ∷ es) (suc i) = flush_where-get_or p es i

replicate-get_or : (n i : ℕ) → get_or (replicate n no_entry) i no_entry ≡ no_entry
replicate-get_or zero i = refl
replicate-get_or (suc n) zero = refl
replicate-get_or (suc n) (suc i) = replicate-get_or n i

abbrev pub is_valid : AtcEntry → Bool
is_valid e = not (e.tag == 0)

abbrev pub entry : ℕ → Mmu → AtcEntry
entry i m = get_or m.atc i no_entry

-- Of all valid entries, `Flush` makes those of the page invalid, `FlushByFC` those of the function
-- code under the mask, `FlushByFCAndAddress` those of both, and `FlushAll` every one; the other
-- entries stay, and each flush calls `OnFlush` once.
pub flushes_lem :
    (m : Mmu) (i fc mask logical : ℕ)
    → let e = entry i m in
      let page = clear_bits logical m.page_mask in
      (entry i (flush logical m) ≡ (if is_valid e && on_page page e then clear_tag e else e))
      × (entry i (flush_by_fc fc mask m)
          ≡ (if is_valid e && of_fc fc mask e then clear_tag e else e))
      × (entry i (flush_by_fc_and_address fc mask logical m)
          ≡ (if is_valid e && (of_fc fc mask e && on_page page e) then clear_tag e else e))
      × (entry i (flush_all m) ≡ no_entry)
      × ((flush logical m).flushes ≡ m.flushes + 1)
      × ((flush_all m).flushes ≡ m.flushes + 1)
unfolding flush flush_by_fc flush_by_fc_and_address flush_all
flushes_lem m i fc mask logical =
    let page = clear_bits logical m.page_mask in
    (
      flush_where-get_or (on_page page) m.atc i,
      flush_where-get_or (of_fc fc mask) m.atc i,
      flush_where-get_or (λ e. of_fc fc mask e && on_page page e) m.atc i,
      replicate-get_or 4096 i,
      refl,
      refl,
    )
