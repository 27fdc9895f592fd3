-- ===== src/Pcc/Priority.antt =====
-- Which interrupt source `UpdateIPL` picks.
use mathlib.Core.Path.{subst}
use em68030_win_ui3cpp.Common.{
  ℕ, ◌+◌, ◌≤◌, ◌<◌, ◌≡◌, refl, sym, ap, ◌∙◌, ◌⊎◌, inl, inr, List, [], ◌∷◌, true, false, none, some,
  arith, Bool-cases,
}
use em68030_win_ui3cpp.Pcc.Irq.{Best, Source, is_requesting, level_of, check_icr, check_all}
use em68030_win_ui3cpp.Pcc.State.{Pcc, sources, no_request, update_ipl}

-- The source asks for no level above the given one.
abbrev pub AtMost : ℕ → Source → Type 0
AtMost level s = is_requesting s.icr ≡ true → level_of s.icr ≤ level

abbrev pub AllAtMost : ℕ → List Source → Type 0
AllAtMost level [] = Unit {0}
AllAtMost level (s ∷ rest) = AtMost level s × AllAtMost level rest

-- A source of the list has the level and the vector of `b`; those before it ask for less, and
-- those behind it for no more.
abbrev pub Wins : List Source → Best → Type 0
Wins [] b = ⊥
Wins (s ∷ rest) b =
    ((is_requesting s.icr ≡ true)
      × (level_of s.icr ≡ b.level)
      × (s.vector ≡ b.vector)
      × AllAtMost b.level rest)
    ⊎ ((is_requesting s.icr ≡ true → level_of s.icr < b.level) × Wins rest b)

abbrev Result : List Source → Best → Best → Type 0
Result ss before after =
    ((after ≡ before) × AllAtMost before.level ss) ⊎ (Wins ss after × (before.level < after.level))

-- The source changes nothing, or becomes the best so far.
check_icr_cases :
    (s : Source) (best : Best)
    → ((check_icr s best ≡ best) × AtMost best.level s)
      ⊎ ((check_icr s best ≡ record { level = level_of s.icr; vector = s.vector })
          × (is_requesting s.icr ≡ true)
          × (best.level < level_of s.icr))
unfolding check_icr
check_icr_cases s best = ground arith

abbrev requested : Source → Best
requested s = record { level = level_of s.icr; vector = s.vector }

prepend :
    (s : Source) (rest : List Source) (best next after : Best)
    → Result rest next after
    → ((next ≡ best) × AtMost best.level s)
      ⊎ ((next ≡ requested s) × (is_requesting s.icr ≡ true) × (best.level < level_of s.icr))
    → Result (s ∷ rest) best after
prepend s rest best next after (inl (e, quiet)) (inl (n, low)) =
    inl (e ∙ n, (low, subst (λ (b : Best). AllAtMost b.level rest) n quiet))
prepend s rest best next after (inl (e, quiet)) (inr (n, asks, more)) =
    let level : after.level ≡ level_of s.icr = ap (λ (b : Best). b.level) (e ∙ n) in
    let vector : after.vector ≡ s.vector = ap (λ (b : Best). b.vector) (e ∙ n) in
    inr (
      inl (asks, sym level, sym vector, subst (λ (b : Best). AllAtMost b.level rest) (sym e) quiet),
      omega arith,
    )
prepend s rest best next after (inr (w, less)) (inl (n, low)) =
    let level : next.level ≡ best.level = ap (λ (b : Best). b.level) n in
    inr (inr (λ asks. omega (arith, low asks), w), omega arith)
prepend s rest best next after (inr (w, less)) (inr (n, asks, more)) =
    let level : next.level ≡ level_of s.icr = ap (λ (b : Best). b.level) n in
    inr (inr (λ _. omega arith, w), omega arith)

check_all_cases : (ss : List Source) (best : Best) → Result ss best (check_all ss best)
unfolding check_all
check_all_cases [] best = inl (refl, tt)
check_all_cases (s ∷ rest) best =
    prepend s rest best (check_icr s best) (check_all rest (check_icr s best))
      (check_all_cases rest (check_icr s best)) (check_icr_cases s best)

-- No source of the list has its INT and IEN bits set.
abbrev pub AllQuiet : List Source → Type 0
AllQuiet [] = Unit {0}
AllQuiet (s ∷ rest) = (is_requesting s.icr ≡ false) × AllQuiet rest

level_of-pos : (icr : ℕ) → 0 < level_of icr
unfolding level_of
level_of-pos icr = ground arith

quiet_at_zero : (ss : List Source) → AllAtMost 0 ss → AllQuiet ss
quiet_at_zero [] h = tt
quiet_at_zero (s ∷ rest) (h, hs) = (silent, quiet_at_zero rest hs)
  where
    silent : is_requesting s.icr ≡ false
    silent = elim (Bool-cases (is_requesting s.icr)) [
      | inl e ↦ absurd (omega (arith, h e, level_of-pos s.icr))
      | inr e ↦ e
    ]

-- What `UpdateIPL` hands to the CPU.
abbrev pub Delivers : Pcc → Pcc → Type 0
Delivers p q =
    ((q.cpu.pending_ipl ≡ 0) × (q.cpu.pending_vector ≡ none) × AllQuiet (sources p))
    ⊎ ((v : ℕ) × (q.cpu.pending_vector ≡ some (p.vector_base + v))
        × (0 < q.cpu.pending_ipl)
        × Wins (sources p) (record { level = q.cpu.pending_ipl; vector = v }))

-- `UpdateIPL` asks the CPU for the highest level of any source whose INT and IEN bits are set, with
-- the vector of the first source at that level, and for nothing exactly where no source has both.
pub update_ipl-Delivers : (p : Pcc) → Delivers p (update_ipl p)
unfolding update_ipl
update_ipl-Delivers p = elim (check_all_cases (sources p) no_request) [
  | inl (e, low) ↦ inl (
    ap (λ (b : Best). b.level) e,
    ground (arith, ap (λ (b : Best). b.level) e),
    quiet_at_zero (sources p) low,
  )
  | inr (w, more) ↦ inr ((check_all (sources p) no_request).vector, ground arith, more, w)
]
