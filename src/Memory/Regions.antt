-- ===== src/Memory/Regions.antt =====
-- Lists of regions and the map of the devices, as regions and devices are added.
use em68030_win_ui3cpp.Common.{
  ℕ, zero, suc, ◌+◌, ◌*◌, ◌%◌, ◌^◌, ◌<◌, ◌≡◌, ◌≢◌, refl, ap, ◌∙◌, arith, inl, inr, true, false,
  List, [], ◌∷◌, ◌++◌, Option, none, ◌==◌, if◌then◌else◌, length, replicate, Bool-cases,
}
use em68030_win_ui3cpp.Memory.Store.{Region, region_at, contains, no_region, map_longs}

pub none_in_empty : (a : ℕ) → contains a no_region ≡ false
unfolding contains
none_in_empty a = ground arith

-- The regions after one is added.
region_at-append :
    (rs : List Region) (r : Region) (i : ℕ)
    → region_at (rs ++ r ∷ []) i ≡ (if i == length rs then r else region_at rs i)
region_at-append [] r zero = refl
region_at-append [] r (suc i) = ground arith
region_at-append (x ∷ rs) r zero = ground arith
region_at-append (x ∷ rs) r (suc i) = ground (arith, region_at-append rs r i)

pub region_at-length : (rs : List Region) → region_at rs (length rs) ≡ no_region
region_at-length [] = refl
region_at-length (x ∷ rs) = region_at-length rs

pub region_at-appended : (rs : List Region) (r : Region) → region_at (rs ++ r ∷ []) (length rs) ≡ r
region_at-appended rs r = ground (arith, region_at-append rs r (length rs))

pub region_at-kept :
    (rs : List Region) (r : Region) (i : ℕ)
    → i ≢ length rs
    → region_at (rs ++ r ∷ []) i ≡ region_at rs i
region_at-kept rs r i h = ground (arith, region_at-append rs r i)

pub append_apart :
    (rs : List Region) (r : Region)
    → ((i j a : ℕ)
        → contains a (region_at rs i) ≡ true
        → contains a (region_at rs j) ≡ true
        → i ≡ j)
    → ((j a : ℕ) → contains a r ≡ true → contains a (region_at rs j) ≡ false)
    → (i j a : ℕ) → contains a (region_at (rs ++ r ∷ []) i) ≡ true
    → contains a (region_at (rs ++ r ∷ []) j) ≡ true
    → i ≡ j
append_apart rs r apart free i j a hi hj =
    let at = region_at-append rs r in
    elim (Bool-cases (i == length rs)) [
      | inl ei ↦ elim (Bool-cases (j == length rs)) [
        | inl ej ↦ ground arith
        | inr ej ↦ absurd (cc (free j a (rw (at i, ei) at hi), rw (at j, ej) at hj))
      ]
      | inr ei ↦ elim (Bool-cases (j == length rs)) [
        | inl ej ↦ absurd (cc (free i a (rw (at j, ej) at hj), rw (at i, ei) at hi))
        | inr ej ↦ apart i j a (rw (at i, ei) at hi) (rw (at j, ej) at hj)
      ]
    ]

pub append_sized :
    (rs : List Region) (r : Region)
    → ((i : ℕ) → length (region_at rs i).bytes ≡ (region_at rs i).size)
    → length r.bytes ≡ r.size
    → (i : ℕ) → length (region_at (rs ++ r ∷ []) i).bytes ≡ (region_at (rs ++ r ∷ []) i).size
append_sized rs r sized h i = elim (Bool-cases (i == length rs)) [
  | inl e ↦ rw (region_at-append rs r i, e) h
  | inr e ↦ rw (region_at-append rs r i, e) (sized i)
]

pub length-replicate : (n : ℕ) → length {A = ℕ} (replicate n 0) ≡ n
length-replicate zero = refl
length-replicate (suc n) = ap suc (length-replicate n)

-- The entries below the first address that is mapped stay, where the addresses do not wrap.
pub map_longs-below :
    (n base a : ℕ) (d : Option ℕ) (m : ℕ → Option ℕ)
    → base + 4 * n < 2 ^ 32
    → a < base
    → map_longs n base d m a ≡ m a
unfolding map_longs
map_longs-below zero base a d m h l = refl
map_longs-below (suc n) base a d m h l =
    let next : (base + 4) % 2 ^ 32 ≡ base + 4 = omega arith in
    rw next (
      map_longs-below n (base + 4) a d (λ x. if x == base then d else m x) (omega arith)
        (omega arith)
      ∙ ground arith)

pub map_longs-none :
    (n base a : ℕ) (m : ℕ → Option ℕ) → m a ≡ none → map_longs n base none m a ≡ none
unfolding map_longs
map_longs-none zero base a m h = h
map_longs-none (suc n) base a m h =
    map_longs-none n ((base + 4) % 2 ^ 32) a (λ x. if x == base then none else m x) (ground arith)
