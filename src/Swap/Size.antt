-- ===== src/Swap/Size.antt =====
-- Swap::mapsize finds the least number of sectors that holds the data and the map of its sectors.
use native.Mathlib.Nat.{div-lt_iff_lt-mul, lt-div-mul-add}
use dgd.Prelude.{
  ℕ, zero, suc, ◌+◌, ◌-◌, ◌*◌, ◌/◌, ◌≤◌, ◌<◌, ◌≡◌, refl, ap, ◌∙◌, some, arith, ◌==◌, Bool-cases,
  inl, inr, ==_iff,
}
use dgd.Swap.Device.{sector_mod, sector_bytes, sectors_for, mapsize_from, mapsize}

-- `n` sectors hold `size` bytes and a map of `n` sectors.
abbrev pub Holds : ℕ → ℕ → ℕ → Type 0
Holds sectorsize size n = size + n * sector_bytes ≤ n * sectorsize

ceil-le : (a s k : ℕ) → 0 < s → a ≤ k * s → (a + s - 1) / s ≤ k
ceil-le a s k h e =
    let below : a + s - 1 < suc k * s = omega arith in
    let less : (a + s - 1) / s < suc k = (div-lt_iff_lt-mul h).1 below in omega arith

le-ceil : (a s : ℕ) → 0 < s → a ≤ (a + s - 1) / s * s
le-ceil a s h = omega (arith, lt-div-mul-add {a = a + s - 1} h)

ceil_mono : (a b s : ℕ) → 0 < s → a ≤ b → (a + s - 1) / s ≤ (b + s - 1) / s
ceil_mono a b s h e = ceil-le a s ((b + s - 1) / s) h (omega (arith, le-ceil b s h))

module _ (sectorsize size most : ℕ) (pos : 0 < sectorsize) (enough : Holds sectorsize size most)
    (small : most < sector_mod) where
  -- As long as `n` is no more than any number of sectors that is enough, neither is the next one.
  sectors_for-le :
      (n k : ℕ) → n ≤ most → n ≤ k → Holds sectorsize size k → sectors_for sectorsize size n ≤ k
  sectors_for-le n k h l e = omega (
    arith,
    ceil-le (size + n * sector_bytes) sectorsize k pos (omega arith),
    ceil-le (size + n * sector_bytes) sectorsize most pos (omega arith),
  )

  sectors_for_whole :
      (n : ℕ)
      → n ≤ most
      → sectors_for sectorsize size n ≡ (size + n * sector_bytes + sectorsize - 1) / sectorsize
  sectors_for_whole n h =
      omega (arith, ceil-le (size + n * sector_bytes) sectorsize most pos (omega arith))

  sectors_for_mono :
      (n m : ℕ) → n ≤ m → m ≤ most → sectors_for sectorsize size n ≤ sectors_for sectorsize size m
  sectors_for_mono n m h k = omega (
    arith,
    ceil_mono (size + n * sector_bytes) (size + m * sector_bytes) sectorsize pos (omega arith),
    sectors_for_whole n (omega arith),
    sectors_for_whole m k,
  )

  mapsize_from_lem :
      (fuel n : ℕ)
      → most < fuel + n
      → n ≤ most
      → n ≤ sectors_for sectorsize size n
      → ((k : ℕ) → Holds sectorsize size k → n ≤ k)
      → (r : ℕ) × (mapsize_from fuel sectorsize size n ≡ some r)
        × Holds sectorsize size r
        × ((k : ℕ) → Holds sectorsize size k → r ≤ k)
  unfolding mapsize_from
  mapsize_from_lem zero n f h up least = absurd (omega arith)
  mapsize_from_lem (suc fuel) n f h up least =
      elim (Bool-cases (n == sectors_for sectorsize size n)) [
        | inl e ↦
            let full = (==_iff _ _).0 e ∙ sectors_for_whole n h in
            (
              n,
              rw e refl,
              omega (
                arith,
                ap (λ (x : ℕ). x * sectorsize) full,
                le-ceil (size + n * sector_bytes) sectorsize pos,
              ),
              least,
            )
        | inr ne ↦
            let i = sectors_for sectorsize size n in
            let more : n < i = ground (arith, up, ne) in
            let bounded : i ≤ most = sectors_for-le n most h h enough in
            rw ne (
              mapsize_from_lem fuel i (omega arith) bounded (sectors_for_mono n i up bounded)
                (λ k e. sectors_for-le n k h (least k e) e))
      ]

-- If some number of sectors is enough, fewer than the type Sector counts, then mapsize ends, with
-- the least such number.
pub mapsize_least :
    (sectorsize size most : ℕ)
    → 0 < sectorsize
    → Holds sectorsize size most
    → most < sector_mod
    → (n : ℕ) × (mapsize sectorsize size ≡ some n)
      × Holds sectorsize size n
      × ((k : ℕ) → Holds sectorsize size k → n ≤ k)
unfolding mapsize
mapsize_least sectorsize size most h e k =
    mapsize_from_lem sectorsize size most h e k (sector_mod + 1) 0 (omega arith) (omega arith)
      (omega arith) (λ n p. omega arith)
