-- ===== src/Arr/Search.antt =====
-- The search in a sorted array, with step 1.
use Prim.Native.Nat.{Ordering}
use dgd.Prelude.{
  ℕ, zero, suc, ◌+◌, ◌-◌, ◌*◌, ◌/◌, ◌≤◌, ◌<◌, ◌≡◌, refl, ◌⊎◌, inl, inr, Bool, true, false, Option,
  none, some, arith, ltb, Bool-cases,
}
use dgd.Arr.{Value, cmp, not_found, search_from, search}
use dgd.Arr.Match.{is_match, IsSorted, Ordering-cases, unequal}
use dgd.Arr.Neighbours.{search_at-Ends}

-- What the loop has found: the place of a match; or that nothing matches, and that all values before
-- `l` are less than `v`, and all others greater, or some value compares as equal: another array with
-- the tag of `v`.
abbrev pub Found : (ℕ → Value) → Value → ℕ → Option ℕ → ℕ → Type 0
Found a v h (some k) l = (k < h) × (is_match v (a k) ≡ true)
Found a v h none l =
    (l ≤ h)
    × ((i : ℕ) → i < l → cmp v (a i) ≡ Ordering.gt)
    × ((i : ℕ) → i < h → is_match v (a i) ≡ false)
    × (((i : ℕ) → l ≤ i → i < h → cmp v (a i) ≡ Ordering.lt)
        ⊎ ((j : ℕ) × (j < h) × (cmp v (a j) ≡ Ordering.eq)))

-- What search returns then.
abbrev pub answer : Bool → Option ℕ → ℕ → Option ℕ
answer place none l = not_found place l
answer place (some k) l = some k

middle-low : (l r : ℕ) → l < r → l ≤ (l + r) / 2 / 1 * 1
middle-low l r h = omega arith

middle-high : (l r : ℕ) → l < r → (l + r) / 2 / 1 * 1 < r
middle-high l r h = omega arith

lt-differs : (v w : Value) → cmp v w ≡ Ordering.lt → is_match v w ≡ false
lt-differs v w e = unequal v w (λ d. cc)

gt-differs : (v w : Value) → cmp v w ≡ Ordering.gt → is_match v w ≡ false
gt-differs v w e = unequal v w (λ d. cc)

module _ (a : ℕ → Value) (v : Value) (h : ℕ) (place : Bool) (s : IsSorted v a h) where
  search_from_lem :
      (fuel l r : ℕ)
      → l ≤ r
      → r ≤ h
      → r - l < fuel
      → ((i : ℕ) → i < l → cmp v (a i) ≡ Ordering.gt)
      → ((i : ℕ) → r ≤ i → i < h → cmp v (a i) ≡ Ordering.lt)
      → (o : Option ℕ) × (k : ℕ) × (search_from fuel a v l r 1 place ≡ some (answer place o k))
        × Found a v h o k
  unfolding search_from
  search_from_lem zero l r p q f below above = absurd (omega arith)
  search_from_lem (suc fuel) l r p q f below above = elim (Bool-cases (ltb l r)) [
    | inr e ↦
        let end : r ≤ l = ground (arith, e) in
        (
          none,
          l,
          rw e refl,
          (
            omega arith,
            below,
            λ i j. elim (Bool-cases (ltb i l)) [
              | inl f ↦ gt-differs v (a i) (below i (ground (arith, f)))
              | inr f ↦ lt-differs v (a i) (above i (ground (arith, f, end)) j)
            ],
            inl (λ i j. above i (omega arith)),
          ),
        )
    | inl e ↦
        let less : l < r = ground (arith, e) in
        let m = (l + r) / 2 / 1 * 1 in
        let low = middle-low l r less in
        let high = middle-high l r less in
        elim (Ordering-cases (cmp v (a m))) [
          | inl c ↦
              let (o, k, run, found) =
                search_from_lem fuel l m (omega arith) (omega arith) (omega arith) below
                  (λ i j n. s.above m i j n c) in
              (o, k, rw (e, c) run, found)
          | inr (inl c) ↦ elim (search_at-Ends a v h s l r m low high q c) [
            | inr (k, run, in_range, found) ↦ (some k, l, rw (e, c, run) refl, (in_range, found))
            | inl (run, others) ↦ (
              none,
              l,
              rw (e, c, run) refl,
              (
                omega arith,
                below,
                λ i j. elim (Bool-cases (ltb i l)) [
                  | inl f ↦ gt-differs v (a i) (below i (ground (arith, f)))
                  | inr f ↦ elim (Bool-cases (ltb i r)) [
                    | inl g ↦ others i (ground (arith, f)) (ground (arith, g))
                    | inr g ↦ lt-differs v (a i) (above i (ground (arith, g)) j)
                  ]
                ],
                inr (m, omega arith, c),
              ),
            )
          ]
          | inr (inr c) ↦
              let (o, k, run, found) =
                search_from_lem fuel (m + 1) r (omega arith) (omega arith) (omega arith)
                  (λ i j. s.below i m (omega arith) (omega arith) c) above in
              (o, k, rw (e, c) run, found)
        ]
  ]

-- In a sorted array search finds a match if there is one: an equal value, which is the same one for
-- arrays, mappings and light-weight objects, also among several that have its tag. If nothing matches,
-- the result is -1, or if it was asked for a place before which all values are less than the one
-- sought; all others are greater, unless another array has the same tag. Pointers are taken to tell
-- the type and the tag of what they point to.
pub search-Found :
    (v : Value) (a : ℕ → Value) (h : ℕ) (place : Bool)
    → IsSorted v a h
    → (o : Option ℕ) × (k : ℕ) × (search v a h 1 place ≡ some (answer place o k)) × Found a v h o k
unfolding search
search-Found v a h place s =
    search_from_lem a v h place s (h + 1) 0 h (omega arith) (omega arith) (omega arith)
      (λ i j. absurd (omega arith)) (λ i j k. absurd (omega arith))
