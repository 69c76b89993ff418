-- ===== src/Arr/Neighbours.antt =====
-- What search does at a value that compares as equal (src/array.cpp): arrays with the same tag need not
-- be the same, so it looks for the same one before and behind it.
use Prim.Native.Nat.{Ordering}
use dgd.Prelude.{
  ℕ, zero, suc, ◌+◌, ◌-◌, ◌≤◌, ◌<◌, ◌≡◌, ◌≢◌, refl, ◌⊎◌, inl, inr, true, false, Option, none, some,
  arith, ltb, ◌==◌, Bool-cases, ==_iff,
}
use dgd.Arr.{Value, is_indexed, is_same, cmp, search_forward, search_backward, search_at}
use dgd.Arr.Match.{is_equal, is_match, IsSorted, Ordering-cases, cmp-tag, unequal, agree}

-- The search among the values from `l` up to `r` ends with a match, or there is none.
abbrev pub Ends : (ℕ → Value) → Value → ℕ → Option ℕ → ℕ → ℕ → Type 0
Ends a v h o l r =
    ((o ≡ none) × ((i : ℕ) → l ≤ i → i < r → is_match v (a i) ≡ false))
    ⊎ ((k : ℕ) × (o ≡ some k) × (k < h) × (is_match v (a k) ≡ true))

module _ (a : ℕ → Value) (v : Value) (h : ℕ) (s : IsSorted v a h) (x : is_indexed v ≡ true) where
  -- The same array matches, as pointers tell types and tags.
  same-match :
      (i : ℕ) → i < h → is_indexed (a i) ≡ true → is_same v (a i) ≡ true → is_match v (a i) ≡ true
  same-match i k q e =
      agree (is_indexed v) (is_indexed (a i)) (is_same v (a i)) (is_equal v (a i)) (s.pointers i k)
        x q e

  -- Another array does not match.
  other-unmatched : (i : ℕ) → is_same v (a i) ≡ false → is_match v (a i) ≡ false
  other-unmatched i e = elim (Bool-cases (is_equal v (a i))) [
    | inl p ↦ rw (is_match, p, x, e) refl
    | inr p ↦ rw (is_match, p) refl
  ]

  -- Behind a value that is not less than `v`, or before one that is not greater, nothing matches from a
  -- value on that is no array or has another tag.
  none_behind :
      (m k i : ℕ)
      → m ≤ k
      → k ≤ i
      → i < h
      → cmp v (a m) ≢ Ordering.gt
      → cmp v (a k) ≢ Ordering.eq
      → is_match v (a i) ≡ false
  none_behind m k i p q r g e = unequal v (a i) (elim (Ordering-cases (cmp v (a k))) [
    | inl c ↦ let more = s.above k i q r c in λ d. cc
    | inr (inl c) ↦ absurd (e c)
    | inr (inr c) ↦ absurd (g (s.below m k p (omega arith) c))
  ])

  none_before :
      (i k m : ℕ)
      → i ≤ k
      → k ≤ m
      → m < h
      → cmp v (a m) ≢ Ordering.lt
      → cmp v (a k) ≢ Ordering.eq
      → is_match v (a i) ≡ false
  none_before i k m p q r g e = unequal v (a i) (elim (Ordering-cases (cmp v (a k))) [
    | inl c ↦ absurd (g (s.above k m q r c))
    | inr (inl c) ↦ absurd (e c)
    | inr (inr c) ↦ let less = s.below i k p (omega arith) c in λ d. cc
  ])

  other_kind : (k : ℕ) → is_indexed (a k) ≡ false → cmp v (a k) ≢ Ordering.eq
  other_kind k e = λ c. let (i, t) = cmp-tag v (a k) x s.known c in cc

  other_tag : (k : ℕ) → (v.tag == (a k).tag) ≡ false → cmp v (a k) ≢ Ordering.eq
  other_tag k e = λ c. let (i, t) = cmp-tag v (a k) x s.known c in cc

  forward-Ends :
      (fuel r m : ℕ)
      → r ≤ m + fuel
      → m < r
      → r ≤ h
      → cmp v (a m) ≢ Ordering.gt
      → Ends a v h (search_forward fuel a v r 1 m) (m + 1) r
  unfolding search_forward
  forward-Ends zero r m p q k g = absurd (omega arith)
  forward-Ends (suc fuel) r m p q k g = elim (Bool-cases (m + 1 == r)) [
    | inl e ↦ inl (rw e refl, λ i l j. absurd (ground (arith, e, l, j)))
    | inr e ↦
        let room : m + 1 < r = ground (arith, e, q) in
        let greater : cmp v (a (m + 1)) ≢ Ordering.gt =
          λ c. g (s.below m (m + 1) (omega arith) (omega arith) c) in
        elim (Bool-cases (is_indexed (a (m + 1)))) [
          | inr f ↦ inl (
            rw (e, f) refl,
            λ i l j. none_behind m (m + 1) i (omega arith) l (omega arith) g (other_kind (m + 1) f),
          )
          | inl f ↦ elim (Bool-cases (is_same v (a (m + 1)))) [
            | inl same ↦
                inr (
                  m + 1,
                  rw (e, f, same) refl,
                  omega arith,
                  same-match (m + 1) (omega arith) f same,
                )
            | inr other ↦ elim (Bool-cases (v.tag == (a (m + 1)).tag)) [
              | inr tag ↦ inl (
                rw (e, f, other, tag) refl,
                λ i l j.
                    none_behind m (m + 1) i (omega arith) l (omega arith) g (other_tag (m + 1) tag),
              )
              | inl tag ↦ elim (forward-Ends fuel r (m + 1) (omega arith) room k greater) [
                | inl (run, rest) ↦ inl (
                  rw (e, f, other, tag) run,
                  λ i l j. elim (Bool-cases (i == m + 1)) [
                    | inl here ↦
                        let at : i ≡ m + 1 = (==_iff i (m + 1)).0 here in
                        rw at (other-unmatched (m + 1) other)
                    | inr there ↦ rest i (ground (arith, there, l)) j
                  ],
                )
                | inr (n, run, below, found) ↦ inr (n, rw (e, f, other, tag) run, below, found)
              ]
            ]
          ]
        ]
  ]

  backward-Ends :
      (fuel l m : ℕ)
      → m < l + fuel
      → l ≤ m
      → m < h
      → cmp v (a m) ≢ Ordering.lt
      → Ends a v h (search_backward fuel a v l 1 m) l m
  unfolding search_backward
  backward-Ends zero l m p q k g = absurd (omega arith)
  backward-Ends (suc fuel) l m p q k g = elim (Bool-cases (m == l)) [
    | inl e ↦ inl (rw e refl, λ i n j. absurd (ground (arith, e, n, j)))
    | inr e ↦
        let room : l ≤ m - 1 = ground (arith, e, q) in
        let step : m - 1 < m = ground (arith, e, q) in
        let less : cmp v (a (m - 1)) ≢ Ordering.lt =
          λ c. g (s.above (m - 1) m (omega arith) (omega arith) c) in
        elim (Bool-cases (is_indexed (a (m - 1)))) [
          | inr f ↦ inl (
            rw (e, f) refl,
            λ i n j. none_before i (m - 1) m (omega arith) (omega arith) k g (other_kind (m - 1) f),
          )
          | inl f ↦ elim (Bool-cases (is_same v (a (m - 1)))) [
            | inl same ↦ inr (
              m - 1,
              rw (e, f, same) refl,
              omega (arith, step, k),
              same-match (m - 1) (omega (arith, step, k)) f same,
            )
            | inr other ↦ elim (Bool-cases (v.tag == (a (m - 1)).tag)) [
              | inr tag ↦ inl (
                rw (e, f, other, tag) refl,
                λ i n j.
                    none_before i (m - 1) m (omega arith) (omega arith) k g (other_tag (m - 1) tag),
              )
              | inl tag ↦
                  elim (backward-Ends fuel l (m - 1) (omega arith) room (omega arith) less) [
                    | inl (run, rest) ↦ inl (
                      rw (e, f, other, tag) run,
                      λ i n j. elim (Bool-cases (i == m - 1)) [
                        | inl here ↦
                            let at : i ≡ m - 1 = (==_iff i (m - 1)).0 here in
                            rw at (other-unmatched (m - 1) other)
                        | inr there ↦ rest i n (ground (arith, there, j))
                      ],
                    )
                    | inr (o, run, below, found) ↦ inr (o, rw (e, f, other, tag) run, below, found)
                  ]
            ]
          ]
        ]
  ]

-- At a value that compares as equal, the branch of search finds a match if there is one at all.
pub search_at-Ends :
    (a : ℕ → Value) (v : Value) (h : ℕ)
    → IsSorted v a h
    → (l r m : ℕ) → l ≤ m
    → m < r
    → r ≤ h
    → cmp v (a m) ≡ Ordering.eq
    → Ends a v h (search_at a v l r 1 m) l r
unfolding search_at
search_at-Ends a v h s l r m p q k e = elim (Bool-cases (is_indexed v)) [
  | inr x ↦ inr (m, rw x refl, omega arith, rw (is_match, is_equal, e, x) refl)
  | inl x ↦ elim (Bool-cases (is_same v (a m))) [
    | inl same ↦ inr (m, rw (x, same) refl, omega arith, rw (is_match, is_equal, e, x, same) refl)
    | inr other ↦
        let not_gt : cmp v (a m) ≢ Ordering.gt = λ c. cc in
        let not_lt : cmp v (a m) ≢ Ordering.lt = λ c. cc in
        elim (forward-Ends a v h s x (r - m) r m (omega arith) q k not_gt) [
          | inr (n, run, below, found) ↦ inr (n, rw (x, other, run) refl, below, found)
          | inl (run, behind) ↦
              elim (backward-Ends a v h s x (m - l + 1) l m (omega arith) p (omega arith) not_lt) [
                | inr (n, run', below, found) ↦ inr (n, rw (x, other, run, run') refl, below, found)
                | inl (run', before) ↦ inl (
                  rw (x, other, run, run') refl,
                  λ i low high. elim (Bool-cases (i == m)) [
                    | inl here ↦
                        let at : i ≡ m = (==_iff i m).0 here in
                        rw at (other-unmatched a v h s x m other)
                    | inr there ↦ elim (Bool-cases (ltb i m)) [
                      | inl first ↦ before i low (ground (arith, first))
                      | inr last ↦ behind i (ground (arith, last, there)) high
                    ]
                  ],
                )
              ]
        ]
  ]
]
