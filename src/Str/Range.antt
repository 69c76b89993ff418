-- ===== src/Str/Range.antt =====
-- String::range cuts strings, and String::add joins them again.
use dgd.Prelude.{
  take-append-drop, ℕ, zero, suc, ◌-◌, ◌≤◌, ◌≡◌, refl, ap, List, [], ◌∷◌, ◌++◌, none, some, arith,
  length, take, drop, length-take, take_all,
}
use dgd.Prelude.Int.{ℤ, pos, negsuc}
use dgd.Str.{max_strlen, create, add, range, is_bad_range}

take-nil : (n : ℕ) → take n (◌++◌ {A = ℕ} [] []) ≡ []
take-nil zero = refl
take-nil (suc n) = refl

create-some : (s : List ℕ) → length s ≤ max_strlen → create s ≡ some s
unfolding create
create-some s h = ground arith

length-drop : (n : ℕ) (s : List ℕ) → length (drop n s) ≡ length s - n
length-drop zero s = omega arith
length-drop (suc n) [] = omega arith
length-drop (suc n) (c ∷ s) = omega (arith, length-drop n s)

take-take-drop : (i k : ℕ) (s : List ℕ) → i ≤ k → take i s ++ take (k - i) (drop i s) ≡ take k s
take-take-drop zero k s h = let e : k - 0 ≡ k = omega arith in rw e refl
take-take-drop (suc i) zero s h = absurd (omega arith)
take-take-drop (suc i) (suc k) [] h = take-nil (suc k - suc i)
take-take-drop (suc i) (suc k) (c ∷ s) h =
    let e : suc k - suc i ≡ k - i = omega arith in
    rw e (ap (◌∷◌ c) (take-take-drop i k s (omega arith)))

-- The integer before `i`.
abbrev pub before : ℕ → ℤ
before zero = negsuc 0
before (suc i) = pos i

range-some :
    (s : List ℕ) (i k : ℕ)
    → i ≤ k
    → k ≤ length s
    → length s ≤ max_strlen
    → range s (pos i) (before k) ≡ some (take (k - i) (drop i s))
unfolding range is_bad_range create
range-some s i zero h l m = ground (arith, length-take (0 - i) (drop i s), length-drop i s)
range-some s i (suc k) h l m = ground (arith, length-take (suc k - i) (drop i s), length-drop i s)

-- A range within the string has the expected length, and the strings on its two sides and the
-- range itself add up to the string.
range_parts :
    (s : List ℕ) (i k : ℕ)
    → i ≤ k
    → k ≤ length s
    → length s ≤ max_strlen
    → (a b c ab : List ℕ) × (range s (pos 0) (before i) ≡ some a)
      × (range s (pos i) (before k) ≡ some b)
      × (range s (pos k) (before (length s)) ≡ some c)
      × (length b ≡ k - i)
      × (add a b ≡ some ab)
      × (add ab c ≡ some s)
unfolding add
range_parts s i k h l m =
    let a = take (i - 0) s in
    let b = take (k - i) (drop i s) in
    let c = take (length s - k) (drop k s) in
    let start : i - 0 ≡ i = omega arith in
    let ab : a ++ b ≡ take k s = rw start (take-take-drop i k s h) in
    let end : c ≡ drop k s = take_all (length s - k) (drop k s) (omega (arith, length-drop k s)) in
    (
      a,
      b,
      c,
      take k s,
      range-some s 0 i (omega arith) (omega arith) m,
      range-some s i k h l m,
      range-some s k (length s) l (omega arith) m,
      omega (arith, length-take (k - i) (drop i s), length-drop i s),
      rw ab (create-some (take k s) (omega (arith, length-take k s))),
      rw (end, take-append-drop k s) (create-some s m),
    )

-- A range that does not lie within the string is refused.
range-none :
    (s : List ℕ) (l1 l2 : ℤ)
    → ((i k : ℕ) → l1 ≡ pos i → l2 ≡ before k → i ≤ k → k ≤ length s → ⊥)
    → range s l1 l2 ≡ none
unfolding range is_bad_range
range-none s (negsuc n) l2 h = refl
range-none s (pos i) (negsuc zero) h = ground (arith, h i 0 refl refl)
range-none s (pos i) (negsuc (suc n)) h = ground arith
range-none s (pos i) (pos k) h = ground (arith, h i (suc k) refl refl)
