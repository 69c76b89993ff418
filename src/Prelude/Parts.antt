-- ===== src/Prelude/Parts.antt =====
-- The first and the last elements of lists that are appended or reversed.
use Prim.Native.Nat.{ℕ, zero, suc, ◌+◌, ◌-◌, ◌≤◌, min}
use native.Mathlib.Nat.{suc-add, zero-add}
use mathlib.Core.Path.{◌≡◌, refl, sym, ap, ◌∙◌}
use mathlib.Core.Logic.{inl, inr}
use mathlib.Core.List.{List, [], ◌∷◌, ◌++◌, reverse, reverse-append, append-nil}
use native.Mathlib.Omega.{arith}
use dgd.Prelude.Tests.{leb, Bool-cases}
use dgd.Prelude.Lists.{
  length, take, drop, length-drop, length-reverse, take-append, drop_from-append, take_all,
  drop_all, take_nil, drop_nil,
}

module _ {ℓ} {A : Type ℓ} (xs ys : List A) where
  pub take_low : (n : ℕ) → n ≤ length xs → take n (xs ++ ys) ≡ take n xs
  take_low n h =
      let none_left : n - length xs ≡ 0 = omega arith in
      rw (take-append n xs ys, none_left) (append-nil (take n xs))

  pub drop_low : (n : ℕ) → n ≤ length xs → drop n (xs ++ ys) ≡ drop n xs ++ ys
  drop_low n h =
      let none_left : n - length xs ≡ 0 = omega arith in
      rw (drop_from-append n xs ys, none_left) refl

  pub take_high : (n : ℕ) → length xs ≤ n → take n (xs ++ ys) ≡ xs ++ take (n - length xs) ys
  take_high n h = rw (take-append n xs ys, take_all n xs h) refl

  pub drop_high : (n : ℕ) → length xs ≤ n → drop n (xs ++ ys) ≡ drop (n - length xs) ys
  drop_high n h = rw (drop_from-append n xs ys, drop_all n xs h) refl

module _ {ℓ} {A : Type ℓ} where
  take-min : (n : ℕ) (xs : List A) → take n xs ≡ take (min n (length xs)) xs
  take-min n xs = elim (Bool-cases (leb n (length xs))) [
    | inl h ↦ let same : min n (length xs) ≡ n = ground (arith, h) in rw same refl
    | inr h ↦
        let same : min n (length xs) ≡ length xs = ground (arith, h) in
        let more : length xs ≤ n = ground (arith, h) in
        rw (same, take_all n xs more) (sym (take_all (length xs) xs (omega arith)))
  ]

  -- A part of a list that is appended to another comes from both.
  pub part-append :
      (i n : ℕ) (xs ys : List A)
      → i ≤ length xs
      → take n (drop i (xs ++ ys))
        ≡ take (min n (length xs - i)) (drop i xs) ++ take (n - min n (length xs - i)) ys
  part-append i n xs ys h =
      let left = length-drop i xs in
      let rest : n - (length xs - i) ≡ n - min n (length xs - i) = omega arith in
      rw (drop_low xs ys i h, take-append n (drop i xs) ys, take-min n (drop i xs), left, rest) refl

  pub part_low :
      (i n : ℕ) (xs ys : List A)
      → i + n ≤ length xs
      → take n (drop i (xs ++ ys)) ≡ take n (drop i xs)
  part_low i n xs ys h =
      rw (drop_low xs ys i (omega arith))
        (take_low (drop i xs) ys n (omega (arith, length-drop i xs)))

  pub part_high :
      (i n : ℕ) (xs ys : List A)
      → length xs ≤ i
      → take n (drop i (xs ++ ys)) ≡ take n (drop (i - length xs) ys)
  part_high i n xs ys h = rw (drop_high xs ys i h) refl

  pub take_add : (s m : ℕ) (xs : List A) → take (s + m) xs ≡ take s xs ++ take m (drop s xs)
  take_add zero m xs = rw (zero-add m) refl
  take_add (suc s) m [] = rw (take_nil {A = A} (suc s + m)) (sym (take_nil {A = A} m))
  take_add (suc s) m (x ∷ xs) = rw (suc-add s m) (ap (◌∷◌ x) (take_add s m xs))

  pub drop-reverse : (i : ℕ) (xs : List A) → drop i (reverse xs) ≡ reverse (take (length xs - i) xs)
  drop-reverse i [] = drop_nil {A = A} i ∙ sym (ap reverse (take_nil {A = A} (0 - i)))
  drop-reverse i (x ∷ xs) = elim (Bool-cases (leb i (length xs))) [
    | inl h ↦
        let n = length-reverse xs in
        let some_left : suc (length xs) - i ≡ suc (length xs - i) = ground (arith, h) in
        let low : i ≤ length (reverse xs) = ground (arith, h, n) in
        rw
          (
            reverse-append (x ∷ []) xs,
            drop_low (reverse xs) (x ∷ []) i low,
            drop-reverse i xs,
            some_left,
            reverse-append (x ∷ []) (take (length xs - i) xs),
          )
          refl
    | inr h ↦
        let nothing : suc (length xs) - i ≡ 0 = ground (arith, h) in
        let all : length (reverse (x ∷ xs)) ≤ i = ground (arith, h, length-reverse (x ∷ xs)) in
        rw (drop_all i (reverse (x ∷ xs)) all, nothing) refl
  ]

  pub take-append-drop : (n : ℕ) (xs : List A) → take n xs ++ drop n xs ≡ xs
  take-append-drop zero xs = refl
  take-append-drop (suc n) [] = refl
  take-append-drop (suc n) (x ∷ xs) = ap (◌∷◌ x) (take-append-drop n xs)
