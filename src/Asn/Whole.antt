-- ===== src/Asn/Whole.antt =====
-- Asi::div as a whole.
use native.Mathlib.Nat.{
  add-mul, mul_assoc, mul-le-mul_right, le_of_mul-le-mul_right, lt_of_mul-lt-mul_right, one-le-pow,
  mul-div_cancel,
}
use dgd.Prelude.{
  ℕ, suc, ◌+◌, ◌-◌, ◌*◌, ◌/◌, ◌^◌, ◌≤◌, ◌<◌, ◌≡◌, refl, ap, sym, ◌∙◌, List, [], ◌∷◌, arith, length,
  ◌==◌, if◌then◌else◌, Bool-cases, inl, inr,
}
use dgd.Asn.{word_mod, sub}
use dgd.Asn.Div.{word_at, shift_from, scaled, div_words, div_by, div}
use dgd.Asn.DivStep.{Holds, sub-Holds}
use dgd.Asn.Operands.{IsNormal, IsWide, divisor-IsNormal, dividend-IsWide, unshifted}
use dgd.Asn.Places.{value-lt-place, word_at-lt, place}
use dgd.Asn.Quotient.{IsQuotient, half, div_words-IsQuotient}
use dgd.Asn.Scaled.{shift_from-normal, rshift-Holds}
use dgd.Asn.Shift.{lshift, rshift}
use dgd.Asn.Value.{value, AreWords}

-- Where the dividend has as many words as the divisor, which is not larger, the quotient is 1.
rounds :
    (b a : List ℕ) (n : ℕ)
    → length b ≡ suc n
    → length b ≤ length a
    → AreWords b
    → AreWords a
    → word_mod ≤ 2 * word_at b n
    → value b ≤ value a
    → let d = if length a == length b then (1 ∷ [], (sub a b).0) else div_words b a in
      IsQuotient b a d.0 d.1
rounds b a n e k v u h le = elim (Bool-cases (length a == length b)) [
  | inl z ↦
      let same : length a ≡ length b = ground (arith, z) in
      let s = sub-Holds a b u v (omega (arith, k)) le in
      rw z (record {
        exact = omega (arith, le, s.exact);
        small = omega (arith, s.exact, value-lt-place a u, half b n e h, ap place same);
        words = s.words;
        size = s.size ∙ same;
        digits = (omega arith, tt);
      })
  | inr z ↦ rw z (div_words-IsQuotient b a n e k v u h)
]

-- The remainder of a shifted division is the shifted remainder.
remainder :
    (p q x y r : ℕ)
    → 0 < p
    → x * p ≡ q * (y * p) + r
    → r < y * p
    → (x ≡ q * y + r / p) × (r / p < y)
remainder p q x y r h e k =
    let product = mul_assoc q y p in
    let le : q * y ≤ x = le_of_mul-le-mul_right {k = p} (omega (arith, e, product)) h in
    let split : x * p ≡ q * y * p + (x - q * y) * p =
      ap (λ t. t * p) (omega (arith, le)) ∙ add-mul (q * y) (x - q * y) p in
    let rest : r ≡ (x - q * y) * p = omega (arith, e, product, split) in
    let quotient : r / p ≡ x - q * y = ap (λ t. t / p) rest ∙ mul-div_cancel (x - q * y) h in
    (
      omega (arith, quotient, le),
      lt_of_mul-lt-mul_right p (omega (arith, k, rest, ap (λ t. t * p) quotient)),
    )

-- `if (shift != 0) { rshift(shift); }`
unscaled :
    (s : ℕ) (r : List ℕ)
    → s < 32
    → AreWords r
    → Holds (value r / 2 ^ s) (length r) (if s == 0 then r else rshift s r)
unscaled s r h v = elim (Bool-cases (s == 0)) [
  | inl z ↦ rw z (record {
    exact = sym (
        ap (λ t. t / 2 ^ s) (unshifted s (value r) z)
        ∙ mul-div_cancel (value r) (one-le-pow s 2 (omega arith)));
    words = v;
    size = refl;
  })
  | inr z ↦ rw z (rshift-Holds s r (ground (arith, z)) h v)
]

-- The shifts before and after the rounds cancel out.
div_by-IsQuotient :
    (s : ℕ) (x y : List ℕ) (n : ℕ)
    → s < 32
    → length y ≤ length x
    → value y ≤ value x
    → IsNormal s n y (if s == 0 then y else lshift s y)
    → IsWide (value x * 2 ^ s) (length x) (scaled s x)
    → length y ≡ suc n
    → IsQuotient y x (div_by s x y).1 (div_by s x y).0
unfolding div_by
div_by-IsQuotient s x y n h k le b a ey =
    let p = 2 ^ s in
    let p_pos : 0 < p = one-le-pow s 2 (omega arith) in
    let y' = if s == 0 then y else lshift s y in
    let x' = scaled s x in
    let d = if length x' == length y' then (1 ∷ [], (sub x' y').0) else div_words y' x' in
    let q = value d.0 in
    let r =
      rounds y' x' n b.size (omega (arith, b.size, ey, k, a.wide)) b.words a.words b.normal
        (omega (arith, b.exact, a.exact, mul-le-mul_right p le)) in
    let rest =
      remainder p q (value x) (value y) (value d.1) p_pos
        (omega (arith, r.exact, a.exact, ap (λ t. q * t) b.exact))
        (omega (arith, r.small, b.exact)) in
    let u = unscaled s d.1 h r.words in
    record {
      exact = omega (arith, rest.0, u.exact);
      small = omega (arith, rest.1, u.exact);
      words = u.words;
      size = omega (arith, u.size, r.size, b.size, ey);
      digits = r.digits;
    }

-- Asi::div ends with the quotient and the remainder of the two numbers; the remainder is less
-- than the divisor and has as many words. The words of both are 32-bit words, the highest of
-- the divisor is not 0, and the dividend has at least as many words and is not less.
pub div-IsQuotient :
    (x y : List ℕ) (n : ℕ)
    → length y ≡ suc n
    → length y ≤ length x
    → AreWords x
    → AreWords y
    → 0 < word_at y n
    → value y ≤ value x
    → IsQuotient y x (div x y).1 (div x y).0
unfolding div
div-IsQuotient x y n ey k vx vy pos le =
    let one_less : suc n - 1 ≡ n = omega arith in
    let s = shift_from 31 (word_at y n) in
    let normal = shift_from-normal 31 (word_at y n) (word_at-lt n y vy) (omega arith) in
    let small : s < 32 = omega (arith, normal.2) in
    let b = divisor-IsNormal n s y ey vy small normal.0 normal.1 in
    let a = dividend-IsWide s x small vx in
    rw (div, ey, one_less) (div_by-IsQuotient s x y n small k le b a ey)
