-- ===== src/Asn/Round.antt =====
-- A round of Asi::div.
use native.Mathlib.Nat.{mul-le-mul_left, mul-le-mul_right, mul_comm}
use dgd.Prelude.{
  ℕ, suc, ◌+◌, ◌*◌, ◌≤◌, ◌<◌, ◌≡◌, refl, ap, ◌∙◌, List, arith, length, length-take, take, replicate,
  ◌==◌, ==_iff, Bool-cases, inl, inr,
}
use dgd.Asn.{word_mod, sub, mult_row}
use dgd.Asn.Digit.{IsClose, guess-IsClose}
use dgd.Asn.Div.{word_at, guess, correct, div_step}
use dgd.Asn.DivStep.{sub-Holds, row-Holds, IsGuess, correct-IsGuess}
use dgd.Asn.Places.{place, top_place, value-lt-place, AreWords-take}
use dgd.Asn.Value.{value, AreWords}

-- The number `n`, divided by that of `b`: the quotient `q` and the words `r` of the remainder
pub record IsDivision (b : List ℕ) (n q : ℕ) (r : List ℕ) : Type 0 where
  pub exact : n ≡ q * value b + value r
  pub small : value r < value b
  pub words : AreWords r
  pub size : length r ≡ length b

-- The high word of a number that fits in the others is 0.
value-take :
    (n : ℕ) (us : List ℕ) → length us ≡ suc n → value us < place n → value (take n us) ≡ value us
value-take n us e h = elim (Bool-cases (word_at us n == 0)) [
  | inl z ↦ omega (arith, top_place n us e, ap (λ x. x * place n) ((==_iff (word_at us n) 0).0 z))
  | inr z ↦
      let one : 1 * place n ≤ word_at us n * place n =
        mul-le-mul_right (place n) (ground (arith, z)) in
      absurd (omega (arith, top_place n us e, one))
]

-- What an exact row leaves of the words
leave :
    (b w t : List ℕ) (n q : ℕ)
    → length b ≡ n
    → length w ≡ suc n
    → AreWords b
    → AreWords w
    → IsGuess b w 0 t q
    → IsDivision b (value w) q (take n (sub w t).0)
leave b w t n q eb ew vb vw g =
    let s = sub-Holds w t vw g.words (omega (arith, g.size)) (omega (arith, g.row, g.close)) in
    let next : (q + 1) * value b ≡ q * value b + value b = grind arith in
    let small : value (sub w t).0 < value b =
      omega (arith, s.exact, g.row, g.enough, g.close, next) in
    let taken =
      value-take n (sub w t).0 (s.size ∙ ew)
        (omega (arith, small, value-lt-place b vb, ap place eb)) in
    record {
      exact = omega (arith, taken, s.exact, g.row, g.close);
      small = omega (arith, taken, small);
      words = AreWords-take n (sub w t).0 s.words;
      size = omega (arith, length-take n (sub w t).0, s.size);
    }

-- The row for the first guess
first_row :
    (b w : List ℕ) (q : ℕ)
    → length w ≡ suc (length b)
    → AreWords b
    → IsClose b w q
    → IsGuess b w 2 (mult_row (replicate (length w) 0) b q).0 q
first_row b w q e v g =
    let many : value b * q ≤ value b * word_mod =
      mul-le-mul_left (value b) (omega (arith, g.fits)) in
    let room : value b * q < place (length w) =
      omega (arith, many, value-lt-place b v, ap place e) in
    let row = row-Holds b (length w) q v g.fits e room in
    record {
      row = row.exact ∙ mul_comm (value b) q;
      words = row.words;
      size = row.size;
      enough = g.enough;
      close = g.close;
      fits = g.fits;
    }

-- A round of Asi::div: with a divisor whose highest bit is set, and a dividend of one word more whose
-- quotient fits in a word, the guess is corrected to that quotient, and the remainder is left.
pub div_step-IsDivision :
    (b w : List ℕ) (n : ℕ)
    → length b ≡ suc n
    → length w ≡ suc (suc n)
    → AreWords b
    → AreWords w
    → word_mod ≤ 2 * word_at b n
    → value w < word_mod * value b
    → ((div_step b w).0 < word_mod) × IsDivision b (value w) (div_step b w).0 (div_step b w).1
unfolding div_step
div_step-IsDivision b w n eb ew vb vw normal below =
    let q = guess b w in
    let first = first_row b w q (omega arith) vb (guess-IsClose b w n eb ew vb vw normal below) in
    let t = (mult_row (replicate (length w) 0) b q).0 in
    let c = correct b w (t, q) in
    let second = correct-IsGuess b w t q 1 vb vw (omega arith) first in
    let last = correct-IsGuess b w c.0 c.1 0 vb vw (omega arith) second in
    let d = correct b w c in (last.fits, leave b w d.0 (length b) d.1 refl (omega arith) vb vw last)
