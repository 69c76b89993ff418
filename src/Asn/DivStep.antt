-- ===== src/Asn/DivStep.antt =====
-- A round of Asi::div.
use Prim.Native.Nat.{compare, Ordering}
use native.Mathlib.Nat.{add-mul}
use dgd.Prelude.{
  ℕ, zero, suc, ◌+◌, ◌-◌, ◌*◌, ◌≤◌, ◌<◌, ◌≡◌, refl, ap, ◌∙◌, List, arith, length, replicate, ltb,
  ◌==◌, ==_iff, Bool-cases, inl, inr,
}
use dgd.Asn.{word_mod, sub, mult_row}
use dgd.Asn.Div.{correct}
use dgd.Asn.Places.{place, above-one, value-lt-place, value-zeros, AreWords-zeros, length-zeros}
use dgd.Asn.Rows.{mult_row-IsSum}
use dgd.Asn.Sums.{sub-IsDifference, cmp-value}
use dgd.Asn.Value.{value, above, above-zero, AreWords}

-- The words `r` stand for `n`, and there are `k` of them.
pub record Holds (n k : ℕ) (r : List ℕ) : Type 0 where
  pub exact : value r ≡ n
  pub words : AreWords r
  pub size : length r ≡ k

-- Nothing is carried out of a number that its words hold.
pub no_carry : (us r : List ℕ) (c : ℕ) → c ≤ 1 → value r + above us c < place (length us) → c ≡ 0
no_carry us r zero h k = refl
no_carry us r (suc zero) h k = absurd (omega (arith, k, above-one us 1 h (omega arith)))
no_carry us r (suc (suc c)) h k = absurd (omega arith)

-- A smaller number is taken from a larger one exactly.
pub sub-Holds :
    (num x : List ℕ)
    → AreWords num
    → AreWords x
    → length x ≤ length num
    → value x ≤ value num
    → Holds (value num - value x) (length num) (sub num x).0
sub-Holds num x v w k h =
    let d = sub-IsDifference num x v w k in
    let below = value-lt-place (sub num x).0 d.words in
    let size = ap place d.same_length in
    let none : (sub num x).1 ≡ 0 = elim (Bool-cases ((sub num x).1 == 0)) [
      | inl e ↦ (==_iff _ _).0 e
      | inr e ↦ absurd (
          omega (
            arith,
            below,
            size,
            d.exact,
            above-one num (sub num x).1 d.borrow_bit (ground (arith, e)),
          ))
    ] in
    record {
      exact = omega (arith, d.exact, above-zero num, ap (λ c. above num c) none);
      words = d.words;
      size = d.same_length;
    }

-- The product of the divisor and the guess, where it fits in one word more than the divisor
pub row-Holds :
    (b : List ℕ) (n q : ℕ)
    → AreWords b
    → q < word_mod
    → n ≡ suc (length b)
    → value b * q < place n
    → Holds (value b * q) n (mult_row (replicate n 0) b q).0
row-Holds b n q v h e k =
    let zeros = replicate n 0 in
    let len : length zeros ≡ n = length-zeros n in
    let r = mult_row (replicate n 0) b q in
    let s = mult_row-IsSum zeros b q (AreWords-zeros n) v h (len ∙ e) in
    let zero_value = value-zeros n in
    let none =
      no_carry zeros r.0 r.1 s.carry_bit (omega (arith, s.exact, zero_value, k, ap place len)) in
    record {
      exact = omega (arith, s.exact, zero_value, above-zero zeros, ap (λ c. above zeros c) none);
      words = s.words;
      size = s.same_length ∙ len;
    }

-- A row with its guess `q` that is at most `spare` too large for the words `w`, and not too small.
pub record IsGuess (b w : List ℕ) (spare : ℕ) (t : List ℕ) (q : ℕ) : Type 0 where
  pub row : value t ≡ q * value b
  pub words : AreWords t
  pub size : length t ≡ length w
  pub enough : value w < (q + 1) * value b
  pub close : q * value b ≤ value w + spare * value b
  pub fits : q < word_mod

pub on_gt :
    {A : Type 0} (m n : ℕ) (x y : A)
    → (n < m → (elim (compare m n) [ Ordering.gt ↦ x | _ ↦ y ]) ≡ x)
      × (m ≤ n → (elim (compare m n) [ Ordering.gt ↦ x | _ ↦ y ]) ≡ y)
on_gt m n x y = (λ h. ground arith, λ h. ground arith)

-- A correction depends on the order of the numbers.
correct-value :
    (b w t : List ℕ) (q : ℕ)
    → AreWords t
    → AreWords w
    → length t ≡ length w
    → (value w < value t → correct b w (t, q) ≡ ((sub t b).0, q - 1))
      × (value t ≤ value w → correct b w (t, q) ≡ (t, q))
unfolding correct
correct-value b w t q v u e =
    rw (correct, cmp-value t w v u (omega (arith, e)))
      (on_gt (value t) (value w) ((sub t b).0, q - 1) (t, q))

-- A correction where the guess is still too large
pub correct-IsGuess :
    (b w t : List ℕ) (q spare : ℕ)
    → AreWords b
    → AreWords w
    → length b ≤ length w
    → IsGuess b w (suc spare) t q
    → let c = correct b w (t, q) in IsGuess b w spare c.0 c.1
correct-IsGuess b w t zero spare v u k g =
    rw ((correct-value b w t zero g.words u g.size).1 (omega (arith, g.row))) (record {
      row = g.row;
      words = g.words;
      size = g.size;
      enough = g.enough;
      close = omega (arith, g.row);
      fits = g.fits;
    })
correct-IsGuess b w t (suc q) spare v u k g =
    let cases = correct-value b w t (suc q) g.words u g.size in
    let less : suc q * value b ≡ q * value b + value b = grind arith in
    let spared : suc spare * value b ≡ spare * value b + value b = grind arith in
    elim (Bool-cases (ltb (value w) (value t))) [
      | inl e ↦
          let h = sub-Holds t b g.words v (omega (arith, g.size)) (omega (arith, g.row, less)) in
          let row : value (sub t b).0 ≡ q * value b = omega (arith, h.exact, g.row, less) in
          let close : q * value b ≤ value w + spare * value b =
            omega (arith, g.close, less, spared) in
          let enough : value w < (q + 1) * value b =
            ground (arith, e, g.row, less, add-mul q 1 (value b)) in
          let one_less : suc q - 1 ≡ q = omega arith in
          rw (cases.0 (ground (arith, e)), one_less)
            (record {
              row = row;
              words = h.words;
              size = omega (arith, h.size, g.size);
              enough = enough;
              close = close;
              fits = omega (arith, g.fits);
            })
      | inr e ↦ rw (cases.1 (ground (arith, e))) (record {
        row = g.row;
        words = g.words;
        size = g.size;
        enough = g.enough;
        close = ground (arith, e, g.row);
        fits = g.fits;
      })
    ]
