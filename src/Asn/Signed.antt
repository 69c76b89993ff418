-- ===== src/Asn/Signed.antt =====
-- What Asi::numtostr writes for a number below 0.
use native.Mathlib.Nat.{mul-add, mul-le-mul_left, pow-succ'}
use mathlib.Core.List.{reverse-reverse}
use dgd.Prelude.{
  ℕ, suc, ◌+◌, ◌-◌, ◌*◌, ◌/◌, ◌%◌, ◌^◌, ◌≤◌, ◌<◌, ◌≡◌, refl, ap, sym, subst, ◌∙◌, true, not, false,
  List, reverse, arith, length, length-take, length-reverse, replicate, take, All-reverse, ◌==◌,
  Bool-cases, inl, inr,
}
use dgd.Asn.{word_mod, sub_from, sub}
use dgd.Asn.Bytes.{AreBytes, bytes, bytes-cons, text_of-bytes}
use dgd.Asn.Div.{word_at}
use dgd.Asn.Places.{place, place_pos, word_at-lt, AreWords-take, take-lt-place, length-zeros}
use dgd.Asn.Read.{complement}
use dgd.Asn.Square.{sub_from-take, value-fits}
use dgd.Asn.Text.{found, low_bytes, len_minus, text_of, put_text, has_sign}
use dgd.Asn.Value.{value, AreWords}
use dgd.Asn.Write.{IsTop}

-- The `n` low bytes of `bits`, above which all are 0xff
pub record IsSigned (bits n : ℕ) : Type 0 where
  pub high : len_minus 5 bits 24 ≡ found (8 * (n - 1))
  pub some_bytes : 0 < n
  pub short : n ≤ 4
  pub rest : bytes (low_bytes n bits) + word_mod ≡ bits + 256 ^ n
  pub sign : has_sign bits n ≡ true → 256 ^ n ≤ 2 * bytes (low_bytes n bits)

pub len_minus-IsSigned : (bits : ℕ) → bits < 4294967295 → (n : ℕ) × IsSigned bits n
unfolding len_minus
len_minus-IsSigned bits h = elim (Bool-cases (bits / 16777216 % 256 == 255)) [
  | inr e ↦ (
    4,
    record {
      high = rw e refl;
      some_bytes = omega arith;
      short = omega arith;
      rest = ground (arith, h);
      sign = λ s. ground (arith, h, s);
    },
  )
  | inl e ↦ elim (Bool-cases (bits / 65536 % 256 == 255)) [
    | inr f ↦ (
      3,
      record {
        high = rw (e, f) refl;
        some_bytes = omega arith;
        short = omega arith;
        rest = ground (arith, h, e);
        sign = λ s. ground (arith, h, s, e);
      },
    )
    | inl f ↦ elim (Bool-cases (bits / 256 % 256 == 255)) [
      | inr g ↦ (
        2,
        record {
          high = rw (e, f, g) refl;
          some_bytes = omega arith;
          short = omega arith;
          rest = ground (arith, h, e, f);
          sign = λ s. ground (arith, h, s, e, f);
        },
      )
      | inl g ↦
          let i : (bits / 1 % 256 == 255) ≡ false = ground (arith, h, e, f, g) in
          (
            1,
            record {
              high = rw (e, f, g, i) refl;
              some_bytes = omega arith;
              short = omega arith;
              rest = ground (arith, h, e, f, g);
              sign = λ s. ground (arith, h, s, e, f, g);
            },
          )
    ]
  ]
]

-- The two's complement of a number, in as many words as it needs
pub twos :
    (num : List ℕ) (n : ℕ)
    → AreWords num
    → IsTop num n
    → let t = (sub (replicate (suc n) 0) num).0 in
      (value t + value num ≡ place (suc n)) × AreWords t × (length t ≡ suc n)
unfolding sub
twos num n v top =
    let u = take (suc n) num in
    let len : length u ≡ suc n = omega (arith, length-take (suc n) num, top.room) in
    let most : place n * word_at num n ≤ place n * 4294967295 =
      mul-le-mul_left (place n) (omega (arith, word_at-lt n num v)) in
    let one : place n * 1 ≤ place n * word_at num n =
      mul-le-mul_left (place n) (omega (arith, top.top)) in
    let fits =
      value-fits (suc n) num top.room (omega (arith, top.parts, take-lt-place n num v, most)) in
    let c =
      complement u (AreWords-take (suc n) num v)
        (omega (arith, fits, top.parts, one, place_pos n)) in
    let zeros = length-zeros (suc n) in
    let same : (sub (replicate (suc n) 0) num).0 ≡ (sub (replicate (suc n) 0) u).0 =
      sub_from-take (replicate (suc n) 0) num 0
      ∙ ap (λ k. (sub_from (replicate (suc n) 0) (take k num) 0).0) zeros in
    let sized : (sub (replicate (length u) 0) u).0 ≡ (sub (replicate (suc n) 0) num).0 =
      ap (λ k. (sub (replicate k 0) u).0) len ∙ sym same in
    (
      omega (arith, c.0, fits, ap place len, ap value sized),
      subst AreWords sized c.1,
      ap (λ (xs : List ℕ). length xs) (sym sized) ∙ c.2 ∙ len,
    )

-- The text `s` stands for `n` below 0, and its highest bit is set.
pub record IsBelow (n : ℕ) (s : List ℕ) : Type 0 where
  pub exact : bytes (reverse s) + n ≡ 256 ^ length s
  pub is_bytes : AreBytes s
  pub sign : 256 ^ length s ≤ 2 * bytes (reverse s)

pub put_minus-IsBelow :
    (us : List ℕ) (bits n m : ℕ)
    → AreWords us
    → IsSigned bits n
    → value us + place (length us) * bits + m ≡ place (length us) * word_mod
    → IsBelow m (put_text us bits n (not (has_sign bits n)) 255)
unfolding put_text
put_minus-IsBelow us bits n m v g e =
    let r = text_of us bits n in
    let p = place (length us) in
    let t = text_of-bytes us bits n v in
    let back : bytes (reverse (reverse r)) ≡ bytes r = ap (λ x. bytes x) (reverse-reverse r) in
    let len : 256 ^ length (reverse r) ≡ 256 ^ length r = ap (λ x. 256 ^ x) (length-reverse r) in
    let words = All-reverse (λ b. b < 256) r t.1 in
    let low = bytes (low_bytes n bits) in
    let rest : p * low + p * word_mod ≡ p * bits + p * 256 ^ n =
      sym (mul-add p low word_mod) ∙ ap (λ x. p * x) g.rest ∙ mul-add p bits (256 ^ n) in
    let exact : bytes (reverse (reverse r)) + m ≡ 256 ^ length (reverse r) =
      omega (arith, back, len, t.0, t.2, rest, e) in
    elim (Bool-cases (has_sign bits n)) [
      | inl i ↦
          let half : p * 256 ^ n ≤ p * (2 * low) = mul-le-mul_left p (g.sign i) in
          let twice : p * (2 * low) ≡ 2 * (p * low) = grind arith in
          rw i (record {
            exact = exact;
            is_bytes = words;
            sign = omega (arith, back, len, t.0, t.2, half, twice);
          })
      | inr i ↦
          let cons = bytes-cons 255 (reverse r) in
          let more = pow-succ' 256 (length (reverse r)) in
          rw i (record {
            exact = omega (arith, exact, cons, more);
            is_bytes = (omega arith, words);
            sign = omega (arith, cons, more);
          })
    ]
