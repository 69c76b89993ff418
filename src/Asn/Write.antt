-- ===== src/Asn/Write.antt =====
-- What Asi::numtostr writes, and that Asi::strtonum reads it back.
use native.Mathlib.Nat.{
  mul_assoc, mul-le-mul_left, mul-le-mul_right, pow-succ', one-le-pow, lt-div-mul-add,
  div-lt_iff_lt-mul,
}
use mathlib.Core.List.{reverse-reverse}
use dgd.Prelude.{
  ℕ, zero, suc, ◌+◌, ◌-◌, ◌*◌, ◌/◌, ◌%◌, ◌^◌, ◌≤◌, ◌<◌, ◌≡◌, refl, ap, sym, ◌∙◌, Bool, true, false,
  List, [], ◌∷◌, reverse, arith, length, length-append, length-take, length-reverse, take,
  All-reverse, leb, ◌==◌, ==_iff, Bool-cases, inl, inr, ◌⊎◌,
}
use dgd.Asn.{word_mod}
use dgd.Asn.Bytes.{AreBytes, bytes, bytes-cons, bytes-lt, low_bytes-value, text_of-bytes}
use dgd.Asn.Div.{word_at}
use dgd.Asn.Places.{place, value-lt-place, word_at-lt, AreWords-take}
use dgd.Asn.Read.{positive-value, skip_zeros, skip_bytes-AreBytes}
use dgd.Asn.Text.{
  string_of, low_bytes, skip_bytes, strtonum, trim, len_from, text_of, put_text, has_sign, numtostr,
}
use dgd.Asn.Value.{value, AreWords}

-- The words of a number up to its highest word that is not 0, of which it has `suc n`
pub record IsTop (num : List ℕ) (n : ℕ) : Type 0 where
  pub top : 0 < word_at num n
  pub room : suc n ≤ length num
  pub parts : value num ≡ value (take n num) + place n * word_at num n

pub suc-is-not-zero : (n : ℕ) → (suc n == 0) ≡ false
suc-is-not-zero n = ground arith

pub trim_cases :
    (num : List ℕ)
    → ((trim num ≡ 0) × (value num ≡ 0)) ⊎ ((n : ℕ) × (trim num ≡ suc n) × IsTop num n)
unfolding trim
trim_cases [] = inl (refl, refl)
trim_cases (a ∷ us) = elim (trim_cases us) [
  | inl h ↦ elim (Bool-cases (a == 0)) [
    | inl e ↦ inl (rw (h.0, e) refl, ground (arith, h.1, e))
    | inr e ↦ inr (
      0,
      rw (h.0, e) refl,
      record { top = ground (arith, e); room = omega arith; parts = omega (arith, h.1) },
    )
  ]
  | inr h ↦
      let n = h.0 in
      inr (
        suc n,
        rw (h.1, suc-is-not-zero n) refl,
        record {
          top = h.2.top;
          room = omega (arith, h.2.room);
          parts = omega (arith, h.2.parts, mul_assoc word_mod (place n) (word_at us n));
        },
      )
]

zero_quotient : (p a : ℕ) → 0 < p → a / p ≡ 0 → a < p
zero_quotient p a h e = omega (arith, lt-div-mul-add {a = a} {b = p} h, ap (λ q. q * p) e)

-- As many bytes as a word has, less those that are 0 at its high end
len_from-value :
    (n bits : ℕ) → bits < 256 ^ suc n → (0 < len_from n bits) × (bits < 256 ^ len_from n bits)
unfolding len_from
len_from-value zero bits h = (omega arith, omega (arith, h))
len_from-value (suc n) bits h = elim (Bool-cases (bits / 256 ^ suc n == 0)) [
  | inl e ↦ rw e (
      len_from-value n bits (
        omega (
          arith,
          zero_quotient (256 ^ suc n) bits (one-le-pow (suc n) 256 (omega arith))
              ((==_iff _ 0).0 e),
        )))
  | inr e ↦ rw e (omega arith, h)
]

-- What is written for a number that is not negative: its bytes, and the highest bit is not set.
record IsPlain (n : ℕ) (s : List ℕ) : Type 0 where
  exact : bytes (reverse s) ≡ n
  is_bytes : AreBytes s
  sign : 2 * bytes (reverse s) < 256 ^ length s

-- Without the sign byte, the highest bit of the highest byte is clear.
clear_top :
    (bits n : ℕ) → 0 < n → bits < 256 ^ n → has_sign bits n ≡ false → 2 * (bits + 1) ≤ 256 ^ n
clear_top bits zero l h e = absurd (omega arith)
clear_top bits (suc k) l h e =
    let p = 256 ^ k in
    let q = bits / p in
    let p_pos : 0 < p = one-le-pow k 256 (omega arith) in
    let one_less : k ≡ suc k - 1 = omega arith in
    let top : leb 128 (q % 256) ≡ false = ap (λ j. leb 128 (bits / 256 ^ j % 256)) one_less ∙ e in
    let byte : q < 256 = (div-lt_iff_lt-mul p_pos).1 (omega (arith, h, pow-succ' 256 k)) in
    let small : q ≤ 127 = ground (arith, top, byte) in
    let most : q * p ≤ 127 * p = mul-le-mul_right p small in
    omega (arith, most, lt-div-mul-add {a = bits} {b = p} p_pos, pow-succ' 256 k)

put_text-IsPlain :
    (us : List ℕ) (bits n : ℕ)
    → AreWords us
    → 0 < n
    → bits < 256 ^ n
    → IsPlain (value us + place (length us) * bits) (put_text us bits n (has_sign bits n) 0)
unfolding put_text
put_text-IsPlain us bits n v h k =
    let r = text_of us bits n in
    let p = place (length us) in
    let t = text_of-bytes us bits n v in
    let low = ap (λ x. p * x) (low_bytes-value n bits k).0 in
    let back : bytes (reverse (reverse r)) ≡ bytes r = ap (λ x. bytes x) (reverse-reverse r) in
    let len : 256 ^ length (reverse r) ≡ 256 ^ length r = ap (λ x. 256 ^ x) (length-reverse r) in
    let words = All-reverse (λ b. b < 256) r t.1 in
    elim (Bool-cases (has_sign bits n)) [
      | inl e ↦ rw e (record {
        exact = omega (arith, bytes-cons 0 (reverse r), back, t.0, low);
        is_bytes = (omega arith, words);
        sign = omega (
          arith,
          bytes-cons 0 (reverse r),
          back,
          len,
          bytes-lt r t.1,
          pow-succ' 256 (length (reverse r)),
        );
      })
      | inr e ↦
          let most : p * (2 * (bits + 1)) ≤ p * 256 ^ n =
            mul-le-mul_left p (clear_top bits n h k e) in
          let twice : p * (2 * (bits + 1)) ≡ 2 * (p * bits) + 2 * p = grind arith in
          rw e (record {
            exact = omega (arith, back, t.0, low);
            is_bytes = words;
            sign = omega (arith, back, len, t.0, low, t.2, most, twice, value-lt-place us v);
          })
    ]

-- A text without the sign is read as its bytes.
strtonum-plain :
    (n : ℕ) (s : List ℕ) → IsPlain n s → ((strtonum s).1 ≡ false) × (value (strtonum s).0 ≡ n)
unfolding strtonum
strtonum-plain n [] p = (refl, p.exact)
strtonum-plain n (b ∷ s) p =
    let q = 256 ^ length s in
    let split = bytes-cons b s in
    let clear : leb 128 b ≡ false = elim (Bool-cases (leb 128 b)) [
      | inl e ↦
          let most : q * 128 ≤ q * b = mul-le-mul_left q (ground (arith, e)) in
          absurd (omega (arith, p.sign, split, most, pow-succ' 256 (length s)))
      | inr e ↦ e
    ] in
    let r = positive-value (skip_bytes 0 (b ∷ s)) (skip_bytes-AreBytes 0 (b ∷ s) p.is_bytes) in
    rw clear (refl, r.0 ∙ skip_zeros (b ∷ s) ∙ p.exact)

length-low_bytes : (n a : ℕ) → length (low_bytes n a) ≡ n
length-low_bytes zero a = refl
length-low_bytes (suc n) a = omega (arith, length-low_bytes n (a / 256))

length-text_of : (us : List ℕ) (bits n : ℕ) → length (text_of us bits n) ≡ 4 * length us + n
length-text_of [] bits n = omega (arith, length-low_bytes n bits)
length-text_of (a ∷ us) bits n = omega (
  arith,
  length-append (low_bytes 4 a) (text_of us bits n),
  length-low_bytes 4 a,
  length-text_of us bits n,
)

pub length-put_text :
    (us : List ℕ) (bits n : ℕ) (prefix : Bool) (sign : ℕ)
    → length (put_text us bits n prefix sign) ≤ 4 * length us + n + 1
unfolding put_text
length-put_text us bits n true sign =
    omega (arith, length-reverse (text_of us bits n), length-text_of us bits n)
length-put_text us bits n false sign =
    omega (arith, length-reverse (text_of us bits n), length-text_of us bits n)

len_from-le : (n bits : ℕ) → len_from n bits ≤ suc n
unfolding len_from
len_from-le zero bits = omega arith
len_from-le (suc n) bits = elim (Bool-cases (bits / 256 ^ suc n == 0)) [
  | inl e ↦ rw e (omega (arith, len_from-le n bits))
  | inr e ↦ rw e (omega arith)
]

-- For a number of 32-bit words that is not negative, Asi::numtostr makes a text of at most four bytes
-- for each word and one more, which is the string that it returns if String::create allows its
-- length, and Asi::strtonum reads that text as the same number, not negative.
pub numtostr-strtonum :
    (num : List ℕ)
    → AreWords num
    → (s : List ℕ) × (numtostr false num ≡ string_of s)
      × (length s ≤ 4 * length num + 1)
      × ((strtonum s).1 ≡ false)
      × (value (strtonum s).0 ≡ value num)
unfolding numtostr
numtostr-strtonum num v = elim (trim_cases num) [
  | inl h ↦
      let p : IsPlain 0 (0 ∷ []) = record {
        exact = refl;
        is_bytes = (omega arith, tt);
        sign = omega arith;
      } in
      let r = strtonum-plain 0 (0 ∷ []) p in
      (0 ∷ [], rw (h.0) refl, omega arith, r.0, r.1 ∙ sym h.1)
  | inr h ↦
      let n = h.0 in
      let top = word_at num n in
      let l = len_from 3 top in
      let b = len_from-value 3 top (word_at-lt n num v) in
      let low = take n num in
      let p = put_text-IsPlain low top l (AreWords-take n num v) b.0 b.1 in
      let r =
        strtonum-plain (value low + place (length low) * top)
          (put_text low top l (has_sign top l) 0) p in
      let one_less : suc n - 1 ≡ n = omega arith in
      let len : length low ≡ n = omega (arith, length-take n num, h.2.room) in
      (
        put_text low top l (has_sign top l) 0,
        rw (h.1, suc-is-not-zero n, one_less) refl,
        omega
            (arith, length-put_text low top l (has_sign top l) 0, len, len_from-le 3 top, h.2.room),
        r.0,
        omega (arith, r.1, h.2.parts, ap (λ k. place k * top) len),
      )
]
