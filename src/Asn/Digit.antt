-- ===== src/Asn/Digit.antt =====
-- The guess that Asi::div makes for a word of the quotient.
use native.Mathlib.Nat.{
  add-mul, mul-le-mul_right, div-mul-le_self, lt-div-mul-add, div-lt_iff_lt-mul, mod-eq_of_lt,
}
use dgd.Prelude.{
  ℕ, suc, ◌+◌, ◌-◌, ◌*◌, ◌/◌, ◌≤◌, ◌<◌, ◌≡◌, refl, List, arith, length, take, ltb, ◌==◌,
  if◌then◌else◌, Bool-cases, inl, inr,
}
use dgd.Asn.{word_mod}
use dgd.Asn.Div.{word_at, div1, guess}
use dgd.Asn.Guess.{guess_enough, guess_close}
use dgd.Asn.Places.{place, top_place, two_places, word_at-lt, take-lt-place}
use dgd.Asn.Value.{value, AreWords}

-- The word `q` is at most 2 more than the quotient of the numbers of `w` and `b`, and not less.
pub record IsClose (b w : List ℕ) (q : ℕ) : Type 0 where
  pub enough : value w < (q + 1) * value b
  pub close : q * value b ≤ value w + 2 * value b
  pub fits : q < word_mod

-- The quotient of two words by one that is more than the higher of them is a word.
div1_lem :
    (low high d : ℕ)
    → low < word_mod
    → high < d
    → (div1 low high d * d ≤ high * word_mod + low)
      × (high * word_mod + low < (div1 low high d + 1) * d)
      × (div1 low high d < word_mod)
div1_lem low high d h k =
    let n = high * word_mod + low in
    let small : n / d < word_mod = (div-lt_iff_lt-mul (omega arith)).1 (omega arith) in
    rw (mod-eq_of_lt small) (
      div-mul-le_self n d,
      omega (arith, lt-div-mul-add {a = n} {b = d} (omega arith), add-mul (n / d) 1 d),
      small,
    )

module _ (b w : List ℕ) (n : ℕ) (eb : length b ≡ suc n) (ew : length w ≡ suc (suc n))
    (vb : AreWords b) (vw : AreWords w) (normal : word_mod ≤ 2 * word_at b n)
    (below : value w < word_mod * value b) where
  high_word : word_at w (suc n) ≤ word_at b n
  high_word = elim (Bool-cases (ltb (word_at b n) (word_at w (suc n)))) [
    | inl e ↦
        let d = word_at b n in
        let top = word_at w (suc n) * word_mod + word_at w n in
        let many : (d * word_mod + word_mod) * place n ≤ top * place n =
          mul-le-mul_right (place n) (ground (arith, e)) in
        let split : (d * word_mod + word_mod) * place n ≡ word_mod * (d * place n + place n) =
          grind arith in
        absurd (
          omega
            (arith, below, many, split, top_place n b eb, two_places n w ew, take-lt-place n b vb))
    | inr e ↦ ground (arith, e)
  ]

  guess-value : guess b w ≡ (
      if word_at w (suc n) == word_at b n
      then word_mod - 1
      else div1 (word_at w n) (word_at w (suc n)) (word_at b n))
  unfolding guess
  guess-value = let one_less : suc n - 1 ≡ n = omega arith in rw (guess, eb, one_less) refl

  pub guess-IsClose : IsClose b w (guess b w)
  guess-IsClose =
      let d = word_at b n in
      let x = word_at w (suc n) in
      let y = word_at w n in
      let parts = two_places n w ew in
      let parts_b = top_place n b eb in
      let low = value (take n w) in
      let rest = value (take n b) in
      let close = guess_close (x * word_mod + y) d (place n) low rest in
      let enough = guess_enough (x * word_mod + y) d (place n) low rest in
      elim (Bool-cases (x == d)) [
        | inl e ↦
            rw (guess-value, e)
              (record {
                enough = omega (arith, below);
                close =
                    close (word_mod - 1) (value w) (value b) parts parts_b (take-lt-place n b vb)
                      normal (ground (arith, e)) (omega arith);
                fits = omega arith;
              })
        | inr e ↦
            let q = div1 y x d in
            let h = div1_lem y x d (word_at-lt n w vw) (ground (arith, e, high_word)) in
            rw (guess-value, e)
              (record {
                enough = enough q (value w) (value b) parts parts_b (take-lt-place n w vw) h.1;
                close =
                    close q (value w) (value b) parts parts_b (take-lt-place n b vb) normal h.0 h.2;
                fits = h.2;
              })
      ]
