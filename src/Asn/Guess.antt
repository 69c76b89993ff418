-- ===== src/Asn/Guess.antt =====
-- The guess of a quotient's word from the highest words: at most 2 too large, and never too small.
use native.Mathlib.Nat.{add-mul, mul-add, mul_assoc, mul-le-mul, mul-le-mul_left, mul-le-mul_right}
use dgd.Prelude.{ℕ, ◌+◌, ◌*◌, ◌≤◌, ◌<◌, ◌≡◌, ap, ◌∙◌, arith}
use dgd.Asn.{word_mod}

module _ (top d w low rest q a b : ℕ) (ea : a ≡ top * w + low) (eb : b ≡ d * w + rest) where
  pub guess_enough : low < w → top < (q + 1) * d → a < (q + 1) * b
  guess_enough h k =
      let up : (top + 1) * w ≤ (q + 1) * d * w = mul-le-mul_right w (omega arith) in
      let wide : (q + 1) * (d * w) ≤ (q + 1) * b = mul-le-mul_left (q + 1) (omega arith) in
      omega (arith, up, wide, add-mul top 1 w, mul_assoc (q + 1) d w)

  pub guess_close : rest < w → word_mod ≤ 2 * d → q * d ≤ top → q < word_mod → q * b ≤ a + 2 * b
  guess_close h k l m =
      let product : q * b ≡ q * (d * w) + q * rest =
        ap (λ (t : ℕ). q * t) eb ∙ mul-add q (d * w) rest in
      let high : q * d * w ≤ top * w = mul-le-mul_right w l in
      let below : q * rest ≤ word_mod * w = mul-le-mul (omega arith) (omega arith) in
      let half : word_mod * w ≤ 2 * d * w = mul-le-mul_right w k in
      omega (arith, product, high, below, half, mul_assoc q d w, mul_assoc 2 d w)
