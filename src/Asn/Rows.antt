-- ===== src/Asn/Rows.antt =====
-- The rows of a product.
use native.Mathlib.Nat.{add-mul, mul_assoc}
use dgd.Prelude.{
  ℕ, suc, ◌+◌, ◌*◌, ◌/◌, ◌%◌, ◌≤◌, ◌<◌, ◌≡◌, refl, ap, ◌∙◌, List, [], ◌∷◌, arith, length,
}
use dgd.Asn.{word_mod, row_step, mult_row_from, mult_row}
use dgd.Asn.Value.{value, AreWords, IsSum}

-- The product of two words leaves room for two more of them.
pub product_bound : (b y : ℕ) → b < word_mod → y < word_mod → b * y ≤ 18446744065119617025
product_bound b y h k = grind arith

-- One round: the carry into the next word is `s` and a bit, and together they fit in a word.
row_step_lem :
    (a p s carry : ℕ)
    → a < word_mod
    → p ≤ 18446744065119617025
    → s + carry < word_mod
    → let r = row_step a (p % word_mod) (p / word_mod) s carry in
      (r.0 + word_mod * (r.1 + r.2) ≡ a + p + s + carry) × (r.0 < word_mod) × (r.1 + r.2 < word_mod)
row_step_lem a p s carry h k l = ground arith

mult_row_from-IsSum :
    (us vs : List ℕ) (y s carry : ℕ)
    → AreWords us
    → AreWords vs
    → y < word_mod
    → length us ≡ suc (length vs)
    → s + carry < word_mod
    → let r = mult_row_from us vs y s carry in
      IsSum us (value us + value vs * y + s + carry) r.0 r.1
unfolding mult_row_from
mult_row_from-IsSum [] vs y s carry v w k l h = absurd (omega arith)
mult_row_from-IsSum (a ∷ (a' ∷ us)) [] y s carry v w k l h = absurd (omega arith)
mult_row_from-IsSum (a ∷ []) [] y s carry v w k l h = record {
  exact = ground (arith, v.0, h);
  carry_bit = ground (arith, v.0, h);
  words = (omega arith, tt);
  same_length = refl;
}
mult_row_from-IsSum (a ∷ us) (b ∷ vs) y s carry v w k l h =
    let p = b * y in
    let r = row_step a (p % word_mod) (p / word_mod) s carry in
    let step = row_step_lem a p s carry v.0 (product_bound b y w.0 k) h in
    let rest = mult_row_from-IsSum us vs y r.1 r.2 v.1 w.1 k (omega arith) step.2 in
    let split : (b + word_mod * value vs) * y ≡ p + word_mod * (value vs * y) =
      add-mul b (word_mod * value vs) y ∙ ap (λ (t : ℕ). p + t) (mul_assoc word_mod (value vs) y) in
    record {
      exact = omega (arith, rest.exact, step.0, split);
      carry_bit = rest.carry_bit;
      words = (step.1, rest.words);
      same_length = omega (arith, rest.same_length);
    }

-- Asi::multRow: to a number of one 32-bit word more than `x`, the product of `x` and the word
-- `y` is added, and the carry out of it is returned.
pub mult_row-IsSum :
    (num x : List ℕ) (y : ℕ)
    → AreWords num
    → AreWords x
    → y < word_mod
    → length num ≡ suc (length x)
    → IsSum num (value num + value x * y) (mult_row num x y).0 (mult_row num x y).1
unfolding mult_row
mult_row-IsSum num x y v w k l =
    let s = mult_row_from-IsSum num x y 0 0 v w k l (omega arith) in
    record {
      exact = omega (arith, s.exact);
      carry_bit = s.carry_bit;
      words = s.words;
      same_length = s.same_length;
    }
