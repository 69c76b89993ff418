-- ===== src/Asn/Shifted.antt =====
-- Shifts by fewer bits than a word has are products and quotients.
use native.Mathlib.Nat.{
  add-mul, mul_assoc, mul_comm, mul-le-mul_right, lt_of_mul-lt-mul_right, div-add-mod',
  div-mul-le_self, add-mul-div_left, mod-lt, one-le-pow, zero-div, add-zero,
}
use dgd.Prelude.{
  ℕ, zero, suc, ◌+◌, ◌-◌, ◌*◌, ◌/◌, ◌%◌, ◌^◌, ◌≤◌, ◌<◌, ◌≡◌, refl, sym, ap, ◌∙◌, List, [], ◌∷◌,
  arith, Bool, true, ◌&&◌, ◌==◌, ==_iff, length,
}
use dgd.Asn.{word_mod}
use dgd.Asn.Shift.{shl, shr}
use dgd.Asn.Value.{value, above, AreWords}

all_below : ℕ → (ℕ → Bool) → Bool
all_below zero p = true
all_below (suc n) p = p n && all_below n p

all_below-at : (n : ℕ) (p : ℕ → Bool) (i : ℕ) → all_below n p ≡ true → i < n → p i ≡ true
unfolding all_below
all_below-at zero p i h k = absurd (omega arith)
all_below-at (suc n) p i h k = ground (arith, all_below-at n p i)

-- A word is split by a shift where 2 ^ n and 2 ^ (32 - n) make the number of words.
pub pow-word : (n : ℕ) → n < 32 → 2 ^ n * 2 ^ (32 - n) ≡ word_mod
unfolding all_below
pow-word n h = (==_iff _ _).0 (all_below-at 32 (λ k. 2 ^ k * 2 ^ (32 - k) == word_mod) n refl h)

module _ (p q : ℕ) (whole : p * q ≡ word_mod) (q_pos : 0 < q) where
  -- What a shift keeps of a word, and what it moves out of it
  pub shift_parts : (a : ℕ) → (a * p ≡ a % q * p + word_mod * (a / q)) × (a % q * p + p ≤ word_mod)
  shift_parts a =
      let parts : a * p ≡ a / q * q * p + a % q * p =
        ap (λ (t : ℕ). t * p) (sym (div-add-mod' a q)) ∙ add-mul (a / q * q) (a % q) p in
      let high : a / q * q * p ≡ a / q * word_mod =
        mul_assoc (a / q) q p ∙ ap (λ (t : ℕ). a / q * t) (mul_comm q p ∙ whole) in
      let room : (a % q + 1) * p ≤ q * p = mul-le-mul_right p (omega (arith, mod-lt a q_pos)) in
      (omega (arith, parts, high), omega (arith, room, add-mul (a % q) 1 p, mul_comm q p, whole))

  pub kept : (a : ℕ) → 0 < p → a * p % word_mod ≡ a % q * p
  kept a h = omega (arith, shift_parts a)

-- What leaves the number at its high end
abbrev pub shl_out : ℕ → ℕ → List ℕ → ℕ
shl_out n bits [] = bits
shl_out n bits (a ∷ us) = shl_out n (a / 2 ^ (32 - n)) us

pub moved-lt : (p q a : ℕ) → p * q ≡ word_mod → a < word_mod → 0 < q → a / q < p
moved-lt p q a e h k = lt_of_mul-lt-mul_right q (omega (arith, div-mul-le_self a q, e))

-- Asi::lshift by fewer than 32 bits, within the words and what leaves them
pub shl-value :
    (n bits : ℕ) (us : List ℕ)
    → n < 32
    → bits < 2 ^ n
    → AreWords us
    → (value (shl n bits us) + above us (shl_out n bits us) ≡ value us * 2 ^ n + bits)
      × AreWords (shl n bits us)
      × (length (shl n bits us) ≡ length us)
      × (shl_out n bits us < 2 ^ n)
unfolding shl
shl-value n bits [] h k v = (omega arith, tt, refl, k)
shl-value n bits (a ∷ us) h k v =
    let p = 2 ^ n in
    let q = 2 ^ (32 - n) in
    let whole = pow-word n h in
    let q_pos : 0 < q = one-le-pow (32 - n) 2 (omega arith) in
    let p_pos : 0 < p = one-le-pow n 2 (omega arith) in
    let parts = shift_parts p q whole q_pos a in
    let keep = kept p q whole q_pos a p_pos in
    let rest = shl-value n (a / q) us h (moved-lt p q a whole v.0 q_pos) v.1 in
    let split : (a + word_mod * value us) * p ≡ a * p + word_mod * (value us * p) =
      add-mul a (word_mod * value us) p
      ∙ ap (λ (t : ℕ). a * p + t) (mul_assoc word_mod (value us) p) in
    (
      omega (arith, parts, keep, rest.0, split),
      (omega (arith, parts, keep), rest.1),
      omega (arith, rest.2),
      rest.3,
    )

-- Asi::rshift by fewer than 32 bits
pub shr-value : (n : ℕ) (us : List ℕ) → n < 32 → AreWords us → value (shr n us) ≡ value us / 2 ^ n
unfolding shr
shr-value n [] h v = sym (zero-div (2 ^ n))
shr-value n (a ∷ []) h v = add-zero (a / 2 ^ n) ∙ ap (λ (t : ℕ). t / 2 ^ n) (sym (add-zero a))
shr-value n (a ∷ (b ∷ us)) h v =
    let p = 2 ^ n in
    let q = 2 ^ (32 - n) in
    let high = value (b ∷ us) in
    let whole = pow-word n h in
    let p_pos : 0 < p = one-le-pow n 2 (omega arith) in
    let parts = shift_parts q p (mul_comm q p ∙ whole) p_pos high in
    let split : (b + word_mod * value us) * q ≡ b * q + word_mod * (value us * q) =
      add-mul b (word_mod * value us) q
      ∙ ap (λ (t : ℕ). b * q + t) (mul_assoc word_mod (value us) q) in
    let quotient : (a + p * (q * high)) / p ≡ a / p + q * high =
      add-mul-div_left a (q * high) p_pos in
    let whole_high : word_mod * high ≡ p * (q * high) =
      ap (λ (t : ℕ). t * high) (sym whole) ∙ mul_assoc p q high in
    let q_pos : 0 < q = one-le-pow (32 - n) 2 (omega arith) in
    rw (shr-value n (b ∷ us) h v.1, whole_high, quotient)
      (omega (arith, parts, split, mul_comm q high))
