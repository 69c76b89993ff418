-- ===== src/Asn/Value.antt =====
-- The number that an array of words stands for.
use dgd.Prelude.{ℕ, ◌+◌, ◌*◌, ◌≤◌, ◌<◌, ◌≡◌, refl, List, [], ◌∷◌, arith, length, All}
use dgd.Asn.{word_mod}

abbrev pub value : List ℕ → ℕ
value [] = 0
value (a ∷ us) = a + word_mod * value us

-- `c` times the place value of the word behind the list
abbrev pub above : List ℕ → ℕ → ℕ
above [] c = c
above (a ∷ us) c = word_mod * above us c

abbrev pub AreWords : List ℕ → Type 0
AreWords us = All (λ a. a < word_mod) us

pub above-zero : (us : List ℕ) → above us 0 ≡ 0
above-zero [] = refl
above-zero (a ∷ us) = omega (arith, above-zero us)

-- The words `r` and the carry out of them, for a number of as many words as `us`, make `n`.
pub record IsSum (us : List ℕ) (n : ℕ) (r : List ℕ) (carry : ℕ) : Type 0 where
  pub exact : value r + above us carry ≡ n
  pub carry_bit : carry ≤ 1
  pub words : AreWords r
  pub same_length : length r ≡ length us

-- The words `r`, with `n` added, make the number of `us` and the borrow from above it.
pub record IsDifference (us : List ℕ) (n : ℕ) (r : List ℕ) (borrow : ℕ) : Type 0 where
  pub exact : value r + n ≡ value us + above us borrow
  pub borrow_bit : borrow ≤ 1
  pub words : AreWords r
  pub same_length : length r ≡ length us
