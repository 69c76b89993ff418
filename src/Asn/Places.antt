-- ===== src/Asn/Places.antt =====
-- The words of a number by their places.
use native.Mathlib.Nat.{mul_assoc, mul_comm}
use dgd.Prelude.{
  ℕ, zero, suc, ◌+◌, ◌*◌, ◌≤◌, ◌<◌, ◌≡◌, refl, ap, List, [], ◌∷◌, arith, length, take, replicate,
}
use dgd.Asn.{word_mod}
use dgd.Asn.Value.{value, above, AreWords}
use dgd.Asn.Div.{word_at}

-- The value of a 1 behind `n` words
abbrev pub place : ℕ → ℕ
place zero = 1
place (suc n) = word_mod * place n

pub place_pos : (n : ℕ) → 0 < place n
place_pos zero = omega arith
place_pos (suc n) = omega (arith, place_pos n)

above-place : (us : List ℕ) → above us 1 ≡ place (length us)
above-place [] = refl
above-place (a ∷ us) = omega (arith, above-place us)

pub value-lt-place : (us : List ℕ) → AreWords us → value us < place (length us)
value-lt-place [] v = omega arith
value-lt-place (a ∷ us) v = omega (arith, v.0, value-lt-place us v.1)

pub top_place :
    (n : ℕ) (us : List ℕ)
    → length us ≡ suc n
    → value us ≡ word_at us n * place n + value (take n us)
top_place zero [] h = absurd (omega arith)
top_place zero (a ∷ []) h = omega arith
top_place zero (a ∷ (b ∷ us)) h = absurd (omega arith)
top_place (suc n) [] h = absurd (omega arith)
top_place (suc n) (a ∷ us) h =
    let x = word_at us n in
    omega (
      arith,
      top_place n us (omega arith),
      mul_assoc x word_mod (place n),
      ap (λ (t : ℕ). t * place n) (mul_comm x word_mod),
      mul_assoc word_mod x (place n),
    )

pub two_places :
    (n : ℕ) (us : List ℕ)
    → length us ≡ suc (suc n)
    → value us ≡ (word_at us (suc n) * word_mod + word_at us n) * place n + value (take n us)
two_places zero [] h = absurd (omega arith)
two_places zero (a ∷ []) h = absurd (omega arith)
two_places zero (a ∷ (b ∷ us)) h = omega (arith, top_place zero (b ∷ us) (omega arith))
two_places (suc n) [] h = absurd (omega arith)
two_places (suc n) (a ∷ us) h =
    let x = word_at us (suc n) * word_mod + word_at us n in
    omega (
      arith,
      two_places n us (omega arith),
      mul_assoc x word_mod (place n),
      ap (λ (t : ℕ). t * place n) (mul_comm x word_mod),
      mul_assoc word_mod x (place n),
    )

pub AreWords-take : (n : ℕ) (us : List ℕ) → AreWords us → AreWords (take n us)
AreWords-take zero us v = tt
AreWords-take (suc n) [] v = tt
AreWords-take (suc n) (a ∷ us) v = (v.0, AreWords-take n us v.1)

pub word_at-lt : (i : ℕ) (us : List ℕ) → AreWords us → word_at us i < word_mod
word_at-lt i [] v = omega arith
word_at-lt zero (a ∷ us) v = v.0
word_at-lt (suc i) (a ∷ us) v = word_at-lt i us v.1

pub take-lt-place : (n : ℕ) (us : List ℕ) → AreWords us → value (take n us) < place n
take-lt-place zero us v = omega arith
take-lt-place (suc n) [] v = place_pos (suc n)
take-lt-place (suc n) (a ∷ us) v = omega (arith, v.0, take-lt-place n us v.1)

pub value-zeros : (n : ℕ) → value (replicate n 0) ≡ 0
value-zeros zero = refl
value-zeros (suc n) = omega (arith, value-zeros n)

pub AreWords-zeros : (n : ℕ) → AreWords (replicate n 0)
AreWords-zeros zero = tt
AreWords-zeros (suc n) = (omega arith, AreWords-zeros n)

pub length-zeros : (n : ℕ) → length (replicate {A = ℕ} n 0) ≡ n
length-zeros zero = refl
length-zeros (suc n) = omega (arith, length-zeros n)

pub above-one : (us : List ℕ) (c : ℕ) → c ≤ 1 → 0 < c → above us c ≡ place (length us)
above-one us zero h k = absurd (omega arith)
above-one us (suc zero) h k = above-place us
above-one us (suc (suc c)) h k = absurd (omega arith)
