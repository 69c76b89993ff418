-- ===== src/Asn/Scaled.antt =====
-- The shifts that Asi::div makes before and after the rounds.
use native.Mathlib.Nat.{mul_assoc, mul_comm, mul-le-mul_right, one-le-pow, pow-succ', div-le_self}
use mathlib.Core.List.{append-nil}
use dgd.Prelude.{
  ℕ, zero, suc, ◌+◌, ◌-◌, ◌*◌, ◌/◌, ◌%◌, ◌^◌, ◌≤◌, ◌<◌, ◌≡◌, refl, ap, sym, ◌∙◌, List, [], ◌∷◌,
  arith, length, take_all, ◌==◌, ==_iff, leb, Bool-cases, false, inl, inr,
}
use dgd.Asn.{word_mod}
use dgd.Asn.Div.{shift_from}
use dgd.Asn.DivStep.{Holds}
use dgd.Asn.Places.{place}
use dgd.Asn.Shift.{shl, shr, lshift, rshift}
use dgd.Asn.Shifted.{shl-value, shr-value, shl_out, shift_parts, kept, moved-lt, pow-word}
use dgd.Asn.Value.{value, above, AreWords}

-- The loop ends, and then the highest bit is set and none is lost.
pub shift_from-normal :
    (fuel d : ℕ)
    → d < word_mod
    → 2147483648 ≤ d * 2 ^ fuel
    → (2147483648 ≤ d * 2 ^ shift_from fuel d)
      × (d * 2 ^ shift_from fuel d < word_mod)
      × (shift_from fuel d ≤ fuel)
unfolding shift_from
shift_from-normal zero d h k = (k, omega (arith, h), omega arith)
shift_from-normal (suc fuel) d h k = elim (Bool-cases (leb 2147483648 d)) [
  | inl e ↦ rw e (ground (arith, e), omega (arith, h), omega arith)
  | inr e ↦
      let double : d * 2 % word_mod ≡ d * 2 = ground (arith, e) in
      let twice : (m : ℕ) → d * 2 * 2 ^ m ≡ d * 2 ^ suc m =
        λ m. mul_assoc d 2 (2 ^ m) ∙ ap (λ (t : ℕ). d * t) (sym (pow-succ' 2 m)) in
      let rest =
        shift_from-normal fuel (d * 2) (ground (arith, e)) (omega (arith, k, twice fuel)) in
      let s = shift_from fuel (d * 2) in
      rw (e, double)
        (omega (arith, rest.0, twice s), omega (arith, rest.1, twice s), omega (arith, rest.2))
]

lshift-shl : (n : ℕ) (us : List ℕ) → 0 < n → n < 32 → lshift n us ≡ shl n 0 us
unfolding lshift
lshift-shl n us h k =
    let one : (n + 31) / 32 ≡ 1 = omega arith in
    let bits : n % 32 ≡ n = omega arith in
    let some_bits : (n == 0) ≡ false = ground arith in
    rw (lshift, one, bits, some_bits)
      (ap (λ (xs : List ℕ). shl n 0 xs) (take_all (length us - 1 + 1) us (omega arith)))

above-times : (us : List ℕ) (c : ℕ) → above us c ≡ c * place (length us)
above-times [] c = omega arith
above-times (a ∷ us) c = omega (
  arith,
  above-times us c,
  mul_assoc c word_mod (place (length us)),
  ap (λ x. x * place (length us)) (mul_comm c word_mod),
  mul_assoc word_mod c (place (length us)),
)

-- Asi::lshift by fewer than 32 bits multiplies a number by a power of two, where the product still fits in
-- its words.
pub lshift-Holds :
    (n : ℕ) (us : List ℕ)
    → 0 < n
    → n < 32
    → AreWords us
    → value us * 2 ^ n < place (length us)
    → Holds (value us * 2 ^ n) (length us) (lshift n us)
lshift-Holds n us h k v room =
    let s = shl-value n 0 us k (one-le-pow n 2 (omega arith)) v in
    let out = shl_out n 0 us in
    let none : out ≡ 0 = elim (Bool-cases (out == 0)) [
      | inl e ↦ (==_iff out 0).0 e
      | inr e ↦
          let most : 1 * place (length us) ≤ out * place (length us) =
            mul-le-mul_right (place (length us)) (ground (arith, e)) in
          absurd (omega (arith, most, s.0, above-times us out, room))
    ] in
    rw (lshift-shl n us h k) (record {
      exact = omega (arith, s.0, above-times us out, ap (λ x. x * place (length us)) none);
      words = s.1;
      size = s.2;
    })

rshift-shr : (n : ℕ) (us : List ℕ) → 0 < n → n < 32 → rshift n us ≡ shr n us
unfolding rshift
rshift-shr n us h k =
    let one : (n + 31) / 32 ≡ 1 = omega arith in
    let bits : n % 32 ≡ n = omega arith in
    let some_bits : (n == 0) ≡ false = ground arith in
    rw (rshift, one, bits, some_bits) (append-nil (shr n us))

-- The bits of a word and those that come from the word above it
joined-lt : (n a b : ℕ) → n < 32 → a < word_mod → a / 2 ^ n + b * 2 ^ (32 - n) % word_mod < word_mod
joined-lt n a b h k =
    let p = 2 ^ n in
    let q = 2 ^ (32 - n) in
    let whole = mul_comm q p ∙ pow-word n h in
    let p_pos : 0 < p = one-le-pow n 2 (omega arith) in
    let q_pos : 0 < q = one-le-pow (32 - n) 2 (omega arith) in
    omega (
      arith,
      moved-lt q p a whole k p_pos,
      kept q p whole p_pos b q_pos,
      (shift_parts q p whole p_pos b).1,
    )

shr-words :
    (n : ℕ) (us : List ℕ)
    → n < 32
    → AreWords us
    → AreWords (shr n us) × (length (shr n us) ≡ length us)
unfolding shr
shr-words n [] h v = (tt, refl)
shr-words n (a ∷ []) h v = ((omega (arith, div-le_self a (2 ^ n), v.0), tt), refl)
shr-words n (a ∷ (b ∷ us)) h v =
    let rest = shr-words n (b ∷ us) h v.1 in
    ((joined-lt n a b h v.0, rest.0), omega (arith, rest.1))

-- Asi::rshift by fewer than 32 bits divides by a power of two, in as many words.
pub rshift-Holds :
    (n : ℕ) (us : List ℕ)
    → 0 < n
    → n < 32
    → AreWords us
    → Holds (value us / 2 ^ n) (length us) (rshift n us)
rshift-Holds n us h k v =
    let w = shr-words n us k v in
    rw (rshift-shr n us h k) (record { exact = shr-value n us k v; words = w.0; size = w.1 })
