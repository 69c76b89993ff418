-- ===== src/Asn/Bytes.antt =====
-- The number that bytes stand for.
use native.Mathlib.Nat.{mul_assoc, pow-succ'}
use mathlib.Core.List.{reverse-cons}
use dgd.Prelude.{
  ℕ, zero, suc, ◌+◌, ◌*◌, ◌/◌, ◌^◌, ◌<◌, ◌≡◌, refl, ap, Bool, List, [], ◌∷◌, ◌++◌, reverse, arith,
  length, length-reverse, All, All-append, if◌then◌else◌,
}
use dgd.Asn.{word_mod}
use dgd.Asn.Places.{place}
use dgd.Asn.Text.{low_bytes, text_of}
use dgd.Asn.Value.{value, AreWords}

abbrev pub AreBytes : List ℕ → Type 0
AreBytes bs = All (λ b. b < 256) bs

-- The number of bytes, the lowest first
abbrev pub bytes : List ℕ → ℕ
bytes [] = 0
bytes (b ∷ bs) = b + 256 * bytes bs

-- The number that the bytes `bs`, the lowest first, stand for in two's complement: `n`, or less than 0
-- by `n`.
abbrev pub IsTwos : List ℕ → Bool → ℕ → Type 0
IsTwos bs minus n = if minus then bytes bs + n ≡ 256 ^ length bs else (bytes bs ≡ n)

pub bytes-append : (xs : List ℕ) (b : ℕ) → bytes (xs ++ (b ∷ [])) ≡ bytes xs + 256 ^ length xs * b
bytes-append [] b = omega arith
bytes-append (x ∷ xs) b =
    let n = length xs in
    omega
      (arith, bytes-append xs b, ap (λ (p : ℕ). p * b) (pow-succ' 256 n), mul_assoc 256 (256 ^ n) b)

pub bytes-cons :
    (b : ℕ) (s : List ℕ) → bytes (reverse (b ∷ s)) ≡ bytes (reverse s) + 256 ^ length s * b
bytes-cons b s = rw (reverse-cons b s, bytes-append (reverse s) b, length-reverse s) refl

pub bytes-lt : (bs : List ℕ) → AreBytes bs → bytes bs < 256 ^ length bs
bytes-lt [] v = omega arith
bytes-lt (b ∷ bs) v = omega (arith, v.0, bytes-lt bs v.1, pow-succ' 256 (length bs))

pub low_bytes-value :
    (n a : ℕ)
    → a < 256 ^ n
    → (bytes (low_bytes n a) ≡ a) × AreBytes (low_bytes n a) × (length (low_bytes n a) ≡ n)
low_bytes-value zero a h = (omega arith, tt, refl)
low_bytes-value (suc n) a h =
    let rest = low_bytes-value n (a / 256) (omega (arith, h, pow-succ' 256 n)) in
    (omega (arith, rest.0), (omega arith, rest.1), omega (arith, rest.2))

low_bytes-AreBytes : (n a : ℕ) → AreBytes (low_bytes n a) × (length (low_bytes n a) ≡ n)
low_bytes-AreBytes zero a = (tt, refl)
low_bytes-AreBytes (suc n) a =
    let rest = low_bytes-AreBytes n (a / 256) in ((omega arith, rest.0), omega (arith, rest.1))

pub text_of-bytes :
    (us : List ℕ) (bits n : ℕ)
    → AreWords us
    → (bytes (text_of us bits n) ≡ value us + place (length us) * bytes (low_bytes n bits))
      × AreBytes (text_of us bits n)
      × (256 ^ length (text_of us bits n) ≡ place (length us) * 256 ^ n)
text_of-bytes [] bits n v =
    let s = low_bytes-AreBytes n bits in (omega arith, s.0, omega (arith, ap (λ k. 256 ^ k) s.1))
text_of-bytes (a ∷ us) bits n v =
    let rest = text_of-bytes us bits n v.1 in
    let m = length (text_of us bits n) in
    let low = low_bytes-value 4 a (omega (arith, v.0)) in
    (
      omega (
        arith,
        v.0,
        low.0,
        rest.0,
        mul_assoc word_mod (place (length us)) (bytes (low_bytes n bits)),
      ),
      All-append (λ b. b < 256) (low_bytes 4 a) (text_of us bits n) low.1 rest.1,
      omega (
        arith,
        rest.2,
        pow-succ' 256 m,
        pow-succ' 256 (suc m),
        pow-succ' 256 (suc (suc m)),
        pow-succ' 256 (suc (suc (suc m))),
        mul_assoc word_mod (place (length us)) (256 ^ n),
      ),
    )
