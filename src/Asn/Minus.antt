-- ===== src/Asn/Minus.antt =====
-- Which numbers below 0 Asi::numtostr writes and Asi::strtonum reads back.
use native.Mathlib.Nat.{add-mul, mul_comm, mul-le-mul_left, lt_of_mul-lt-mul_right, pow-succ'}
use dgd.Prelude.{
  ℕ, zero, suc, ◌+◌, ◌-◌, ◌*◌, ◌/◌, ◌%◌, ◌^◌, ◌≤◌, ◌<◌, ◌≡◌, ◌≢◌, refl, sym, ◌∙◌, ap, subst, true,
  not, false, List, [], ◌∷◌, reverse, ltb, arith, length, length-take, length-reverse, replicate,
  take, All-reverse, leb, ◌==◌, ==_iff, Bool-cases, inl, inr,
}
use dgd.Asn.{word_mod, sub}
use dgd.Asn.Bytes.{bytes, IsTwos, bytes-cons, bytes-lt}
use dgd.Asn.Div.{word_at}
use dgd.Asn.Joined.{place_mono}
use dgd.Asn.Places.{place, place_pos, top_place, word_at-lt, AreWords-take, take-lt-place}
use dgd.Asn.Read.{skip_ones, strtonum-IsTwos}
use dgd.Asn.Signed.{len_minus-IsSigned, twos, IsBelow, put_minus-IsBelow}
use dgd.Asn.Text.{
  skip_bytes, strtonum, found, len_minus, put_text, has_sign, bad_shift, string_of, trim,
  minus_text, numtostr,
}
use dgd.Asn.Value.{value, AreWords}
use dgd.Asn.Write.{IsTop, length-put_text, trim_cases, suc-is-not-zero}

place-bytes : (k : ℕ) → 256 ^ (4 * k) ≡ place k
place-bytes zero = refl
place-bytes (suc k) =
    let m = 4 * k in
    let four : 4 * suc k ≡ suc (suc (suc (suc m))) = omega arith in
    omega (
      arith,
      ap (λ j. 256 ^ j) four,
      place-bytes k,
      pow-succ' 256 m,
      pow-succ' 256 (suc m),
      pow-succ' 256 (suc (suc m)),
      pow-succ' 256 (suc (suc (suc m))),
    )

-- Behind its bytes 0xff, a text for a number that is no power of 2 ^ 32 is not all zeros.
not_zeros :
    (m : ℕ) (s : List ℕ)
    → IsBelow m s
    → ((k : ℕ) → m ≢ place (suc k))
    → length (skip_bytes 255 s) % 4 ≡ 0
    → 0 < length (skip_bytes 255 s)
    → 0 < bytes (reverse (skip_bytes 255 s))
not_zeros m s p odd four some_bytes =
    let n = length (skip_bytes 255 s) in
    elim (Bool-cases (bytes (reverse (skip_bytes 255 s)) == 0)) [
      | inl e ↦
          let k = n / 4 - 1 in
          let whole : n ≡ 4 * suc k = omega (arith, four, some_bytes) in
          let power : m ≡ place (suc k) = omega (
            arith,
            p.exact,
            skip_ones s,
            (==_iff (bytes (reverse (skip_bytes 255 s))) 0).0 e,
            ap (λ j. 256 ^ j) whole,
            place-bytes (suc k),
          ) in
          absurd (odd k power)
      | inr e ↦ ground (arith, e)
    ]

strtonum-below :
    (m : ℕ) (s : List ℕ)
    → IsBelow m s
    → ((k : ℕ) → m ≢ place (suc k))
    → ((strtonum s).1 ≡ true) × (value (strtonum s).0 ≡ m)
unfolding strtonum
strtonum-below m [] p odd = absurd (omega (arith, p.sign))
strtonum-below m (b ∷ s) p odd =
    let q = 256 ^ length s in
    let low = bytes-lt (reverse s) (All-reverse (λ a. a < 256) s p.is_bytes.1) in
    let len : 256 ^ length (reverse s) ≡ q = ap (λ j. 256 ^ j) (length-reverse s) in
    let high : leb 128 b ≡ true = elim (Bool-cases (leb 128 b)) [
      | inl e ↦ e
      | inr e ↦
          let most : q * b ≤ q * 127 = mul-le-mul_left q (ground (arith, e)) in
          absurd (omega (arith, p.sign, bytes-cons b s, most, low, len, pow-succ' 256 (length s)))
    ] in
    let flag : (strtonum (b ∷ s)).1 ≡ true = rw high refl in
    let n = value (strtonum (b ∷ s)).0 in
    let r = strtonum-IsTwos (b ∷ s) p.is_bytes (λ f. not_zeros m (b ∷ s) p odd) in
    let below : bytes (reverse (b ∷ s)) + n ≡ 256 ^ length (reverse (b ∷ s)) =
      subst (λ f. IsTwos (reverse (b ∷ s)) f n) flag r.0 in
    (flag, omega (arith, below, p.exact, ap (λ j. 256 ^ j) (length-reverse (b ∷ s))))

minus_one : put_text [] 4294967295 1 false 255 ≡ 255 ∷ []
unfolding put_text
minus_one = refl

bytes_back : (n : ℕ) → 0 < n → 8 * (n - 1) / 8 + 1 ≡ n
bytes_back n h = omega arith

minus_text-longer :
    (t : List ℕ) (sz k l : ℕ)
    → sz - 1 ≡ k
    → (sz == 1) ≡ false
    → len_minus 5 (word_at t k) 24 ≡ found (8 * (l - 1))
    → 0 < l
    → minus_text t sz
      ≡ string_of (put_text (take k t) (word_at t k) l (not (has_sign (word_at t k) l)) 255)
unfolding minus_text
minus_text-longer t sz k l e f g h = rw (minus_text, e, f, g, e, bytes_back l h) refl

minus_text-IsBelow :
    (t : List ℕ) (n m : ℕ)
    → AreWords t
    → length t ≡ suc n
    → value t + m ≡ place (suc n)
    → place n ≤ m
    → ((k : ℕ) → m ≢ place (suc k))
    → (s : List ℕ) × (minus_text t (suc n) ≡ string_of s) × IsBelow m s × (length s ≤ 4 * suc n + 1)
unfolding minus_text
minus_text-IsBelow t zero m v e sum least odd = elim (Bool-cases (word_at t 0 == 4294967295)) [
  | inl f ↦
      let all = (==_iff (word_at t 0) 4294967295).0 f in
      let one : 1 ≡ m = omega (arith, all, sum, top_place 0 t e, least) in
      (
        255 ∷ [],
        rw (minus_text, f, all) (ap (λ (x : List ℕ). string_of x) minus_one),
        subst (λ k. IsBelow k (255 ∷ [])) one
            (record { exact = refl; is_bytes = (omega arith, tt); sign = omega arith }),
        omega arith,
      )
  | inr f ↦
      let bits = word_at t 0 in
      let g = len_minus-IsSigned bits (ground (arith, f, word_at-lt 0 t v)) in
      let p = put_minus-IsBelow [] bits g.0 m tt g.1 (omega (arith, sum, top_place 0 t e)) in
      (
        put_text [] bits g.0 (not (has_sign bits g.0)) 255,
        rw (minus_text, f, g.1.high, bytes_back g.0 g.1.some_bytes) refl,
        p,
        omega (arith, g.1.short, length-put_text [] bits g.0 (not (has_sign bits g.0)) 255),
      )
]
minus_text-IsBelow t (suc n) m v e sum least odd =
    let bits = word_at t (suc n) in
    let low = take (suc n) t in
    let parts = top_place (suc n) t e in
    let len : length low ≡ suc n = omega (arith, length-take (suc n) t, e) in
    let one_less : suc (suc n) - 1 ≡ suc n = omega arith in
    let longer : (suc (suc n) == 1) ≡ false = ground arith in
    let some_zero : bits < 4294967295 = elim (Bool-cases (bits == 4294967295)) [
      | inl f ↦
          let all = ap (λ x. x * place (suc n)) ((==_iff bits 4294967295).0 f) in
          absurd (odd n (omega (arith, all, parts, sum, least)))
      | inr f ↦ ground (arith, f, word_at-lt (suc n) t v)
    ] in
    let g = len_minus-IsSigned bits some_zero in
    let p = put_minus-IsBelow low bits g.0 m (AreWords-take (suc n) t v) g.1 (
      omega (
        arith,
        sum,
        parts,
        ap (λ k. place k * bits) len,
        ap (λ k. place k * word_mod) len,
        mul_comm (place (suc n)) bits,
        mul_comm (place (suc n)) word_mod,
      )) in
    (
      put_text low bits g.0 (not (has_sign bits g.0)) 255,
      minus_text-longer t (suc (suc n)) (suc n) g.0 one_less longer g.1.high g.1.some_bytes,
      p,
      omega (arith, len, g.1.short, length-put_text low bits g.0 (not (has_sign bits g.0)) 255),
    )

-- A number whose highest word is not 0 has no leading zero words.
trim-full : (num : List ℕ) → 0 < word_at num (length num - 1) → trim num ≡ length num
unfolding trim
trim-full [] h = refl
trim-full (a ∷ []) h = let some_bits : (a == 0) ≡ false = ground (arith, h) in rw some_bits refl
trim-full (a ∷ (b ∷ us)) h =
    let one_less : length (a ∷ (b ∷ us)) - 1 ≡ suc (length (b ∷ us) - 1) = omega arith in
    let high : 0 < word_at (b ∷ us) (length (b ∷ us) - 1) =
      subst (λ k. 0 < word_at (a ∷ (b ∷ us)) k) one_less h in
    rw (trim-full (b ∷ us) high, suc-is-not-zero (length us)) refl

not_above : (n : ℕ) → ltb n n ≡ false
not_above n = ground arith

IsTop-full :
    (num : List ℕ)
    → 0 < word_at num (length num - 1)
    → (n : ℕ) × (trim num ≡ suc n) × (length num ≡ suc n) × IsTop num n
IsTop-full num h = elim (trim_cases num) [
  | inl z ↦
      let none_there : length num ≡ 0 = sym (trim-full num h) ∙ z.0 in
      absurd (empty num none_there h)
  | inr z ↦ (z.0, z.1, sym (trim-full num h) ∙ z.1, z.2)
]
  where
    empty : (us : List ℕ) → length us ≡ 0 → ¬ (0 < word_at us (length us - 1))
    empty [] e = λ k. omega arith
    empty (a ∷ us) e = absurd (omega arith)

-- For a number of 32-bit words below 0, without leading words that are 0, that is no power of 2 ^ 32
-- from the first power on, Asi::numtostr makes a text of at most four bytes for each word and one
-- more, which is the string that it returns if String::create allows its length, and Asi::strtonum reads that text as the same number below 0.
pub numtostr-minus :
    (num : List ℕ)
    → AreWords num
    → 0 < word_at num (length num - 1)
    → ((k : ℕ) → value num ≢ place (suc k))
    → (s : List ℕ) × (numtostr true num ≡ string_of s)
      × (length s ≤ 4 * length num + 1)
      × ((strtonum s).1 ≡ true)
      × (value (strtonum s).0 ≡ value num)
unfolding numtostr
numtostr-minus num v high odd =
    let (n, sz, size, top) = IsTop-full num high in
    let t = (sub (replicate (suc n) 0) num).0 in
    let tw = twos num n v top in
    let one : place n * 1 ≤ place n * word_at num n =
      mul-le-mul_left (place n) (omega (arith, top.top)) in
    let m = minus_text-IsBelow t n (value num) tw.1 tw.2 tw.0 (omega (arith, one, top.parts)) odd in
    let r = strtonum-below (value num) m.0 m.2 odd in
    (
      m.0,
      rw (numtostr, sz, size, suc-is-not-zero n, not_above (suc n)) m.1,
      omega (arith, m.3, size),
      r.0,
      r.1,
    )

place_unique : (m n : ℕ) → place m ≤ place n → place n < place (suc m) → m ≡ n
place_unique m n h k = elim (Bool-cases (ltb m n)) [
  | inl e ↦ absurd (omega (arith, k, place_mono (suc m) n (ground (arith, e))))
  | inr e ↦ elim (Bool-cases (ltb n m)) [
    | inl f ↦ absurd (omega (arith, h, place_pos n, place_mono (suc n) m (ground (arith, f))))
    | inr f ↦ ground (arith, e, f)
  ]
]

minus_text-shifted :
    (t : List ℕ) (sz k : ℕ)
    → sz - 1 ≡ k
    → (sz == 1) ≡ false
    → word_at t k ≡ 4294967295
    → minus_text t sz ≡ bad_shift 65528
unfolding minus_text len_minus
minus_text-shifted t sz k e f g = rw (minus_text, e, f, g) refl

-- Asi::numtostr: for a power of 2 ^ 32 below 0, from the first power on and without leading words
-- that are 0, the loop that looks for the highest byte goes past the last one: len wraps around, and
-- the word is shifted by 65528 bits, which is undefined.
pub numtostr-shifted :
    (num : List ℕ) (k : ℕ)
    → AreWords num
    → 0 < word_at num (length num - 1)
    → value num ≡ place (suc k)
    → numtostr true num ≡ bad_shift 65528
unfolding numtostr
numtostr-shifted num k v high e =
    let (n, sz, size, h) = IsTop-full num high in
    let t = (sub (replicate (suc n) 0) num).0 in
    let tw = twos num n v h in
    let bits = word_at t n in
    let one : place n * 1 ≤ place n * word_at num n =
      mul-le-mul_left (place n) (omega (arith, h.top)) in
    let most : place n * word_at num n ≤ place n * 4294967295 =
      mul-le-mul_left (place n) (omega (arith, word_at-lt n num v)) in
    let low = take-lt-place n num v in
    let same : n ≡ suc k =
      place_unique n (suc k) (omega (arith, e, one, h.parts))
        (omega (arith, e, most, h.parts, low)) in
    let least : 4294967295 * place n < (bits + 1) * place n = omega (
      arith,
      tw.0,
      e,
      ap place same,
      top_place n t tw.2,
      take-lt-place n t tw.1,
      add-mul bits 1 (place n),
    ) in
    let all : bits ≡ 4294967295 =
      omega (arith, lt_of_mul-lt-mul_right (place n) least, word_at-lt n t tw.1) in
    let longer : (suc n == 1) ≡ false = ground (arith, same) in
    let one_less : suc n - 1 ≡ n = omega arith in
    rw (numtostr, sz, size, suc-is-not-zero n, not_above (suc n))
      (minus_text-shifted t (suc n) n one_less longer all)
