-- ===== src/Asn/Read.antt =====
-- What number Asi::strtonum reads.
use native.Mathlib.Nat.{pow-succ'}
use dgd.Prelude.{
  ℕ, suc, ◌+◌, ◌*◌, ◌%◌, ◌^◌, ◌≤◌, ◌<◌, ◌≡◌, refl, ap, sym, ◌∙◌, true, List, [], ◌∷◌, reverse,
  arith, length, length-reverse, replicate, All-reverse, leb, ◌==◌, ==_iff, Bool-cases, inl, inr,
  ◌⊎◌,
}
use dgd.Asn.{sub}
use dgd.Asn.Bytes.{AreBytes, bytes, IsTwos, bytes-cons}
use dgd.Asn.Places.{place, above-one, value-zeros, AreWords-zeros, length-zeros}
use dgd.Asn.Sums.{sub-IsDifference}
use dgd.Asn.Text.{skip_bytes, words_of, positive, negative, strtonum}
use dgd.Asn.Value.{value, above, above-zero, AreWords}

words_of-value :
    (bs : List ℕ) → AreBytes bs → (value (words_of 0 bs) ≡ bytes bs) × AreWords (words_of 0 bs)
unfolding words_of
words_of-value [] v = (refl, tt)
words_of-value (a ∷ []) v = (omega arith, (omega (arith, v.0), tt))
words_of-value (a ∷ (b ∷ [])) v = (omega (arith, v.0, v.1.0), (omega (arith, v.0, v.1.0), tt))
words_of-value (a ∷ (b ∷ (c ∷ []))) v =
    (omega (arith, v.0, v.1.0, v.1.1.0), (omega (arith, v.0, v.1.0, v.1.1.0), tt))
words_of-value (a ∷ (b ∷ (c ∷ (d ∷ bs)))) v =
    let rest = words_of-value bs v.1.1.1.1 in
    (omega (arith, rest.0), (omega (arith, v.0, v.1.0, v.1.1.0, v.1.1.1.0), rest.1))

words_of-minus :
    (bs : List ℕ)
    → AreBytes bs
    → (value (words_of 4294967295 bs) + 256 ^ length bs
        ≡ bytes bs + place (length (words_of 4294967295 bs)))
      × AreWords (words_of 4294967295 bs)
unfolding words_of
words_of-minus [] v = (refl, tt)
words_of-minus (a ∷ []) v = (omega arith, (omega (arith, v.0), tt))
words_of-minus (a ∷ (b ∷ [])) v = (omega (arith, v.0, v.1.0), (omega (arith, v.0, v.1.0), tt))
words_of-minus (a ∷ (b ∷ (c ∷ []))) v =
    (omega (arith, v.0, v.1.0, v.1.1.0), (omega (arith, v.0, v.1.0, v.1.1.0), tt))
words_of-minus (a ∷ (b ∷ (c ∷ (d ∷ bs)))) v =
    let rest = words_of-minus bs v.1.1.1.1 in
    let n = length bs in
    let p1 = pow-succ' 256 n in
    let p2 = pow-succ' 256 (suc n) in
    let p3 = pow-succ' 256 (suc (suc n)) in
    let p4 = pow-succ' 256 (suc (suc (suc n))) in
    (omega (arith, rest.0, p1, p2, p3, p4), (omega (arith, v.0, v.1.0, v.1.1.0, v.1.1.1.0), rest.1))

-- There are words enough for the bytes.
words_of-room :
    (bits : ℕ) (bs : List ℕ)
    → (256 ^ length bs ≤ place (length (words_of bits bs)))
      × ((length bs % 4 ≡ 0) ⊎ (256 ^ length bs < place (length (words_of bits bs))))
unfolding words_of
words_of-room bits [] = (omega arith, inl refl)
words_of-room bits (a ∷ []) = (omega arith, inr (omega arith))
words_of-room bits (a ∷ (b ∷ [])) = (omega arith, inr (omega arith))
words_of-room bits (a ∷ (b ∷ (c ∷ []))) = (omega arith, inr (omega arith))
words_of-room bits (a ∷ (b ∷ (c ∷ (d ∷ bs)))) =
    let n = length bs in
    let p1 = pow-succ' 256 n in
    let p2 = pow-succ' 256 (suc n) in
    let p3 = pow-succ' 256 (suc (suc n)) in
    let p4 = pow-succ' 256 (suc (suc (suc n))) in
    let rest = words_of-room bits bs in
    (
      omega (arith, rest.0, p1, p2, p3, p4),
      elim rest.1 [
        | inl e ↦ inl (omega (arith, e))
        | inr l ↦ inr (omega (arith, l, p1, p2, p3, p4))
      ],
    )

pub skip_bytes-AreBytes : (c : ℕ) (s : List ℕ) → AreBytes s → AreBytes (skip_bytes c s)
unfolding skip_bytes
skip_bytes-AreBytes c [] v = tt
skip_bytes-AreBytes c (b ∷ s) v = elim (Bool-cases (b == c)) [
  | inl e ↦ rw e (skip_bytes-AreBytes c s v.1)
  | inr e ↦ rw e v
]

pub skip_zeros : (s : List ℕ) → bytes (reverse (skip_bytes 0 s)) ≡ bytes (reverse s)
unfolding skip_bytes
skip_zeros [] = refl
skip_zeros (b ∷ s) = elim (Bool-cases (b == 0)) [
  | inl e ↦
      rw e (
        omega
          (arith, skip_zeros s, bytes-cons b s, ap (λ x. 256 ^ length s * x) ((==_iff b 0).0 e)))
  | inr e ↦ rw e refl
]

-- Leading bytes 0xff do not change what a negative text stands for.
pub skip_ones :
    (s : List ℕ)
    → bytes (reverse s) + 256 ^ length (skip_bytes 255 s)
      ≡ bytes (reverse (skip_bytes 255 s)) + 256 ^ length s
unfolding skip_bytes
skip_ones [] = refl
skip_ones (b ∷ s) = elim (Bool-cases (b == 255)) [
  | inl e ↦ rw e (
      omega (
        arith,
        skip_ones s,
        bytes-cons b s,
        pow-succ' 256 (length s),
        ap (λ x. 256 ^ length s * x) ((==_iff b 255).0 e),
      ))
  | inr e ↦ rw e refl
]

pub positive-value :
    (s : List ℕ) → AreBytes s → (value (positive s) ≡ bytes (reverse s)) × AreWords (positive s)
unfolding positive
positive-value [] v = (refl, (omega arith, tt))
positive-value (b ∷ s) v = words_of-value (reverse (b ∷ s)) (All-reverse (λ a. a < 256) (b ∷ s) v)

-- Two's complement of words that are not all 0
pub complement :
    (t : List ℕ)
    → AreWords t
    → 0 < value t
    → let r = (sub (replicate (length t) 0) t).0 in
      (value r + value t ≡ place (length t)) × AreWords r × (length r ≡ length t)
complement t v h =
    let zeros = replicate (length t) 0 in
    let len : length zeros ≡ length t = length-zeros (length t) in
    let s = sub-IsDifference zeros t (AreWords-zeros (length t)) v (omega (arith, len)) in
    let none = value-zeros (length t) in
    let c = (sub zeros t).1 in
    elim (Bool-cases (c == 0)) [
      | inl e ↦ absurd (
          omega
            (arith, s.exact, none, h, above-zero zeros, ap (λ x. above zeros x) ((==_iff c 0).0 e)))
      | inr e ↦ (
        omega (
          arith,
          s.exact,
          none,
          above-one zeros c s.borrow_bit (ground (arith, e)),
          ap place len,
        ),
        s.words,
        s.same_length ∙ len,
      )
    ]

negative-value :
    (s : List ℕ)
    → AreBytes s
    → (length s % 4 ≡ 0 → 0 < length s → 0 < bytes (reverse s))
    → (bytes (reverse s) + value (negative s) ≡ 256 ^ length s) × AreWords (negative s)
unfolding negative
negative-value [] v h = (refl, (omega arith, tt))
negative-value (b ∷ s) v h =
    let bs = reverse (b ∷ s) in
    let t = words_of 4294967295 bs in
    let w = words_of-minus bs (All-reverse (λ a. a < 256) (b ∷ s) v) in
    let room = words_of-room 4294967295 bs in
    let len : length bs ≡ length (b ∷ s) = length-reverse (b ∷ s) in
    let pos : 0 < value t = elim room.1 [
      | inl e ↦ omega (arith, w.0, room.0, h (ap (λ n. n % 4) (sym len) ∙ e) (omega arith))
      | inr l ↦ omega (arith, w.0, l)
    ] in
    let c = complement t w.1 pos in (omega (arith, c.0, w.0, ap (λ n. 256 ^ n) len), c.1)

-- Asi::strtonum: a text of bytes is read as its number in two's complement, in 32-bit words.
-- Left out are negative texts whose bytes behind those that are 0xff are zeros, a multiple of
-- four but not none.
pub strtonum-IsTwos :
    (text : List ℕ)
    → AreBytes text
    → ((strtonum text).1 ≡ true
        → length (skip_bytes 255 text) % 4 ≡ 0
        → 0 < length (skip_bytes 255 text)
        → 0 < bytes (reverse (skip_bytes 255 text)))
    → IsTwos (reverse text) (strtonum text).1 (value (strtonum text).0) × AreWords (strtonum text).0
unfolding strtonum
strtonum-IsTwos [] v h = (refl, (omega arith, tt))
strtonum-IsTwos (b ∷ s) v h = elim (Bool-cases (leb 128 b)) [
  | inl e ↦
      let n =
        negative-value (skip_bytes 255 (b ∷ s)) (skip_bytes-AreBytes 255 (b ∷ s) v)
          (h (rw e refl)) in
      rw e (omega (arith, n.0, skip_ones (b ∷ s), ap (λ k. 256 ^ k) (length-reverse (b ∷ s))), n.1)
  | inr e ↦
      let p = positive-value (skip_bytes 0 (b ∷ s)) (skip_bytes-AreBytes 0 (b ∷ s) v) in
      rw e (omega (arith, p.0, skip_zeros (b ∷ s)), p.1)
]
