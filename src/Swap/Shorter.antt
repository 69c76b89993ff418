-- ===== src/Swap/Shorter.antt =====
-- That compressed data is shorter than the data.
use dgd.Prelude.{
  ℕ, ◌+◌, ◌-◌, ◌/◌, ◌%◌, ◌^◌, ◌<◌, ◌≡◌, ◌∙◌, sym, ap, refl, List, [], ◌∷◌, ◌++◌, Option, none, some,
  arith, leb, ◌==◌, Bool-cases, inl, inr, length,
}
use dgd.Swap.Compress.{
  Predictor, cleared, confirm, learn, push_hit, push_miss, put_bytes, code, flush, compress_from,
  compress, size_bytes,
}
use dgd.Swap.Coded.{Good, Good-put_bytes}

abbrev Shorter : ℕ → List ℕ → Type 0
Shorter n out = length out < n

flush-Shorter :
    (rest : ℕ → ℕ → Option (List ℕ)) (b n cspace : ℕ)
    → 0 < cspace
    → ((m space : ℕ) → 0 < space → Good (Shorter space) (rest m space))
    → Good (Shorter cspace) (flush rest b n cspace)
unfolding flush
flush-Shorter rest b n cspace h f = elim (Bool-cases (leb 8 n)) [
  | inr few ↦ rw (flush, few) (f n cspace h)
  | inl many ↦ elim (Bool-cases (n == 16)) [
    | inl two ↦ elim (Bool-cases (leb cspace 2)) [
      | inl full ↦ rw (flush, many, two, full) tt
      | inr room ↦
          let more : 2 < cspace = ground (arith, room) in
          rw (flush, many, two, room)
            (Good-put_bytes (Shorter (cspace - 2)) (Shorter cspace) (b % 256 ∷ b / 256 % 256 ∷ [])
              (λ out w. omega (arith, w, more)) (rest 0 (cspace - 2))
              (f 0 (cspace - 2) (omega arith)))
    ]
    | inr one ↦ elim (Bool-cases (cspace == 1)) [
      | inl full ↦ rw (flush, many, one, full) tt
      | inr room ↦
          let more : 1 < cspace = ground (arith, room, h) in
          rw (flush, many, one, room)
            (Good-put_bytes (Shorter (cspace - 1)) (Shorter cspace) (b / 2 ^ (16 - n) % 256 ∷ [])
              (λ out w. omega (arith, w, more)) (rest (n - 8) (cspace - 1))
              (f (n - 8) (cspace - 1) (omega arith)))
    ]
  ]
]

compress_from-Shorter :
    (text : List ℕ) (s : Predictor) (buf b cspace : ℕ)
    → 0 < cspace
    → Good (Shorter cspace) (compress_from text s buf b cspace)
unfolding compress_from code
compress_from-Shorter [] s buf b cspace h = elim (Bool-cases (b == 0)) [
  | inl none_left ↦ rw (compress_from, none_left) h
  | inr some_left ↦ elim (Bool-cases (cspace == 1)) [
    | inl full ↦ rw (compress_from, some_left, full) tt
    | inr room ↦
        let more : 1 < cspace = ground (arith, room, h) in rw (compress_from, some_left, room) more
  ]
]
compress_from-Shorter (c ∷ text) s buf b cspace h = elim (Bool-cases (s.htab s.x == c)) [
  | inl hit ↦
      rw (compress_from, code, hit)
        (flush-Shorter (compress_from text (confirm s c) (push_hit buf)) (push_hit buf) (b + 1)
          cspace h (λ m space l. compress_from-Shorter text (confirm s c) (push_hit buf) m space l))
  | inr miss ↦
      rw (compress_from, code, miss)
        (flush-Shorter (compress_from text (learn s c) (push_miss buf c)) (push_miss buf c) (b + 9)
          cspace h
          (λ m space l. compress_from-Shorter text (learn s c) (push_miss buf c) m space l))
]

framed :
    (n : ℕ) (o : Option (List ℕ)) (out : List ℕ)
    → 5 < n
    → Good (Shorter (n - 4)) o
    → put_bytes (size_bytes n) o ≡ some out
    → length out < n
unfolding put_bytes
framed n none out h w e = absurd cc
framed n (some rest) out h w e =
    let whole : size_bytes n ++ rest ≡ out = cc in omega (arith, h, w, sym (ap length whole))

-- What compress returns, with the four bytes of the size, is shorter than the data.
pub length-compress :
    (text : List ℕ) (out : List ℕ) → compress text ≡ some out → length out < length text
unfolding compress
length-compress text out e = elim (Bool-cases (leb (length text) 5)) [
  | inl small ↦ let refused : compress text ≡ none = rw (compress, small) refl in absurd cc
  | inr large ↦
      let more : 5 < length text = ground (arith, large) in
      let o = compress_from text cleared 0 0 (length text - 4) in
      let made : compress text ≡ put_bytes (size_bytes (length text)) o =
        rw (compress, large) refl in
      framed (length text) o out more
        (compress_from-Shorter text cleared 0 0 (length text - 4) (omega arith)) (sym made ∙ e)
]
