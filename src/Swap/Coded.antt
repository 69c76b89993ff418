-- ===== src/Swap/Coded.antt =====
-- The bits that compress writes.
use native.Mathlib.Nat.{one-le-pow}
use dgd.Prelude.{
  ℕ, ◌+◌, ◌-◌, ◌*◌, ◌/◌, ◌%◌, ◌^◌, ◌≤◌, ◌<◌, ◌≡◌, refl, subst, ◌∙◌, ◌⊎◌, inl, inr, List, [], ◌∷◌,
  ◌++◌, Option, none, some, arith, leb, ◌==◌, Bool-cases, length, All,
}
use dgd.Swap.Compress.{
  Predictor, confirm, learn, put_bytes, push_hit, push_miss, code, flush, compress_from,
}
use dgd.Swap.Bits.{waiting, hit_value, miss_value, last_value, byte_value}

abbrev pub IsByte : ℕ → Type 0
IsByte c = c < 256

-- The number whose digits to the base 256 are the bytes, the lowest first.
abbrev pub val : List ℕ → ℕ
val [] = 0
val (c ∷ cs) = c + 256 * val cs

-- The number `d` of `n` bits codes the text: a bit 0 for each byte that is predicted, and a bit 1
-- with the byte for each other; bits 1, less than a byte of them, stand at the end.
abbrev pub Codes : Predictor → List ℕ → ℕ → ℕ → Type 0
Codes s [] d n = (d + 1 ≡ 2 ^ n) × (n ≤ 7)
Codes s (c ∷ text) d n =
    (d' : ℕ) × (n' : ℕ) × (((s.htab s.x ≡ c)
        × (d ≡ 2 * d')
        × (n ≡ n' + 1)
        × Codes (confirm s c) text d' n')
      ⊎ ((d ≡ 1 + 2 * c + 512 * d') × (n ≡ n' + 9) × Codes (learn s c) text d' n'))

-- The bytes are `b` bits of the number `v` and the code of the text.
pub record IsOut (s : Predictor) (text : List ℕ) (v b : ℕ) (out : List ℕ) : Type 0 where
  pub d : ℕ
  pub n : ℕ
  pub codes : Codes s text d n
  pub value : val out ≡ v + 2 ^ b * d
  pub bits : 8 * length out ≡ b + n
  pub bytes : All IsByte out

-- What there is, if anything, satisfies `P`.
abbrev pub Good : (List ℕ → Type 0) → Option (List ℕ) → Type 0
Good P none = Unit
Good P (some out) = P out

Good-imp :
    (P Q : List ℕ → Type 0)
    → ((out : List ℕ) → P out → Q out)
    → (o : Option (List ℕ)) → Good P o
    → Good Q o
Good-imp P Q f none g = tt
Good-imp P Q f (some out) g = f out g

pub Good-put_bytes :
    (P Q : List ℕ → Type 0) (bs : List ℕ)
    → ((out : List ℕ) → P out → Q (bs ++ out))
    → (o : Option (List ℕ)) → Good P o
    → Good Q (put_bytes bs o)
unfolding put_bytes
Good-put_bytes P Q bs f none g = tt
Good-put_bytes P Q bs f (some out) g = f out g

written :
    (m n buf d : ℕ)
    → m ≤ 7
    → m + 8 ≡ n
    → waiting buf n % 256 + 256 * (waiting buf m + 2 ^ m * d) ≡ waiting buf n + 2 ^ n * d
written m n buf d h e =
    subst (λ n. waiting buf n % 256 + 256 * (waiting buf m + 2 ^ m * d) ≡ waiting buf n + 2 ^ n * d)
      e (byte_value m buf d (omega arith) h)

-- The bits that wait are written with what the rest of the loop writes.
flush-IsOut :
    (t : Predictor) (text : List ℕ) (rest : ℕ → ℕ → Option (List ℕ)) (buf n cspace : ℕ)
    → buf < 65536
    → n ≤ 16
    → ((m space : ℕ) → m ≤ 7 → Good (IsOut t text (waiting buf m) m) (rest m space))
    → Good (IsOut t text (waiting buf n) n) (flush rest buf n cspace)
unfolding flush
flush-IsOut t text rest buf n cspace h k f = elim (Bool-cases (leb 8 n)) [
  | inr few ↦ rw (flush, few) (f n cspace (ground (arith, few)))
  | inl many ↦ elim (Bool-cases (n == 16)) [
    | inl two ↦ elim (Bool-cases (leb cspace 2)) [
      | inl full ↦ rw (flush, many, two, full) tt
      | inr room ↦
          let e : n ≡ 16 = ground (arith, two) in
          rw (flush, many, two, room)
            (Good-put_bytes (IsOut t text (waiting buf 0) 0) (IsOut t text (waiting buf n) n)
              (buf % 256 ∷ buf / 256 % 256 ∷ [])
              (λ out w. rw e (record {
                d = w.d;
                n = w.n;
                codes = w.codes;
                value = omega (arith, w.value, h);
                bits = omega (arith, w.bits);
                bytes = (omega arith, (omega arith, w.bytes));
              }))
              (rest 0 (cspace - 2)) (f 0 (cspace - 2) (omega arith)))
    ]
    | inr one ↦ elim (Bool-cases (cspace == 1)) [
      | inl full ↦ rw (flush, many, one, full) tt
      | inr room ↦
          let low : n - 8 ≤ 7 = ground (arith, many, one, k) in
          let e : n - 8 + 8 ≡ n = ground (arith, many) in
          rw (flush, many, one, room)
            (Good-put_bytes (IsOut t text (waiting buf (n - 8)) (n - 8))
              (IsOut t text (waiting buf n) n) (buf / 2 ^ (16 - n) % 256 ∷ [])
              (λ out w. record {
                d = w.d;
                n = w.n;
                codes = w.codes;
                value = rw w.value (written (n - 8) n buf w.d low e);
                bits = omega (arith, w.bits, e);
                bytes = (omega arith, w.bytes);
              })
              (rest (n - 8) (cspace - 1)) (f (n - 8) (cspace - 1) low))
    ]
  ]
]

-- A byte that is predicted, and one that is not, before what is written of the others.
hit-IsOut :
    (s : Predictor) (c : ℕ) (text : List ℕ) (buf b : ℕ) (out : List ℕ)
    → b ≤ 7
    → s.htab s.x ≡ c
    → IsOut (confirm s c) text (waiting (push_hit buf) (b + 1)) (b + 1) out
    → IsOut s (c ∷ text) (waiting buf b) b out
hit-IsOut s c text buf b out h e w = record {
  d = 2 * w.d;
  n = w.n + 1;
  codes = (w.d, w.n, inl (e, refl, refl, w.codes));
  value = w.value ∙ hit_value b buf w.d (omega arith);
  bits = omega (arith, w.bits);
  bytes = w.bytes;
}

miss-IsOut :
    (s : Predictor) (c : ℕ) (text : List ℕ) (buf b : ℕ) (out : List ℕ)
    → b ≤ 7
    → buf < 65536
    → c < 256
    → IsOut (learn s c) text (waiting (push_miss buf c) (b + 9)) (b + 9) out
    → IsOut s (c ∷ text) (waiting buf b) b out
miss-IsOut s c text buf b out h k m w = record {
  d = 1 + 2 * c + 512 * w.d;
  n = w.n + 9;
  codes = (w.d, w.n, inr (refl, refl, w.codes));
  value = w.value ∙ miss_value b buf c w.d (omega arith) h k m;
  bits = omega (arith, w.bits);
  bytes = w.bytes;
}

last-IsOut :
    (s : Predictor) (buf b : ℕ)
    → b ≤ 7
    → 0 < b
    → buf < 65536
    → IsOut s [] (waiting buf b) b ((waiting buf b + 255 * 2 ^ b) % 256 ∷ [])
last-IsOut s buf b h k m = record {
  d = 2 ^ (8 - b) - 1;
  n = 8 - b;
  codes = (omega (arith, one-le-pow (8 - b) 2 (omega arith)), omega arith);
  value = omega (arith, last_value b buf (omega arith) h m);
  bits = omega arith;
  bytes = (omega arith, tt);
}

hit_bound : (buf : ℕ) → buf < 65536 → push_hit buf < 65536
unfolding push_hit
hit_bound buf h = omega arith

miss_bound : (buf c : ℕ) → push_miss buf c < 65536
unfolding push_miss
miss_bound buf c = omega arith

pub compress_from-IsOut :
    (text : List ℕ) (s : Predictor) (buf b cspace : ℕ)
    → All IsByte text
    → buf < 65536
    → b ≤ 7
    → Good (IsOut s text (waiting buf b) b) (compress_from text s buf b cspace)
unfolding compress_from code
compress_from-IsOut [] s buf b cspace v h k = elim (Bool-cases (b == 0)) [
  | inl none_left ↦
      let e : b ≡ 0 = ground (arith, none_left) in
      rw (compress_from, none_left, e)
        (record {
          d = 0;
          n = 0;
          codes = (refl, omega arith);
          value = omega (arith, h);
          bits = refl;
          bytes = tt;
        })
  | inr some_left ↦ elim (Bool-cases (cspace == 1)) [
    | inl full ↦ rw (compress_from, some_left, full) tt
    | inr room ↦
        rw (compress_from, some_left, room) (last-IsOut s buf b k (ground (arith, some_left)) h)
  ]
]
compress_from-IsOut (c ∷ text) s buf b cspace v h k = elim (Bool-cases (s.htab s.x == c)) [
  | inl hit ↦
      rw (compress_from, code, hit)
        (Good-imp (IsOut (confirm s c) text (waiting (push_hit buf) (b + 1)) (b + 1))
          (IsOut s (c ∷ text) (waiting buf b) b)
          (λ out. hit-IsOut s c text buf b out k (ground (arith, hit)))
          (flush (compress_from text (confirm s c) (push_hit buf)) (push_hit buf) (b + 1) cspace)
          (flush-IsOut (confirm s c) text (compress_from text (confirm s c) (push_hit buf))
            (push_hit buf) (b + 1) cspace (hit_bound buf h) (omega arith)
            (λ m space l.
              compress_from-IsOut text (confirm s c) (push_hit buf) m space v.1 (hit_bound buf h)
                l)))
  | inr miss ↦
      rw (compress_from, code, miss)
        (Good-imp (IsOut (learn s c) text (waiting (push_miss buf c) (b + 9)) (b + 9))
          (IsOut s (c ∷ text) (waiting buf b) b) (λ out. miss-IsOut s c text buf b out k h v.0)
          (flush (compress_from text (learn s c) (push_miss buf c)) (push_miss buf c) (b + 9)
            cspace)
          (flush-IsOut (learn s c) text (compress_from text (learn s c) (push_miss buf c))
            (push_miss buf c) (b + 9) cspace (miss_bound buf c) (omega arith)
            (λ m space l.
              compress_from-IsOut text (learn s c) (push_miss buf c) m space v.1 (miss_bound buf c)
                l)))
]
