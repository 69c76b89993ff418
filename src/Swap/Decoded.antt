-- ===== src/Swap/Decoded.antt =====
-- That decompress gives back what compress was given.
use dgd.Prelude.{
  ℕ, zero, suc, ◌+◌, ◌-◌, ◌*◌, ◌/◌, ◌%◌, ◌^◌, ◌≤◌, ◌<◌, ◌≡◌, refl, sym, ap, subst, ◌∙◌, inl, inr,
  true, false, List, [], ◌∷◌, ◌++◌, Option, none, some, arith, leb, ◌==◌, ==_refl, Bool-cases,
  length, All,
}
use dgd.Swap.Compress.{
  Predictor, cleared, confirm, learn, put_bytes, refill, decompress_from, compress, compress_from,
  allocated, decompress, size_bytes, size_of_bytes,
}
use dgd.Swap.Bits.{waiting, hit_bit, miss_bit, last_bits}
use dgd.Swap.Coded.{IsByte, val, Codes, IsOut, Good, compress_from-IsOut}

-- The bits that are left: `m` in `buf`, and the bytes.
record IsLeft (bytes : List ℕ) (buf m d n : ℕ) : Type 0 where
  small : buf < 2 ^ m
  width : m ≤ 8
  value : d ≡ buf + 2 ^ m * val bytes
  bits : n ≡ m + 8 * length bytes
  are_bytes : All IsByte bytes

-- A bit that is left is in `buf` after refill.
refill_lem :
    (bytes : List ℕ) (buf m d n : ℕ)
    → 0 < n
    → IsLeft bytes buf m d n
    → (rest : List ℕ) × (b : ℕ) × (k : ℕ) × (refill bytes buf m ≡ some (rest, b, k))
      × IsLeft rest b k d n
      × (0 < k)
unfolding refill
refill_lem [] buf m d n h w =
    let some_bit : 0 < m = omega (arith, h, w.bits) in
    let more : (m == 0) ≡ false = ground (arith, some_bit) in
    ([], buf, m, rw (refill, more) refl, w, some_bit)
refill_lem (c ∷ rest) buf m d n h w = elim (Bool-cases (m == 0)) [
  | inl over ↦
      let e : m ≡ 0 = ground (arith, over) in
      let none_left : buf < 1 = subst (λ m. buf < 2 ^ m) e w.small in
      let value : d ≡ buf + 2 ^ 0 * val (c ∷ rest) =
        subst (λ m. d ≡ buf + 2 ^ m * val (c ∷ rest)) e w.value in
      (
        rest,
        c,
        8,
        rw (refill, over) refl,
        record {
          small = omega (arith, w.are_bytes.0);
          width = omega arith;
          value = omega (arith, value, none_left);
          bits = omega (arith, w.bits, e);
          are_bytes = w.are_bytes.1;
        },
        omega arith,
      )
  | inr more ↦ (c ∷ rest, buf, m, rw (refill, more) refl, w, ground (arith, more))
]

is_one : (n : ℕ) → n ≡ 1 → (n == 1) ≡ true
is_one n h = ground arith

is_not_one : (n : ℕ) → n ≡ 0 → (n == 1) ≡ false
is_not_one n h = ground arith

-- After the last byte only bits 1 are left, less than a byte of them.
ended :
    (fuel : ℕ) (bytes : List ℕ) (s : Predictor) (buf m d n : ℕ)
    → d + 1 ≡ 2 ^ n
    → n ≤ 7
    → IsLeft bytes buf m d n
    → decompress_from (suc fuel) bytes s buf m ≡ some []
unfolding decompress_from refill
ended fuel [] s buf m d n h k w = elim (Bool-cases (m == 0)) [
  | inl over ↦ rw (decompress_from, refill, over) refl
  | inr more ↦
      let same : n ≡ m = omega (arith, w.bits) in
      let all : buf + 1 ≡ 2 ^ m = subst (λ k. buf + 1 ≡ 2 ^ k) same (omega (arith, h, w.value)) in
      let odd : (buf % 2 == 1) ≡ true =
        is_one (buf % 2) (last_bits m buf w.width (ground (arith, more)) all) in
      rw (decompress_from, refill, more, odd) refl
]
ended fuel (c ∷ bytes) s buf m d n h k w = absurd (omega (arith, w.bits))

-- A round for a byte that was not predicted, which stands behind a bit 1.
miss_round :
    (fuel : ℕ) (bytes : List ℕ) (s : Predictor) (buf m c : ℕ) (text : List ℕ) (d n : ℕ)
    (rest : List ℕ) (b k : ℕ)
    → refill bytes buf m ≡ some (rest, b, k)
    → c < 256
    → 0 < k
    → IsLeft rest b k (1 + 2 * c + 512 * d) (n + 9)
    → ((rs : List ℕ) (buf' m' : ℕ)
        → IsLeft rs buf' m' d n
        → decompress_from fuel rs (learn s c) buf' m' ≡ some text)
    → decompress_from (suc fuel) bytes s buf m ≡ some (c ∷ text)
unfolding decompress_from put_bytes
miss_round fuel bytes s buf m c text d n [] b k run h some_bit w f =
    absurd (omega (arith, w.bits, w.width))
miss_round fuel bytes s buf m c text d n (r ∷ rs) b k run h some_bit w f =
    let (odd, byte, value, small) =
      miss_bit k b c d r (val rs) w.width some_bit w.small h w.are_bytes.0 w.value in
    let one = is_one (b % 2) odd in
    let next = f rs ((b + r * 2 ^ k) % 65536 / 512) (k - 1) (record {
      small = small;
      width = omega (arith, w.width);
      value = value;
      bits = omega (arith, w.bits, some_bit);
      are_bytes = w.are_bytes.1;
    }) in
    rw (decompress_from, run, one, byte, next, put_bytes) (ap (λ c. some (c ∷ text)) byte)

-- A round for a byte that was predicted.
hit_round :
    (fuel : ℕ) (bytes : List ℕ) (s : Predictor) (buf m c : ℕ) (text : List ℕ) (d n : ℕ)
    (rest : List ℕ) (b k : ℕ)
    → refill bytes buf m ≡ some (rest, b, k)
    → s.htab s.x ≡ c
    → 0 < k
    → IsLeft rest b k (2 * d) (n + 1)
    → ((rs : List ℕ) (buf' m' : ℕ)
        → IsLeft rs buf' m' d n
        → decompress_from fuel rs (confirm s c) buf' m' ≡ some text)
    → decompress_from (suc fuel) bytes s buf m ≡ some (c ∷ text)
unfolding decompress_from put_bytes
hit_round fuel bytes s buf m c text d n rest b k run h some_bit w f =
    let (even, value, small) = hit_bit k b d (val rest) w.width some_bit w.small w.value in
    let zero_bit = is_not_one (b % 2) even in
    let next = f rest (b / 2) (k - 1) (record {
      small = small;
      width = omega (arith, w.width);
      value = value;
      bits = omega (arith, w.bits, some_bit);
      are_bytes = w.are_bytes;
    }) in
    rw (decompress_from, run, zero_bit, h, next, put_bytes) (ap (λ c. some (c ∷ text)) h)

decompress_from_lem :
    (text : List ℕ) (fuel : ℕ) (bytes : List ℕ) (s : Predictor) (buf m d n : ℕ)
    → length text < fuel
    → All IsByte text
    → Codes s text d n
    → IsLeft bytes buf m d n
    → decompress_from fuel bytes s buf m ≡ some text
decompress_from_lem text zero bytes s buf m d n h v x w = absurd (omega arith)
decompress_from_lem [] (suc fuel) bytes s buf m d n h v x w = ended fuel bytes s buf m d n x.0 x.1 w
decompress_from_lem (c ∷ text) (suc fuel) bytes s buf m d n h v (d', n', inl (e, ed, en, x)) w =
    let w' = subst (λ d. IsLeft bytes buf m d (n' + 1)) ed (subst (IsLeft bytes buf m d) en w) in
    let (rest, b, k, run, y, some_bit) =
      refill_lem bytes buf m (2 * d') (n' + 1) (omega arith) w' in
    hit_round fuel bytes s buf m c text d' n' rest b k run e some_bit y (λ rs buf' m' z.
      decompress_from_lem text fuel rs (confirm s c) buf' m' d' n' (omega arith) v.1 x z)
decompress_from_lem (c ∷ text) (suc fuel) bytes s buf m d n h v (d', n', inr (ed, en, x)) w =
    let w' = subst (λ d. IsLeft bytes buf m d (n' + 9)) ed (subst (IsLeft bytes buf m d) en w) in
    let (rest, b, k, run, y, some_bit) =
      refill_lem bytes buf m (1 + 2 * c + 512 * d') (n' + 9) (omega arith) w' in
    miss_round fuel bytes s buf m c text d' n' rest b k run v.0 some_bit y (λ rs buf' m' z.
      decompress_from_lem text fuel rs (learn s c) buf' m' d' n' (omega arith) v.1 x z)

-- The four bytes of a size of 32 bits give the size back.
size_of_size_bytes :
    (n : ℕ)
    → n < 4294967296
    → size_of_bytes (n / 16777216 % 256) (n / 65536 % 256) (n / 256 % 256) (n % 256) ≡ n
size_of_size_bytes n h = omega arith

-- The bytes behind the size are decompressed, as many as the size says.
framed :
    (text : List ℕ) (fuel : ℕ) (o : Option (List ℕ)) (out : List ℕ)
    → All IsByte text
    → length text < 4294967296
    → length text < fuel
    → Good (IsOut cleared text (waiting 0 0) 0) o
    → put_bytes (size_bytes (length text)) o ≡ some out
    → decompress fuel out ≡ some (text, length text)
unfolding put_bytes decompress allocated
framed text fuel none out v l h w e = absurd cc
framed text fuel (some rest) out v l h w e =
    let whole : size_bytes (length text) ++ rest ≡ out = cc in
    let run = decompress_from_lem text fuel rest cleared 0 0 w.d w.n h v w.codes (record {
      small = omega arith;
      width = omega arith;
      value = omega (arith, w.value);
      bits = omega (arith, w.bits);
      are_bytes = w.bytes;
    }) in
    subst (λ out. decompress fuel out ≡ some (text, length text)) whole
      (rw (decompress, run, size_of_size_bytes (length text) l, ==_refl (length text)) refl)

-- What compress made of bytes, as many as 32 bits can count, decompress turns back into them, with
-- fuel for each of the bytes; the size that it reads from the first four bytes is their number.
pub decompress-compress :
    (text : List ℕ) (fuel : ℕ) (out : List ℕ)
    → All IsByte text
    → length text < 4294967296
    → length text < fuel
    → compress text ≡ some out
    → decompress fuel out ≡ some (text, length text)
unfolding compress
decompress-compress text fuel out v l h e = elim (Bool-cases (leb (length text) 5)) [
  | inl small ↦ let refused : compress text ≡ none = rw (compress, small) refl in absurd cc
  | inr large ↦
      let o = compress_from text cleared 0 0 (length text - 4) in
      let made : compress text ≡ put_bytes (size_bytes (length text)) o =
        rw (compress, large) refl in
      framed text fuel o out v l h
        (compress_from-IsOut text cleared 0 0 (length text - 4) v (omega arith) (omega arith))
        (sym made ∙ e)
]
