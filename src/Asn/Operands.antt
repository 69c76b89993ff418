-- ===== src/Asn/Operands.antt =====
-- What Asi::div makes of its operands, and of the remainder of the shifted ones.
use native.Mathlib.Nat.{
  add-mul, mul_comm, mul-le-mul_right, mul-le-mul_left, lt_of_mul-lt-mul_right, one-le-pow,
}
use dgd.Prelude.{
  ℕ, suc, ◌+◌, ◌-◌, ◌*◌, ◌^◌, ◌≤◌, ◌<◌, ◌≡◌, refl, ap, ◌∙◌, List, [], ◌∷◌, ◌++◌, arith, length,
  ◌==◌, ==_iff, if◌then◌else◌, Bool-cases, true, inl, inr, length-append, length-take, All-append,
}
use dgd.Asn.{word_mod}
use dgd.Asn.Div.{word_at, scaled}
use dgd.Asn.Places.{place, top_place, value-lt-place, take-lt-place, AreWords-take}
use dgd.Asn.Scaled.{lshift-Holds}
use dgd.Asn.Shift.{lshift}
use dgd.Asn.Shifted.{pow-word}
use dgd.Asn.Value.{value, AreWords}

-- The words `b` are those of `y`, shifted until the highest bit is set.
pub record IsNormal (s n : ℕ) (y b : List ℕ) : Type 0 where
  pub exact : value b ≡ value y * 2 ^ s
  pub words : AreWords b
  pub size : length b ≡ suc n
  pub normal : word_mod ≤ 2 * word_at b n

-- The words `a` stand for `m`, and there are at least `k` of them.
pub record IsWide (m k : ℕ) (a : List ℕ) : Type 0 where
  pub exact : value a ≡ m
  pub words : AreWords a
  pub wide : k ≤ length a

pub unshifted : (s m : ℕ) → (s == 0) ≡ true → m ≡ m * 2 ^ s
unshifted s m z = omega (arith, ap (λ t. m * 2 ^ t) ((==_iff s 0).0 z))

module _ (n s : ℕ) (y : List ℕ) (e : length y ≡ suc n) (v : AreWords y) where
  divisor_room : s < 32 → word_at y n * 2 ^ s < word_mod → value y * 2 ^ s < place (length y)
  divisor_room h k =
      let p = 2 ^ s in
      let q = 2 ^ (32 - s) in
      let top = word_at y n in
      let p_pos : 0 < p = one-le-pow s 2 (omega arith) in
      let fits : top < q =
        lt_of_mul-lt-mul_right p (omega (arith, k, pow-word s h, mul_comm p q)) in
      let less : (value y + 1) * p ≤ (top + 1) * place n * p =
        mul-le-mul_right p
          (omega (arith, top_place n y e, take-lt-place n y v, add-mul top 1 (place n))) in
      let more : (top + 1) * p ≤ q * p = mul-le-mul_right p (omega (arith, fits)) in
      let most : (top + 1) * p * place n ≤ q * p * place n = mul-le-mul_right (place n) more in
      let swap : (top + 1) * place n * p ≡ (top + 1) * p * place n = grind arith in
      let whole : q * p * place n ≡ word_mod * place n =
        ap (λ x. x * place n) (mul_comm q p ∙ pow-word s h) in
      omega (arith, less, most, swap, whole, add-mul (value y) 1 p, ap place e)

  top_bit :
      (b : List ℕ)
      → value b ≡ value y * 2 ^ s
      → length b ≡ suc n
      → AreWords b
      → 2147483648 ≤ word_at y n * 2 ^ s
      → word_mod ≤ 2 * word_at b n
  top_bit b exact eb w h =
      let p = 2 ^ s in
      let top = word_at y n in
      let low : top * place n * p ≤ value y * p =
        mul-le-mul_right p (omega (arith, top_place n y e)) in
      let swap : top * place n * p ≡ top * p * place n = grind arith in
      let high : 2147483648 * place n ≤ top * p * place n = mul-le-mul_right (place n) h in
      let above : 2147483648 * place n < (word_at b n + 1) * place n = omega (
        arith,
        low,
        swap,
        high,
        exact,
        top_place n b eb,
        take-lt-place n b w,
        add-mul (word_at b n) 1 (place n),
      ) in
      omega (arith, lt_of_mul-lt-mul_right (place n) above)

  pub divisor-IsNormal :
      s < 32
      → 2147483648 ≤ word_at y n * 2 ^ s
      → word_at y n * 2 ^ s < word_mod
      → IsNormal s n y (if s == 0 then y else lshift s y)
  divisor-IsNormal h low high = elim (Bool-cases (s == 0)) [
    | inl z ↦
        let same : value y ≡ value y * 2 ^ s = unshifted s (value y) z in
        rw z (record { exact = same; words = v; size = e; normal = top_bit y same e v low })
    | inr z ↦
        let b = lshift-Holds s y (ground (arith, z)) h v (divisor_room h high) in
        rw z (record {
          exact = b.exact;
          words = b.words;
          size = b.size ∙ e;
          normal = top_bit (lshift s y) b.exact (b.size ∙ e) b.words low;
        })
  ]

value-zero : (us : List ℕ) → value (us ++ (0 ∷ [])) ≡ value us
value-zero [] = refl
value-zero (a ∷ us) = omega (arith, value-zero us)

-- A word more is enough for a shift by fewer bits than a word has.
dividend_room :
    (s : ℕ) (x : List ℕ) → s < 32 → AreWords x → value x * 2 ^ s < place (suc (length x))
dividend_room s x h v =
    let p = 2 ^ s in
    let q_pos : 0 < 2 ^ (32 - s) = one-le-pow (32 - s) 2 (omega arith) in
    let p_pos : 0 < p = one-le-pow s 2 (omega arith) in
    let few : p * 1 ≤ p * 2 ^ (32 - s) = mul-le-mul_left p q_pos in
    let less : (value x + 1) * p ≤ place (length x) * p =
      mul-le-mul_right p (omega (arith, value-lt-place x v)) in
    let most : place (length x) * p ≤ place (length x) * word_mod =
      mul-le-mul_left (place (length x)) (omega (arith, few, pow-word s h)) in
    omega (arith, less, most, p_pos, add-mul (value x) 1 p)

pub dividend-IsWide :
    (s : ℕ) (x : List ℕ) → s < 32 → AreWords x → IsWide (value x * 2 ^ s) (length x) (scaled s x)
unfolding scaled
dividend-IsWide s x h v = elim (Bool-cases (s == 0)) [
  | inl z ↦ rw z (record { exact = unshifted s (value x) z; words = v; wide = omega arith })
  | inr z ↦
      let longer = length-append x (0 ∷ []) in
      let len : length (x ++ (0 ∷ [])) ≡ suc (length x) = omega (arith, longer) in
      let same = ap (λ m. m * 2 ^ s) (value-zero x) in
      let a =
        lshift-Holds s (x ++ (0 ∷ [])) (ground (arith, z)) h
          (All-append (λ a. a < word_mod) x (0 ∷ []) v (omega arith, tt))
          (omega (arith, same, dividend_room s x h v, ap place len)) in
      let b = lshift s (x ++ (0 ∷ [])) in
      elim (Bool-cases (word_at b (length x) == 0)) [
        | inl t ↦
            let top = top_place (length x) b (a.size ∙ len) in
            rw (z, t)
              (record {
                exact = omega (
                  arith,
                  top,
                  a.exact,
                  same,
                  ap (λ m. m * place (length x)) ((==_iff (word_at b (length x)) 0).0 t),
                );
                words = AreWords-take (length x) b a.words;
                wide = omega (arith, length-take (length x) b, a.size, len);
              })
        | inr t ↦
            rw (z, t)
              (record {
                exact = a.exact ∙ same;
                words = a.words;
                wide = omega (arith, a.size, len);
              })
      ]
]
