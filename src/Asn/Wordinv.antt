-- ===== src/Asn/Wordinv.antt =====
-- Asi::wordinv: the inverse of an odd word, modulo the number of words.
use native.Mathlib.Nat.{
  mul_assoc, mul_comm, mul-add, mul-add-mod_self_left, pow-succ', one-le-pow, mul-le-mul_left,
  mod-eq_of_lt, div-add-mod', add-mul-mod_self_left,
}
use dgd.Prelude.{
  ℕ, zero, suc, ◌+◌, ◌*◌, ◌/◌, ◌%◌, ◌^◌, ◌≤◌, ◌<◌, ◌≡◌, refl, ap, sym, subst, ◌∙◌, true, false,
  arith, ltb, ◌==◌, if◌then◌else◌, Bool-cases, inl, inr,
}
use dgd.Asn.{word_mod}

-- The loop of Asi::wordinv. `mask` is one less than a power of two, so that `& mask` is a remainder and
-- `mask |= i` a sum.
unfoldable pub wordinv_from : ℕ → ℕ → ℕ → ℕ → ℕ → ℕ
wordinv_from zero n n1 mask i = n1
wordinv_from (suc fuel) n n1 mask i =
    let m1 = if ltb i (n * n1 % word_mod % (mask + 1)) then (n1 + i) % word_mod else n1 in
    let i' = i * 2 % word_mod in
    let rest = wordinv_from fuel n m1 (mask + i') i' in if i' == 0 then m1 else rest

-- Asi::wordinv
unfoldable pub wordinv : ℕ → ℕ
wordinv n = wordinv_from 31 n 1 3 2

-- `n * m` is 1, modulo `b`, and `m` is less than `b`.
record IsInverse (n m b : ℕ) : Type 0 where
  times : ℕ
  product : n * m ≡ 1 + b * times
  small : m < b

mod_mod : (b e x : ℕ) → b * e ≡ word_mod → x % word_mod % b ≡ x % b
mod_mod b e x h =
    let w = x / word_mod in
    let whole : x ≡ b * (e * w) + x % word_mod =
      sym (div-add-mod' x word_mod)
      ∙ ap (λ (t : ℕ). t + x % word_mod)
          (mul_comm w word_mod ∙ ap (λ (t : ℕ). t * w) (sym h) ∙ mul_assoc b e w) in
    sym (ap (λ (t : ℕ). t % b) whole ∙ mul-add-mod_self_left b (e * w) (x % word_mod))

even_case : (i d : ℕ) → 1 + i * (2 * d) ≡ 1 + i * 2 * d
even_case i d = grind arith

odd_case : (i d : ℕ) → 1 + i * (2 * d + 1) ≡ 1 + i + i * 2 * d
odd_case i d = grind arith

odd_product :
    (a i d m : ℕ)
    → (2 * a + 1) * m ≡ 1 + i * (2 * d + 1)
    → (2 * a + 1) * (m + i) ≡ 1 + i * 2 * (d + a + 1)
odd_product a i d m h =
    mul-add (2 * a + 1) m i ∙ ap (λ (t : ℕ). t + (2 * a + 1) * i) h ∙ grind arith

-- One round doubles the modulus.
round :
    (n m i e : ℕ)
    → n % 2 ≡ 1
    → 2 ≤ i
    → i * 2 * e ≡ word_mod
    → i * 2 ≤ word_mod
    → IsInverse n m i
    → IsInverse n (if ltb i (n * m % word_mod % (i * 2)) then (m + i) % word_mod else m) (i * 2)
round n m i e odd two whole le v = elim (Bool-cases (v.times % 2 == 0)) [
  | inl z ↦
      let d = v.times / 2 in
      let c : v.times ≡ 2 * d = ground (arith, z) in
      let p : n * m ≡ 1 + i * 2 * d = v.product ∙ ap (λ t. 1 + i * t) c ∙ even_case i d in
      let r : n * m % word_mod % (i * 2) ≡ 1 =
        mod_mod (i * 2) e (n * m) whole
        ∙ ap (λ t. t % (i * 2)) p
        ∙ add-mul-mod_self_left 1 (i * 2) d
        ∙ mod-eq_of_lt (omega arith) in
      let no : ltb i 1 ≡ false = ground arith in
      rw (r, no) (record { times = d; product = p; small = omega (arith, v.small) })
  | inr z ↦
      let d = v.times / 2 in
      let c : v.times ≡ 2 * d + 1 = ground (arith, z) in
      let p : n * m ≡ 1 + i + i * 2 * d = v.product ∙ ap (λ t. 1 + i * t) c ∙ odd_case i d in
      let r : n * m % word_mod % (i * 2) ≡ 1 + i =
        mod_mod (i * 2) e (n * m) whole
        ∙ ap (λ t. t % (i * 2)) p
        ∙ add-mul-mod_self_left (1 + i) (i * 2) d
        ∙ mod-eq_of_lt (omega arith) in
      let yes : ltb i (1 + i) ≡ true = ground arith in
      let a = n / 2 in
      let na : n ≡ 2 * a + 1 = omega (arith, odd) in
      let q = odd_product a i d m (ap (λ t. t * m) (sym na) ∙ v.product ∙ ap (λ t. 1 + i * t) c) in
      let fits : (m + i) % word_mod ≡ m + i = mod-eq_of_lt (omega (arith, v.small, le)) in
      rw (r, yes, fits)
        (record {
          times = d + a + 1;
          product = ap (λ t. t * (m + i)) na ∙ q;
          small = omega (arith, v.small);
        })
]

-- The rounds that are left double the modulus until it is the number of words.
wordinv_from-IsInverse :
    (fuel n m mask i : ℕ)
    → i * 2 ^ suc fuel ≡ word_mod
    → 2 ≤ i
    → n % 2 ≡ 1
    → mask + 1 ≡ i * 2
    → IsInverse n m i
    → IsInverse n (wordinv_from (suc fuel) n m mask i) word_mod
unfolding wordinv_from
wordinv_from-IsInverse zero n m mask i h two odd e v =
    let whole : i * 2 ≡ word_mod = omega (arith, h) in
    let r = round n m i 1 odd two (omega (arith, h)) (omega (arith, h)) v in
    let last : i * 2 % word_mod ≡ 0 = omega (arith, whole) in
    let m1 = if ltb i (n * m % word_mod % (i * 2)) then (m + i) % word_mod else m in
    rw (last, e) (subst (λ b. IsInverse n m1 b) whole r)
wordinv_from-IsInverse (suc fuel) n m mask i h two odd e v =
    let p = 2 ^ suc fuel in
    let whole : i * 2 * p ≡ word_mod =
      mul_assoc i 2 p ∙ ap (λ (t : ℕ). i * t) (sym (pow-succ' 2 (suc fuel))) ∙ h in
    let twice : 2 ≤ p = omega (arith, pow-succ' 2 fuel, one-le-pow fuel 2 (omega arith)) in
    let most : i * 2 * 2 ≤ i * 2 * p = mul-le-mul_left (i * 2) twice in
    let r = round n m i p odd two whole (omega (arith, most, whole)) v in
    let m1 = if ltb i (n * m % word_mod % (i * 2)) then (m + i) % word_mod else m in
    let next : i * 2 % word_mod ≡ i * 2 = mod-eq_of_lt (omega (arith, most, whole, two)) in
    let more : (i * 2 == 0) ≡ false = ground (arith, two) in
    rw (next, more, e)
      (wordinv_from-IsInverse fuel n m1 (mask + i * 2) (i * 2) whole (omega (arith, two)) odd
        (omega (arith, e)) r)

-- Asi::wordinv: an odd number times its inverse is 1, modulo 2 ^ 32, and the inverse is a
-- 32-bit word.
wordinv_lem : (n : ℕ) → n % 2 ≡ 1 → (n * wordinv n % word_mod ≡ 1) × (wordinv n < word_mod)
unfolding wordinv
wordinv_lem n odd =
    let a = n / 2 in
    let start : IsInverse n 1 2 = record {
      times = a;
      product = omega (arith, odd);
      small = omega arith;
    } in
    let r = wordinv_from-IsInverse 30 n 1 3 2 refl (omega arith) odd refl start in
    (ap (λ t. t % word_mod) r.product ∙ add-mul-mod_self_left 1 word_mod r.times, r.small)
