-- ===== src/Asn/Quotient.antt =====
-- The rounds of Asi::div together.
use Prim.Native.Nat.{compare, Ordering}
use native.Mathlib.Nat.{add-mul, mul_assoc, mul-le-mul_right}
use dgd.Prelude.{
  ℕ, suc, ◌+◌, ◌*◌, ◌≤◌, ◌<◌, ◌≡◌, ap, ◌∙◌, List, [], ◌∷◌, arith, length, ltb, leb, Bool-cases, inl,
  inr,
}
use dgd.Asn.{word_mod, sub}
use dgd.Asn.Div.{word_at, div_step, div_top, div_words}
use dgd.Asn.DivStep.{sub-Holds}
use dgd.Asn.Places.{place, top_place, value-lt-place}
use dgd.Asn.Round.{div_step-IsDivision}
use dgd.Asn.Sums.{cmp-value}
use dgd.Asn.Value.{value, AreWords}

-- The number of `us`, divided by that of `b`: the quotient's words `q` and the remainder's words `r`
pub record IsQuotient (b us q r : List ℕ) : Type 0 where
  pub exact : value us ≡ value q * value b + value r
  pub small : value r < value b
  pub words : AreWords r
  pub size : length r ≡ length b
  pub digits : AreWords q

pub on_lt :
    {A : Type 0} (m n : ℕ) (x y : A)
    → (m < n → (elim (compare m n) [ Ordering.lt ↦ x | _ ↦ y ]) ≡ x)
      × (n ≤ m → (elim (compare m n) [ Ordering.lt ↦ x | _ ↦ y ]) ≡ y)
on_lt m n x y = (λ h. ground arith, λ h. ground arith)

div_top-value :
    (b us : List ℕ)
    → length us ≡ length b
    → AreWords b
    → AreWords us
    → (value us < value b → div_top b us ≡ (0 ∷ [], us))
      × (value b ≤ value us → div_top b us ≡ (1 ∷ [], (sub us b).0))
unfolding div_top
div_top-value b us e v u =
    rw (div_top, cmp-value us b u v (omega (arith, e)))
      (on_lt (value us) (value b) (0 ∷ [], us) (1 ∷ [], (sub us b).0))

-- A divisor whose highest bit is set is at least half of what its words can hold.
pub half :
    (b : List ℕ) (n : ℕ)
    → length b ≡ suc n
    → word_mod ≤ 2 * word_at b n
    → place (length b) ≤ 2 * value b
half b n e h =
    let d = word_at b n in
    let most : word_mod * place n ≤ 2 * d * place n = mul-le-mul_right (place n) h in
    omega (arith, ap place e, most, top_place n b e, mul_assoc 2 d (place n))

-- The quotient of two numbers of as many words is 0 or 1.
div_top-IsQuotient :
    (b us : List ℕ) (n : ℕ)
    → length b ≡ suc n
    → length us ≡ length b
    → AreWords b
    → AreWords us
    → word_mod ≤ 2 * word_at b n
    → IsQuotient b us (div_top b us).0 (div_top b us).1
div_top-IsQuotient b us n eb eu v u h =
    let cases = div_top-value b us eu v u in
    let most = value-lt-place us u in
    elim (Bool-cases (ltb (value us) (value b))) [
      | inl e ↦ rw (cases.0 (ground (arith, e))) (record {
        exact = omega arith;
        small = ground (arith, e);
        words = u;
        size = eu;
        digits = (omega arith, tt);
      })
      | inr e ↦
          let s = sub-Holds us b u v (omega (arith, eu)) (ground (arith, e)) in
          rw (cases.1 (ground (arith, e))) (record {
            exact = ground (arith, e, s.exact);
            small = ground (arith, e, s.exact, most, half b n eb h, ap place eu);
            words = s.words;
            size = omega (arith, s.size, eu);
            digits = (omega arith, tt);
          })
    ]

-- The division of Asi::div by a divisor whose highest bit is set, for a dividend of at least as many
-- words.
pub div_words-IsQuotient :
    (b us : List ℕ) (n : ℕ)
    → length b ≡ suc n
    → length b ≤ length us
    → AreWords b
    → AreWords us
    → word_mod ≤ 2 * word_at b n
    → IsQuotient b us (div_words b us).0 (div_words b us).1
unfolding div_words
div_words-IsQuotient b [] n eb k v u h = absurd (omega arith)
div_words-IsQuotient b (a ∷ us) n eb k v u h =
    elim (Bool-cases (leb (length (a ∷ us)) (length b))) [
      | inl e ↦ rw e (div_top-IsQuotient b (a ∷ us) n eb (ground (arith, e)) v u h)
      | inr e ↦
          let rest = div_words-IsQuotient b us n eb (ground (arith, e)) v u.1 h in
          let r = (div_words b us).1 in
          let q = (div_words b us).0 in
          let step =
            div_step-IsDivision b (a ∷ r) n eb (omega (arith, rest.size)) v (u.0, rest.words) h
              (omega (arith, rest.small, u.0)) in
          let d = (div_step b (a ∷ r)).0 in
          let split : (d + word_mod * value q) * value b
              ≡ d * value b + word_mod * (value q * value b) =
            add-mul d (word_mod * value q) (value b)
            ∙ ap (λ (t : ℕ). d * value b + t) (mul_assoc word_mod (value q) (value b)) in
          rw e (record {
            exact = omega (arith, rest.exact, step.1.exact, split);
            small = step.1.small;
            words = step.1.words;
            size = step.1.size;
            digits = (step.0, rest.digits);
          })
    ]
