-- ===== src/Asn/Apart.antt =====
-- The differences that Asi::multInner multiplies, and what their product is worth.
use dgd.Prelude.{
  ℕ, ◌+◌, ◌-◌, ◌*◌, ◌≤◌, ◌≡◌, sym, ◌∙◌, Bool, true, false, List, arith, length, ltb, leb,
  if◌then◌else◌, Bool-cases, inl, inr,
}
use dgd.Asn.{sub}
use dgd.Asn.DivStep.{Holds, sub-Holds, on_gt}
use dgd.Asn.Mult.{apart_x, apart_y, differ}
use dgd.Asn.Quotient.{on_lt}
use dgd.Asn.Sums.{cmp-value}
use dgd.Asn.Value.{value, AreWords}

-- `p` and `q` differ by the number of `k` words, and the flag tells that `p` is the smaller.
abbrev pub Gap : Bool → ℕ → ℕ → ℕ → Type 0
Gap minus p q d = if minus then p + d ≡ q else (q + d ≡ p)

pub record IsApart (p q k : ℕ) (r : List ℕ × Bool) : Type 0 where
  pub gap : Gap r.1 p q (value r.0)
  pub words : AreWords r.0
  pub size : length r.0 ≡ k

sub-IsApart :
    (us vs : List ℕ) (k : ℕ)
    → length us ≡ k
    → length vs ≡ k
    → AreWords us
    → AreWords vs
    → (value vs ≤ value us → IsApart (value us) (value vs) k ((sub us vs).0, false))
      × (value vs ≤ value us → IsApart (value vs) (value us) k ((sub us vs).0, true))
sub-IsApart us vs k eu ev u v =
    let s : (h : value vs ≤ value us) → Holds (value us - value vs) (length us) (sub us vs).0 =
      λ h. sub-Holds us vs u v (omega (arith, eu, ev)) h in
    (
      λ h. record { gap = omega (arith, (s h).exact); words = (s h).words; size = (s h).size ∙ eu },
      λ h. record { gap = omega (arith, (s h).exact); words = (s h).words; size = (s h).size ∙ eu },
    )

pub apart_x-IsApart :
    (x0 x1 : List ℕ) (k : ℕ)
    → length x0 ≡ k
    → length x1 ≡ k
    → AreWords x0
    → AreWords x1
    → IsApart (value x0) (value x1) k (apart_x x0 x1)
unfolding apart_x
apart_x-IsApart x0 x1 k e0 e1 v0 v1 =
    let order =
      on_gt {A = List ℕ × Bool} (value x1) (value x0) ((sub x1 x0).0, true)
        ((sub x0 x1).0, false) in
    elim (Bool-cases (ltb (value x0) (value x1))) [
      | inl e ↦
          rw (apart_x, cmp-value x1 x0 v1 v0 (omega (arith, e0, e1)), order.0 (ground (arith, e)))
            ((sub-IsApart x1 x0 k e1 e0 v1 v0).1 (ground (arith, e)))
      | inr e ↦
          rw (apart_x, cmp-value x1 x0 v1 v0 (omega (arith, e0, e1)), order.1 (ground (arith, e)))
            ((sub-IsApart x0 x1 k e0 e1 v0 v1).0 (ground (arith, e)))
    ]

pub apart_y-IsApart :
    (y0 y1 : List ℕ) (k : ℕ)
    → length y0 ≡ k
    → length y1 ≡ k
    → AreWords y0
    → AreWords y1
    → IsApart (value y1) (value y0) k (apart_y y0 y1)
unfolding apart_y
apart_y-IsApart y0 y1 k e0 e1 v0 v1 =
    let same : leb (length y0) (length y1) ≡ true = ground (arith, e0, e1) in
    let order =
      on_lt {A = List ℕ × Bool} (value y1) (value y0) ((sub y0 y1).0, true)
        ((sub y1 y0).0, false) in
    elim (Bool-cases (ltb (value y1) (value y0))) [
      | inl e ↦
          rw
            (
              apart_y,
              same,
              cmp-value y1 y0 v1 v0 (omega (arith, e0, e1)),
              order.0 (ground (arith, e)),
            )
            ((sub-IsApart y0 y1 k e0 e1 v0 v1).1 (ground (arith, e)))
      | inr e ↦
          rw
            (
              apart_y,
              same,
              cmp-value y1 y0 v1 v0 (omega (arith, e0, e1)),
              order.1 (ground (arith, e)),
            )
            ((sub-IsApart y1 y0 k e1 e0 v1 v0).0 (ground (arith, e)))
    ]

same_sign : (x d y e : ℕ) → x * y + (x + d) * (y + e) ≡ x * (y + e) + (x + d) * y + d * e
same_sign x d y e = grind arith

-- The products of the halves and that of the differences make the products across.
pub across :
    (minus_d minus_e : Bool) (x0 x1 y0 y1 d e : ℕ)
    → Gap minus_d x0 x1 d
    → Gap minus_e y1 y0 e
    → ((if differ minus_d minus_e then x0 * y0 + x1 * y1 - d * e else x0 * y0 + x1 * y1 + d * e)
        ≡ x0 * y1 + x1 * y0)
      × (differ minus_d minus_e ≡ true → d * e ≤ x0 * y0 + x1 * y1)
across true true x0 x1 y0 y1 d e g h =
    (rw (sym g, sym h) (sym (same_sign x0 d y1 e)), λ r. absurd (ground (arith, r)))
across true false x0 x1 y0 y1 d e g h =
    rw (sym g, sym h) (omega (arith, same_sign x0 d y0 e), λ r. omega (arith, same_sign x0 d y0 e))
across false true x0 x1 y0 y1 d e g h =
    rw (sym g, sym h) (omega (arith, same_sign x1 d y1 e), λ r. omega (arith, same_sign x1 d y1 e))
across false false x0 x1 y0 y1 d e g h =
    (rw (sym g, sym h) (omega (arith, same_sign x1 d y0 e)), λ r. absurd (ground (arith, r)))
