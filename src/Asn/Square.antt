-- ===== src/Asn/Square.antt =====
-- Squares of numbers of any size.
use native.Mathlib.Nat.{mul-le-mul_left, mul_comm}
use dgd.Prelude.{
  ℕ, zero, suc, ◌+◌, ◌-◌, ◌*◌, ◌/◌, ◌%◌, ◌≤◌, ◌<◌, ◌≡◌, refl, ap, sym, ◌∙◌, Bool, true, false, List,
  [], ◌∷◌, arith, length, length-take, take, drop, ltb, ◌==◌, ==_iff, Bool-cases, inl, inr, ◌⊎◌,
}
use dgd.Asn.{word_mod, bit, sub_from, sub}
use dgd.Asn.DivStep.{Holds, sub-Holds, on_gt}
use dgd.Asn.Joined.{
  place-add, place_mono, value-parts, AreWords-drop, length-drop, middle-Holds, join-Holds,
}
use dgd.Asn.Mult.{apart_x, middle, join, sqr_from, sqr}
use dgd.Asn.Places.{place, value-lt-place, AreWords-take}
use dgd.Asn.Product.{mult1-Holds, product_room, replaced}
use dgd.Asn.Sums.{cmp-value}
use dgd.Asn.Value.{value, AreWords}

-- Words of the second number that have no place in the first do not change what is stored in it.
pub sub_from-take :
    (us vs : List ℕ) (borrow : ℕ)
    → (sub_from us vs borrow).0 ≡ (sub_from us (take (length us) vs) borrow).0
unfolding sub_from
sub_from-take [] [] borrow = refl
sub_from-take [] (b ∷ vs) borrow = refl
sub_from-take (a ∷ us) [] borrow = refl
sub_from-take (a ∷ us) (b ∷ vs) borrow =
    let tmp = (a + word_mod - borrow) % word_mod in
    let d = (tmp + word_mod - b) % word_mod in
    ap (λ (r : List ℕ). d ∷ r) (sub_from-take us vs (bit (ltb a tmp) + bit (ltb tmp d)))

pub value-fits :
    (h : ℕ) (us : List ℕ) → h ≤ length us → value us < place h → value (take h us) ≡ value us
value-fits h us k l = elim (Bool-cases (value (drop h us) == 0)) [
  | inl e ↦
      omega (arith, value-parts h us k, ap (λ v. place h * v) ((==_iff (value (drop h us)) 0).0 e))
  | inr e ↦
      let one : place h * 1 ≤ place h * value (drop h us) =
        mul-le-mul_left (place h) (ground (arith, e)) in
      absurd (omega (arith, value-parts h us k, one, l))
]

short_sub-Holds :
    (us vs : List ℕ)
    → AreWords us
    → AreWords vs
    → length us ≤ length vs
    → value vs ≤ value us
    → Holds (value us - value vs) (length us) (sub us vs).0
unfolding sub
short_sub-Holds us vs u v k h =
    let fits = value-fits (length us) vs k (omega (arith, h, value-lt-place us u)) in
    let short = take (length us) vs in
    let s =
      sub-Holds us short u (AreWords-take (length us) vs v)
        (omega (arith, length-take (length us) vs)) (omega (arith, fits, h)) in
    rw (sub, sub_from-take us vs 0) (replaced (omega (arith, fits)) s)

-- What Asi::sqr squares for the part in the middle
record IsDistance (p q m : ℕ) (r : List ℕ) : Type 0 where
  gap : (p + value r ≡ q) ⊎ (q + value r ≡ p)
  words : AreWords r
  size : length r ≤ m
  some_words : 0 < length r

distance :
    (x0 x1 : List ℕ)
    → 0 < length x0
    → length x0 ≤ length x1
    → AreWords x0
    → AreWords x1
    → IsDistance (value x0) (value x1) (length x1) (apart_x x0 x1).0
unfolding apart_x
distance x0 x1 pos k v0 v1 =
    let order =
      on_gt {A = List ℕ × Bool} (value x1) (value x0) ((sub x1 x0).0, true)
        ((sub x0 x1).0, false) in
    elim (Bool-cases (ltb (value x0) (value x1))) [
      | inl e ↦
          let s = sub-Holds x1 x0 v1 v0 k (ground (arith, e)) in
          rw (apart_x, cmp-value x1 x0 v1 v0 k, order.0 (ground (arith, e)))
            (record {
              gap = inl (ground (arith, e, s.exact));
              words = s.words;
              size = omega (arith, s.size);
              some_words = omega (arith, s.size, k, pos);
            })
      | inr e ↦
          let s = short_sub-Holds x0 x1 v0 v1 k (ground (arith, e)) in
          rw (apart_x, cmp-value x1 x0 v1 v0 k, order.1 (ground (arith, e)))
            (record {
              gap = inr (ground (arith, e, s.exact));
              words = s.words;
              size = omega (arith, s.size, k);
              some_words = omega (arith, s.size, pos);
            })
    ]

square_apart : (p d : ℕ) → (p + d) * (p + d) + p * p ≡ 2 * (p * (p + d)) + d * d
square_apart p d = grind arith

across : (p q d : ℕ) → ((p + d ≡ q) ⊎ (q + d ≡ p)) → p * p + q * q ≡ 2 * (p * q) + d * d
across p q d (inl e) = rw (sym e) (omega (arith, square_apart p d))
across p q d (inr e) = rw (sym e) (omega (arith, square_apart q d, mul_comm (q + d) q))

sqr_from-step :
    (f h : ℕ) (x : List ℕ)
    → length x / 2 ≡ h
    → (length x == 1) ≡ false
    → let y = sqr_from f (take h x) in
      let y23 = sqr_from f (drop h x) in
      sqr_from (suc f) x
      ≡ join h y y23 (middle true y y23 (sqr_from f (apart_x (take h x) (drop h x)).0))
unfolding sqr_from
sqr_from-step f h x eh ex = rw (sqr_from, eh, ex) refl

square_parts : (p a b : ℕ) → a * a + p * (2 * (a * b)) + p * p * (b * b) ≡ (a + p * b) * (a + p * b)
square_parts p a b = grind arith

pub resized : {n j k : ℕ} {r : List ℕ} → j ≡ k → Holds n j r → Holds n k r
resized e h = record { exact = h.exact; words = h.words; size = h.size ∙ e }

-- A square of at most `k` words fits in any `m` words, if that many are enough for `k`.
fits_in : {n k : ℕ} {r : List ℕ} (m : ℕ) → k ≤ m → Holds n k r → n < place m
fits_in {r = r} m h s =
    omega (arith, s.exact, value-lt-place r s.words, ap place s.size, place_mono _ m h)

-- Squares by Karatsuba's method, from the squares of the halves
halved :
    (f h n : ℕ) (x : List ℕ)
    → length x ≡ n
    → n / 2 ≡ h
    → 1 < n
    → AreWords x
    → ((u : List ℕ)
        → 0 < length u
        → length u < n
        → AreWords u
        → Holds (value u * value u) (length u + length u) (sqr_from f u))
    → Holds (value x * value x) (n + n) (sqr_from (suc f) x)
halved f h n x ex eh l v rec =
    let x0 = take h x in
    let x1 = drop h x in
    let a = value x0 in
    let b = value x1 in
    let s0 : length x0 ≡ h = omega (arith, length-take h x, ex, eh) in
    let s1 : length x1 + h ≡ n = omega (arith, length-drop h x (omega (arith, ex, eh)), ex) in
    let d =
      distance x0 x1 (omega (arith, s0, eh, l)) (omega (arith, s0, s1, eh)) (AreWords-take h x v)
        (AreWords-drop h x v) in
    let apart = (apart_x x0 x1).0 in
    let y = rec x0 (omega (arith, s0, eh, l)) (omega (arith, s0, eh, l)) (AreWords-take h x v) in
    let y23 = rec x1 (omega (arith, s1, eh, l)) (omega (arith, s1, eh, l)) (AreWords-drop h x v) in
    let t23 = rec apart d.some_words (omega (arith, d.size, s1, eh, l)) d.words in
    let m = length x1 + length x1 in
    let ly = sqr_from f x0 in
    let ly23 = sqr_from f x1 in
    let lt23 = sqr_from f apart in
    let dd = value apart * value apart in
    let cross = across a b (value apart) d.gap in
    let k0 : length x0 + length x0 ≤ m = omega (arith, s0, s1, eh) in
    let j0 : length apart + length apart ≤ m = omega (arith, d.size) in
    let room : a * a + b * b + dd < place (suc m) =
      omega (arith, fits_in m k0 y, fits_in m (omega arith) y23, fits_in m j0 t23) in
    let mid =
      middle-Holds true (a * a) (b * b) dd (length x0 + length x0) m (length apart + length apart)
        ly ly23 lt23 y y23 t23 (omega (arith, k0)) (omega (arith, j0)) room
        (λ r. omega (arith, cross)) in
    let t = middle true ly ly23 lt23 in
    let whole : a * a + place h * (2 * (a * b)) + place (h + h) * (b * b) ≡ value x * value x =
      omega (arith, ap (λ p. p * (b * b)) (place-add h h))
      ∙ square_parts (place h) a b
      ∙ ap (λ v. v * v) (sym (value-parts h x (omega (arith, ex, eh)))) in
    let total : h + h + m ≡ n + n = omega (arith, s1) in
    let fits = product_room n x x ex ex v v in
    let one : (length x == 1) ≡ false = ground (arith, ex, l) in
    rw (sqr_from-step f h x (ap (λ i. i / 2) ex ∙ eh) one) (
      resized total (
        replaced whole (
          join-Holds h m (a * a) (2 * (a * b)) (b * b) (suc m) ly ly23 t
            (resized (omega (arith, s0)) y) y23 (replaced (omega (arith, cross)) mid)
            (omega (arith, eh, l)) (omega (arith, whole, fits, ap place total)))))

sqr_from-Holds :
    (f : ℕ) (x : List ℕ)
    → 0 < length x
    → length x ≤ f
    → AreWords x
    → Holds (value x * value x) (length x + length x) (sqr_from f x)
unfolding sqr_from
sqr_from-Holds zero x h k v = absurd (omega arith)
sqr_from-Holds (suc f) [] h k v = absurd (omega arith)
sqr_from-Holds (suc f) (a ∷ []) h k v = replaced (grind arith) (mult1-Holds a a v.0 v.0)
sqr_from-Holds (suc f) (a ∷ (b ∷ x)) h k v =
    halved f (length (a ∷ (b ∷ x)) / 2) (length (a ∷ (b ∷ x))) (a ∷ (b ∷ x)) refl refl (omega arith)
      v (λ u i j w. sqr_from-Holds f u i (omega (arith, j, k)) w)

-- Asi::sqr: the square of a number of any size but 0, of 32-bit words, in twice as many words.
pub sqr-Holds :
    (x : List ℕ)
    → 0 < length x
    → AreWords x
    → Holds (value x * value x) (length x + length x) (sqr x)
unfolding sqr
sqr-Holds x h v = sqr_from-Holds (length x) x h (omega arith) v
