-- ===== src/Asn/Product.antt =====
-- Products of numbers whose sizes are the same power of two.
use native.Mathlib.Nat.{mul-le-mul_left, mul-lt-mul_of_pos_right, pow-succ', one-le-pow}
use dgd.Prelude.{
  ℕ, zero, suc, ◌+◌, ◌*◌, ◌/◌, ◌^◌, ◌≤◌, ◌<◌, ◌≡◌, refl, ap, sym, ◌∙◌, true, false, List, [], ◌∷◌,
  arith, length, length-take, take, drop, leb, ◌==◌,
}
use dgd.Asn.{word_mod}
use dgd.Asn.Apart.{apart_x-IsApart, apart_y-IsApart, across}
use dgd.Asn.DivStep.{Holds}
use dgd.Asn.Joined.{place-add, value-parts, AreWords-drop, length-drop, middle-Holds, join-Holds}
use dgd.Asn.Mult.{mult1, apart_x, apart_y, differ, middle, join, mult_from, mult_inner}
use dgd.Asn.Places.{place, place_pos, value-lt-place, AreWords-take}
use dgd.Asn.Rows.{product_bound}
use dgd.Asn.Value.{value, AreWords}

-- Asi::mult1, on numbers of one word
pub mult1-Holds : (a b : ℕ) → a < word_mod → b < word_mod → Holds (a * b) 2 (mult1 a b)
mult1-Holds a b h k =
    let most = product_bound a b h k in
    record { exact = omega arith; words = (omega arith, (omega (arith, most), tt)); size = refl }

-- A round where neither number is a single word
mult_from-step :
    (f h : ℕ) (x y : List ℕ)
    → length x / 2 ≡ h
    → (length y == 1) ≡ false
    → let d = apart_x (take h x) (drop h x) in
      let e = apart_y (take h y) (drop h y) in
      let z = mult_from f (take h x) (take h y) in
      let z23 = mult_from f (drop h x) (drop h y) in
      leb (length e.0) (length d.0) ≡ true
      → mult_from (suc f) x y ≡ join h z z23 (middle (differ d.1 e.1) z z23 (mult_from f d.0 e.0))
unfolding mult_from
mult_from-step f h x y eh ey le = rw (mult_from, eh, ey, le) refl

-- The halves of a number
record Halves (h : ℕ) (x : List ℕ) : Type 0 where
  low_size : length (take h x) ≡ h
  high_size : length (drop h x) ≡ h
  low_words : AreWords (take h x)
  high_words : AreWords (drop h x)
  parts : value x ≡ value (take h x) + place h * value (drop h x)

halves : (h : ℕ) (x : List ℕ) → length x ≡ h + h → AreWords x → Halves h x
halves h x e v = record {
  low_size = omega (arith, length-take h x, e);
  high_size = omega (arith, length-drop h x (omega (arith, e)), e);
  low_words = AreWords-take h x v;
  high_words = AreWords-drop h x v;
  parts = value-parts h x (omega (arith, e));
}

-- Two numbers have room for their product.
pub product_room :
    (k : ℕ) (x y : List ℕ)
    → length x ≡ k
    → length y ≡ k
    → AreWords x
    → AreWords y
    → value x * value y < place (k + k)
product_room k x y ex ey v w =
    let bx = value-lt-place x v in
    let by = value-lt-place y w in
    let most : value x * value y ≤ value x * place k =
      mul-le-mul_left (value x) (omega (arith, by, ap place ey)) in
    let less : value x * place k < place k * place k =
      mul-lt-mul_of_pos_right (omega (arith, bx, ap place ex)) (place_pos k) in
    omega (arith, most, less, place-add k k)

expand : (p a b c d : ℕ) → (a + p * b) * (c + p * d) ≡ a * c + p * (a * d + b * c) + p * p * (b * d)
expand p a b c d = grind arith

pub replaced : {m n k : ℕ} {r : List ℕ} → m ≡ n → Holds m k r → Holds n k r
replaced e h = record { exact = h.exact ∙ e; words = h.words; size = h.size }

-- Karatsuba's method, from the products of the halves
karatsuba :
    (f h : ℕ) (x y : List ℕ)
    → 0 < h
    → length x ≡ h + h
    → length y ≡ h + h
    → AreWords x
    → AreWords y
    → ((u v : List ℕ)
        → length u ≡ h
        → length v ≡ h
        → AreWords u
        → AreWords v
        → Holds (value u * value v) (h + h) (mult_from f u v))
    → Holds (value x * value y) (h + h + (h + h)) (mult_from (suc f) x y)
karatsuba f h x y pos ex ey vx vy rec =
    let hx = halves h x ex vx in
    let hy = halves h y ey vy in
    let d =
      apart_x-IsApart (take h x) (drop h x) h hx.low_size hx.high_size hx.low_words hx.high_words in
    let e =
      apart_y-IsApart (take h y) (drop h y) h hy.low_size hy.high_size hy.low_words hy.high_words in
    let rd = apart_x (take h x) (drop h x) in
    let re = apart_y (take h y) (drop h y) in
    let z = rec (take h x) (take h y) hx.low_size hy.low_size hx.low_words hy.low_words in
    let z23 = rec (drop h x) (drop h y) hx.high_size hy.high_size hx.high_words hy.high_words in
    let t23 = rec rd.0 re.0 d.size e.size d.words e.words in
    let a = value (take h x) in
    let b = value (drop h x) in
    let c = value (take h y) in
    let g = value (drop h y) in
    let cross = across rd.1 re.1 a b c g (value rd.0) (value re.0) d.gap e.gap in
    let lz = mult_from f (take h x) (take h y) in
    let lz23 = mult_from f (drop h x) (drop h y) in
    let lt23 = mult_from f rd.0 re.0 in
    let n = h + h in
    let small_z = value-lt-place lz z.words in
    let small_z23 = value-lt-place lz23 z23.words in
    let small_t23 = value-lt-place lt23 t23.words in
    let room : a * c + b * g + value rd.0 * value re.0 < place (suc n) = omega (
      arith,
      small_z,
      small_z23,
      small_t23,
      z.exact,
      z23.exact,
      t23.exact,
      ap place z.size,
      ap place z23.size,
      ap place t23.size,
    ) in
    let m =
      middle-Holds (differ rd.1 re.1) (a * c) (b * g) (value rd.0 * value re.0) n n n lz lz23 lt23 z
        z23 t23 (omega arith) (omega arith) room cross.1 in
    let whole : a * c + place h * (a * g + b * c) + place n * (b * g) ≡ value x * value y =
      omega (arith, ap (λ v. v * (b * g)) (place-add h h))
      ∙ sym (expand (place h) a b c g)
      ∙ (ap (λ v. v * (c + place h * g)) (sym hx.parts) ∙ ap (λ v. value x * v) (sym hy.parts)) in
    let fits = product_room n x y ex ey vx vy in
    let t = middle (differ rd.1 re.1) lz lz23 lt23 in
    rw
      (mult_from-step f h x y (omega (arith, ex)) (ground (arith, ey, pos))
        (ground (arith, d.size, e.size)))
      (replaced whole (
        join-Holds h n (a * c) (a * g + b * c) (b * g) (suc n) lz lz23 t z z23 (replaced cross.0 m)
          (omega (arith, pos)) (omega (arith, whole, fits))))

double : (k : ℕ) → 2 ^ suc k ≡ 2 ^ k + 2 ^ k
double k = omega (arith, pow-succ' 2 k)

lt-double : (k : ℕ) → k < 2 ^ k
lt-double zero = omega arith
lt-double (suc k) = omega (arith, lt-double k, double k)

mult_from-Holds :
    (k f : ℕ) (x y : List ℕ)
    → k < f
    → length x ≡ 2 ^ k
    → length y ≡ 2 ^ k
    → AreWords x
    → AreWords y
    → Holds (value x * value y) (2 ^ k + 2 ^ k) (mult_from f x y)
unfolding mult_from
mult_from-Holds k zero x y l ex ey vx vy = absurd (omega arith)
mult_from-Holds zero (suc f) [] y l ex ey vx vy = absurd (omega (arith, ex))
mult_from-Holds zero (suc f) (a ∷ (b ∷ x)) y l ex ey vx vy = absurd (omega (arith, ex))
mult_from-Holds zero (suc f) (a ∷ []) [] l ex ey vx vy = absurd (omega (arith, ey))
mult_from-Holds zero (suc f) (a ∷ []) (b ∷ (c ∷ y)) l ex ey vx vy = absurd (omega (arith, ey))
mult_from-Holds zero (suc f) (a ∷ []) (b ∷ []) l ex ey vx vy =
    replaced (grind arith) (mult1-Holds a b vx.0 vy.0)
mult_from-Holds (suc k) (suc f) x y l ex ey vx vy =
    let h = 2 ^ k in
    rw (double k) (
      karatsuba f h x y (one-le-pow k 2 (omega arith)) (ex ∙ double k) (ey ∙ double k) vx vy
        (λ u v eu ev wu wv. mult_from-Holds k f u v (omega (arith, l)) eu ev wu wv))

-- Asi::multInner: the product of two numbers of 2 ^ k 32-bit words each, in twice as many
-- words.
pub mult_inner-Holds :
    (k : ℕ) (x y : List ℕ)
    → length x ≡ 2 ^ k
    → length y ≡ 2 ^ k
    → AreWords x
    → AreWords y
    → Holds (value x * value y) (2 ^ k + 2 ^ k) (mult_inner x y)
unfolding mult_inner
mult_inner-Holds k x y ex ey vx vy =
    mult_from-Holds k (length x) x y (omega (arith, ex, lt-double k)) ex ey vx vy
