-- ===== src/Asn/LongProduct.antt =====
-- Products where one size is a power of two, and the other a multiple of it.
use native.Mathlib.Nat.{
  add-mul, mul-add, mul-le-mul_left, mul-le-mul_right, pow-succ', one-le-pow, lt_of_mul-lt-mul_left,
}
use dgd.Prelude.{
  ℕ, zero, suc, ◌+◌, ◌-◌, ◌*◌, ◌^◌, ◌≤◌, ◌<◌, ◌≡◌, refl, ap, sym, subst, ◌∙◌, true, false, List,
  ◌++◌, arith, length, length-append, length-take, All-append, take, take_all, drop, replicate, ltb,
  ◌==◌,
}
use dgd.Asn.{word_mod, add}
use dgd.Asn.DivStep.{Holds}
use dgd.Asn.Joined.{add-Holds, place-add, value-append, value-parts, AreWords-drop, length-drop}
use dgd.Asn.Long.{add_low, mult_loop, mult}
use dgd.Asn.Mult.{mult_inner}
use dgd.Asn.Places.{
  place, place_pos, value-lt-place, AreWords-take, value-zeros, AreWords-zeros, length-zeros,
}
use dgd.Asn.Product.{mult_inner-Holds, replaced}
use dgd.Asn.Square.{value-fits, resized}
use dgd.Asn.Value.{value, AreWords}

-- A sum in the low words, where both fit in them
add_low-Holds :
    (z t : List ℕ) (n : ℕ)
    → AreWords z
    → Holds n (length t) t
    → length t ≤ length z
    → value z + n < place (length t)
    → Holds (value z + n) (length z) (add_low z t)
unfolding add_low
add_low-Holds z t n v h k room =
    let m = length t in
    let low = take m z in
    let len : length low ≡ m = omega (arith, length-take m z, k) in
    let fits = value-fits m z k (omega (arith, room)) in
    let s =
      add-Holds low t (AreWords-take m z v) h.words (omega (arith, len))
        (omega (arith, fits, h.exact, room, ap place len)) in
    let out = (add low t).0 in
    let none : place m * value (drop m z) ≡ 0 = omega (arith, value-parts m z k, fits) in
    let size : length out ≡ m = s.size ∙ len in
    record {
      exact = omega (
        arith,
        value-append out (drop m z),
        ap (λ j. place j * value (drop m z)) size,
        none,
        s.exact,
        fits,
        h.exact,
      );
      words = All-append (λ a. a < word_mod) out (drop m z) s.words (AreWords-drop m z v);
      size = omega (arith, length-append out (drop m z), size, length-drop m z k);
    }

-- A product with what was carried into it fits in as many words as its factors.
carried : (p a b z : ℕ) → a < p → b < p → z < p → z + a * b < p * p
carried p a b z h k l =
    let most : a * b ≤ a * p = mul-le-mul_left a (omega (arith, k)) in
    let more : (a + 1) * p ≤ p * p = mul-le-mul_right p (omega (arith, h)) in
    omega (arith, most, more, add-mul a 1 p, l)

spread : (p c a b z : ℕ) → z + c * b + p * (a * b) ≡ z + (c + p * a) * b
spread p c a b z = grind arith

-- The first block of the longer number
block :
    (k : ℕ) (z a b : List ℕ)
    → length b ≡ 2 ^ k
    → 2 ^ k ≤ length a
    → length z ≡ length a + length b
    → AreWords z
    → AreWords a
    → AreWords b
    → value z < place (2 ^ k)
    → (Holds
        (value z + value (take (2 ^ k) a) * value b)
        (length z)
        (add_low z (mult_inner (take (2 ^ k) a) b)))
      × (value z + value (take (2 ^ k) a) * value b < place (2 ^ k + 2 ^ k))
block k z a b eb ka ez vz va vb l =
    let h = 2 ^ k in
    let c = take h a in
    let ec : length c ≡ h = omega (arith, length-take h a, ka) in
    let t = mult_inner-Holds k c b ec eb (AreWords-take h a va) vb in
    let vt = mult_inner c b in
    let small =
      carried (place h) (value c) (value b) (value z)
        (omega (arith, value-lt-place c (AreWords-take h a va), ap place ec))
        (omega (arith, value-lt-place b vb, ap place eb)) l in
    let fits : value z + value c * value b < place (h + h) = omega (arith, small, place-add h h) in
    (
      add_low-Holds z vt (value c * value b) vz
          (record { exact = t.exact; words = t.words; size = refl })
          (omega (arith, t.size, ez, eb, ka)) (omega (arith, fits, ap place t.size)),
      fits,
    )

mult_loop-last :
    (fuel : ℕ) (z a b : List ℕ)
    → ltb (length a) (length b) ≡ false
    → (length a == length b) ≡ true
    → mult_loop (suc fuel) z a b ≡ add_low z (mult_inner a b)
unfolding mult_loop
mult_loop-last fuel z a b e f = rw (mult_loop, e, f) refl

mult_loop-next :
    (fuel h : ℕ) (z a b : List ℕ)
    → length b ≡ h
    → ltb (length a) h ≡ false
    → (length a == h) ≡ false
    → (length a - h == 1) ≡ false
    → let next = add_low z (mult_inner (take h a) b) in
      mult_loop (suc fuel) z a b ≡ take h next ++ mult_loop fuel (drop h next) (drop h a) b
unfolding mult_loop
mult_loop-next fuel h z a b n e f g = rw (mult_loop, n, e, n, f, g) refl

-- What a block leaves for the words behind it
glue :
    (h n s : ℕ) (next rest : List ℕ)
    → h ≤ length next
    → AreWords next
    → value next ≡ n
    → Holds (value (drop h next) + s) (length (drop h next)) rest
    → Holds (n + place h * s) (length next) (take h next ++ rest)
glue h n s next rest k v e r =
    let p = place h in
    let len : length (take h next) ≡ h = omega (arith, length-take h next, k) in
    record {
      exact = omega (
        arith,
        value-append (take h next) rest,
        ap (λ j. place j * value rest) len,
        ap (λ x. p * x) r.exact,
        mul-add p (value (drop h next)) s,
        value-parts h next k,
        e,
      );
      words = All-append (λ a. a < word_mod) (take h next) rest (AreWords-take h next v) r.words;
      size = omega (arith, length-append (take h next) rest, len, r.size, length-drop h next k);
    }

mult_loop-Holds :
    (k j fuel : ℕ) (z a b : List ℕ)
    → 0 < k
    → j < fuel
    → length b ≡ 2 ^ k
    → length a ≡ suc j * 2 ^ k
    → length z ≡ length a + length b
    → AreWords z
    → AreWords a
    → AreWords b
    → value z < place (2 ^ k)
    → Holds (value z + value a * value b) (length z) (mult_loop fuel z a b)
mult_loop-Holds k j zero z a b pos f eb ea ez vz va vb l = absurd (omega arith)
mult_loop-Holds k zero (suc fuel) z a b pos f eb ea ez vz va vb l =
    let h = 2 ^ k in
    let one : 1 * h ≡ h = grind arith in
    let s = (block k z a b eb (omega (arith, ea, one)) ez vz va vb l).0 in
    let whole = take_all h a (omega (arith, ea, one)) in
    rw (mult_loop-last fuel z a b (ground (arith, ea, eb, one)) (ground (arith, ea, eb, one))) (
      subst (λ c. Holds (value z + value c * value b) (length z) (add_low z (mult_inner c b))) whole
        s)
mult_loop-Holds (suc k) (suc j) (suc fuel) z a b pos f eb ea ez vz va vb l =
    let h = 2 ^ suc k in
    let two : 2 ≤ h = omega (arith, pow-succ' 2 k, one-le-pow k 2 (omega arith)) in
    let more : suc (suc j) * h ≡ h + suc j * h = grind arith in
    let some_more : 1 * h ≤ suc j * h = mul-le-mul_right h (omega arith) in
    let wide : h ≤ length a = omega (arith, ea, more) in
    let s = block (suc k) z a b eb wide ez vz va vb l in
    let next = add_low z (mult_inner (take h a) b) in
    let n = value z + value (take h a) * value b in
    let k0 : h ≤ length next = omega (arith, s.0.size, ez, wide) in
    let small : value (drop h next) < place h =
      lt_of_mul-lt-mul_left (place h)
        (omega (arith, value-parts h next k0, s.0.exact, s.1, place-add h h)) in
    let da = length-drop h a wide in
    let dn = length-drop h next k0 in
    let rest =
      mult_loop-Holds (suc k) j fuel (drop h next) (drop h a) b pos (omega (arith, f)) eb
        (omega (arith, da, ea, more)) (omega (arith, dn, s.0.size, ez, da))
        (AreWords-drop h next s.0.words) (AreWords-drop h a va) vb small in
    let g =
      glue h n (value (drop h a) * value b) next (mult_loop fuel (drop h next) (drop h a) b) k0
        s.0.words s.0.exact rest in
    let total : n + place h * (value (drop h a) * value b) ≡ value z + value a * value b =
      spread (place h) (value (take h a)) (value (drop h a)) (value b) (value z)
      ∙ ap (λ x. value z + x * value b) (sym (value-parts h a wide)) in
    rw
      (mult_loop-next fuel h z a b eb (ground (arith, wide))
        (ground (arith, ea, more, some_more, two)) (ground (arith, ea, more, some_more, two)))
      (resized s.0.size (replaced total g))
mult_loop-Holds zero (suc j) (suc fuel) z a b pos f eb ea ez vz va vb l =
    absurd (omega (arith, pos))

-- Asi::mult: the product of two numbers of 32-bit words, in as many words as both have, where
-- the second has 2 ^ k words for a k that is not 0, and the first a multiple of that.
pub mult-Holds :
    (k j : ℕ) (x y : List ℕ)
    → 0 < k
    → length y ≡ 2 ^ k
    → length x ≡ suc j * 2 ^ k
    → AreWords x
    → AreWords y
    → Holds (value x * value y) (length x + length y) (mult x y)
unfolding mult
mult-Holds k j x y pos ey ex vx vy =
    let n = length x + length y in
    let zeros : List ℕ = replicate n 0 in
    let len = length-zeros n in
    let none = value-zeros n in
    let p_pos : 0 < 2 ^ k = one-le-pow k 2 (omega arith) in
    let enough : suc j * 1 ≤ suc j * 2 ^ k = mul-le-mul_left (suc j) p_pos in
    let r =
      mult_loop-Holds k j n zeros x y pos (omega (arith, enough, ex, ey, p_pos)) ey ex len
        (AreWords-zeros n) vx vy (omega (arith, none, place_pos (2 ^ k))) in
    resized len (replaced (omega (arith, none)) r)
