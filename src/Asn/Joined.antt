-- ===== src/Asn/Joined.antt =====
-- The parts of a product, put together.
use native.Mathlib.Nat.{mul_assoc, lt_of_mul-lt-mul_left}
use dgd.Prelude.{
  ℕ, zero, suc, ◌+◌, ◌-◌, ◌*◌, ◌≤◌, ◌<◌, ◌≡◌, refl, ap, sym, ◌∙◌, Bool, true, false, List, [], ◌∷◌,
  ◌++◌, arith, length, length-append, length-take, All-append, take, drop, if◌then◌else◌,
}
use dgd.Asn.{word_mod, add}
use dgd.Asn.DivStep.{Holds, no_carry, sub-Holds}
use dgd.Asn.Mult.{middle, join}
use dgd.Asn.Places.{place, place_pos, AreWords-take}
use dgd.Asn.Sums.{add-IsSum}
use dgd.Asn.Value.{value, above, above-zero, AreWords}

pub add-Holds :
    (num x : List ℕ)
    → AreWords num
    → AreWords x
    → length x ≤ length num
    → value num + value x < place (length num)
    → Holds (value num + value x) (length num) (add num x).0
add-Holds num x v w k h =
    let s = add-IsSum num x v w k in
    let r = add num x in
    let none = no_carry num r.0 r.1 s.carry_bit (omega (arith, s.exact, h)) in
    record {
      exact = omega (arith, s.exact, above-zero num, ap (λ c. above num c) none);
      words = s.words;
      size = s.same_length;
    }

pub place-add : (m n : ℕ) → place (m + n) ≡ place m * place n
place-add zero n = let none : 0 + n ≡ n = omega arith in omega (arith, ap place none)
place-add (suc m) n =
    let shift : suc m + n ≡ suc (m + n) = omega arith in
    ap place shift
    ∙ ap (λ (t : ℕ). word_mod * t) (place-add m n)
    ∙ sym (mul_assoc word_mod (place m) (place n))

pub place_mono : (m n : ℕ) → m ≤ n → place m ≤ place n
place_mono zero n h = place_pos n
place_mono (suc m) zero h = absurd (omega arith)
place_mono (suc m) (suc n) h = omega (arith, place_mono m n (omega (arith, h)))

pub value-append : (us vs : List ℕ) → value (us ++ vs) ≡ value us + place (length us) * value vs
value-append [] vs = omega arith
value-append (a ∷ us) vs =
    omega (arith, value-append us vs, mul_assoc word_mod (place (length us)) (value vs))

pub value-parts :
    (h : ℕ) (us : List ℕ)
    → h ≤ length us
    → value us ≡ value (take h us) + place h * value (drop h us)
value-parts zero us k = omega arith
value-parts (suc h) [] k = absurd (omega arith)
value-parts (suc h) (a ∷ us) k =
    omega (arith, value-parts h us (omega arith), mul_assoc word_mod (place h) (value (drop h us)))

pub AreWords-drop : (n : ℕ) (us : List ℕ) → AreWords us → AreWords (drop n us)
AreWords-drop zero us v = v
AreWords-drop (suc n) [] v = tt
AreWords-drop (suc n) (a ∷ us) v = AreWords-drop n us v.1

pub length-drop : (n : ℕ) (us : List ℕ) → n ≤ length us → length (drop n us) + n ≡ length us
length-drop zero us k = omega arith
length-drop (suc n) [] k = absurd (omega arith)
length-drop (suc n) (a ∷ us) k = omega (arith, length-drop n us (omega arith))

-- The sum of the outer products, where it fits in one word more than the higher one
outer-Holds :
    (a c k m : ℕ) (z z23 : List ℕ)
    → Holds a k z
    → Holds c m z23
    → k ≤ suc m
    → a + c < place (suc m)
    → Holds (a + c) (suc m) (add (z23 ++ (0 ∷ [])) z).0
outer-Holds a c k m z z23 hz hc kz room =
    let t = z23 ++ (0 ∷ []) in
    let len : length t ≡ suc m = omega (arith, length-append z23 (0 ∷ []), hc.size) in
    let same = value-append z23 (0 ∷ []) in
    let s =
      add-Holds t z (All-append (λ a. a < word_mod) z23 (0 ∷ []) hc.words (omega arith, tt))
        hz.words (omega (arith, len, hz.size))
        (omega (arith, same, hz.exact, hc.exact, room, ap place len)) in
    record {
      exact = omega (arith, s.exact, same, hz.exact, hc.exact);
      words = s.words;
      size = omega (arith, s.size, len);
    }

-- The sum in the middle, where it fits in one word more than the higher product
pub middle-Holds :
    (minus : Bool) (a c f k m j : ℕ) (z z23 t23 : List ℕ)
    → Holds a k z
    → Holds c m z23
    → Holds f j t23
    → k ≤ suc m
    → j ≤ suc m
    → a + c + f < place (suc m)
    → (minus ≡ true → f ≤ a + c)
    → Holds (if minus then a + c - f else a + c + f) (suc m) (middle minus z z23 t23)
unfolding middle
middle-Holds true a c f k m j z z23 t23 hz hc hf kz kf room bound =
    let t = (add (z23 ++ (0 ∷ [])) z).0 in
    let o = outer-Holds a c k m z z23 hz hc kz (omega (arith, room)) in
    let s =
      sub-Holds t t23 o.words hf.words (omega (arith, o.size, hf.size))
        (omega (arith, o.exact, hf.exact, bound refl)) in
    record {
      exact = omega (arith, s.exact, o.exact, hf.exact);
      words = s.words;
      size = s.size ∙ o.size;
    }
middle-Holds false a c f k m j z z23 t23 hz hc hf kz kf room bound =
    let t = (add (z23 ++ (0 ∷ [])) z).0 in
    let o = outer-Holds a c k m z z23 hz hc kz (omega (arith, room)) in
    let s =
      add-Holds t t23 o.words hf.words (omega (arith, o.size, hf.size))
        (omega (arith, o.exact, hf.exact, room, ap place o.size)) in
    record {
      exact = omega (arith, s.exact, o.exact, hf.exact);
      words = s.words;
      size = s.size ∙ o.size;
    }

spread : (p lo d c b : ℕ) → lo + p * (d + p * c + b) ≡ lo + p * d + p * b + p * p * c
spread p lo d c b = grind arith

pub join-Holds :
    (h m a b c k : ℕ) (z z23 t : List ℕ)
    → Holds a (h + h) z
    → Holds c m z23
    → Holds b k t
    → k ≤ h + m
    → a + place h * b + place (h + h) * c < place (h + h + m)
    → Holds (a + place h * b + place (h + h) * c) (h + h + m) (join h z z23 t)
unfolding join
join-Holds h m a b c k z z23 t hz hc ht kt room =
    let p = place h in
    let hi = drop h z ++ z23 in
    let parts = value-parts h z (omega (arith, hz.size)) in
    let drops = length-drop h z (omega (arith, hz.size)) in
    let len : length hi ≡ h + m =
      omega (arith, length-append (drop h z) z23, drops, hz.size, hc.size) in
    let drop_len : length (drop h z) ≡ h = omega (arith, drops, hz.size) in
    let high : value hi ≡ value (drop h z) + p * c =
      value-append (drop h z) z23
      ∙ ap (λ v. value (drop h z) + v)
          (ap (λ l. place l * value z23) drop_len ∙ ap (λ v. p * v) hc.exact) in
    let both : value hi + value t ≡ value (drop h z) + p * c + b = omega (arith, high, ht.exact) in
    let whole : value (take h z) + p * (value hi + value t) ≡ a + p * b + place (h + h) * c =
      ap (λ v. value (take h z) + p * v) both
      ∙ spread p (value (take h z)) (value (drop h z)) c b
      ∙ omega (arith, parts, hz.exact, ap (λ v. v * c) (place-add h h)) in
    let assoc : place (h + h + m) ≡ place (h + (h + m)) = ap place (omega arith) in
    let fits : value hi + value t < place (h + m) =
      lt_of_mul-lt-mul_left p (omega (arith, whole, room, place-add h (h + m), assoc)) in
    let s =
      add-Holds hi t
        (All-append (λ a. a < word_mod) (drop h z) z23 (AreWords-drop h z hz.words) hc.words)
        ht.words (omega (arith, len, ht.size)) (omega (arith, fits, ap place len)) in
    let low : length (take h z) ≡ h = omega (arith, length-take h z, hz.size) in
    let out = (add hi t).0 in
    record {
      exact = omega (
        arith,
        value-append (take h z) out,
        ap (λ l. place l * value out) low,
        ap (λ v. p * v) s.exact,
        whole,
      );
      words = All-append (λ a. a < word_mod) (take h z) out (AreWords-take h z hz.words) s.words;
      size = omega (arith, length-append (take h z) out, low, s.size, len);
    }
