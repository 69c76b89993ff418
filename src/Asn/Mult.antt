-- ===== src/Asn/Mult.antt =====
-- Asi::multInner and Asi::sqr: products by Karatsuba's method. The scratch memory `t` is separate lists.
use Prim.Native.Nat.{Ordering}
use dgd.Prelude.{
  ℕ, zero, suc, ◌+◌, ◌*◌, ◌/◌, ◌%◌, Bool, true, false, List, [], ◌∷◌, ◌++◌, ltb, leb, ◌==◌,
  if◌then◌else◌, length, take, drop,
}
use dgd.Asn.{word_mod, bit, add, sub, cmp}
use dgd.Asn.Div.{word_at}

-- Asi::mult1: the low and the high word
abbrev pub mult1 : ℕ → ℕ → List ℕ
mult1 a b = a * b % word_mod ∷ (a * b / word_mod ∷ [])

-- The product where `y` is one word, and `x` one or two
abbrev pub mult_short : List ℕ → ℕ → List ℕ
mult_short [] b = mult1 0 b
mult_short (a ∷ []) b = mult1 a b
mult_short (a ∷ (a' ∷ us)) b =
    let low = a' * b % word_mod in
    let s = (a * b / word_mod + low) % word_mod in
    a * b % word_mod ∷ (s ∷ ((a' * b / word_mod + bit (ltb s low)) % word_mod ∷ []))

-- `z0 = x0 - x1`: how far they are apart, and if it is negative
unfoldable pub apart_x : List ℕ → List ℕ → List ℕ × Bool
apart_x x0 x1 = elim (cmp x1 x0) [
  | Ordering.gt ↦ ((sub x1 x0).0, true)
  | _ ↦ ((sub x0 x1).0, false)
]

-- `z1 = y1 - y0`
unfoldable pub apart_y : List ℕ → List ℕ → List ℕ × Bool
apart_y y0 y1 =
    if leb (length y0) (length y1)
    then elim (cmp y1 y0) [ Ordering.lt ↦ ((sub y0 y1).0, true) | _ ↦ ((sub y1 y0).0, false) ]
    else elim (cmp y0 y1) [ Ordering.gt ↦ ((sub y0 y1).0, true) | _ ↦ ((sub y1 y0).0, false) ]

-- `minus` after `minus ^= TRUE` where the second difference is negative, too
abbrev pub differ : Bool → Bool → Bool
differ true true = false
differ true false = true
differ false b = b

-- `t1:t0 = z3:z2 + z1:z0 + t3:t2`, or less `t3:t2`
unfoldable pub middle : Bool → List ℕ → List ℕ → List ℕ → List ℕ
middle minus z z23 t23 =
    let t = (add (z23 ++ (0 ∷ [])) z).0 in if minus then (sub t t23).0 else (add t t23).0

-- `z3:z2:z1 += t1:t0`, for `h` words in z0
unfoldable pub join : ℕ → List ℕ → List ℕ → List ℕ → List ℕ
join h z z23 t = take h z ++ (add (drop h z ++ z23) t).0

-- Asi::multInner
unfoldable pub mult_from : ℕ → List ℕ → List ℕ → List ℕ
mult_from zero x y = []
mult_from (suc fuel) x y =
    let h = length x / 2 in
    let x0 = take h x in
    let x1 = drop h x in
    let y0 = take h y in
    let y1 = drop h y in
    let (d, minus_d) = apart_x x0 x1 in
    let (e, minus_e) = apart_y y0 y1 in
    let longer = if leb (length e) (length d) then d else e in
    let shorter = if leb (length e) (length d) then e else d in
    let t23 = mult_from fuel longer shorter in
    let z = mult_from fuel x0 y0 in
    let z23 = mult_from fuel x1 y1 in
    if length y == 1
    then mult_short x (word_at y 0)
    else join h z z23 (middle (differ minus_d minus_e) z z23 t23)

unfoldable pub mult_inner : List ℕ → List ℕ → List ℕ
mult_inner x y = mult_from (length x) x y

-- Asi::sqr
unfoldable pub sqr_from : ℕ → List ℕ → List ℕ
sqr_from zero x = []
sqr_from (suc fuel) x =
    let h = length x / 2 in
    let x0 = take h x in
    let x1 = drop h x in
    let t23 = sqr_from fuel (apart_x x0 x1).0 in
    let y = sqr_from fuel x0 in
    let y23 = sqr_from fuel x1 in
    if length x == 1
    then mult1 (word_at x 0) (word_at x 0)
    else join h y y23 (middle true y y23 t23)

unfoldable pub sqr : List ℕ → List ℕ
sqr x = sqr_from (length x) x
