-- ===== src/Asn/Div.antt =====
-- Asi::div, on the numbers `x` and `y`: what is left is a remainder and a quotient. Here the array at
-- `num` is two lists, the remainder at its low end and the quotient's words behind it.
use Prim.Native.Nat.{Ordering}
use dgd.Prelude.{
  ℕ, zero, suc, ◌+◌, ◌-◌, ◌*◌, ◌/◌, ◌%◌, List, [], ◌∷◌, ◌++◌, leb, ◌==◌, if◌then◌else◌, length,
  take, replicate,
}
use dgd.Asn.{word_mod, sub, cmp, mult_row}
use dgd.Asn.Shift.{lshift, rshift}

-- `num[i]`
abbrev pub word_at : List ℕ → ℕ → ℕ
word_at [] i = 0
word_at (a ∷ us) zero = a
word_at (a ∷ us) (suc i) = word_at us i

-- `for (shift = 0, d = ...; !(d & 0x80000000L); shift++, d <<= 1) ;`: the shift that is left to make
unfoldable pub shift_from : ℕ → ℕ → ℕ
shift_from zero d = 0
shift_from (suc fuel) d =
    let more = suc (shift_from fuel (d * 2 % word_mod)) in if leb 2147483648 d then 0 else more

-- Asi::div1, on the words `low` and `high`
abbrev pub div1 : ℕ → ℕ → ℕ → ℕ
div1 low high a = (high * word_mod + low) / a % word_mod

-- The first guess of a word of the quotient; `w` has one word more than the divisor `b`.
unfoldable pub guess : List ℕ → List ℕ → ℕ
guess b w =
    let n = length b in
    let d = word_at b (n - 1) in
    if word_at w n == d then word_mod - 1 else div1 (word_at w (n - 1)) (word_at w n) d

-- `if (t2.cmp(a) > 0) { t2.sub(b); --q; ... }`, once
unfoldable pub correct : List ℕ → List ℕ → List ℕ × ℕ → List ℕ × ℕ
correct b w (t, q) = elim (cmp t w) [ Ordering.gt ↦ ((sub t b).0, q - 1) | _ ↦ (t, q) ]

-- A round of the division: a word of the quotient, and what is left of the words `w`. The second
-- correction is only tried after the first was made, and changes nothing otherwise.
unfoldable pub div_step : List ℕ → List ℕ → ℕ × List ℕ
unfolding guess correct
div_step b w =
    let q = guess b w in
    let (t, q') = correct b w (correct b w ((mult_row (replicate (length w) 0) b q).0, q)) in
    (q', take (length b) (sub w t).0)

-- The highest word of the quotient, for as many words as the divisor has
unfoldable pub div_top : List ℕ → List ℕ → List ℕ × List ℕ
div_top b us = elim (cmp us b) [ Ordering.lt ↦ (0 ∷ [], us) | _ ↦ (1 ∷ [], (sub us b).0) ]

-- The division by `b`, from the highest words down: the quotient's words and the remainder.
unfoldable pub div_words : List ℕ → List ℕ → List ℕ × List ℕ
unfolding div_step div_top
div_words b [] = ([], [])
div_words b (a ∷ us) =
    let (q, r) = div_words b us in
    let (digit, r') = div_step b (a ∷ r) in
    if leb (length (a ∷ us)) (length b) then div_top b (a ∷ us) else (digit ∷ q, r')

-- The dividend, shifted, without the word that was added if that is 0
unfoldable pub scaled : ℕ → List ℕ → List ℕ
unfolding lshift
scaled shift x =
    let a = lshift shift (x ++ (0 ∷ [])) in
    if shift == 0 then x else if word_at a (length x) == 0 then take (length x) a else a

-- The division of the operands, shifted: the remainder and the quotient
unfoldable pub div_by : ℕ → List ℕ → List ℕ → List ℕ × List ℕ
unfolding scaled lshift rshift div_words
div_by shift x y =
    let b = if shift == 0 then y else lshift shift y in
    let a = scaled shift x in
    let (q, r) = if length a == length b then (1 ∷ [], (sub a b).0) else div_words b a in
    (if shift == 0 then r else rshift shift r, q)

-- Asi::div
unfoldable pub div : List ℕ → List ℕ → List ℕ × List ℕ
div x y = div_by (shift_from 31 (word_at y (length y - 1))) x y
