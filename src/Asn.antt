-- ===== src/Asn.antt =====
-- src/host/asn.cpp, class Asi: natural numbers of any size, as arrays of 32-bit words.
-- The words at `num` are a list, the lowest first; its length is `size`. The functions change the
-- number that they are called for; here they return its words, and the carry where the source does.
pub mod Value
pub mod Sums
pub mod Rows
pub mod Shift
pub mod Shifted
pub mod Guess
pub mod Div
pub mod Places
pub mod Digit
pub mod DivStep
pub mod Round
pub mod Quotient
pub mod Scaled
pub mod Operands
pub mod Whole
pub mod Text
pub mod Bytes
pub mod Read
pub mod Write
pub mod Signed
pub mod Minus
pub mod Wordinv
pub mod Mult
pub mod Joined
pub mod Apart
pub mod Product
pub mod Square
pub mod Long
pub mod LongProduct
mod Tests
use Prim.Native.Nat.{compare, Ordering}
use dgd.Prelude.{
  ℕ, zero, suc, ◌+◌, ◌-◌, ◌*◌, ◌/◌, ◌%◌, ◌^◌, Bool, true, false, List, [], ◌∷◌, ◌++◌, ltb, leb,
  ◌==◌, if◌then◌else◌, length, take, drop, replicate,
}

-- The number of values of a Uint
abbrev pub word_mod : ℕ
word_mod = 4294967296

-- The int that a comparison yields
abbrev pub bit : Bool → ℕ
bit b = if b then 1 else 0

-- The second loop of Asi::add
unfoldable pub add_carry : List ℕ → ℕ → List ℕ × ℕ
add_carry [] carry = ([], carry)
add_carry (a ∷ us) carry =
    let s = (a + 1) % word_mod in
    let (rest, out) = add_carry us (bit (s == 0)) in
    if carry == 0 then (a ∷ us, 0) else (s ∷ rest, out)

-- Asi::add from a word on, with the carry into it; the number has at least as many words as `x`.
unfoldable pub add_from : List ℕ → List ℕ → ℕ → List ℕ × ℕ
unfolding add_carry
add_from us [] carry = add_carry us carry
add_from [] (b ∷ vs) carry = ([], carry)
add_from (a ∷ us) (b ∷ vs) carry =
    let tmp = (a + carry) % word_mod in
    let s = (tmp + b) % word_mod in
    let (rest, out) = add_from us vs (bit (ltb tmp carry) + bit (ltb s tmp)) in (s ∷ rest, out)

-- Asi::add
unfoldable pub add : List ℕ → List ℕ → List ℕ × ℕ
unfolding add_from
add num x = add_from num x 0

-- The second loop of Asi::sub
unfoldable pub sub_borrow : List ℕ → ℕ → List ℕ × ℕ
sub_borrow [] borrow = ([], borrow)
sub_borrow (a ∷ us) borrow =
    let (rest, out) = sub_borrow us (bit (a == 0)) in
    if borrow == 0 then (a ∷ us, 0) else ((a + word_mod - 1) % word_mod ∷ rest, out)

-- Asi::sub from a word on, with the borrow from it
unfoldable pub sub_from : List ℕ → List ℕ → ℕ → List ℕ × ℕ
unfolding sub_borrow
sub_from us [] borrow = sub_borrow us borrow
sub_from [] (b ∷ vs) borrow = ([], borrow)
sub_from (a ∷ us) (b ∷ vs) borrow =
    let tmp = (a + word_mod - borrow) % word_mod in
    let d = (tmp + word_mod - b) % word_mod in
    let (rest, out) = sub_from us vs (bit (ltb a tmp) + bit (ltb tmp d)) in (d ∷ rest, out)

-- Asi::sub
unfoldable pub sub : List ℕ → List ℕ → List ℕ × ℕ
unfolding sub_from
sub num x = sub_from num x 0

-- Asi::cmp, whose loops go from the highest word down: a lower word decides if the higher ones are
-- equal.
unfoldable pub cmp : List ℕ → List ℕ → Ordering
cmp [] vs = Ordering.eq
cmp (a ∷ us) [] = elim (cmp us []) [
  | Ordering.eq ↦ (if a == 0 then Ordering.eq else Ordering.gt)
  | o ↦ o
]
cmp (a ∷ us) (b ∷ vs) = elim (cmp us vs) [ Ordering.eq ↦ compare a b | o ↦ o ]

-- The carries of a round of Asi::multRow: the word `a` of the number, the product's two halves, `s`
-- and the carry from the round before.
abbrev pub row_step : ℕ → ℕ → ℕ → ℕ → ℕ → ℕ × ℕ × ℕ
row_step a low high s carry =
    let s1 = (s + low) % word_mod in
    let high1 = if ltb s1 low then (high + 1) % word_mod else high in
    let s2 = (s1 + carry) % word_mod in
    let a1 = (a + s2) % word_mod in (a1, high1, bit (ltb s2 carry) + bit (ltb a1 s2))

-- Asi::multRow from a word on; the number has more words than `x`, and only one of them is read
-- behind those of `x`. `low` and `high` are what Asi::mult1 makes of the product.
unfoldable pub mult_row_from : List ℕ → List ℕ → ℕ → ℕ → ℕ → List ℕ × ℕ
mult_row_from [] xs y s carry = ([], 0)
mult_row_from (a ∷ us) [] y s carry =
    let s1 = (s + carry) % word_mod in
    let a1 = (a + s1) % word_mod in (a1 ∷ us, bit (ltb s1 carry) + bit (ltb a1 s1))
mult_row_from (a ∷ us) (b ∷ vs) y s carry =
    let (a1, s1, carry1) = row_step a (b * y % word_mod) (b * y / word_mod) s carry in
    let (rest, out) = mult_row_from us vs y s1 carry1 in (a1 ∷ rest, out)

-- Asi::multRow: a row of the product `x` * `y` is added.
unfoldable pub mult_row : List ℕ → List ℕ → ℕ → List ℕ × ℕ
unfolding mult_row_from
mult_row num x y = mult_row_from num x y 0 0
