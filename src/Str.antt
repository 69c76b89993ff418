-- ===== src/Str.antt =====
-- src/str.cpp: the strings of LPC. A string is the list of its bytes, without the '\0' that the
-- source keeps behind them; reference counts and chunks of memory are left out.
-- ssizet has 16 bits, as src/config.h defines it; LPCint is read as an integer.
pub mod Order
pub mod Range
mod Tests
use Prim.Native.Nat.{compare, Ordering}
use dgd.Prelude.Int.{ℤ, pos, negsuc, is_negative, next, to_ℕ}
use dgd.Prelude.{
  ℕ, zero, suc, ◌+◌, ◌-◌, Bool, false, ◌||◌, List, [], ◌∷◌, ◌++◌, Option, none, some, ltb, leb,
  ◌==◌, if◌then◌else◌, length, take, drop,
}

-- SSIZET_MAX
abbrev pub max_strlen : ℕ
max_strlen = 65535

-- String::create; none is the error "String too long".
unfoldable pub create : List ℕ → Option (List ℕ)
create text = if ltb max_strlen (length text) then none else some text

-- `*p`, which is the final '\0' at the end of the text
abbrev pub byte : List ℕ → ℕ
byte [] = 0
byte (c ∷ p) = c

-- `for (; length > 0 && *p == *q; p++, q++, --length) ;`: what p and q point at behind the loop
unfoldable pub skip_equal : ℕ → List ℕ → List ℕ → List ℕ × List ℕ
skip_equal zero p q = (p, q)
skip_equal (suc n) [] q = ([], q)
skip_equal (suc n) (a ∷ p) [] = (a ∷ p, [])
skip_equal (suc n) (a ∷ p) (b ∷ q) = if a == b then skip_equal n p q else (a ∷ p, b ∷ q)

-- String::cmp: the sign of its result. That of a byte's difference comes first, then that of the
-- difference in length.
unfoldable pub cmp : List ℕ → List ℕ → Ordering
unfolding skip_equal
cmp s t =
    let length' = if ltb (length t) (length s) then length t else length s in
    let (p, q) = skip_equal length' s t in
    elim (compare (byte p) (byte q)) [
      | Ordering.lt ↦ Ordering.lt
      | Ordering.eq ↦ compare (length s) (length t)
      | Ordering.gt ↦ Ordering.gt
    ]

-- String::add
unfoldable pub add : List ℕ → List ℕ → Option (List ℕ)
unfolding create
add s t = create (s ++ t)

-- String::index; none is the error "String index out of range".
unfoldable pub index : List ℕ → ℤ → Option ℕ
index s l = if is_negative l || leb (length s) (to_ℕ l) then none else some (to_ℕ l)

-- `l2 + 1 < 0`, where any `l1` that is not negative is greater
abbrev pub is_far_below : ℤ → Bool
is_far_below (pos n) = false
is_far_below (negsuc n) = ltb 0 n

-- The test of String::checkRange and String::range: `l1 < 0 || l1 > l2 + 1 || l2 >= len`
unfoldable pub is_bad_range : List ℕ → ℤ → ℤ → Bool
is_bad_range s l1 l2 =
    is_negative l1 || ((is_far_below l2 || ltb (next l2) (to_ℕ l1)) || ltb (length s) (next l2))

-- String::range; none is the error "Invalid string range".
unfoldable pub range : List ℕ → ℤ → ℤ → Option (List ℕ)
unfolding is_bad_range create
range s l1 l2 =
    if is_bad_range s l1 l2 then none else create (take (next l2 - to_ℕ l1) (drop (to_ℕ l1) s))
