-- ===== src/Arr.antt =====
-- src/array.cpp: the order of values, the search in sorted arrays, and the operators on arrays.
-- A value is the class Value of src/data.h with the members of its union side by side; an array is
-- what the functions read of one. Reference counts, chunks of memory and the lists of arrays of a
-- dataspace are left out. LPCint has 32 bits and a sign, and is written as its bits.
pub mod Match
pub mod Neighbours
pub mod Search
pub mod Order
pub mod Sets
pub mod Found
pub mod Both
pub mod Laws
mod Tests
use Prim.Native.Nat.{compare, Ordering}
use dgd.Str
use dgd.Prelude.{
  ℕ, zero, suc, ◌+◌, ◌-◌, ◌*◌, ◌/◌, ◌%◌, Bool, true, false, not, ◌&&◌, ◌||◌, List, [], ◌∷◌, ◌++◌,
  Option, none, some, ltb, leb, ◌==◌, if◌then◌else◌, length, take, drop,
}
use dgd.Prelude.Int.{ℤ, pos, negsuc, is_negative, next, to_ℕ}

-- T_NIL to T_LWOBJECT
abbrev pub t_nil : ℕ
t_nil = 0

abbrev pub t_int : ℕ
t_int = 1

abbrev pub t_float : ℕ
t_float = 2

abbrev pub t_string : ℕ
t_string = 3

abbrev pub t_object : ℕ
t_object = 4

abbrev pub t_array : ℕ
t_array = 5

abbrev pub t_lwobject : ℕ
t_lwobject = 7

-- class Value. For the types from T_ARRAY on, `array` stands for the pointer and `tag` for the tag of
-- the array it points to; `high` and `low` are the parts of a float.
pub record Value : Type 0 where
  pub type : ℕ
  pub number : ℕ
  pub high : ℕ
  pub low : ℕ
  pub string : List ℕ
  pub oindex : ℕ
  pub array : ℕ
  pub tag : ℕ

abbrev pub nil : Value
nil = record {
  type = 0;
  number = 0;
  high = 0;
  low = 0;
  string = [];
  oindex = 0;
  array = 0;
  tag = 0;
}

-- T_INDEXED
abbrev pub is_indexed : Value → Bool
is_indexed v = leb t_array v.type

-- The signed order of 32 bits: adding 2^31 turns it into the order of the numbers.
abbrev pub signed : ℕ → ℕ
signed n = (n + 2147483648) % 4294967296

-- `(short) high < 0`
abbrev pub is_minus : ℕ → Bool
is_minus high = leb 32768 high

-- Float::cmp
unfoldable pub float_cmp : Value → Value → Ordering
float_cmp v w =
    if is_minus v.high && not (is_minus w.high) || not (is_minus v.high) && is_minus w.high
    then (if is_minus v.high then Ordering.lt else Ordering.gt)
    else if v.high == w.high && v.low == w.low
    then Ordering.eq
    else if leb v.high w.high && (ltb v.high w.high || ltb v.low w.low)
    then (if is_minus v.high then Ordering.gt else Ordering.lt)
    else if is_minus v.high
    then Ordering.lt
    else Ordering.gt

-- cmp, on values of the same type
unfoldable pub cmp_same : Value → Value → Ordering
unfolding float_cmp
cmp_same v w =
    if v.type == t_nil
    then Ordering.eq
    else if v.type == t_int
    then compare (signed v.number) (signed w.number)
    else if v.type == t_float
    then float_cmp v w
    else if v.type == t_string
    then Str.cmp v.string w.string
    else if v.type == t_object
    then compare v.oindex w.oindex
    else if leb v.type t_lwobject
    then compare v.tag w.tag
    else Ordering.eq

-- cmp
unfoldable pub cmp : Value → Value → Ordering
unfolding cmp_same
cmp v w = elim (compare v.type w.type) [
  | Ordering.lt ↦ Ordering.lt
  | Ordering.eq ↦ cmp_same v w
  | Ordering.gt ↦ Ordering.gt
]

-- `v1->array == v3->array`
abbrev pub is_same : Value → Value → Bool
is_same v w = v.array == w.array

-- `search forward`, from behind `m`; the rounds are at most those up to `h`.
unfoldable pub search_forward : ℕ → (ℕ → Value) → Value → ℕ → ℕ → ℕ → Option ℕ
search_forward zero a v h step m = none
search_forward (suc fuel) a v h step m =
    let k = m + step in
    let next = search_forward fuel a v h step k in
    if k == h || not (is_indexed (a k))
    then none
    else if is_same v (a k)
    then some k
    else if v.tag == (a k).tag
    then next
    else none

-- `search backward`, from before `m`; the rounds are at most those down to `l`.
unfoldable pub search_backward : ℕ → (ℕ → Value) → Value → ℕ → ℕ → ℕ → Option ℕ
search_backward zero a v l step m = none
search_backward (suc fuel) a v l step m =
    let k = m - step in
    let next = search_backward fuel a v l step k in
    if m == l || not (is_indexed (a k))
    then none
    else if is_same v (a k)
    then some k
    else if v.tag == (a k).tag
    then next
    else none

-- The branch of search at a value `a m` that compares as equal; none means that it is not found.
unfoldable pub search_at : (ℕ → Value) → Value → ℕ → ℕ → ℕ → ℕ → Option ℕ
unfolding search_forward search_backward
search_at a v l h step m =
    if is_indexed v && not (is_same v (a m))
    then elim (search_forward (h - m) a v h step m) [
      | some k ↦ some k
      | none ↦ search_backward (m - l + 1) a v l step m
    ]
    else some m

-- The end of search: `return (place) ? l : -1`, where none is -1
abbrev pub not_found : Bool → ℕ → Option ℕ
not_found place l = if place then some l else none

-- The loop of search between `l` and `h`. `step` is a power of 2, so that `& mask` rounds down to a
-- multiple of it. The outer none means that the fuel ran out.
unfoldable pub search_from : ℕ → (ℕ → Value) → Value → ℕ → ℕ → ℕ → Bool → Option (Option ℕ)
unfolding search_at
search_from zero a v l h step place = none
search_from (suc fuel) a v l h step place =
    let m = (l + h) / 2 / step * step in
    let lower = search_from fuel a v l m step place in
    let upper = search_from fuel a v (m + step) h step place in
    if ltb l h
    then elim (cmp v (a m)) [
      | Ordering.lt ↦ lower
      | Ordering.eq ↦ elim (search_at a v l h step m) [
        | some k ↦ some (some k)
        | none ↦ some (not_found place l)
      ]
      | Ordering.gt ↦ upper
    ]
    else some (not_found place l)

-- search, in the `h` values at `a`; the interval shrinks in every round.
unfoldable pub search : Value → (ℕ → Value) → ℕ → ℕ → Bool → Option (Option ℕ)
unfolding search_from
search v a h step place = search_from (h + 1) a v 0 h step place
