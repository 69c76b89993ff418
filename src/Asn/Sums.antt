-- ===== src/Asn/Sums.antt =====
-- Addition, subtraction, comparison and the rows of a product.
use Prim.Native.Nat.{compare, Ordering}
use dgd.Prelude.{
  ℕ, ◌+◌, ◌-◌, ◌*◌, ◌%◌, ◌≤◌, ◌<◌, ◌≡◌, refl, List, [], ◌∷◌, arith, length, ltb, ◌==◌, Bool-cases,
  inl, inr,
}
use dgd.Asn.{word_mod, bit, add_carry, add_from, add, sub_borrow, sub_from, sub, cmp}
use dgd.Asn.Value.{value, AreWords, above-zero, IsSum, IsDifference}

add_carry-IsSum :
    (us : List ℕ) (carry : ℕ)
    → AreWords us
    → carry ≤ 1
    → IsSum us (value us + carry) (add_carry us carry).0 (add_carry us carry).1
unfolding add_carry
add_carry-IsSum [] carry v h = omega arith
add_carry-IsSum (a ∷ us) carry v h = elim (Bool-cases (carry == 0)) [
  | inl e ↦ rw e (record {
    exact = ground (arith, e, above-zero us);
    carry_bit = omega arith;
    words = v;
    same_length = refl;
  })
  | inr e ↦
      let s = add_carry-IsSum us (bit ((a + 1) % word_mod == 0)) v.1 (ground arith) in
      rw e (record {
        exact = ground (arith, e, s.exact);
        carry_bit = s.carry_bit;
        words = (omega arith, s.words);
        same_length = omega (arith, s.same_length);
      })
]

add_from-IsSum :
    (us vs : List ℕ) (carry : ℕ)
    → AreWords us
    → AreWords vs
    → length vs ≤ length us
    → carry ≤ 1
    → IsSum us (value us + value vs + carry) (add_from us vs carry).0 (add_from us vs carry).1
unfolding add_from
add_from-IsSum us [] carry v w k h =
    let s = add_carry-IsSum us carry v h in
    record {
      exact = omega (arith, s.exact);
      carry_bit = s.carry_bit;
      words = s.words;
      same_length = s.same_length;
    }
add_from-IsSum [] (b ∷ vs) carry v w k h = absurd (omega arith)
add_from-IsSum (a ∷ us) (b ∷ vs) carry v w k h =
    let tmp = (a + carry) % word_mod in
    let c = bit (ltb tmp carry) + bit (ltb ((tmp + b) % word_mod) tmp) in
    let one : c ≤ 1 = ground (arith, v.0, w.0, h) in
    let step : (tmp + b) % word_mod + word_mod * c ≡ a + b + carry = ground (arith, v.0, w.0, h) in
    let s = add_from-IsSum us vs c v.1 w.1 (omega arith) one in
    record {
      exact = omega (arith, s.exact, step);
      carry_bit = s.carry_bit;
      words = (omega arith, s.words);
      same_length = omega (arith, s.same_length);
    }

-- Asi::add: the sum of two numbers of 32-bit words, the second of no more words than the first,
-- in as many words as the first, and the carry out of them.
pub add-IsSum :
    (num x : List ℕ)
    → AreWords num
    → AreWords x
    → length x ≤ length num
    → IsSum num (value num + value x) (add num x).0 (add num x).1
unfolding add
add-IsSum num x v w k =
    let s = add_from-IsSum num x 0 v w k (omega arith) in
    record {
      exact = omega (arith, s.exact);
      carry_bit = s.carry_bit;
      words = s.words;
      same_length = s.same_length;
    }

sub_borrow-IsDifference :
    (us : List ℕ) (borrow : ℕ)
    → AreWords us
    → borrow ≤ 1
    → IsDifference us borrow (sub_borrow us borrow).0 (sub_borrow us borrow).1
unfolding sub_borrow
sub_borrow-IsDifference [] borrow v h = omega arith
sub_borrow-IsDifference (a ∷ us) borrow v h = elim (Bool-cases (borrow == 0)) [
  | inl e ↦ rw e (record {
    exact = ground (arith, e, above-zero us);
    borrow_bit = omega arith;
    words = v;
    same_length = refl;
  })
  | inr e ↦
      let s = sub_borrow-IsDifference us (bit (a == 0)) v.1 (ground arith) in
      rw e (record {
        exact = ground (arith, e, s.exact, v.0);
        borrow_bit = s.borrow_bit;
        words = (omega arith, s.words);
        same_length = omega (arith, s.same_length);
      })
]

sub_from-IsDifference :
    (us vs : List ℕ) (borrow : ℕ)
    → AreWords us
    → AreWords vs
    → length vs ≤ length us
    → borrow ≤ 1
    → IsDifference us (value vs + borrow) (sub_from us vs borrow).0 (sub_from us vs borrow).1
unfolding sub_from
sub_from-IsDifference us [] borrow v w k h =
    let s = sub_borrow-IsDifference us borrow v h in
    record {
      exact = omega (arith, s.exact);
      borrow_bit = s.borrow_bit;
      words = s.words;
      same_length = s.same_length;
    }
sub_from-IsDifference [] (b ∷ vs) borrow v w k h = absurd (omega arith)
sub_from-IsDifference (a ∷ us) (b ∷ vs) borrow v w k h =
    let tmp = (a + word_mod - borrow) % word_mod in
    let d = (tmp + word_mod - b) % word_mod in
    let c = bit (ltb a tmp) + bit (ltb tmp d) in
    let one : c ≤ 1 = ground (arith, v.0, w.0, h) in
    let step : d + b + borrow ≡ a + word_mod * c = ground (arith, v.0, w.0, h) in
    let s = sub_from-IsDifference us vs c v.1 w.1 (omega arith) one in
    record {
      exact = omega (arith, s.exact, step);
      borrow_bit = s.borrow_bit;
      words = (omega arith, s.words);
      same_length = omega (arith, s.same_length);
    }

-- Asi::sub: what is left of the first number when the second, of no more 32-bit words, is taken
-- from it, in as many words as the first, and the borrow from above them.
pub sub-IsDifference :
    (num x : List ℕ)
    → AreWords num
    → AreWords x
    → length x ≤ length num
    → IsDifference num (value x) (sub num x).0 (sub num x).1
unfolding sub
sub-IsDifference num x v w k =
    let s = sub_from-IsDifference num x 0 v w k (omega arith) in
    record {
      exact = omega (arith, s.exact);
      borrow_bit = s.borrow_bit;
      words = s.words;
      same_length = s.same_length;
    }

compare-word :
    (a b m n : ℕ)
    → a < word_mod
    → b < word_mod
    → compare (a + word_mod * m) (b + word_mod * n)
      ≡ (elim (compare m n) [ Ordering.eq ↦ compare a b | o ↦ o ])
compare-word a b m n h k = ground arith

-- Asi::cmp is the order of the numbers, for numbers of 32-bit words, the second of no more
-- words.
pub cmp-value :
    (num x : List ℕ)
    → AreWords num
    → AreWords x
    → length x ≤ length num
    → cmp num x ≡ compare (value num) (value x)
unfolding cmp
cmp-value [] [] v w k = refl
cmp-value [] (b ∷ vs) v w k = absurd (omega arith)
cmp-value (a ∷ us) [] v w k = ground (arith, v.0, cmp-value us [] v.1 tt (omega arith))
cmp-value (a ∷ us) (b ∷ vs) v w k =
    rw (cmp-value us vs v.1 w.1 (omega arith), compare-word a b (value us) (value vs) v.0 w.0) refl
