-- ===== src/Arr/Match.antt =====
-- What search of src/array.cpp looks for: equal values, and of arrays, mappings and light-weight objects
-- the same.
use Prim.Native.Nat.{Ordering}
use dgd.Prelude.{
  ℕ, ◌≤◌, ◌<◌, ◌≡◌, ◌≢◌, refl, ◌⊎◌, inl, inr, Bool, true, false, not, ◌&&◌, ◌||◌, arith, ◌==◌,
}
use dgd.Arr.{Value, t_lwobject, is_indexed, is_same, cmp_same, cmp}

abbrev pub is_equal : Value → Value → Bool
is_equal v w = elim (cmp v w) [ Ordering.eq ↦ true | _ ↦ false ]

-- What search looks for: an equal value, which for arrays, mappings and light-weight objects is the
-- same.
abbrev pub is_match : Value → Value → Bool
is_match v w = is_equal v w && (not (is_indexed v) || is_same v w)

-- Pointers to the same array, but the values differ in type or tag
abbrev pub clash : Value → Value → Bool
clash v w = is_indexed v && is_indexed w && is_same v w && not (is_equal v w)

-- The `h` values at `a` are sorted as far as `v` can tell, `v` has one of the types, and a pointer to
-- an array tells its type and tag. Several arrays may have the same tag.
pub record IsSorted (v : Value) (a : ℕ → Value) (h : ℕ) : Type 0 where
  pub below : (i j : ℕ) → i ≤ j → j < h → cmp v (a j) ≡ Ordering.gt → cmp v (a i) ≡ Ordering.gt
  pub above : (i j : ℕ) → i ≤ j → j < h → cmp v (a i) ≡ Ordering.lt → cmp v (a j) ≡ Ordering.lt
  pub known : v.type ≤ t_lwobject
  pub pointers : (i : ℕ) → i < h → clash v (a i) ≡ false

pub Ordering-cases : (o : Ordering) → (o ≡ Ordering.lt) ⊎ ((o ≡ Ordering.eq) ⊎ (o ≡ Ordering.gt))
Ordering-cases Ordering.lt = inl refl
Ordering-cases Ordering.eq = inr (inl refl)
Ordering-cases Ordering.gt = inr (inr refl)

-- Equal values have the same type, and equal arrays the same tag.
pub cmp-type : (v w : Value) → cmp v w ≡ Ordering.eq → v.type ≡ w.type
unfolding cmp
cmp-type v w e = ground (arith, e)

pub cmp-tag :
    (v w : Value)
    → is_indexed v ≡ true
    → v.type ≤ t_lwobject
    → cmp v w ≡ Ordering.eq
    → (is_indexed w ≡ true) × ((v.tag == w.tag) ≡ true)
unfolding cmp cmp_same
cmp-tag v w i k e = (ground (arith, i, cmp-type v w e), ground (arith, i, k, e))

pub unequal : (v w : Value) → cmp v w ≢ Ordering.eq → is_match v w ≡ false
unequal v w h = elim (Ordering-cases (cmp v w)) [
  | inl e ↦ rw (is_match, is_equal, e) refl
  | inr (inl e) ↦ absurd (h e)
  | inr (inr e) ↦ rw (is_match, is_equal, e) refl
]

pub agree :
    (x y z d : Bool)
    → x && y && z && not d ≡ false
    → x ≡ true
    → y ≡ true
    → z ≡ true
    → d && (not x || z) ≡ true
agree true true true true h p q r = refl
agree true true true false h p q r = absurd cc
agree true true false d h p q r = absurd cc
agree true false z d h p q r = absurd cc
agree false y z d h p q r = absurd cc
