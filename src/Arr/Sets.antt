-- ===== src/Arr/Sets.antt =====
-- The operators on arrays: create, add, sub, intersect, setAdd, setXAdd, index and range.
use dgd.Prelude.Int.{ℤ, is_negative, next, to_ℕ}
use dgd.Prelude.{
  ℕ, zero, suc, ◌+◌, ◌-◌, ◌%◌, Bool, true, false, ◌||◌, List, [], ◌∷◌, ◌++◌, Option, none, some,
  ltb, leb, ◌==◌, if◌then◌else◌, length, take, drop,
}
use dgd.Str.{is_far_below}
use dgd.Arr.{Value, nil, search}

infixl 5 ◌>>=◌
abbrev pub ◌>>=◌ {ℓ κ} : {A : Type ℓ} {B : Type κ} → Option A → (A → Option B) → Option B
none >>= f = none
some a >>= f = f a

-- The variables of src/array.cpp, the global count of destructed objects, and what the functions ask
-- of the other objects: is the value an object, or a light-weight object of one, that was destructed?
pub record World : Type 0 where
  pub max_size : ℕ
  pub atag : ℕ
  pub destr_count : ℕ
  pub is_destructed : Value → Bool

-- An array: its elements, its tag, and the count at which it was last searched for destructed objects
pub record Array : Type 0 where
  pub elts : List Value
  pub tag : ℕ
  pub obj_destr_count : ℕ

-- Array::create, for `size` elements; `elts` are those that the caller puts there. none is the error
-- "Array too large".
unfoldable pub create : World → ℕ → List Value → Option (World × Array)
create w size elts =
    if ltb w.max_size size
    then none
    else some (
      record w { atag = (w.atag + 1) % 4294967296 },
      record { elts = elts; tag = w.atag; obj_destr_count = w.destr_count },
    )

-- `if (DESTRUCTED(v)) assignElt(a, v, &nil);` and the same for light-weight objects
abbrev pub clear_elt : World → Value → Value
clear_elt w v = if w.is_destructed v then nil else v

abbrev pub clear_elts : World → List Value → List Value
clear_elts w [] = []
clear_elts w (v ∷ vs) = clear_elt w v ∷ clear_elts w vs

-- copytmp, whose copy is the elements of the result; the loops of the operators clear destructed
-- objects in the same way.
unfoldable pub copytmp : World → Array → Array
copytmp w a =
    if a.obj_destr_count == w.destr_count
    then a
    else record a { elts = clear_elts w a.elts; obj_destr_count = w.destr_count }

-- The element at an index; behind the last one nothing is read.
abbrev pub elt_at : List Value → ℕ → Value
elt_at [] i = nil
elt_at (v ∷ vs) zero = v
elt_at (v ∷ vs) (suc i) = elt_at vs i

-- `search(v, vs, size, 1, FALSE) >= 0`
unfoldable pub is_found : Value → List Value → Bool
unfolding search
is_found v vs = elim (search v (elt_at vs) (length vs) 1 false) [
  | none ↦ false
  | some o ↦ elim o [ none ↦ false | some k ↦ true ]
]

-- The elements of the first list that are, or are not, found in the second.
unfoldable pub select : Bool → List Value → List Value → List Value
unfolding is_found
select present [] vs = []
select present (v ∷ us) vs =
    let rest = select present us vs in
    if is_found v vs
    then (if present then v ∷ rest else rest)
    else if present
    then rest
    else v ∷ rest

-- Array::add
unfoldable pub add : World → Array → Array → Option (World × Array)
unfolding create
add w a b = create w (length a.elts + length b.elts) (a.elts ++ b.elts)

-- The operators return the variables, the result, and the two arrays as they are left. `qsort` is
-- std::qsort with the function cmp.
module _ (qsort : List Value → List Value) where
  -- Array::sub
  unfoldable pub sub : World → Array → Array → Option (World × Array × Array × Array)
  unfolding create copytmp select
  sub w a b =
      if length b.elts == 0
      then (do (w', c) ← create w (length a.elts) a.elts; some (w', c, a, b))
      else if length a.elts == 0
      then (do (w', c) ← create w 0 []; some (w', c, a, b))
      else (let b' = copytmp w b in
          let a' = copytmp w a in
          do
            (w', c) ← create w (length a.elts) (select false a'.elts (qsort b'.elts))
            some (w', c, a', b'))

  -- Array::intersect
  unfoldable pub intersect : World → Array → Array → Option (World × Array × Array × Array)
  unfolding create copytmp select
  intersect w a b =
      if length a.elts == 0 || length b.elts == 0
      then (do (w', c) ← create w 0 []; some (w', c, a, b))
      else (let b' = copytmp w b in
          let a' = copytmp w a in
          do
            (w', c) ← create w (length a.elts) (select true a'.elts (qsort b'.elts))
            some (w', c, a', b'))

  -- Array::setAdd
  unfoldable pub set_add : World → Array → Array → Option (World × Array × Array × Array)
  unfolding create copytmp select
  set_add w a b =
      if length a.elts == 0
      then (do (w', c) ← create w (length b.elts) b.elts; some (w', c, a, b))
      else if length b.elts == 0
      then (do (w', c) ← create w (length a.elts) a.elts; some (w', c, a, b))
      else (let a' = copytmp w a in
          let b' = copytmp w b in
          let new = select false b'.elts (qsort a'.elts) in
          do
            (w', c) ← create w (length a'.elts + length new) (a'.elts ++ new)
            some (w', c, a', b'))

  -- Array::setXAdd: the elements of the first array that are in both are sorted for the second round.
  unfoldable pub set_x_add : World → Array → Array → Option (World × Array × Array × Array)
  unfolding create copytmp select
  set_x_add w a b =
      if length a.elts == 0
      then (do (w', c) ← create w (length b.elts) b.elts; some (w', c, a, b))
      else if length b.elts == 0
      then (do (w', c) ← create w (length a.elts) a.elts; some (w', c, a, b))
      else (let a' = copytmp w a in
          let b' = copytmp w b in
          let sorted = qsort b'.elts in
          let left = select false a'.elts sorted in
          let both = qsort (select true a'.elts sorted) in
          let right = select false b'.elts both in
          do (w', c) ← create w (length left + length right) (left ++ right); some (w', c, a', b'))

-- Array::index; none is the error "Array index out of range".
unfoldable pub index : Array → ℤ → Option ℕ
index a l = if is_negative l || leb (length a.elts) (to_ℕ l) then none else some (to_ℕ l)

-- The test of Array::checkRange and Array::range
unfoldable pub is_bad_range : Array → ℤ → ℤ → Bool
is_bad_range a l1 l2 =
    is_negative l1
    || ((is_far_below l2 || ltb (next l2) (to_ℕ l1)) || ltb (length a.elts) (next l2))

-- Array::range; none is the error "Invalid array range", or that of create.
unfoldable pub range : World → Array → ℤ → ℤ → Option (World × Array)
unfolding is_bad_range create
range w a l1 l2 =
    let size = next l2 - to_ℕ l1 in
    if is_bad_range a l1 l2 then none else create w size (take size (drop (to_ℕ l1) a.elts))
