-- ===== src/Arr/Laws.antt =====
-- What the operators on arrays compute (src/array.cpp), by the elements of the arrays alone. The
-- elements of the result are those that match, or do not match, values of the other array: equal
-- values, and of arrays, mappings and light-weight objects the same, although others may have its tag.
-- Pointers are taken to tell the type and the tag of what they point to.
use dgd.Prelude.{
  ℕ, ◌+◌, ◌<◌, ◌≡◌, refl, ◌∙◌, true, false, List, ◌++◌, Option, some, arith, ◌==◌, length,
}
use dgd.Arr.{Value}
use dgd.Arr.Sets.{World, Array, create, copytmp, sub, intersect, set_add, set_x_add, ◌>>=◌}
use dgd.Arr.Both.{PointersTell-pick, pick-pick}
use dgd.Arr.Found.{IsSortOf, PointersTell, pick, select-pick}

-- The elements, with nil for destructed objects.
abbrev pub live : World → Array → List Value
live w a = (copytmp w a).elts

-- The result of an operator: an array of the given elements, or the error of create, for `size`
-- elements; destructed objects have been cleared from both arrays.
abbrev pub outcome : World → Array → Array → ℕ → List Value → Option (World × Array × Array × Array)
outcome w a b size elts = do (w', c) ← create w size elts; some (w', c, copytmp w a, copytmp w b)

positive : (n : ℕ) → 0 < n → (n == 0) ≡ false
positive n h = ground arith

module _ (qsort : List Value → List Value) (w : World) (a b : Array) where
  -- array - array, for arrays that are not empty, has the elements of the first that the second does
  -- not contain, in their order.
  pub sub-pick :
      IsSortOf (live w b) (qsort (live w b))
      → PointersTell (live w a) (live w b)
      → 0 < length a.elts
      → 0 < length b.elts
      → sub qsort w a b ≡ outcome w a b (length a.elts) (pick false (live w a) (live w b))
  unfolding sub
  sub-pick s t p q =
      rw
        (
          positive (length a.elts) p,
          positive (length b.elts) q,
          select-pick false (live w a) (live w b) (qsort (live w b)) s t,
        )
        refl

  -- array & array, for arrays that are not empty, has the elements of the first that the second
  -- contains, in their order.
  intersect-pick :
      IsSortOf (live w b) (qsort (live w b))
      → PointersTell (live w a) (live w b)
      → 0 < length a.elts
      → 0 < length b.elts
      → intersect qsort w a b ≡ outcome w a b (length a.elts) (pick true (live w a) (live w b))
  unfolding intersect
  intersect-pick s t p q =
      rw
        (
          positive (length a.elts) p,
          positive (length b.elts) q,
          select-pick true (live w a) (live w b) (qsort (live w b)) s t,
        )
        refl

  -- array | array, for arrays that are not empty, has the elements of the first, and then those of
  -- the second that the first does not contain, in their order.
  set_add-pick :
      IsSortOf (live w a) (qsort (live w a))
      → PointersTell (live w b) (live w a)
      → 0 < length a.elts
      → 0 < length b.elts
      → let new = pick false (live w b) (live w a) in
        set_add qsort w a b ≡ outcome w a b (length (live w a) + length new) (live w a ++ new)
  unfolding set_add
  set_add-pick s t p q =
      rw
        (
          positive (length a.elts) p,
          positive (length b.elts) q,
          select-pick false (live w b) (live w a) (qsort (live w a)) s t,
        )
        refl

  -- array ^ array, for arrays that are not empty, has the elements of the first that the second does
  -- not contain, and then those of the second that the first does not contain.
  pub set_x_add-pick :
      let both = pick true (live w a) (live w b) in
      IsSortOf (live w b) (qsort (live w b))
      → IsSortOf both (qsort both)
      → PointersTell (live w a) (live w b)
      → PointersTell (live w b) (live w a)
      → 0 < length a.elts
      → 0 < length b.elts
      → let left = pick false (live w a) (live w b) in
        let right = pick false (live w b) (live w a) in
        set_x_add qsort w a b ≡ outcome w a b (length left + length right) (left ++ right)
  unfolding set_x_add
  set_x_add-pick s s' t t' p q =
      let us = live w a in
      let vs = live w b in
      let both = pick true us vs in
      let second =
        select-pick false vs both (qsort both) s' (PointersTell-pick us vs vs t')
        ∙ pick-pick us vs in
      rw
        (
          positive (length a.elts) p,
          positive (length b.elts) q,
          select-pick false us vs (qsort vs) s t,
          select-pick true us vs (qsort vs) s t,
          second,
        )
        refl
