-- ===== src/Ed/TooLarge.antt =====
-- LineBuf::cat (src/ed/line.cpp) at any depth: it joins the blocks, or the tree gets too large.
use Prim.Native.Nat.{max}
use dgd.Prelude.{
  ℕ, suc, ◌+◌, ◌<◌, ◌≤◌, ◌≡◌, refl, ◌⊎◌, inl, inr, Bool, Option, none, arith, not, ◌&&◌, ltb,
  Bool-cases,
}
use dgd.Ed.{
  Block, range, joined, size, depth, max_depth, cat, finish_cat, finish_first, finish_last,
}
use dgd.Ed.Cat.{
  IsBlock, IsCat, Joins, finish_cat-Joins, finish_first-some, finish_last-some, subblocks, tested,
}
use dgd.Ed.Buffer.{done, failed, too_large, join_blocks}

abbrev MayJoin : Option Block → Block → Block → Type 0
MayJoin o b1 b2 = (o ≡ none) ⊎ Joins o b1 b2

-- The end of cat checks the depth of the tree that it would make.
checked :
    (lines : ℕ) (c e b1 b2 : Block)
    → (depth c < max_depth → depth e < max_depth → Joins (finish_cat lines c e) b1 b2)
    → MayJoin (finish_cat lines c e) b1 b2
unfolding finish_cat
checked lines c e b1 b2 f = elim (Bool-cases (ltb max_depth (suc (max (depth c) (depth e))))) [
  | inl deep ↦ inl (rw deep refl)
  | inr low ↦
      let fits : suc (max (depth c) (depth e)) ≤ max_depth = ground (arith, low) in
      inr (f (omega (arith, fits)) (omega (arith, fits)))
]

first_cases :
    (b1 f l : Block) (n d : ℕ) (u : Bool) (o : Option Block)
    → IsBlock (joined f l n d u)
    → depth b1 < d
    → MayJoin o b1 f
    → MayJoin (finish_first (size b1 + n) o l) b1 (joined f l n d u)
unfolding finish_first
first_cases b1 f l n d u o v h (inl e) = inl (rw e refl)
first_cases b1 f l n d u o v h (inr (c, run, x)) =
    rw run
      (checked (size b1 + n) c l b1 (joined f l n d u) (finish_first-some b1 f l c n d u v h x))

last_cases :
    (f l : Block) (n d : ℕ) (u : Bool) (b2 : Block) (o : Option Block)
    → IsBlock (joined f l n d u)
    → depth b2 < d
    → MayJoin o l b2
    → MayJoin (finish_last (n + size b2) f o) (joined f l n d u) b2
unfolding finish_last
last_cases f l n d u b2 o v h (inl e) = inl (rw e refl)
last_cases f l n d u b2 o v h (inr (c, run, x)) =
    rw run (checked (n + size b2) f c (joined f l n d u) b2 (finish_last-some f l c n d u b2 v h x))

whole_cases :
    (b1 b2 : Block) → IsBlock b1 → IsBlock b2 → MayJoin (finish_cat (size b1 + size b2) b1 b2) b1 b2
whole_cases b1 b2 v w = checked (size b1 + size b2) b1 b2 b1 b2 (finish_cat-Joins b1 b2 v w)

cat_cases : (b1 b2 : Block) → IsBlock b1 → IsBlock b2 → MayJoin (cat b1 b2) b1 b2
unfolding cat
cat_cases (range r) (range s) v w = whole_cases (range r) (range s) v w
cat_cases (range r) (joined f l n d u) v w =
    let sub = subblocks f l n d u w in
    elim (Bool-cases (ltb 1 d && not u)) [
      | inl e ↦
          rw (cat, e)
            (first_cases (range r) f l n d u (cat (range r) f) w (tested 1 d u e)
              (cat_cases (range r) f v sub.0))
      | inr e ↦ rw (cat, e) (whole_cases (range r) (joined f l n d u) v w)
    ]
cat_cases (joined f l n d u) (range s) v w =
    let sub = subblocks f l n d u v in
    elim (Bool-cases (ltb 1 d && not u)) [
      | inl e ↦
          rw (cat, e)
            (last_cases f l n d u (range s) (cat l (range s)) v (tested 1 d u e)
              (cat_cases l (range s) sub.1 w))
      | inr e ↦ rw (cat, e) (whole_cases (joined f l n d u) (range s) v w)
    ]
cat_cases (joined f l n d u) (joined f' l' n' d' u') v w =
    let b1 = joined f l n d u in
    let b2 = joined f' l' n' d' u' in
    let sub = subblocks f l n d u v in
    let sub' = subblocks f' l' n' d' u' w in
    elim (Bool-cases (ltb d d' && not u')) [
      | inl e ↦
          rw (cat, e)
            (first_cases b1 f' l' n' d' u' (cat b1 f') w (tested d d' u' e)
              (cat_cases (joined f l n d u) f' v sub'.0))
      | inr e ↦ elim (Bool-cases (ltb d' d && not u)) [
        | inl e' ↦
            rw (cat, e, e')
              (last_cases f l n d u b2 (cat l b2) v (tested d' d u e')
                (cat_cases l (joined f' l' n' d' u') sub.1 w))
        | inr e' ↦ rw (cat, e, e') (whole_cases b1 b2 v w)
      ]
    ]

pub join_blocks_cases :
    (b1 b2 : Block)
    → IsBlock b1
    → IsBlock b2
    → (join_blocks b1 b2 ≡ failed too_large)
      ⊎ ((c : Block) × (join_blocks b1 b2 ≡ done c) × IsCat b1 b2 c)
unfolding join_blocks
join_blocks_cases b1 b2 v w = elim (cat_cases b1 b2 v w) [
  | inl e ↦ inl (rw (join_blocks, e) refl)
  | inr (c, run, x) ↦ inr (c, rw (join_blocks, run) refl, x)
]
