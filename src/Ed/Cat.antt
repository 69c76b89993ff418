-- ===== src/Ed/Cat.antt =====
-- What a block holds, what makes it well formed, and what cat does.
use Prim.Native.Nat.{max}
use mathlib.Core.List.{append_assoc}
use dgd.Prelude.{
  ℕ, zero, suc, ◌+◌, ◌*◌, ◌^◌, ◌≤◌, ◌<◌, ◌≡◌, refl, sym, ap, ◌∙◌, Bool, true, false, not, ◌&&◌,
  List, [], ◌∷◌, ◌++◌, Option, some, arith, ltb, ◌==◌, Bool-cases, inl, inr, length, take, drop,
}
use dgd.Ed.{
  Line, Page, Range, Block, range, joined, size, depth, is_full, max_depth, mark, finish_cat,
  finish_first, finish_last, cat,
}

-- The lines of the pages.
abbrev pub text_lines : List Page → List Line
text_lines [] = []
text_lines (p ∷ ps) = p.text ++ text_lines ps

-- How many lines stand in the pages before page `i`.
abbrev pub before : List Page → ℕ → ℕ
before ps zero = 0
before [] (suc i) = 0
before (p ∷ ps) (suc i) = length p.text + before ps i

-- The place of a subrange's first line in its chain.
abbrev pub first_place : Range → ℕ
first_place r = before r.chain r.lfirst + r.index1

unfoldable pub lines_of : Block → List Line
lines_of (range r) = take r.lines (drop (first_place r) (text_lines r.chain))
lines_of (joined f l n d u) = lines_of f ++ lines_of l

-- The pages number their lines on from `n`, and none is empty.
abbrev pub IsNumbered : ℕ → List Page → Type 0
IsNumbered n [] = Unit
IsNumbered n (p ∷ ps) = (p.lindex ≡ n) × (0 < length p.text) × IsNumbered (n + length p.text) ps

pub record IsRange (r : Range) : Type 0 where
  pub numbered : IsNumbered 0 r.chain
  pub not_empty : 0 < r.lines
  pub ordered : r.lfirst ≤ r.llast
  pub in_chain : r.llast < length r.chain
  pub ends : first_place r + r.lines + r.index2 ≡ before r.chain (suc r.llast)

abbrev pub leaves : Block → ℕ
leaves (range r) = 1
leaves (joined f l n d u) = leaves f + leaves l

-- A tree that is marked as full has as many leaves as its depth allows.
abbrev pub MarkFits : Bool → ℕ → ℕ → Type 0
MarkFits true n d = n * 2 ≡ 2 ^ d
MarkFits false n d = Unit

unfoldable pub IsBlock : Block → Type 0
IsBlock (range r) = IsRange r
IsBlock (joined f l n d u) =
    IsBlock f
    × IsBlock l
    × (n ≡ size f + size l)
    × (d ≡ suc (max (depth f) (depth l)))
    × MarkFits u (leaves f + leaves l) d

pub not_above : (a b : ℕ) → b ≤ a → ltb a b ≡ false
not_above a b h = ground arith

both : (a b : Bool) → a && b ≡ true → (a ≡ true) × (b ≡ true)
both true true h = (refl, refl)
both true false h = (refl, h)
both false b h = absurd cc

doubled : (d e n m : ℕ) → d ≡ e → n * 2 ≡ 2 ^ d → m * 2 ≡ 2 ^ e → (n + m) * 2 ≡ 2 ^ suc (max d e)
doubled d e n m h p q =
    let top : max d e ≡ d = omega arith in
    let same : 2 ^ e ≡ 2 ^ d = ap (2 ^◌) (sym h) in rw top (omega arith)

depth-pos : (b : Block) → IsBlock b → 0 < depth b
unfolding IsBlock
depth-pos (range r) v = omega arith
depth-pos (joined f l n d u) v = omega (arith, v.3)

one_leaf : (b : Block) → IsBlock b → depth b ≡ 1 → leaves b ≡ 1
unfolding IsBlock
one_leaf (range r) v e = refl
one_leaf (joined f l n d u) v e = absurd (omega (arith, e, v.3, depth-pos f v.0))

full_leaves : (b : Block) → IsBlock b → is_full b ≡ true → leaves b * 2 ≡ 2 ^ depth b
unfolding IsBlock
full_leaves (range r) v e = refl
full_leaves (joined f l n d true) v e = v.4
full_leaves (joined f l n d false) v e = cc

full_one : (b : Block) → IsBlock b → depth b ≡ 1 → leaves b * 2 ≡ 2 ^ depth b
full_one b v e = rw (e, one_leaf b v e) refl

mark-fits :
    (b1 b2 : Block)
    → IsBlock b1
    → IsBlock b2
    → MarkFits (mark b1 b2) (leaves b1 + leaves b2) (suc (max (depth b1) (depth b2)))
unfolding mark
mark-fits b1 b2 v w = elim (Bool-cases (depth b1 == depth b2)) [
  | inr e ↦ rw e tt
  | inl e ↦ elim (Bool-cases (depth b1 == 1)) [
    | inl one ↦
        rw (e, one)
          (let d1 : depth b1 ≡ 1 = ground (arith, one) in
            let d2 : depth b2 ≡ 1 = ground (arith, e, d1) in
            doubled (depth b1) (depth b2) (leaves b1) (leaves b2) (d1 ∙ sym d2) (full_one b1 v d1)
              (full_one b2 w d2))
    | inr more ↦ elim (Bool-cases (is_full b1 && is_full b2)) [
      | inr part ↦ rw (e, more, part) tt
      | inl full ↦
          let (l, r) = both (is_full b1) (is_full b2) full in
          rw (e, more, full)
            (doubled (depth b1) (depth b2) (leaves b1) (leaves b2) (ground (arith, e))
              (full_leaves b1 v l) (full_leaves b2 w r))
    ]
  ]
]

finish_cat_lem :
    (lines : ℕ) (b1 b2 : Block)
    → IsBlock b1
    → IsBlock b2
    → lines ≡ size b1 + size b2
    → depth b1 < max_depth
    → depth b2 < max_depth
    → (finish_cat lines b1 b2
        ≡ some (joined b1 b2 lines (suc (max (depth b1) (depth b2))) (mark b1 b2)))
      × IsBlock (joined b1 b2 lines (suc (max (depth b1) (depth b2))) (mark b1 b2))
unfolding finish_cat IsBlock
finish_cat_lem lines b1 b2 v w e h k =
    let room = not_above max_depth (suc (max (depth b1) (depth b2))) (omega arith) in
    (rw room refl, (v, w, e, refl, mark-fits b1 b2 v w))

-- What cat promises of its result.
pub record IsCat (b1 b2 b : Block) : Type 0 where
  pub valid : IsBlock b
  pub text : lines_of b ≡ lines_of b1 ++ lines_of b2
  pub sized : size b ≡ size b1 + size b2
  pub grown : leaves b ≡ leaves b1 + leaves b2
  pub shallow : depth b ≤ suc (max (depth b1) (depth b2))

abbrev pub Joins : Option Block → Block → Block → Type 0
Joins o b1 b2 = (b : Block) × (o ≡ some b) × IsCat b1 b2 b

pub finish_cat-Joins :
    (b1 b2 : Block)
    → IsBlock b1
    → IsBlock b2
    → depth b1 < max_depth
    → depth b2 < max_depth
    → Joins (finish_cat (size b1 + size b2) b1 b2) b1 b2
unfolding lines_of
finish_cat-Joins b1 b2 v w h k =
    let (run, valid) = finish_cat_lem (size b1 + size b2) b1 b2 v w refl h k in
    (
      joined b1 b2 (size b1 + size b2) (suc (max (depth b1) (depth b2))) (mark b1 b2),
      run,
      record { valid = valid; text = refl; sized = refl; grown = refl; shallow = omega arith },
    )

-- The same where the first subblock of the second block, or the last of the first, was joined to `c`.
pub finish_first-some :
    (b1 f l c : Block) (n d : ℕ) (u : Bool)
    → IsBlock (joined f l n d u)
    → depth b1 < d
    → IsCat b1 f c
    → depth c < max_depth
    → depth l < max_depth
    → Joins (finish_cat (size b1 + n) c l) b1 (joined f l n d u)
unfolding lines_of IsBlock
finish_first-some b1 f l c n d u v h x low low' =
    let lines : size b1 + n ≡ size c + size l = omega (arith, v.2, x.sized) in
    let (done, valid) = finish_cat_lem (size b1 + n) c l x.valid v.1 lines low low' in
    (
      joined c l (size b1 + n) (suc (max (depth c) (depth l))) (mark c l),
      done,
      record {
        valid = valid;
        text = rw x.text (append_assoc (lines_of b1) (lines_of f) (lines_of l));
        sized = refl;
        grown = omega (arith, x.grown);
        shallow = omega (arith, x.shallow, v.3, h);
      },
    )

pub finish_last-some :
    (f l c : Block) (n d : ℕ) (u : Bool) (b2 : Block)
    → IsBlock (joined f l n d u)
    → depth b2 < d
    → IsCat l b2 c
    → depth f < max_depth
    → depth c < max_depth
    → Joins (finish_cat (n + size b2) f c) (joined f l n d u) b2
unfolding lines_of IsBlock
finish_last-some f l c n d u b2 v h x low low' =
    let lines : n + size b2 ≡ size f + size c = omega (arith, v.2, x.sized) in
    let (done, valid) = finish_cat_lem (n + size b2) f c v.0 x.valid lines low low' in
    (
      joined f c (n + size b2) (suc (max (depth f) (depth c))) (mark f c),
      done,
      record {
        valid = valid;
        text = rw x.text (sym (append_assoc (lines_of f) (lines_of l) (lines_of b2)));
        sized = refl;
        grown = omega (arith, x.grown);
        shallow = omega (arith, x.shallow, v.3, h);
      },
    )

finish_first-Joins :
    (b1 f l : Block) (n d : ℕ) (u : Bool) (o : Option Block)
    → IsBlock (joined f l n d u)
    → depth b1 < d
    → d < max_depth
    → Joins o b1 f
    → Joins (finish_first (size b1 + n) o l) b1 (joined f l n d u)
unfolding IsBlock finish_first
finish_first-Joins b1 f l n d u o v h k (c, run, x) =
    let below : depth f < d = omega (arith, v.3) in
    let low : depth l < d = omega (arith, v.3) in
    rw run (finish_first-some b1 f l c n d u v h x (omega (arith, x.shallow)) (omega arith))

finish_last-Joins :
    (f l : Block) (n d : ℕ) (u : Bool) (b2 : Block) (o : Option Block)
    → IsBlock (joined f l n d u)
    → depth b2 < d
    → d < max_depth
    → Joins o l b2
    → Joins (finish_last (n + size b2) f o) (joined f l n d u) b2
unfolding IsBlock finish_last
finish_last-Joins f l n d u b2 o v h k (c, run, x) =
    let below : depth f < d = omega (arith, v.3) in
    let low : depth l < d = omega (arith, v.3) in
    rw run (finish_last-some f l c n d u b2 v h x (omega arith) (omega (arith, x.shallow)))

pub tested : (a b : ℕ) (u : Bool) → ltb a b && not u ≡ true → a < b
tested a b u h = ground (arith, both (ltb a b) (not u) h)

-- A subblock is valid, and is below its block.
pub subblocks :
    (f l : Block) (n d : ℕ) (u : Bool)
    → IsBlock (joined f l n d u)
    → IsBlock f × IsBlock l × (depth f < d) × (depth l < d)
unfolding IsBlock
subblocks f l n d u v = (v.0, v.1, omega (arith, v.3), omega (arith, v.3))

-- Two blocks of less than the greatest depth are joined: the lines of the first are followed by
-- those of the second, the tree is well formed, has the leaves of both, and is at most one deeper.
pub cat-IsCat :
    (b1 b2 : Block)
    → IsBlock b1
    → IsBlock b2
    → depth b1 < max_depth
    → depth b2 < max_depth
    → (b : Block) × (cat b1 b2 ≡ some b) × IsCat b1 b2 b
unfolding cat
cat-IsCat (range r) (range s) v w h k = finish_cat-Joins (range r) (range s) v w h k
cat-IsCat (range r) (joined f l n d u) v w h k =
    let sub = subblocks f l n d u w in
    elim (Bool-cases (ltb 1 d && not u)) [
      | inl e ↦
          rw (cat, e)
            (finish_first-Joins (range r) f l n d u (cat (range r) f) w (tested 1 d u e) k
              (cat-IsCat (range r) f v sub.0 h (omega arith)))
      | inr e ↦ rw (cat, e) (finish_cat-Joins (range r) (joined f l n d u) v w h k)
    ]
cat-IsCat (joined f l n d u) (range s) v w h k =
    let sub = subblocks f l n d u v in
    elim (Bool-cases (ltb 1 d && not u)) [
      | inl e ↦
          rw (cat, e)
            (finish_last-Joins f l n d u (range s) (cat l (range s)) v (tested 1 d u e) h
              (cat-IsCat l (range s) sub.1 w (omega arith) k))
      | inr e ↦ rw (cat, e) (finish_cat-Joins (joined f l n d u) (range s) v w h k)
    ]
cat-IsCat (joined f l n d u) (joined f' l' n' d' u') v w h k =
    let b1 = joined f l n d u in
    let b2 = joined f' l' n' d' u' in
    let sub = subblocks f l n d u v in
    let sub' = subblocks f' l' n' d' u' w in
    elim (Bool-cases (ltb d d' && not u')) [
      | inl e ↦
          rw (cat, e)
            (finish_first-Joins b1 f' l' n' d' u' (cat b1 f') w (tested d d' u' e) k
              (cat-IsCat (joined f l n d u) f' v sub'.0 h (omega arith)))
      | inr e ↦ elim (Bool-cases (ltb d' d && not u)) [
        | inl e' ↦
            rw (cat, e, e')
              (finish_last-Joins f l n d u b2 (cat l b2) v (tested d' d u e') h
                (cat-IsCat l (joined f' l' n' d' u') sub.1 w (omega arith) k))
        | inr e' ↦ rw (cat, e, e') (finish_cat-Joins b1 b2 v w h k)
      ]
    ]
