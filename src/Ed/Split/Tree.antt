-- ===== src/Ed/Split/Tree.antt =====
-- That a tree of blocks is split into its first lines and its other lines.
use dgd.Prelude.{
  ltb-true, ltb-false, take_low, drop_low, take_high, drop_high, ℕ, ◌+◌, ◌-◌, ◌≤◌, ◌<◌, ◌≡◌, refl,
  ◌∙◌, Bool, true, false, some, arith, ltb, Bool-cases, inl, inr, length, take_all,
}
use dgd.Ed.{Block, range, joined, size, depth, max_depth, cat}
use dgd.Ed.Cat.{lines_of, IsBlock, IsCat, cat-IsCat, subblocks}
use dgd.Ed.Split.{wanted, cat_tail, cat_head, with_tail, with_head, split1}
use dgd.Ed.Split.Laws.{IsSplit, split_range-Splits, length-lines_of}

module _ (f l : Block) (m d : ℕ) (u : Bool) (v : IsBlock (joined f l m d u)) (n : ℕ) where
  sizes : (length (lines_of f) ≡ size f) × (m ≡ size f + size l)
  unfolding IsBlock
  sizes = (length-lines_of f v.0, v.2)

  -- The first part lies in the first block.
  low-IsSplit :
      (h t c : Block)
      → n < size f
      → IsSplit f n h t
      → IsCat t l c
      → IsSplit (joined f l m d u) n h c
  unfolding lines_of
  low-IsSplit h t c k x y =
      let bound : n ≤ length (lines_of f) = omega (arith, sizes.0) in
      let sub = subblocks f l m d u v in
      record {
        head_valid = x.head_valid;
        tail_valid = y.valid;
        first_lines = rw (x.first_lines, take_low (lines_of f) (lines_of l) n bound) refl;
        other_lines = rw (y.text, x.other_lines, drop_low (lines_of f) (lines_of l) n bound) refl;
        head_size = x.head_size;
        tail_size = omega (arith, y.sized, x.tail_size, sizes.1);
        head_depth = omega (arith, x.head_depth, sub.2);
        tail_depth = omega (arith, y.shallow, x.tail_depth, sub.2, sub.3);
      }

  -- The second part lies in the last block.
  high-IsSplit :
      (h t c : Block)
      → size f < n
      → n < m
      → IsSplit l (n - size f) h t
      → IsCat f h c
      → IsSplit (joined f l m d u) n c t
  unfolding lines_of
  high-IsSplit h t c k k' x y =
      let bound : length (lines_of f) ≤ n = omega (arith, sizes.0) in
      let sub = subblocks f l m d u v in
      let same = sizes.0 in
      record {
        head_valid = y.valid;
        tail_valid = x.tail_valid;
        first_lines =
            rw (y.text, x.first_lines, take_high (lines_of f) (lines_of l) n bound, same) refl;
        other_lines = rw (x.other_lines, drop_high (lines_of f) (lines_of l) n bound, same) refl;
        head_size = omega (arith, y.sized, x.head_size);
        tail_size = omega (arith, x.tail_size, sizes.1);
        head_depth = omega (arith, y.shallow, x.head_depth, sub.2, sub.3);
        tail_depth = omega (arith, x.tail_depth, sub.3);
      }

  edge-IsSplit : size f ≡ n → IsSplit (joined f l m d u) n f l
  unfolding lines_of
  edge-IsSplit e =
      let same : length (lines_of f) ≡ n = sizes.0 ∙ e in
      let sub = subblocks f l m d u v in
      let exact : n - length (lines_of f) ≡ 0 = omega arith in
      record {
        head_valid = sub.0;
        tail_valid = sub.1;
        first_lines =
            rw
              (
                take_low (lines_of f) (lines_of l) n (omega arith),
                take_all n (lines_of f) (omega arith),
              )
              refl;
        other_lines = rw (drop_high (lines_of f) (lines_of l) n (omega arith), exact) refl;
        head_size = e;
        tail_size = omega (arith, sizes.1);
        head_depth = omega (arith, sub.2);
        tail_depth = omega (arith, sub.3);
      }

with_tail_run :
    (w1 w2 : Bool) (h t l c : Block)
    → cat t l ≡ some c
    → with_tail (some (wanted w1 h, wanted w2 t)) l ≡ some (wanted w1 h, wanted w2 c)
unfolding with_tail cat_tail
with_tail_run w1 true h t l c e = rw (with_tail, cat_tail, e) refl
with_tail_run w1 false h t l c e = refl

with_head_run :
    (w1 w2 : Bool) (f h t c : Block)
    → cat f h ≡ some c
    → with_head f (some (wanted w1 h, wanted w2 t)) ≡ some (wanted w1 c, wanted w2 t)
unfolding with_head cat_head
with_head_run true w2 f h t c e = rw (with_head, cat_head, e) refl
with_head_run false w2 f h t c e = refl

-- A block is split at a line within it: the first part holds the lines before, the second the
-- others, both are well formed, and neither is deeper than the block.
pub split1-IsSplit :
    (w1 w2 : Bool) (b : Block) (n : ℕ)
    → IsBlock b
    → 0 < n
    → n < size b
    → depth b ≤ max_depth
    → (h : Block) × (t : Block) × (split1 w1 w2 b n ≡ some (wanted w1 h, wanted w2 t))
      × IsSplit b n h t
unfolding split1 IsBlock
split1-IsSplit w1 w2 (range r) n v h k s = split_range-Splits w1 w2 r n v h k
split1-IsSplit w1 w2 (joined f l m d u) n v h k s =
    let sub = subblocks f l m d u v in
    let count_lines = (sizes f l m d u v n).1 in
    elim (Bool-cases (ltb n (size f))) [
      | inl low ↦
          let within = ltb-true n (size f) low in
          let (a, t, run, x) = split1-IsSplit w1 w2 f n sub.0 h within (omega (arith, sub.2)) in
          let (c, joins, y) =
            cat-IsCat t l x.tail_valid sub.1 (omega (arith, x.tail_depth, sub.2))
              (omega (arith, sub.3)) in
          (
            a,
            c,
            rw (split1, low, run) (with_tail_run w1 w2 a t l c joins),
            low-IsSplit f l m d u v n a t c within x y,
          )
      | inr not_low ↦ elim (Bool-cases (ltb (size f) n)) [
        | inl high ↦
            let beyond = ltb-true (size f) n high in
            let (a, t, run, x) =
              split1-IsSplit w1 w2 l (n - size f) sub.1 (omega arith) (omega (arith, count_lines))
                (omega (arith, sub.3)) in
            let (c, joins, y) =
              cat-IsCat f a sub.0 x.head_valid (omega (arith, sub.2))
                (omega (arith, x.head_depth, sub.3)) in
            (
              c,
              t,
              rw (split1, not_low, high, run) (with_head_run w1 w2 f a t c joins),
              high-IsSplit f l m d u v n a t c beyond k x y,
            )
        | inr edge ↦
            let exact : size f ≡ n =
              omega (arith, ltb-false n (size f) not_low, ltb-false (size f) n edge) in
            (f, l, rw (split1, not_low, edge) refl, edge-IsSplit f l m d u v n exact)
      ]
    ]
