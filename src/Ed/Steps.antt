-- ===== src/Ed/Steps.antt =====
-- What the parts of the editing operations do to the lines of a buffer.
use Prim.Native.Nat.{max}
use mathlib.Core.List.{append-nil}
use dgd.Prelude.{
  ℕ, suc, ◌-◌, ◌≤◌, ◌<◌, ◌≡◌, refl, sym, ap, true, false, List, [], ◌++◌, Option, none, some, arith,
  ltb, Bool-cases, inl, inr, length, take, drop, take_all, drop_all,
}
use dgd.Ed.{Line, Block, size, depth, max_depth}
use dgd.Ed.Cat.{lines_of, IsBlock, IsCat, cat-IsCat}
use dgd.Ed.Split.Laws.{IsSplit, length-lines_of}
use dgd.Ed.Split.Tree.{split1-IsSplit}
use dgd.Ed.Buffer.{
  done, EditBuf, join_blocks, split_both, split_head, split_tail, the_block, cut_last, cut_first,
  join_rest, before_first, after_last,
}

-- A block number that may be 0 stands for the lines `xs`.
unfoldable pub Holds : Option Block → List Line → Type 0
Holds none xs = xs ≡ []
Holds (some b) xs = IsBlock b × (lines_of b ≡ xs)

abbrev pub levels : Option Block → ℕ
levels none = 0
levels (some b) = depth b

-- The buffer shows the lines `xs`.
pub record Shows (eb : EditBuf) (xs : List Line) : Type 0 where
  pub holds : Holds eb.buffer xs
  pub counted : eb.lines ≡ length xs

pub join_blocks_lem :
    (b1 b2 : Block)
    → IsBlock b1
    → IsBlock b2
    → depth b1 < max_depth
    → depth b2 < max_depth
    → (c : Block) × (join_blocks b1 b2 ≡ done c) × IsCat b1 b2 c
unfolding join_blocks
join_blocks_lem b1 b2 v w h k =
    let (c, run, x) = cat-IsCat b1 b2 v w h k in (c, rw (join_blocks, run) refl, x)

module _ (b : Block) (n : ℕ) (v : IsBlock b) (h : 0 < n) (k : n < size b)
    (s : depth b ≤ max_depth) where
  pub split_both_lem : (a : Block) × (c : Block) × (split_both b n ≡ done (a, c)) × IsSplit b n a c
  unfolding split_both
  split_both_lem =
      let (a, c, run, x) = split1-IsSplit true true b n v h k s in
      (a, c, rw (split_both, run) refl, x)

  split_head_lem : (a : Block) × (c : Block) × (split_head b n ≡ done a) × IsSplit b n a c
  unfolding split_head
  split_head_lem =
      let (a, c, run, x) = split1-IsSplit true false b n v h k s in
      (a, c, rw (split_head, run) refl, x)

  split_tail_lem : (a : Block) × (c : Block) × (split_tail b n ≡ done c) × IsSplit b n a c
  unfolding split_tail
  split_tail_lem =
      let (a, c, run, x) = split1-IsSplit false true b n v h k s in
      (a, c, rw (split_tail, run) refl, x)

-- Two blocks that may be 0 are joined where both are there.
pub join_rest_lem :
    (f l : Option Block) (xs ys : List Line)
    → Holds f xs
    → Holds l ys
    → levels f < max_depth
    → levels l < max_depth
    → (c : Option Block) × (join_rest f l ≡ done c)
      × Holds c (xs ++ ys)
      × (levels c ≤ suc (max (levels f) (levels l)))
unfolding join_rest Holds
join_rest_lem none l xs ys p q h k = (l, refl, rw p q, omega arith)
join_rest_lem (some b) none xs ys p q h k =
    (some b, refl, (p.0, rw (q, p.1) (sym (append-nil xs))), omega arith)
join_rest_lem (some b) (some t) xs ys p q h k =
    let (c, run, x) = join_blocks_lem b t p.0 q.0 h k in
    (some c, rw (join_rest, run) refl, (x.valid, rw (x.text, p.1, q.1) refl), x.shallow)

held_block :
    (o : Option Block) (xs : List Line)
    → Holds o xs
    → 0 < length xs
    → (b : Block) × (o ≡ some b) × IsBlock b × (lines_of b ≡ xs) × (size b ≡ length xs)
unfolding Holds
held_block none xs p h = absurd (omega (arith, h, ap length p))
held_block (some b) xs p h =
    (b, refl, p.0, p.1, omega (arith, length-lines_of b p.0, ap length p.1))

module _ (eb : EditBuf) (xs : List Line) (v : Shows eb xs)
    (low : levels eb.buffer ≤ max_depth) where
  -- The block of a buffer that shows a line.
  pub whole :
      0 < length xs
      → (b : Block) × (eb.buffer ≡ some b)
        × IsBlock b
        × (lines_of b ≡ xs)
        × (size b ≡ length xs)
        × (depth b ≡ levels eb.buffer)
  whole h =
      let (b, e, w, text, n) = held_block eb.buffer xs v.holds h in
      (b, e, w, text, n, sym (ap levels e))

  pub before_first_lem :
      (first : ℕ)
      → 1 ≤ first
      → first ≤ length xs
      → (head : Option Block) × (before_first first eb ≡ done head)
        × Holds head (take (first - 1) xs)
        × (levels head ≤ levels eb.buffer)
  unfolding before_first the_block Holds
  before_first_lem first h k = elim (Bool-cases (ltb 1 first)) [
    | inl l ↦
        let more : 1 < first = ground (arith, l) in
        let (b, e, w, text, n, d) = whole (omega arith) in
        let (a, c, run, x) =
          split_head_lem b (first - 1) w (omega arith) (omega (arith, n)) (omega (arith, d, low)) in
        (
          some a,
          rw (before_first, l, e, the_block, run) refl,
          (x.head_valid, rw (x.first_lines, text) refl),
          omega (arith, x.head_depth, d),
        )
    | inr l ↦
        let first_place : first - 1 ≡ 0 = ground (arith, l, h) in
        (none, rw (before_first, l) refl, rw first_place refl, omega arith)
  ]

  pub after_last_lem :
      (last : ℕ)
      → 0 < last
      → last ≤ length xs
      → (tail : Option Block) × (after_last last eb ≡ done tail)
        × Holds tail (drop last xs)
        × (levels tail ≤ levels eb.buffer)
  unfolding after_last the_block Holds
  after_last_lem last h k = elim (Bool-cases (ltb last eb.lines)) [
    | inl l ↦
        let (b, e, w, text, n, d) = whole (omega arith) in
        let less : last < size b = ground (arith, l, n, v.counted) in
        let (a, c, run, x) = split_tail_lem b last w h less (omega (arith, d, low)) in
        (
          some c,
          rw (after_last, l, e, the_block, run) refl,
          (x.tail_valid, rw (x.other_lines, text) refl),
          omega (arith, x.tail_depth, d),
        )
    | inr l ↦
        let all : length xs ≤ last = ground (arith, l, v.counted) in
        (none, rw (after_last, l) refl, drop_all last xs all, omega arith)
  ]

  pub cut_last_lem :
      (last : ℕ)
      → 0 < last
      → last ≤ length xs
      → (mid : Block) × (tail : Option Block) × (cut_last last eb ≡ done (mid, tail))
        × IsBlock mid
        × (lines_of mid ≡ take last xs)
        × (size mid ≡ last)
        × Holds tail (drop last xs)
        × (depth mid ≤ levels eb.buffer)
        × (levels tail ≤ levels eb.buffer)
  unfolding cut_last the_block Holds
  cut_last_lem last h k =
      let (b, e, w, text, n, d) = whole (omega (arith, h, k)) in
      elim (Bool-cases (ltb last eb.lines)) [
        | inl l ↦
            let less : last < size b = ground (arith, l, n, v.counted) in
            let (a, c, run, x) = split_both_lem b last w h less (omega (arith, d, low)) in
            (
              a,
              some c,
              rw (cut_last, e, the_block, l, run) refl,
              x.head_valid,
              rw (x.first_lines, text) refl,
              x.head_size,
              (x.tail_valid, rw (x.other_lines, text) refl),
              omega (arith, x.head_depth, d),
              omega (arith, x.tail_depth, d),
            )
        | inr l ↦
            let all : length xs ≤ last = ground (arith, l, v.counted) in
            (
              b,
              none,
              rw (cut_last, e, the_block, l) refl,
              w,
              rw (take_all last xs all) text,
              omega (arith, n, k, all),
              drop_all last xs all,
              omega (arith, d),
              omega arith,
            )
      ]

pub cut_first_lem :
    (first : ℕ) (mid : Block)
    → IsBlock mid
    → depth mid ≤ max_depth
    → 1 ≤ first
    → first ≤ size mid
    → (head : Option Block) × (rest : Block) × (cut_first first mid ≡ done (head, rest))
      × Holds head (take (first - 1) (lines_of mid))
      × IsBlock rest
      × (lines_of rest ≡ drop (first - 1) (lines_of mid))
      × (size rest ≡ size mid - (first - 1))
      × (levels head ≤ depth mid)
      × (depth rest ≤ depth mid)
unfolding cut_first Holds
cut_first_lem first mid v s h k = elim (Bool-cases (ltb 1 first)) [
  | inl l ↦
      let more : 1 < first = ground (arith, l) in
      let (a, c, run, x) = split_both_lem mid (first - 1) v (omega arith) (omega arith) s in
      (
        some a,
        c,
        rw (cut_first, l, run) refl,
        (x.head_valid, x.first_lines),
        x.tail_valid,
        x.other_lines,
        x.tail_size,
        x.head_depth,
        x.tail_depth,
      )
  | inr l ↦
      let first_place : first - 1 ≡ 0 = ground (arith, l, h) in
      (
        none,
        mid,
        rw (cut_first, l) refl,
        rw first_place refl,
        v,
        rw first_place refl,
        omega (arith, first_place),
        omega arith,
        omega arith,
      )
]
