-- ===== src/Ed/Split/Laws.antt =====
-- That a block is split into its first lines and its other lines.
use dgd.Prelude.{
  ℕ, suc, ◌+◌, ◌-◌, ◌≤◌, ◌<◌, ◌≡◌, refl, sym, ap, Bool, List, [], ◌∷◌, some, arith, ◌==◌,
  Bool-cases, inl, inr, length, take, drop, length-append, length-take, length-drop, take-take,
  drop-take, drop-drop,
}
use dgd.Ed.{Page, Range, Block, range, joined, size, depth}
use dgd.Ed.Cat.{before, first_place, text_lines, lines_of, IsRange, IsBlock}
use dgd.Ed.Find.{IsPlace, find_line_lem, before-lt, before_mono, before-page_at}
use dgd.Ed.Split.{head_range, tail_range, split_range, wanted, split1}

pub before_all : (ps : List Page) → before ps (length ps) ≡ length (text_lines ps)
before_all [] = refl
before_all (p ∷ ps) = omega (arith, before_all ps, length-append p.text (text_lines ps))

-- What splitting at line `n` promises of its two parts.
pub record IsSplit (b : Block) (n : ℕ) (h t : Block) : Type 0 where
  pub head_valid : IsBlock h
  pub tail_valid : IsBlock t
  pub first_lines : lines_of h ≡ take n (lines_of b)
  pub other_lines : lines_of t ≡ drop n (lines_of b)
  pub head_size : size h ≡ n
  pub tail_size : size t ≡ size b - n
  pub head_depth : depth h ≤ depth b
  pub tail_depth : depth t ≤ depth b

-- The parts of a subrange, where the page of the line is known.
module _ (r : Range) (v : IsRange r) (n : ℕ) (more : 0 < n) (less : n < r.lines) (mid k : ℕ)
    (x : IsPlace r.chain (first_place r + n) mid k) where
  after : before r.chain (suc mid) ≡ before r.chain mid + length x.page.text
  after = (before-page_at r.chain mid 0 x.page v.numbered x.stands).2

  mid-le : mid ≤ r.llast
  mid-le =
      let low : mid < suc r.llast =
        before-lt r.chain mid (suc r.llast) (omega (arith, v.ends, x.counted)) in
      omega arith

  head-IsRange : IsRange (head_range r n mid k x.page)
  unfolding head_range
  head-IsRange = elim (Bool-cases (k == 0)) [
    | inl e ↦
        let zero_k : k ≡ 0 = ground (arith, e) in
        let later : r.lfirst < mid =
          before-lt r.chain r.lfirst mid (omega (arith, x.counted, zero_k)) in
        let back : before r.chain (suc (mid - 1)) ≡ before r.chain mid =
          ap (before r.chain) {x = suc (mid - 1)} (omega arith) in
        rw (head_range, e)
          (record {
            numbered = v.numbered;
            not_empty = more;
            ordered = omega arith;
            in_chain = omega (arith, mid-le, v.in_chain);
            ends = omega (arith, back, x.counted, zero_k);
          })
    | inr e ↦
        let some_k : 0 < k = ground (arith, e) in
        let not_before : r.lfirst < suc mid =
          before-lt r.chain r.lfirst (suc mid) (omega (arith, x.counted, after, x.inside)) in
        rw (head_range, e)
          (record {
            numbered = v.numbered;
            not_empty = more;
            ordered = omega arith;
            in_chain = omega (arith, mid-le, v.in_chain);
            ends = omega (arith, after, x.counted, x.inside);
          })
  ]

  tail-IsRange : IsRange (tail_range r n mid k)
  unfolding tail_range
  tail-IsRange = record {
    numbered = v.numbered;
    not_empty = omega arith;
    ordered = mid-le;
    in_chain = v.in_chain;
    ends = omega (arith, v.ends, x.counted);
  }

  first-lines : lines_of (range (head_range r n mid k x.page)) ≡ take n (lines_of (range r))
  unfolding head_range lines_of
  first-lines = sym (take-take n r.lines (drop (first_place r) (text_lines r.chain)) (omega arith))

  other-lines : lines_of (range (tail_range r n mid k)) ≡ drop n (lines_of (range r))
  unfolding tail_range lines_of
  other-lines =
      let text = text_lines r.chain in
      rw
        (
          drop-take n r.lines (drop (first_place r) text),
          drop-drop n (first_place r) text,
          ap (λ i. take (r.lines - n) (drop i text)) x.counted,
        )
        refl

-- A block has as many lines as it says.
pub length-lines_of : (b : Block) → IsBlock b → length (lines_of b) ≡ size b
unfolding lines_of IsBlock
length-lines_of (range r) v =
    let text = text_lines r.chain in
    let bound = before_mono r.chain (suc r.llast) (length r.chain) (omega (arith, v.in_chain)) in
    rw (length-take r.lines (drop (first_place r) text), length-drop (first_place r) text)
      (omega (arith, bound, before_all r.chain, v.ends))
length-lines_of (joined f l n d u) v =
    rw (length-append (lines_of f) (lines_of l))
      (omega (arith, v.2, length-lines_of f v.0, length-lines_of l v.1))

abbrev pub Splits : Bool → Bool → Block → ℕ → Type 0
Splits w1 w2 b n =
    (h : Block) × (t : Block) × (split1 w1 w2 b n ≡ some (wanted w1 h, wanted w2 t))
    × IsSplit b n h t

pub split_range-Splits :
    (w1 w2 : Bool) (r : Range) (n : ℕ) → IsRange r → 0 < n → n < r.lines → Splits w1 w2 (range r) n
unfolding split1 split_range IsBlock head_range tail_range
split_range-Splits w1 w2 r n v h k =
    let (mid, i, run, x) = find_line_lem r v n k in
    (
      range (head_range r n mid i x.page),
      range (tail_range r n mid i),
      rw (split1, split_range, run, x.stands) refl,
      record {
        head_valid = head-IsRange r v n h k mid i x;
        tail_valid = tail-IsRange r v n h k mid i x;
        first_lines = first-lines r v n h k mid i x;
        other_lines = other-lines r v n h k mid i x;
        head_size = refl;
        tail_size = refl;
        head_depth = omega arith;
        tail_depth = omega arith;
      },
    )
