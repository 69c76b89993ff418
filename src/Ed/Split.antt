-- ===== src/Ed/Split.antt =====
-- Splitting a block in two (src/ed/line.cpp). A flag says whether the caller wants the part: the
-- source passes a null pointer for a part that it does not want, and does not build that part.
pub mod Laws
pub mod Tree
use dgd.Prelude.{ℕ, ◌-◌, Bool, true, false, Option, none, some, ◌==◌, ltb, if◌then◌else◌, length}
use dgd.Ed.{Page, Range, Block, range, joined, size, cat}
use dgd.Ed.Chain.{page_at, find_line}

-- The two subranges of `r` at line `n` of page `mid`; `prev` of a page is the page before it.
unfoldable pub head_range : Range → ℕ → ℕ → ℕ → Page → Range
head_range r size mid n p = record r {
  llast = if n == 0 then mid - 1 else mid;
  lines = size;
  index2 = if n == 0 then 0 else length p.text - n;
}

unfoldable pub tail_range : Range → ℕ → ℕ → ℕ → Range
tail_range r size mid n = record r { lfirst = mid; lines = r.lines - size; index1 = n }

unfoldable pub split_range : Range → ℕ → Option (Range × Range)
split_range r size = elim (find_line r size) [
  | none ↦ none
  | some (mid, n) ↦ elim (page_at r.chain mid) [
    | none ↦ none
    | some p ↦ some (head_range r size mid n p, tail_range r size mid n)
  ]
]

abbrev pub wanted : Bool → Block → Option Block
wanted w b = if w then some b else none

-- `*b2 = cat(*b2, last)` and `*b1 = cat(first, *b1)`, where the part is wanted.
unfoldable pub cat_tail : Option Block → Block → Option (Option Block)
cat_tail none last = some none
cat_tail (some b) last = elim (cat b last) [ none ↦ none | some c ↦ some (some c) ]

unfoldable pub cat_head : Block → Option Block → Option (Option Block)
cat_head first none = some none
cat_head first (some b) = elim (cat first b) [ none ↦ none | some c ↦ some (some c) ]

unfoldable pub with_tail :
    Option (Option Block × Option Block) → Block → Option (Option Block × Option Block)
with_tail none last = none
with_tail (some (h, t)) last = elim (cat_tail t last) [ none ↦ none | some c ↦ some (h, c) ]

unfoldable pub with_head :
    Block → Option (Option Block × Option Block) → Option (Option Block × Option Block)
with_head first none = none
with_head first (some (h, t)) = elim (cat_head first h) [ none ↦ none | some c ↦ some (c, t) ]

unfoldable pub split1 : Bool → Bool → Block → ℕ → Option (Option Block × Option Block)
split1 w1 w2 (range r) size = elim (split_range r size) [
  | none ↦ none
  | some (h, t) ↦ some (wanted w1 (range h), wanted w2 (range t))
]
split1 w1 w2 (joined first last lines d u) n = elim (ltb n (size first)) [
  | true ↦ with_tail (split1 w1 w2 first n) last
  | false ↦ elim (ltb (size first) n) [
    | true ↦ with_head first (split1 w1 w2 last (n - size first))
    | false ↦ some (wanted w1 first, wanted w2 last)
  ]
]
