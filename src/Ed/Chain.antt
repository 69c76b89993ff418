-- ===== src/Ed/Chain.antt =====
-- The search for a line in a chain of pages (src/ed/line.cpp): split1 and put1 guess the page by
-- interpolation.
use dgd.Prelude.{
  ℕ, zero, suc, ◌+◌, ◌-◌, ◌*◌, ◌/◌, List, [], ◌∷◌, Option, none, some, ltb, leb, true, false,
  length,
}
use dgd.Ed.{Page, Range}

abbrev pub page_at : List Page → ℕ → Option Page
page_at [] i = none
page_at (p ∷ ps) zero = some p
page_at (p ∷ ps) (suc i) = page_at ps i

-- BLOCK_SIZE
abbrev pub block_size : ℕ
block_size = 8192

-- The locals of the search: `size` is the wanted line, counted from the line `offset`.
pub record Search : Type 0 where
  pub first : ℕ
  pub last : ℕ
  pub lines : ℕ
  pub size : ℕ
  pub offset : ℕ

-- The page that comes next: BLOCK_MASK cuts the offset in bytes down to whole pages.
unfoldable pub guess_page : Search → ℕ
guess_page s = s.first + ((s.last - s.first) * block_size / s.lines) * s.size / block_size

pub data Step : Type 0 where
  found : ℕ → Step
  again : Search → Step

-- A round of the loop at page `mid`. Where the source's `size` becomes negative, the next round
-- adds `lines` to it again, which is the distance that was subtracted.
unfoldable pub step : Page → ℕ → Search → Step
step p mid s =
    let gap = p.lindex - s.offset in
    let there = p.lindex + length p.text in
    elim (ltb s.size gap) [
      | true ↦ again (record s { last = mid; lines = gap })
      | false ↦ elim (leb (length p.text) (s.size - gap)) [
        | true ↦ again (record s {
          first = suc mid;
          lines = s.lines - (there - s.offset);
          size = s.size - gap - length p.text;
          offset = there;
        })
        | false ↦ found (s.size - gap)
      ]
    ]

-- The loop; none where a page is missing or the fuel is spent.
unfoldable pub find : ℕ → List Page → ℕ → Search → Option (ℕ × ℕ)
find zero chain mid s = none
find (suc fuel) chain mid s = elim (page_at chain mid) [
  | none ↦ none
  | some p ↦ elim (step p mid s) [
    | found n ↦ some (mid, n)
    | again t ↦ find fuel chain (guess_page t) t
  ]
]

-- The search before its first round: `size` is counted from the subrange's first line.
unfoldable pub find_line : Range → ℕ → Option (ℕ × ℕ)
find_line r size = elim (page_at r.chain r.lfirst) [
  | none ↦ none
  | some p ↦ find (suc (r.llast - r.lfirst)) r.chain r.lfirst (record {
    first = 0;
    last = suc r.llast;
    lines = r.lines + r.index1;
    size = size + r.index1;
    offset = p.lindex;
  })
]
