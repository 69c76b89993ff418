-- ===== src/Ed/Put.antt =====
-- Printing the lines of a block, forwards or backwards (src/ed/line.cpp, put1 and put). The lines
-- that putline gets are the result.
pub mod Pages
pub mod Whole
use Prim.Native.Nat.{min, max}
use dgd.Prelude.{
  ℕ, zero, suc, ◌-◌, ◌+◌, Bool, true, false, List, [], ◌++◌, reverse, Option, none, some, ltb, ◌==◌,
  if◌then◌else◌, length, take, drop,
}
use dgd.Ed.{Line, Page, Range, Block, range, joined, size}
use dgd.Ed.Chain.{page_at, find_line}

unfoldable pub print : List Line → Option (List Line) → Option (List Line)
print xs none = none
print xs (some ys) = some (xs ++ ys)

-- The inner loop prints `n` lines from `idx` on; a line is printed before `n` is tested.
abbrev pub page_lines : ℕ → ℕ → List Line → List Line
page_lines idx n text = take (max 1 n) (drop idx text)

-- The loop over the pages from page `mid` on.
unfoldable pub put_forward : ℕ → List Page → ℕ → ℕ → ℕ → Option (List Line)
put_forward zero chain mid idx n = none
put_forward (suc fuel) chain mid idx n = elim (page_at chain mid) [
  | none ↦ none
  | some p ↦
      let lines = min n (length p.text - idx) in
      let out = page_lines idx lines p.text in
      elim (n - lines == 0) [
        | true ↦ some out
        | false ↦ print out (put_forward fuel chain (suc mid) 0 (n - lines))
      ]
]

-- The loop over the pages from page `mid` back, where `idx` counts from the end of a page; the
-- page before the first is -1.
unfoldable pub put_backward : ℕ → List Page → ℕ → ℕ → ℕ → Option (List Line)
put_backward zero chain mid idx n = none
put_backward (suc fuel) chain mid idx n = elim (page_at chain mid) [
  | none ↦ none
  | some p ↦
      let lines = min n (length p.text - idx) in
      let out = page_lines idx lines (reverse p.text) in
      elim (n - lines == 0) [
        | true ↦ some out
        | false ↦ elim mid [
          | zero ↦ none
          | suc m ↦ print out (put_backward fuel chain m 0 (n - lines))
        ]
      ]
]

-- put1 for a subrange. The fuel counts the lines: each page prints one at least.
unfoldable pub put_range : Bool → Range → ℕ → ℕ → Option (List Line)
put_range false r idx n = elim (find_line r idx) [
  | none ↦ none
  | some (mid, i) ↦ put_forward (suc n) r.chain mid i n
]
put_range true r idx n = elim (find_line r (r.lines - idx - 1)) [
  | none ↦ none
  | some (mid, i) ↦ elim (page_at r.chain mid) [
    | none ↦ none
    | some p ↦ put_backward (suc n) r.chain mid (length p.text - i - 1) n
  ]
]

-- put1 for a CAT block: what is printed of the block that comes first, which has `lines` lines,
-- and of the other.
unfoldable pub put_two :
    (ℕ → ℕ → Option (List Line)) → (ℕ → ℕ → Option (List Line)) → ℕ → ℕ → ℕ → Option (List Line)
put_two near far lines idx n = elim (ltb idx lines) [
  | true ↦
      let part = min n (lines - idx) in
      elim (near idx part) [
        | none ↦ none
        | some out ↦ elim (ltb 0 (n - part)) [
          | true ↦ print out (far 0 (n - part))
          | false ↦ some out
        ]
      ]
  | false ↦ elim (ltb 0 n) [ true ↦ far (idx - lines) n | false ↦ some [] ]
]

unfoldable pub put1 : Bool → Block → ℕ → ℕ → Option (List Line)
put1 rev (range r) idx n = put_range rev r idx n
put1 false (joined f l m d u) idx n = put_two (put1 false f) (put1 false l) (size f) idx n
put1 true (joined f l m d u) idx n = put_two (put1 true l) (put1 true f) (size l) idx n

unfoldable pub put : Bool → Block → ℕ → ℕ → Option (List Line)
put rev b idx n = put1 rev b (if rev then size b - idx - n else idx) n
