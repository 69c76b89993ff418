-- ===== src/Ed/Tests.antt =====
-- Runs of the editor's line buffer, and the theorems at concrete buffers.
use dgd.Prelude.{ℕ, length, ◌+◌, ◌≤◌, ◌≡◌, refl, true, List, [], ◌∷◌, some, none, arith, inl}
use dgd.Ed.{Line, Range, Block, range, joined, depth, cat}
use dgd.Ed.Cat.{IsRange, IsBlock, IsCat, lines_of, first_place, cat-IsCat}
use dgd.Ed.Chain.{find_line, find, step, guess_page}
use dgd.Ed.Find.{IsPlace, find_line_lem}
use dgd.Ed.Split.{split1}
use dgd.Ed.Split.Laws.{IsSplit}
use dgd.Ed.Split.Tree.{split1-IsSplit}
use dgd.Ed.Put.{put}
use dgd.Ed.Put.Whole.{put-view}
use dgd.Ed.Create.{WriteBuf, create}
use dgd.Ed.Create.Laws.{Fits, create-Fits}
use dgd.Ed.Buffer.{EditBuf, done, failed, too_many, del, change, add}
use dgd.Ed.Buffer
use dgd.Ed.Steps.{Shows, Holds, levels}
use dgd.Ed.Edits.{IsPart, del-Shows, change-Shows}
use dgd.Ed.Insert.{put-Shows}
use dgd.Ed.Restore.{put-del}
use dgd.Ed.Lines.{Lines, startblock, add_all}
use dgd.Ed.Lines.Laws.{Outcome, add_all-Holds}

-- Five lines in two pages, and a line of its own.
abbrev line : ℕ → Line
line n = n ∷ []

abbrev two_pages : Range
two_pages = record {
  chain =
      record { lindex = 0; text = line 1 ∷ line 2 ∷ [] }
      ∷ record { lindex = 2; text = line 3 ∷ line 4 ∷ line 5 ∷ [] }
      ∷ [];
  lfirst = 0;
  llast = 1;
  lines = 5;
  index1 = 0;
  index2 = 0;
}

abbrev one_page : Range
one_page = record {
  chain = record { lindex = 0; text = line 6 ∷ [] } ∷ [];
  lfirst = 0;
  llast = 0;
  lines = 1;
  index1 = 0;
  index2 = 0;
}

two_pages-IsRange : IsRange two_pages
two_pages-IsRange = omega arith

one_page-IsRange : IsRange one_page
one_page-IsRange = omega arith

abbrev tree : Block
tree = joined (range two_pages) (range one_page) 6 2 true

tree-IsBlock : IsBlock tree
unfolding IsBlock
tree-IsBlock = (two_pages-IsRange, one_page-IsRange, refl, refl, refl)

range-IsBlock : IsBlock (range one_page)
unfolding IsBlock
range-IsBlock = one_page-IsRange

find_line_lem_example :
    (page : ℕ) × (n : ℕ) × (find_line two_pages 3 ≡ some (page, n))
    × IsPlace two_pages.chain (first_place two_pages + 3) page n
find_line_lem_example = find_line_lem two_pages two_pages-IsRange 3 (omega arith)

-- The fourth line stands in the second page.
find_line_runs : find_line two_pages 3 ≡ some (1, 1)
unfolding find_line find step guess_page
find_line_runs = refl

cat-IsCat_example :
    (b : Block) × (cat tree (range one_page) ≡ some b) × IsCat tree (range one_page) b
cat-IsCat_example =
    cat-IsCat tree (range one_page) tree-IsBlock range-IsBlock (omega arith) (omega arith)

split1-IsSplit_example :
    (h : Block) × (t : Block) × (split1 true true tree 3 ≡ some (some h, some t))
    × IsSplit tree 3 h t
split1-IsSplit_example =
    split1-IsSplit true true tree 3 tree-IsBlock (omega arith) (omega arith) (omega arith)

put-view_example : put true tree 1 4 ≡ some (line 5 ∷ line 4 ∷ line 3 ∷ line 2 ∷ [])
unfolding lines_of
put-view_example = put-view true tree 1 4 tree-IsBlock (omega arith) (omega arith)

abbrev six : List Line
six = line 1 ∷ line 2 ∷ line 3 ∷ line 4 ∷ line 5 ∷ line 6 ∷ []

abbrev buffer : EditBuf
buffer = record { buffer = some tree; lines = 6 }

buffer-Shows : Shows buffer six
unfolding Holds lines_of
buffer-Shows = record { holds = (tree-IsBlock, refl); counted = refl }

one_page-IsPart : IsPart (range one_page) (line 6 ∷ [])
unfolding lines_of
one_page-IsPart = record { valid = range-IsBlock; text = refl }

put-Shows_example :
    (eb' : EditBuf) × (Buffer.put 2 (range one_page) buffer ≡ done eb')
    × Shows eb' (line 1 ∷ line 2 ∷ line 6 ∷ line 3 ∷ line 4 ∷ line 5 ∷ line 6 ∷ [])
    × (levels eb'.buffer ≤ 4)
put-Shows_example =
    put-Shows buffer six buffer-Shows (range one_page) (line 6 ∷ []) one_page-IsPart (omega arith)
      (omega arith) 2 (omega arith) (omega arith)

one_page-Holds : Holds (some (range one_page)) (line 6 ∷ [])
unfolding Holds lines_of
one_page-Holds = (range-IsBlock, refl)

del-Shows_example :
    (mid : Block) × (eb' : EditBuf) × (del 2 5 buffer ≡ done (mid, eb'))
    × IsPart mid (line 2 ∷ line 3 ∷ line 4 ∷ line 5 ∷ [])
    × Shows eb' (line 1 ∷ line 6 ∷ [])
    × (levels eb'.buffer ≤ 3)
    × (depth mid ≤ 2)
del-Shows_example =
    del-Shows buffer six buffer-Shows 2 5 (omega arith) (omega arith) (omega arith) (omega arith)

change-Shows_example :
    (eb' : EditBuf) × (change 2 5 (some (range one_page)) buffer ≡ done eb')
    × Shows eb' (line 1 ∷ line 6 ∷ line 6 ∷ [])
    × (levels eb'.buffer ≤ 4)
change-Shows_example =
    change-Shows buffer six buffer-Shows 2 5 (omega arith) (omega arith) (omega arith)
      (some (range one_page)) (line 6 ∷ []) one_page-Holds (omega arith) (omega arith) (omega arith)

put-del_example :
    (mid : Block) × (eb' : EditBuf) × (eb'' : EditBuf) × (del 2 5 buffer ≡ done (mid, eb'))
    × (Buffer.put 1 mid eb' ≡ done eb'')
    × Shows eb'' six
put-del_example =
    put-del buffer six 2 5 buffer-Shows (omega arith) (omega arith) (omega arith) (omega arith)
      (omega arith)

-- A write buffer with two blocks.
abbrev started : WriteBuf
started = record { blksz = 34; txtsz = 7 }

started-Fits : Fits started
started-Fits = record { apart = omega arith; used = inl (omega arith) }

create-Fits_example : Fits (create 8 started six).1
create-Fits_example = create-Fits 8 started six started-Fits (omega arith)

abbrev lines : Lines
lines = record { flines = none; pending = []; szlines = 0; wb = started }

add_all-Holds_example :
    Outcome (add_all 8 six (startblock lines)) (λ s'. Holds s'.flines six) (length six)
add_all-Holds_example = add_all-Holds 8 six lines
