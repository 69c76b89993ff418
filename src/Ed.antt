-- ===== src/Ed.antt =====
-- Blocks of lines in the editor's line buffer (src/ed/line.h, src/ed/line.cpp), and their
-- concatenation. Blocks are never discarded and never changed once they are made, so a block
-- number stands here for the tree of blocks below it.
pub mod Cat
pub mod Chain
pub mod Find
pub mod Split
pub mod Put
pub mod Buffer
pub mod Steps
pub mod TooLarge
pub mod Edits
pub mod Insert
pub mod Restore
pub mod Create
pub mod Lines
mod Tests
use Prim.Native.Nat.{max}
use dgd.Prelude.{
  ℕ, suc, ◌+◌, Bool, true, false, not, ◌&&◌, ◌||◌, List, Option, none, some, ltb, ◌==◌,
  if◌then◌else◌,
}

-- The bytes of a line.
abbrev pub Line : Type 0
Line = List ℕ

-- A chain block with the lines that follow it.
pub record Page : Type 0 where
  pub lindex : ℕ
  pub text : List Line

-- A subrange block. `lfirst` and `llast` are places in the chain of pages.
pub record Range : Type 0 where
  pub chain : List Page
  pub lfirst : ℕ
  pub llast : ℕ
  pub lines : ℕ
  pub index1 : ℕ
  pub index2 : ℕ

-- `joined first last lines depth full` is a CAT block, with EDDEPTH and EDFULLTREE apart.
pub data Block : Type 0 where
  range : Range → Block
  joined : Block → Block → ℕ → ℕ → Bool → Block

abbrev pub size : Block → ℕ
size (range r) = r.lines
size (joined first last lines d u) = lines

abbrev pub depth : Block → ℕ
depth (range r) = 1
depth (joined first last lines d u) = d

abbrev pub is_full : Block → Bool
is_full (range r) = true
is_full (joined first last lines d u) = u

-- EDMAXDEPTH
abbrev pub max_depth : ℕ
max_depth = 10000

-- Whether the tree of two blocks gets the mark EDFULLTREE.
unfoldable pub mark : Block → Block → Bool
mark b1 b2 = depth b1 == depth b2 && (depth b1 == 1 || is_full b1 && is_full b2)

-- The end of `cat`, after the subblocks are chosen; none is "Editor line tree too large".
unfoldable pub finish_cat : ℕ → Block → Block → Option Block
finish_cat lines b1 b2 =
    let deeper = suc (max (depth b1) (depth b2)) in
    if ltb max_depth deeper then none else some (joined b1 b2 lines deeper (mark b1 b2))

unfoldable pub finish_first : ℕ → Option Block → Block → Option Block
finish_first lines none b2 = none
finish_first lines (some b1) b2 = finish_cat lines b1 b2

unfoldable pub finish_last : ℕ → Block → Option Block → Option Block
finish_last lines b1 none = none
finish_last lines b1 (some b2) = finish_cat lines b1 b2

unfoldable pub cat : Block → Block → Option Block
cat (range r) (range s) = finish_cat (r.lines + s.lines) (range r) (range s)
cat (range r) (joined f l n d u) = elim (ltb 1 d && not u) [
  | true ↦ finish_first (r.lines + n) (cat (range r) f) l
  | false ↦ finish_cat (r.lines + n) (range r) (joined f l n d u)
]
cat (joined f l n d u) (range s) = elim (ltb 1 d && not u) [
  | true ↦ finish_last (n + s.lines) f (cat l (range s))
  | false ↦ finish_cat (n + s.lines) (joined f l n d u) (range s)
]
cat (joined f l n d u) (joined f' l' n' d' u') = elim (ltb d d' && not u') [
  | true ↦ finish_first (n + n') (cat (joined f l n d u) f') l'
  | false ↦ elim (ltb d' d && not u) [
    | true ↦ finish_last (n + n') f (cat l (joined f' l' n' d' u'))
    | false ↦ finish_cat (n + n') (joined f l n d u) (joined f' l' n' d' u')
  ]
]
