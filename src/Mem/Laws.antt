-- ===== src/Mem/Laws.antt =====
-- What insert and seek do to the chunks of a tree.
use mathlib.Core.List.{append-nil}
use dgd.Prelude.{ℕ, ◌≤◌, ◌≡◌, refl, sym, subst, ◌∙◌, List, [], ◌∷◌, ◌++◌, Option, none, some, arith}
use dgd.Mem.{
  Chunk, SplayNode, null, node, Lefts, Rights, descend, close_left, close_right, insert, seek_end,
  seek,
}
use dgd.Mem.Descend.{
  inorder, left_list, right_list, Below, AtLeast, IsSorted, IsSwept, inorder-close_left,
  inorder-close_right, descend-IsSwept,
}

-- A tree whose chunks do not decrease in size from the left to the right.
abbrev pub IsOrdered : SplayNode → Type 0
IsOrdered x = IsSorted (inorder x)

at_start : (x : SplayNode) (v : IsOrdered x) (s : ℕ) → IsSwept (inorder x) v s [] x []
at_start x v s = record { whole = append-nil (inorder x); low = tt; high = tt }

AtLeast-insert :
    (s : ℕ) (c : Chunk) (xs ys : List Chunk)
    → AtLeast s (xs ++ ys)
    → s ≤ c.size
    → AtLeast s (xs ++ c ∷ ys)
AtLeast-insert s c [] ys p h = (h, p)
AtLeast-insert s c (x ∷ xs) ys p h = (p.0, AtLeast-insert s c xs ys p.1 h)

IsSorted-insert :
    (c : Chunk) (small large : List Chunk)
    → IsSorted (small ++ large)
    → Below c.size small
    → AtLeast c.size large
    → IsSorted (small ++ c ∷ large)
IsSorted-insert c [] large v p q = (q, v)
IsSorted-insert c (x ∷ small) large v p q = (
  AtLeast-insert x.size c small large v.0 (omega (arith, p.0)),
  IsSorted-insert c small large v.1 p.1 q,
)

-- A chunk is inserted at the root, behind the smaller chunks and before the others: the tree keeps
-- its chunks and stays ordered.
pub insert-IsOrdered :
    (x : SplayNode) (c : Chunk)
    → IsOrdered x
    → IsOrdered (insert x c)
      × (small : List Chunk) × (large : List Chunk) × (inorder x ≡ small ++ large)
      × (inorder (insert x c) ≡ small ++ c ∷ large)
unfolding insert inorder
insert-IsOrdered x c v =
    let w = descend-IsSwept (inorder x) v c.size [] [] x (at_start x v c.size) in
    let l = (descend c.size [] [] x).0 in
    let r = (descend c.size [] [] x).1 in
    let all : left_list l ++ right_list r ≡ inorder x = sym (simp append-nil) ∙ w.whole in
    let made : inorder (insert x c) ≡ left_list l ++ c ∷ right_list r =
      rw (insert, inorder-close_left l null, inorder-close_right r null, append-nil (left_list l))
        refl in
    (
      subst IsSorted (sym made) (
          IsSorted-insert c (left_list l) (right_list r) (subst IsSorted (sym all) v) w.low w.high),
      left_list l,
      right_list r,
      sym all,
      made,
    )

-- What seek promises of its result: every chunk is too small, or the first chunk that is large
-- enough, which became the root.
pub data Sought (x : SplayNode) (size : ℕ) : Option Chunk × SplayNode → Type 0 where
  missing : (x' : SplayNode) → Below size (inorder x) → Sought x size (none, x')
  found :
      (n : Chunk) (a b : SplayNode)
      → (small : List Chunk) (rest : List Chunk) → inorder x ≡ small ++ n ∷ rest
      → Below size small
      → size ≤ n.size
      → Sought x size (some n, node a n b)

seek_end-Sought :
    (x : SplayNode) (v : IsOrdered x) (size : ℕ) (l : Lefts) (r : Rights)
    → IsSwept (inorder x) v size l null r
    → Sought x size (seek_end l r) × (inorder (seek_end l r).1 ≡ inorder x)
unfolding seek_end inorder
seek_end-Sought x v size l [] w =
    let all : left_list l ≡ inorder x = sym (simp append-nil) ∙ w.whole in
    (
      missing (close_left l null) (subst (Below size) all w.low),
      inorder-close_left l null ∙ append-nil (left_list l) ∙ all,
    )
seek_end-Sought x v size l ((n, b) ∷ r) w =
    let all : left_list l ++ n ∷ (inorder b ++ right_list r) ≡ inorder x =
      sym (simp append-nil) ∙ w.whole in
    (
      found n (close_left l null) (close_right r b) (left_list l) (inorder b ++ right_list r)
          (sym all) w.low w.high.0,
      rw (inorder-close_left l null, inorder-close_right r b, append-nil (left_list l)) all,
    )

-- seek finds the first chunk that is large enough, and makes it the root, or there is none; the
-- tree keeps its chunks in their order.
pub seek-Sought :
    (x : SplayNode) (size : ℕ)
    → IsOrdered x
    → Sought x size (seek x size) × (inorder (seek x size).1 ≡ inorder x)
unfolding seek
seek-Sought x size v =
    seek_end-Sought x v size (descend size [] [] x).0 (descend size [] [] x).1
      (descend-IsSwept (inorder x) v size [] [] x (at_start x v size))
