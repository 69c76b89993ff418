-- ===== src/Mem.antt =====
-- The splay trees of free chunks of memory (class SplayNode of src/alloc.cpp). Links to parents are
-- left out: a node is named by the path to it.
pub mod Descend
pub mod Laws
pub mod Remove
mod Tests
use dgd.Prelude.{ℕ, Bool, true, false, List, [], ◌∷◌, Option, none, some, ltb}

-- A chunk at its address.
pub record Chunk : Type 0 where
  pub addr : ℕ
  pub size : ℕ

pub data SplayNode : Type 0 where
  null : SplayNode
  node : SplayNode → Chunk → SplayNode → SplayNode

-- What hangs at `l->right` and at `r->left` while the loops run, the last piece first: each piece
-- is a node with its other subtree.
abbrev pub Lefts : Type 0
Lefts = List (SplayNode × Chunk)

abbrev pub Rights : Type 0
Rights = List (Chunk × SplayNode)

-- The loop that `insert` and `seek` share.
unfoldable pub descend : ℕ → Lefts → Rights → SplayNode → Lefts × Rights
descend size l r null = (l, r)
descend size l r (node null n null) = elim (ltb n.size size) [
  | true ↦ ((null, n) ∷ l, r)
  | false ↦ (l, (n, null) ∷ r)
]
descend size l r (node null n (node b1 t b2)) = elim (ltb n.size size) [
  | true ↦ elim (ltb t.size size) [
    | false ↦ descend size ((null, n) ∷ l) r (node b1 t b2)
    | true ↦ descend size ((node null n b1, t) ∷ l) r b2
  ]
  | false ↦ (l, (n, node b1 t b2) ∷ r)
]
descend size l r (node (node a1 u a2) n null) = elim (ltb n.size size) [
  | true ↦ ((node a1 u a2, n) ∷ l, r)
  | false ↦ elim (ltb u.size size) [
    | true ↦ descend size l ((n, null) ∷ r) (node a1 u a2)
    | false ↦ descend size l ((u, node a2 n null) ∷ r) a1
  ]
]
descend size l r (node (node a1 u a2) n (node b1 t b2)) = elim (ltb n.size size) [
  | true ↦ elim (ltb t.size size) [
    | false ↦ descend size ((node a1 u a2, n) ∷ l) r (node b1 t b2)
    | true ↦ descend size ((node (node a1 u a2) n b1, t) ∷ l) r b2
  ]
  | false ↦ elim (ltb u.size size) [
    | true ↦ descend size l ((n, node b1 t b2) ∷ r) (node a1 u a2)
    | false ↦ descend size l ((u, node a2 n (node b1 t b2)) ∷ r) a1
  ]
]

-- The pieces as one tree, with `x` at the link that is still open.
unfoldable pub close_left : Lefts → SplayNode → SplayNode
close_left [] x = x
close_left ((a, n) ∷ l) x = close_left l (node a n x)

unfoldable pub close_right : Rights → SplayNode → SplayNode
close_right [] x = x
close_right ((n, b) ∷ r) x = close_right r (node x n b)

unfoldable pub insert : SplayNode → Chunk → SplayNode
insert tree t =
    let (l, r) = descend t.size [] [] tree in node (close_left l null) t (close_right r null)

-- The end of `seek`: the node that was linked last on the right is taken out and becomes the root.
unfoldable pub seek_end : Lefts → Rights → Option Chunk × SplayNode
seek_end l [] = (none, close_left l null)
seek_end l ((n, b) ∷ r) = (some n, node (close_left l null) n (close_right r b))

unfoldable pub seek : SplayNode → ℕ → Option Chunk × SplayNode
seek tree size = let (l, r) = descend size [] [] tree in seek_end l r

-- `del` of the node at the root: its left subtree is rotated until its greatest node, `t`, is the
-- root, which gets the right subtree.
unfoldable pub rotate : SplayNode → Chunk → SplayNode → SplayNode → SplayNode
rotate a t null right = node a t right
rotate a t (node b1 r b2) right = rotate (node a t b1) r b2 right

unfoldable pub without_root : SplayNode → SplayNode
without_root null = null
without_root (node null n b) = b
without_root (node (node a1 t a2) n b) = rotate a1 t a2 b

-- The way from the root to a node.
pub data Turn : Type 0 where
  left right : Turn

unfoldable pub node_at : List Turn → SplayNode → Option Chunk
node_at path null = none
node_at [] (node a n b) = some n
node_at (left ∷ path) (node a n b) = node_at path a
node_at (right ∷ path) (node a n b) = node_at path b

unfoldable pub del : List Turn → SplayNode → SplayNode
del path null = null
del [] (node a n b) = without_root (node a n b)
del (left ∷ path) (node a n b) = node (del path a) n b
del (right ∷ path) (node a n b) = node a n (del path b)
