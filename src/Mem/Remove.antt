-- ===== src/Mem/Remove.antt =====
-- What del does to the chunks of a tree.
use mathlib.Core.List.{append_assoc}
use dgd.Prelude.{◌≡◌, refl, sym, ap, subst, ◌∙◌, ℕ, List, [], ◌∷◌, ◌++◌, some}
use dgd.Mem.{Chunk, SplayNode, null, node, rotate, without_root, Turn, left, right, node_at, del}
use dgd.Mem.Descend.{inorder, AtLeast, IsSorted}
use dgd.Mem.Laws.{IsOrdered}

inorder-rotate :
    (a : SplayNode) (t : Chunk) (b x : SplayNode)
    → inorder (rotate a t b x) ≡ inorder a ++ t ∷ (inorder b ++ inorder x)
unfolding rotate inorder
inorder-rotate a t null x = refl
inorder-rotate a t (node b1 r b2) x = inorder-rotate (node a t b1) r b2 x ∙ simp append_assoc

inorder-without_root :
    (a : SplayNode) (n : Chunk) (b : SplayNode)
    → inorder (without_root (node a n b)) ≡ inorder a ++ inorder b
unfolding without_root inorder
inorder-without_root null n b = refl
inorder-without_root (node a1 t a2) n b = inorder-rotate a1 t a2 b ∙ simp append_assoc

AtLeast-both :
    (s : ℕ) (n : Chunk) (xs ys : List Chunk) → AtLeast s (xs ++ n ∷ ys) → AtLeast s (xs ++ ys)
AtLeast-both s n [] ys p = p.1
AtLeast-both s n (x ∷ xs) ys p = (p.0, AtLeast-both s n xs ys p.1)

IsSorted-remove : (n : Chunk) (xs ys : List Chunk) → IsSorted (xs ++ n ∷ ys) → IsSorted (xs ++ ys)
IsSorted-remove n [] ys v = v.1
IsSorted-remove n (x ∷ xs) ys v = (AtLeast-both x.size n xs ys v.0, IsSorted-remove n xs ys v.1)

-- The chunk, and what is before and behind it.
abbrev Removes : SplayNode → SplayNode → Chunk → Type 0
Removes x x' n =
    (xs : List Chunk) × (ys : List Chunk) × (inorder x ≡ xs ++ n ∷ ys) × (inorder x' ≡ xs ++ ys)

del-Removes :
    (path : List Turn) (x : SplayNode) (n : Chunk)
    → node_at path x ≡ some n
    → Removes x (del path x) n
unfolding del node_at inorder
del-Removes path null n e = absurd cc
del-Removes [] (node a m b) n e =
    let same : m ≡ n = cc in
    (inorder a, inorder b, ap (λ c. inorder a ++ c ∷ inorder b) same, inorder-without_root a m b)
del-Removes (left ∷ path) (node a m b) n e =
    let (xs, ys, whole, less) = del-Removes path a n e in
    (
      xs,
      ys ++ m ∷ inorder b,
      rw whole (append_assoc xs (n ∷ ys) (m ∷ inorder b)),
      rw less (append_assoc xs ys (m ∷ inorder b)),
    )
del-Removes (right ∷ path) (node a m b) n e =
    let (xs, ys, whole, less) = del-Removes path b n e in
    (
      inorder a ++ m ∷ xs,
      ys,
      rw whole (sym (append_assoc (inorder a) (m ∷ xs) (n ∷ ys))),
      rw less (sym (append_assoc (inorder a) (m ∷ xs) ys)),
    )

-- The node that is deleted is gone from the chunks, the others keep their order, and the tree stays
-- ordered.
pub del-IsOrdered :
    (path : List Turn) (x : SplayNode) (n : Chunk)
    → IsOrdered x
    → node_at path x ≡ some n
    → IsOrdered (del path x)
      × (xs : List Chunk) × (ys : List Chunk) × (inorder x ≡ xs ++ n ∷ ys)
      × (inorder (del path x) ≡ xs ++ ys)
del-IsOrdered path x n v e =
    let (xs, ys, whole, less) = del-Removes path x n e in
    (
      subst IsSorted (sym less) (IsSorted-remove n xs ys (subst IsSorted whole v)),
      xs,
      ys,
      whole,
      less,
    )
