-- ===== src/Mem/Tests.antt =====
-- Runs of the splay trees of chunks, and the theorems at concrete trees.
use dgd.Prelude.{◌+◌, ◌≡◌, refl, ℕ, List, [], ◌∷◌, ◌++◌, some, arith}
use dgd.Mem.{Chunk, SplayNode, null, node, insert, seek, descend, seek_end, left, del, node_at}
use dgd.Mem.Descend.{inorder}
use dgd.Mem.Laws.{IsOrdered, Sought, insert-IsOrdered, seek-Sought}
use dgd.Mem.Remove.{del-IsOrdered}

abbrev chunk_of : ℕ → Chunk
chunk_of n = record { addr = 4096 + n; size = n }

-- Chunks of 16, 32, 48, 64 and 80 bytes.
abbrev tree : SplayNode
tree =
    node (node (node null (chunk_of 16) null) (chunk_of 32) null) (chunk_of 48)
      (node null (chunk_of 64) (node null (chunk_of 80) null))

tree-IsOrdered : IsOrdered tree
unfolding inorder
tree-IsOrdered = omega arith

insert-IsOrdered_example :
    IsOrdered (insert tree (chunk_of 40))
    × (small : List Chunk) × (large : List Chunk) × (inorder tree ≡ small ++ large)
    × (inorder (insert tree (chunk_of 40)) ≡ small ++ chunk_of 40 ∷ large)
insert-IsOrdered_example = insert-IsOrdered tree (chunk_of 40) tree-IsOrdered

seek-Sought_example : Sought tree 50 (seek tree 50) × (inorder (seek tree 50).1 ≡ inorder tree)
seek-Sought_example = seek-Sought tree 50 tree-IsOrdered

-- The chunk of 64 bytes is the first of 50 at least.
seek_finds : (seek tree 50).0 ≡ some (chunk_of 64)
unfolding seek descend seek_end
seek_finds = refl

del-IsOrdered_example :
    IsOrdered (del (left ∷ []) tree)
    × (xs : List Chunk) × (ys : List Chunk) × (inorder tree ≡ xs ++ chunk_of 32 ∷ ys)
    × (inorder (del (left ∷ []) tree) ≡ xs ++ ys)
unfolding node_at
del-IsOrdered_example = del-IsOrdered (left ∷ []) tree (chunk_of 32) tree-IsOrdered refl
