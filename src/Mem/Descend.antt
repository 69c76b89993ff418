-- ===== src/Mem/Descend.antt =====
-- What the loop of insert and seek does to the chunks of a tree.
use mathlib.Core.List.{append_assoc, append-nil}
use dgd.Prelude.{
  ℕ, ◌≤◌, ◌<◌, ◌≡◌, refl, sym, ap, subst, ◌∙◌, List, [], ◌∷◌, ◌++◌, arith, ltb, ltb-true, ltb-false,
  Bool-cases, inl, inr, All,
}
use dgd.Mem.{Chunk, SplayNode, null, node, Lefts, Rights, descend, close_left, close_right}

-- The chunks of a tree, from the left to the right.
unfoldable pub inorder : SplayNode → List Chunk
inorder null = []
inorder (node a n b) = inorder a ++ n ∷ inorder b

abbrev pub left_list : Lefts → List Chunk
left_list [] = []
left_list ((a, n) ∷ l) = left_list l ++ inorder a ++ n ∷ []

abbrev pub right_list : Rights → List Chunk
right_list [] = []
right_list ((n, b) ∷ r) = n ∷ inorder b ++ right_list r

abbrev pub Below : ℕ → List Chunk → Type 0
Below s = All (λ c. c.size < s)

abbrev pub AtLeast : ℕ → List Chunk → Type 0
AtLeast s = All (λ c. s ≤ c.size)

-- The sizes of the chunks do not decrease.
abbrev pub IsSorted : List Chunk → Type 0
IsSorted [] = Unit
IsSorted (c ∷ cs) = AtLeast c.size cs × IsSorted cs

pub inorder-close_left :
    (l : Lefts) (x : SplayNode) → inorder (close_left l x) ≡ left_list l ++ inorder x
unfolding close_left inorder
inorder-close_left [] x = refl
inorder-close_left ((a, n) ∷ l) x = inorder-close_left l (node a n x) ∙ simp append_assoc

pub inorder-close_right :
    (r : Rights) (x : SplayNode) → inorder (close_right r x) ≡ inorder x ++ right_list r
unfolding close_right inorder
inorder-close_right [] x = sym (append-nil (inorder x))
inorder-close_right ((n, b) ∷ r) x = inorder-close_right r (node x n b) ∙ simp append_assoc

AtLeast-mono : (s t : ℕ) (cs : List Chunk) → s ≤ t → AtLeast t cs → AtLeast s cs
AtLeast-mono s t [] h p = tt
AtLeast-mono s t (c ∷ cs) h p = (omega (arith, p.0), AtLeast-mono s t cs h p.1)

from_middle :
    (s : ℕ) (xs ys : List Chunk) (n : Chunk)
    → IsSorted (xs ++ n ∷ ys)
    → s ≤ n.size
    → AtLeast s (n ∷ ys)
from_middle s [] ys n v h = (h, AtLeast-mono s n.size ys h v.0)
from_middle s (x ∷ xs) ys n v h = from_middle s xs ys n v.1 h

at_middle : (s : ℕ) (xs ys : List Chunk) (n : Chunk) → AtLeast s (xs ++ n ∷ ys) → s ≤ n.size
at_middle s [] ys n v = v.0
at_middle s (x ∷ xs) ys n v = at_middle s xs ys n v.1

upto_middle :
    (s : ℕ) (xs ys : List Chunk) (n : Chunk)
    → IsSorted (xs ++ n ∷ ys)
    → n.size < s
    → Below s (xs ++ n ∷ [])
upto_middle s [] ys n v h = (h, tt)
upto_middle s (x ∷ xs) ys n v h =
    (omega (arith, h, at_middle x.size xs ys n v.0), upto_middle s xs ys n v.1 h)

-- While the loop runs, the pieces and the tree that is left are the sorted chunks `cs`, with the
-- smaller ones on the left.
module _ (cs : List Chunk) (v : IsSorted cs) (s : ℕ) where
  pub record IsSwept (l : Lefts) (x : SplayNode) (r : Rights) : Type 0 where
    pub whole : left_list l ++ inorder x ++ right_list r ≡ cs
    pub low : Below s (left_list l)
    pub high : AtLeast s (right_list r)

  link_left :
      (l : Lefts) (a b : SplayNode) (n : Chunk) (r : Rights)
      → n.size < s
      → IsSwept l (node a n b) r
      → IsSwept ((a, n) ∷ l) b r
  unfolding inorder
  link_left l a b n r h x =
      let same : left_list l ++ inorder a ++ n ∷ (inorder b ++ right_list r) ≡ cs =
        sym (simp append_assoc) ∙ x.whole in
      record {
        whole = (simp append_assoc) ∙ same;
        low =
            upto_middle s (left_list l ++ inorder a) (inorder b ++ right_list r) n
              (subst IsSorted (sym same) v) h;
        high = x.high;
      }

  link_right :
      (l : Lefts) (a b : SplayNode) (n : Chunk) (r : Rights)
      → s ≤ n.size
      → IsSwept l (node a n b) r
      → IsSwept l a ((n, b) ∷ r)
  unfolding inorder
  link_right l a b n r h x =
      let same : left_list l ++ inorder a ++ n ∷ (inorder b ++ right_list r) ≡ cs =
        sym (simp append_assoc) ∙ x.whole in
      record {
        whole = same;
        low = x.low;
        high =
            from_middle s (left_list l ++ inorder a) (inorder b ++ right_list r) n
              (subst IsSorted (sym same) v) h;
      }

  turn :
      (l : Lefts) (x y : SplayNode) (r : Rights)
      → inorder x ≡ inorder y
      → IsSwept l x r
      → IsSwept l y r
  turn l x y r e w = record {
    whole = ap (λ zs. left_list l ++ zs ++ right_list r) (sym e) ∙ w.whole;
    low = w.low;
    high = w.high;
  }

  turn_left :
      (l : Lefts) (a : SplayNode) (n : Chunk) (b1 : SplayNode) (t : Chunk) (b2 : SplayNode)
      (r : Rights)
      → IsSwept l (node a n (node b1 t b2)) r
      → IsSwept l (node (node a n b1) t b2) r
  unfolding inorder
  turn_left l a n b1 t b2 r w =
      turn l (node a n (node b1 t b2)) (node (node a n b1) t b2) r (simp append_assoc) w

  turn_right :
      (l : Lefts) (a1 : SplayNode) (t : Chunk) (a2 : SplayNode) (n : Chunk) (b : SplayNode)
      (r : Rights)
      → IsSwept l (node (node a1 t a2) n b) r
      → IsSwept l (node a1 t (node a2 n b)) r
  unfolding inorder
  turn_right l a1 t a2 n b r w =
      turn l (node (node a1 t a2) n b) (node a1 t (node a2 n b)) r (simp append_assoc) w

  pub descend-IsSwept :
      (l : Lefts) (r : Rights) (x : SplayNode)
      → IsSwept l x r
      → IsSwept (descend s l r x).0 null (descend s l r x).1
  unfolding descend
  descend-IsSwept l r null w = w
  descend-IsSwept l r (node null n null) w = elim (Bool-cases (ltb n.size s)) [
    | inl e ↦ rw (descend, e) (link_left l null null n r (ltb-true n.size s e) w)
    | inr e ↦ rw (descend, e) (link_right l null null n r (ltb-false n.size s e) w)
  ]
  descend-IsSwept l r (node null n (node b1 t b2)) w = elim (Bool-cases (ltb n.size s)) [
    | inl e ↦ elim (Bool-cases (ltb t.size s)) [
      | inr e' ↦
          rw (descend, e, e')
            (descend-IsSwept ((null, n) ∷ l) r (node b1 t b2)
              (link_left l null (node b1 t b2) n r (ltb-true n.size s e) w))
      | inl e' ↦
          rw (descend, e, e')
            (descend-IsSwept ((node null n b1, t) ∷ l) r b2 (
              link_left l (node null n b1) b2 t r (ltb-true t.size s e')
                (turn_left l null n b1 t b2 r w)))
    ]
    | inr e ↦ rw (descend, e) (link_right l null (node b1 t b2) n r (ltb-false n.size s e) w)
  ]
  descend-IsSwept l r (node (node a1 u a2) n null) w = elim (Bool-cases (ltb n.size s)) [
    | inl e ↦ rw (descend, e) (link_left l (node a1 u a2) null n r (ltb-true n.size s e) w)
    | inr e ↦ elim (Bool-cases (ltb u.size s)) [
      | inl e' ↦
          rw (descend, e, e')
            (descend-IsSwept l ((n, null) ∷ r) (node a1 u a2)
              (link_right l (node a1 u a2) null n r (ltb-false n.size s e) w))
      | inr e' ↦
          rw (descend, e, e')
            (descend-IsSwept l ((u, node a2 n null) ∷ r) a1 (
              link_right l a1 (node a2 n null) u r (ltb-false u.size s e')
                (turn_right l a1 u a2 n null r w)))
    ]
  ]
  descend-IsSwept l r (node (node a1 u a2) n (node b1 t b2)) w = elim (Bool-cases (ltb n.size s)) [
    | inl e ↦ elim (Bool-cases (ltb t.size s)) [
      | inr e' ↦
          rw (descend, e, e')
            (descend-IsSwept ((node a1 u a2, n) ∷ l) r (node b1 t b2)
              (link_left l (node a1 u a2) (node b1 t b2) n r (ltb-true n.size s e) w))
      | inl e' ↦
          rw (descend, e, e')
            (descend-IsSwept ((node (node a1 u a2) n b1, t) ∷ l) r b2 (
              link_left l (node (node a1 u a2) n b1) b2 t r (ltb-true t.size s e')
                (turn_left l (node a1 u a2) n b1 t b2 r w)))
    ]
    | inr e ↦ elim (Bool-cases (ltb u.size s)) [
      | inl e' ↦
          rw (descend, e, e')
            (descend-IsSwept l ((n, node b1 t b2) ∷ r) (node a1 u a2)
              (link_right l (node a1 u a2) (node b1 t b2) n r (ltb-false n.size s e) w))
      | inr e' ↦
          rw (descend, e, e')
            (descend-IsSwept l ((u, node a2 n (node b1 t b2)) ∷ r) a1 (
              link_right l a1 (node a2 n (node b1 t b2)) u r (ltb-false u.size s e')
                (turn_right l a1 u a2 n (node b1 t b2) r w)))
    ]
  ]
