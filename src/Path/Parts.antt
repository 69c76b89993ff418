-- ===== src/Path/Parts.antt =====
-- Cutting a path into components and joining them again: what is kept, and how long the result is.
use Prim.Native.Nat.{max}
use mathlib.Core.List.{reverse-cons, reverse-reverse, append-nil, append_assoc}
use dgd.Prelude.{
  ℕ, suc, ◌+◌, ◌-◌, ◌≤◌, ◌≡◌, refl, List, [], ◌∷◌, ◌++◌, reverse, arith, ◌==◌, Bool-cases, length,
  All, All-append, All-reverse, length-reverse, length-append, inl, inr,
}
use dgd.Path.{slash, dot}
use dgd.Path.Normal.{
  classify, tail, push, normalize, components, join, render, canonical, NotSlash, IsPart, up, down,
  stay,
}

components-append :
    (rc x p : List ℕ) → All NotSlash x → components rc (x ++ p) ≡ components (reverse x ++ rc) p
unfolding components
components-append rc [] p h = refl
components-append rc (a ∷ x) p h =
    rw (h.0, reverse-cons a x, append_assoc (reverse x) (a ∷ []) rc)
      (components-append (a ∷ rc) x p h.1)

pub components-part :
    (x p : List ℕ) → All NotSlash x → components [] (x ++ slash ∷ p) ≡ x ∷ components [] p
unfolding components
components-part x p h =
    rw (components-append [] x (slash ∷ p) h, append-nil (reverse x), components, reverse-reverse x)

components-alone : (x : List ℕ) → All NotSlash x → components [] x ≡ x ∷ []
unfolding components
components-alone x h = rw (append-nil x) at whole
  where
    whole : components [] (x ++ []) ≡ x ∷ []
    whole = rw (components-append [] x [] h, append-nil (reverse x), components, reverse-reverse x)

pub components-join :
    (x : List ℕ) (xs : List (List ℕ)) → All IsPart (x ∷ xs) → components [] (join (x ∷ xs)) ≡ x ∷ xs
unfolding components join
components-join x [] v = components-alone x v.0.plain
components-join x (y ∷ xs) v =
    rw (components-part x (join (y ∷ xs)) v.0.plain, components-join y xs v.1) refl

pub normalize-parts : (st xs : List (List ℕ)) → All IsPart xs → normalize st xs ≡ reverse xs ++ st
unfolding normalize push
normalize-parts st [] v = refl
normalize-parts st (x ∷ xs) v =
    rw (v.0.proper, normalize, push, reverse-cons x xs, append_assoc (reverse xs) (x ∷ []) st)
      (normalize-parts (x ∷ st) xs v.1)

-- Bytes of the result are bytes of the path, slashes and dots.
module _ (P : ℕ → Type 0) (p_slash : P slash) (p_dot : P dot) where
  components-All : (rc p : List ℕ) → All P rc → All P p → All (All P) (components rc p)
  unfolding components
  components-All rc [] h k = (All-reverse P rc h, tt)
  components-All rc (c ∷ p) h k = elim (Bool-cases (c == slash)) [
    | inl e ↦ rw e (All-reverse P rc h, components-All [] p tt k.1)
    | inr e ↦ rw e (components-All (c ∷ rc) p (k.0, h) k.1)
  ]

  tail-All : (st : List (List ℕ)) → All (All P) st → All (All P) (tail st)
  tail-All [] k = k
  tail-All (x ∷ st) k = k.1

  push-All : (x : List ℕ) (st : List (List ℕ)) → All P x → All (All P) st → All (All P) (push x st)
  unfolding push
  push-All x st h k =
      elim (classify x)
        as (λ c. All (All P) (elim c [ stay ↦ st | up ↦ tail st | down ↦ x ∷ st ])) [
          | stay ↦ k
          | up ↦ tail-All st k
          | down ↦ (h, k)
        ]

  normalize-All :
      (st xs : List (List ℕ)) → All (All P) st → All (All P) xs → All (All P) (normalize st xs)
  unfolding normalize
  normalize-All st [] h k = h
  normalize-All st (x ∷ xs) h k = normalize-All (push x st) xs (push-All x st k.0 h) k.1

  render-All : (xs : List (List ℕ)) → All (All P) xs → All P (render xs)
  unfolding render join
  render-All [] h = (p_dot, tt)
  render-All (x ∷ []) h = h.0
  render-All (x ∷ y ∷ xs) h =
      All-append P x (slash ∷ join (y ∷ xs)) h.0 (p_slash, render-All (y ∷ xs) h.1)

  pub canonical-All : (p : List ℕ) → All P p → All P (canonical p)
  unfolding canonical
  canonical-All p h = render-All (reverse (normalize [] (components [] p))) (
      All-reverse (All P) (normalize [] (components [] p))
        (normalize-All [] (components [] p) tt (components-All [] p tt h)))

unfoldable pub total : List (List ℕ) → ℕ
total [] = 0
total (x ∷ xs) = suc (length x) + total xs

total-append : (xs ys : List (List ℕ)) → total (xs ++ ys) ≡ total xs + total ys
unfolding total
total-append [] ys = omega arith
total-append (x ∷ xs) ys = omega (arith, total-append xs ys)

total-reverse : (xs : List (List ℕ)) → total (reverse xs) ≡ total xs
unfolding total
total-reverse [] = refl
total-reverse (x ∷ xs) =
    rw (reverse-cons x xs) (omega (arith, total-append (reverse xs) (x ∷ []), total-reverse xs))

total-components : (rc p : List ℕ) → total (components rc p) ≡ suc (length rc + length p)
unfolding total components
total-components rc [] = omega (arith, length-reverse rc)
total-components rc (c ∷ p) =
    ground (arith, total-components [] p, total-components (c ∷ rc) p, length-reverse rc)

total-push : (x : List ℕ) (st : List (List ℕ)) → total (push x st) ≤ suc (length x) + total st
unfolding total push
total-push x [] = ground arith
total-push x (y ∷ st) = ground arith

total-normalize : (st xs : List (List ℕ)) → total (normalize st xs) ≤ total st + total xs
unfolding total normalize
total-normalize st [] = omega arith
total-normalize st (x ∷ xs) = omega (arith, total-normalize (push x st) xs, total-push x st)

total-join : (x : List ℕ) (xs : List (List ℕ)) → suc (length (join (x ∷ xs))) ≡ total (x ∷ xs)
unfolding total join
total-join x [] = omega arith
total-join x (y ∷ xs) = omega (arith, total-join y xs, length-append x (slash ∷ join (y ∷ xs)))

render-length : (xs : List (List ℕ)) → length (render xs) ≤ max 1 (total xs - 1)
unfolding total render
render-length [] = omega arith
render-length (x ∷ xs) = omega (arith, total-join x xs)

pub canonical-length : (p : List ℕ) → length (canonical p) ≤ max 1 (length p)
unfolding canonical
canonical-length p =
    let st = normalize [] (components [] p) in
    let none_left : total [] ≡ 0 = unfold total in refl in
    omega (
      arith,
      render-length (reverse st),
      total-reverse st,
      total-normalize [] (components [] p),
      total-components [] p,
      none_left,
    )
