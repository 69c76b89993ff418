-- ===== src/Path/Walk.antt =====
-- Path::resolve computes the canonical form: its loop over the buffer keeps the text of the
-- components so far before `d`, and the component being read behind it.
use mathlib.Core.List.{reverse-append, reverse-cons, reverse-reverse, append-nil, append_assoc}
use dgd.Prelude.{
  ℕ, suc, ◌-◌, ◌<◌, ◌≡◌, refl, sym, ap, ◌∙◌, false, ◌&&◌, List, [], ◌∷◌, ◌++◌, reverse, arith, ◌==◌,
  Bool-cases, ==_iff, length, All, All-reverse, length-reverse, length-append, drop, take, inl, inr,
}
use dgd.Path.{
  slash, dot, Cursor, c_string, is_dot, is_dot_dot, rewind, back, parent, put_separator, separator,
  walk, finish, resolve, stringsz,
}
use dgd.Path.Normal.{
  down, classify, tail, push, normalize, components, join, render, canonical, NotSlash, IsPart,
}

-- Text, last byte first, with the byte `c` after it if there is any.
abbrev closed : ℕ → List ℕ → List ℕ
closed c [] = []
closed c (a ∷ t) = c ∷ a ∷ t

-- The text of a stack of components, last byte first.
abbrev body : List (List ℕ) → List ℕ
body [] = []
body (x ∷ st) = reverse x ++ closed slash (body st)

abbrev IsStack : List (List ℕ) → Type 0
IsStack = All IsPart

put_separator-closed : (c : ℕ) (t : List ℕ) → put_separator c (closed slash t) ≡ closed c t
unfolding put_separator
put_separator-closed c [] = refl
put_separator-closed c (a ∷ t) = refl

put_separator-part :
    (c : ℕ) (u t : List ℕ)
    → 0 < length u
    → All NotSlash u
    → put_separator c (u ++ t) ≡ closed c (u ++ t)
unfolding put_separator
put_separator-part c [] t h p = absurd (omega arith)
put_separator-part c (a ∷ u) t h p = rw p.0

put_separator-body :
    (c : ℕ) (st : List (List ℕ)) → IsStack st → put_separator c (body st) ≡ closed c (body st)
unfolding put_separator
put_separator-body c [] v = refl
put_separator-body c (x ∷ st) v =
    put_separator-part c (reverse x) (closed slash (body st))
      (omega (arith, length-reverse x, v.0.nonempty)) (All-reverse NotSlash x v.0.plain)

back-part : (u t : List ℕ) → All NotSlash u → back (u ++ closed slash t) ≡ t
unfolding back
back-part [] [] p = refl
back-part [] (a ∷ t) p = refl
back-part (a ∷ u) t p = rw p.0 (back-part u t p.1)

parent-closed : (st : List (List ℕ)) → IsStack st → parent (closed slash (body st)) ≡ body (tail st)
unfolding parent
parent-closed [] v = refl
parent-closed (x ∷ st) v =
    go (reverse x) (omega (arith, length-reverse x, v.0.nonempty))
      (All-reverse NotSlash x v.0.plain)
  where
    go :
        (u : List ℕ)
        → 0 < length u
        → All NotSlash u
        → parent (closed slash (u ++ closed slash (body st))) ≡ body st
    go [] h p = absurd (omega arith)
    go (a ∷ u) h p = back-part (a ∷ u) (body st) p

tail-IsStack : (st : List (List ℕ)) → IsStack st → IsStack (tail st)
tail-IsStack [] v = v
tail-IsStack (x ∷ st) v = v.1

-- Before a component there is nothing, or a slash.
drop_more : (n : ℕ) (a : ℕ) (xs : List ℕ) → n ≡ length xs → drop (suc n - n) (a ∷ xs) ≡ xs
drop_more n a xs h = let e : suc n - n ≡ 1 = omega arith in rw e refl

drop_two :
    (n : ℕ) (a b : ℕ) (xs : List ℕ) → n ≡ length xs → drop (suc (suc n) - n) (a ∷ b ∷ xs) ≡ xs
drop_two n a b xs h = let e : suc (suc n) - n ≡ 2 = omega arith in rw e refl

is_dot_dot-one : (a : ℕ) (t : List ℕ) → is_dot_dot (a ∷ t) (length t) ≡ false
unfolding is_dot_dot
is_dot_dot-one a [] = refl
is_dot_dot-one a (b ∷ t) = ground arith

classify-long : (x : List ℕ) → 2 < length x → classify x ≡ down
classify-long [] h = absurd (omega arith)
classify-long (a ∷ []) h = absurd (omega arith)
classify-long (a ∷ b ∷ []) h = absurd (omega arith)
classify-long (a ∷ b ∷ c ∷ x) h = refl

module _ (c : ℕ) (st : List (List ℕ)) (v : IsStack st) where
  abbrev text : List ℕ
  text = closed slash (body st)

  separated : List ℕ → List ℕ
  separated rc = (separator c (record { out = rc ++ text; start = length text })).out

  separated-zero : separated [] ≡ closed c (body st)
  unfolding separated separator is_dot is_dot_dot
  separated-zero = go text (put_separator-closed c (body st))
    where
      go :
          (t : List ℕ)
          → put_separator c t ≡ closed c (body st)
          → (separator c (record { out = t; start = length t })).out ≡ closed c (body st)
      go [] e = e
      go (a ∷ []) e = ground (arith, e)
      go (a ∷ b ∷ t) e = ground (arith, e)

  separated-one : (a : ℕ) → NotSlash a → separated (a ∷ []) ≡ closed c (body (push (a ∷ []) st))
  unfolding separated separator is_dot is_dot_dot rewind push
  separated-one a p = ground (
    arith,
    drop_more (length text) a text refl,
    is_dot_dot-one a text,
    put_separator-closed c (body st),
    put_separator-part c (a ∷ []) text,
    p,
  )

  separated-two :
      (b a : ℕ)
      → NotSlash b
      → NotSlash a
      → separated (b ∷ a ∷ []) ≡ closed c (body (push (a ∷ b ∷ []) st))
  unfolding separated separator is_dot is_dot_dot rewind push
  separated-two b a p q = ground (
    arith,
    drop_two (length text) b a text refl,
    parent-closed st v,
    put_separator-body c (tail st) (tail-IsStack st v),
    put_separator-part c (b ∷ a ∷ []) text,
    p,
    q,
  )

  separated-more :
      (rc : List ℕ)
      → 2 < length rc
      → All NotSlash rc
      → separated rc ≡ closed c (body (reverse rc ∷ st))
  unfolding separated separator is_dot is_dot_dot
  separated-more [] h p = absurd (omega arith)
  separated-more (_ ∷ []) h p = absurd (omega arith)
  separated-more (_ ∷ _ ∷ []) h p = absurd (omega arith)
  separated-more (x ∷ y ∷ z ∷ rc) h p =
      let u = x ∷ y ∷ z ∷ rc in
      rw (reverse-reverse u)
        (ground (arith, length-append rc text, put_separator-part c u text (omega arith) p))

  separated_lem :
      (rc : List ℕ) → All NotSlash rc → separated rc ≡ closed c (body (push (reverse rc) st))
  unfolding push
  separated_lem [] p = separated-zero
  separated_lem (a ∷ []) p = separated-one a p.0
  separated_lem (b ∷ a ∷ []) p = separated-two b a p.0 p.1.0
  separated_lem (x ∷ y ∷ z ∷ rc) p =
      let u = x ∷ y ∷ z ∷ rc in
      rw (classify-long (reverse u) (omega (arith, length-reverse u)), push, closed)
        (separated-more u (omega arith) p)

  separator_lem :
      (rc : List ℕ)
      → All NotSlash rc
      → separator c (record { out = rc ++ text; start = length text }) ≡ record {
        out = closed c (body (push (reverse rc) st));
        start = length (closed c (body (push (reverse rc) st)));
      }
  unfolding separated separator
  separator_lem rc p =
      let e : separated rc ≡ closed c (body (push (reverse rc) st)) = separated_lem rc p in
      λ i. record { out = e i; start = length (e i) }

push-IsStack : (x : List ℕ) (st : List (List ℕ)) → All NotSlash x → IsStack st → IsStack (push x st)
unfolding push
push-IsStack [] st p v = v
push-IsStack (a ∷ []) st p v = elim (Bool-cases (a == dot)) [
  | inl e ↦ rw (e, push) v
  | inr e ↦ rw (e, push) (record { nonempty = omega arith; plain = p; proper = rw e }, v)
]
push-IsStack (a ∷ b ∷ []) st p v = elim (Bool-cases (b == dot && a == dot)) [
  | inl e ↦ rw (e, push) (tail-IsStack st v)
  | inr e ↦ rw (e, push) (record { nonempty = omega arith; plain = p; proper = rw e }, v)
]
push-IsStack (a ∷ b ∷ c ∷ x) st p v =
    (record { nonempty = omega arith; plain = p; proper = refl }, v)

walk_lem :
    (p rc : List ℕ) (st : List (List ℕ))
    → All NotSlash rc
    → IsStack st
    → walk p
        (record { out = rc ++ closed slash (body st); start = length (closed slash (body st)) })
      ≡ closed 0 (body (normalize st (components rc p)))
unfolding walk normalize components
walk_lem [] rc st h v = ap (λ (s : Cursor). s.out) (separator_lem 0 st v rc h)
walk_lem (c ∷ p) rc st h v = elim (Bool-cases (c == slash)) [
  | inl e ↦
      let e' : c ≡ slash = (==_iff c slash).0 e in
      rw (e', separator_lem slash st v rc h)
        (walk_lem p [] (push (reverse rc) st) tt
          (push-IsStack (reverse rc) st (All-reverse NotSlash rc h) v))
  | inr e ↦ rw e (walk_lem p (c ∷ rc) st (e, h) v)
]

normalize-IsStack :
    (st : List (List ℕ)) (xs : List (List ℕ))
    → All (All NotSlash) xs
    → IsStack st
    → IsStack (normalize st xs)
unfolding normalize
normalize-IsStack st [] p v = v
normalize-IsStack st (x ∷ xs) p v = normalize-IsStack (push x st) xs p.1 (push-IsStack x st p.0 v)

components-plain : (rc p : List ℕ) → All NotSlash rc → All (All NotSlash) (components rc p)
unfolding components
components-plain rc [] h = (All-reverse NotSlash rc h, tt)
components-plain rc (c ∷ p) h = elim (Bool-cases (c == slash)) [
  | inl e ↦ rw e (All-reverse NotSlash rc h, components-plain [] p tt)
  | inr e ↦ rw e (components-plain (c ∷ rc) p (e, h))
]

join-concat :
    (xs : List (List ℕ)) (y : List ℕ) → 0 < length xs → join (xs ++ y ∷ []) ≡ join xs ++ slash ∷ y
unfolding join
join-concat [] y h = absurd (omega arith)
join-concat (x ∷ []) y h = refl
join-concat (x ∷ z ∷ xs) y h = rw (join-concat (z ∷ xs) y (omega arith), append_assoc)

reverse-closed : (c : ℕ) (t : List ℕ) → 0 < length t → reverse (closed c t) ≡ reverse t ++ c ∷ []
reverse-closed c [] h = absurd (omega arith)
reverse-closed c (a ∷ t) h = reverse-cons c (a ∷ t)

body-nonempty : (x : List ℕ) (st : List (List ℕ)) → IsPart x → 0 < length (body (x ∷ st))
body-nonempty x st v =
    omega (arith, length-append (reverse x) (closed slash (body st)), length-reverse x, v.nonempty)

reverse-body : (st : List (List ℕ)) → IsStack st → reverse (body st) ≡ join (reverse st)
unfolding join
reverse-body [] v = refl
reverse-body (x ∷ []) v = rw (append-nil (reverse x)) (reverse-reverse x)
reverse-body (x ∷ y ∷ st) v =
    let b = body (y ∷ st) in
    rw
      (
        reverse-append (reverse x) (closed slash b),
        reverse-closed slash b (body-nonempty y st v.1.0),
        reverse-reverse x,
        reverse-body (y ∷ st) v.1,
        reverse-cons x (y ∷ st),
        join-concat (reverse (y ∷ st)) x (omega (arith, length-reverse (y ∷ st))),
      )
      (append_assoc (join (reverse (y ∷ st))) (slash ∷ []) x)

finish-closed : (t : List ℕ) → 0 < length t → finish (closed 0 t) ≡ reverse t
unfolding finish
finish-closed [] h = absurd (omega arith)
finish-closed (a ∷ t) h = refl

render-nonempty : (xs : List (List ℕ)) → 0 < length xs → render xs ≡ join xs
unfolding render
render-nonempty [] h = absurd (omega arith)
render-nonempty (x ∷ xs) h = refl

finish-body : (st : List (List ℕ)) → IsStack st → finish (closed 0 (body st)) ≡ render (reverse st)
unfolding finish render
finish-body [] v = refl
finish-body (x ∷ st) v =
    finish-closed (body (x ∷ st)) (body-nonempty x st v.0)
    ∙ reverse-body (x ∷ st) v
    ∙ sym (render-nonempty (reverse (x ∷ st)) (omega (arith, length-reverse (x ∷ st))))

pub canonical-parts : (p : List ℕ) → All IsPart (normalize [] (components [] p))
canonical-parts p = normalize-IsStack [] (components [] p) (components-plain [] p tt) tt

-- Path::resolve computes the canonical form of the path, cut to the size of its buffer.
pub resolve-canonical :
    (file : List ℕ) → resolve file ≡ canonical (take (stringsz - 1) (c_string file))
unfolding resolve canonical
resolve-canonical file =
    let p = take (stringsz - 1) (c_string file) in
    rw (walk_lem p [] [] tt tt) (finish-body (normalize [] (components [] p)) (canonical-parts p))
