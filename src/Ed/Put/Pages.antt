-- ===== src/Ed/Put/Pages.antt =====
-- What the loops over the pages print.
use Prim.Native.Nat.{min, max}
use dgd.Prelude.{
  ℕ, zero, suc, ◌+◌, ◌-◌, ◌≤◌, ◌<◌, ◌≡◌, refl, sym, ap, ◌∙◌, true, List, [], ◌∷◌, ◌++◌, reverse,
  some, arith, ◌==◌, Bool-cases, inl, inr, length, take, drop, drop_high, take_add, take_low,
  part-append, length-reverse, take_all,
}
use mathlib.Core.List.{reverse-append, append-nil}
use dgd.Ed.{Line, Page}
use dgd.Ed.Cat.{before, text_lines, IsNumbered}
use dgd.Ed.Chain.{page_at}
use dgd.Ed.Find.{page_at-some, before-page_at, before-lt}
use dgd.Ed.Put.{print, page_lines, put_forward, put_backward}

-- The lines from page `mid` on.
abbrev pub lines_from : List Page → ℕ → List Line
lines_from chain mid = drop (before chain mid) (text_lines chain)

-- The lines up to page `mid`, the last one first.
abbrev pub back_from : List Page → ℕ → List Line
back_from chain mid = reverse (take (before chain mid) (text_lines chain))

drop_past : (k : ℕ) (xs ys : List Line) → drop (length xs + k) (xs ++ ys) ≡ drop k ys
drop_past k xs ys =
    let left : length xs + k - length xs ≡ k = omega arith in
    rw (drop_high xs ys (length xs + k) (omega arith), left) refl

lines_from-page :
    (chain : List Page) (mid : ℕ) (p : Page)
    → page_at chain mid ≡ some p
    → lines_from chain mid ≡ p.text ++ lines_from chain (suc mid)
lines_from-page [] mid p e = absurd cc
lines_from-page (q ∷ ps) zero p e =
    let same : q ≡ p = cc in rw (drop_past 0 q.text (text_lines ps), ap (λ x. x.text) same) refl
lines_from-page (q ∷ ps) (suc mid) p e =
    rw
      (
        drop_past (before ps mid) q.text (text_lines ps),
        drop_past (before ps (suc mid)) q.text (text_lines ps),
      )
      (lines_from-page ps mid p e)

back_from-page :
    (chain : List Page) (mid : ℕ) (p : Page)
    → IsNumbered 0 chain
    → page_at chain mid ≡ some p
    → back_from chain (suc mid) ≡ reverse p.text ++ back_from chain mid
back_from-page chain mid p v e =
    let text = text_lines chain in
    let after = (before-page_at chain mid 0 p v e).2 in
    rw
      (
        after,
        take_add (before chain mid) (length p.text) text,
        lines_from-page chain mid p e,
        take_low p.text (lines_from chain (suc mid)) (length p.text) (omega arith),
        take_all (length p.text) p.text (omega arith),
        reverse-append (take (before chain mid) text) p.text,
      )
      refl

==_zero : (m : ℕ) → m ≤ 0 → (m == 0) ≡ true
==_zero m h = ground arith

page_lines_lem : (i n : ℕ) (text : List Line) → 0 < n → page_lines i n text ≡ take n (drop i text)
page_lines_lem i n text h = let same : max 1 n ≡ n = omega arith in rw same refl

-- What a page prints, and then the rest, is a part of the page and what follows it.
printed :
    (i n : ℕ) (xs ys : List Line)
    → i < length xs
    → 0 < n
    → take n (drop i (xs ++ ys))
      ≡ page_lines i (min n (length xs - i)) xs ++ take (n - min n (length xs - i)) ys
printed i n xs ys h k =
    part-append i n xs ys (omega arith)
    ∙ ap (λ zs. zs ++ take (n - min n (length xs - i)) ys)
        (sym (page_lines_lem i (min n (length xs - i)) xs (omega arith)))

pub put_forward_lem :
    (fuel : ℕ) (chain : List Page) (mid i n : ℕ) (p : Page)
    → page_at chain mid ≡ some p
    → i < length p.text
    → IsNumbered 0 chain
    → 0 < n
    → n ≤ fuel
    → before chain mid + i + n ≤ before chain (length chain)
    → put_forward fuel chain mid i n ≡ some (take n (drop i (lines_from chain mid)))
unfolding put_forward print
put_forward_lem zero chain mid i n p e h v k f room = absurd (omega arith)
put_forward_lem (suc fuel) chain mid i n p e h v k f room =
    let lines = min n (length p.text - i) in
    let parts = printed i n p.text (lines_from chain (suc mid)) h k in
    let (index, some_line, after) = before-page_at chain mid 0 p v e in
    elim (Bool-cases (n - lines == 0)) [
      | inl t ↦
          let last : n - lines ≡ 0 = ground (arith, t) in
          rw (put_forward, e, t, lines_from-page chain mid p e, parts, last)
            (ap some (sym (append-nil (page_lines i lines p.text))))
      | inr t ↦
          let not_last : 0 < n - lines = ground (arith, t) in
          let (q, e') =
            page_at-some chain (suc mid)
              (before-lt chain (suc mid) (length chain) (omega (arith, after))) in
          let run =
            put_forward_lem fuel chain (suc mid) 0 (n - lines) q e'
              (before-page_at chain (suc mid) 0 q v e').1 v not_last (omega arith)
              (omega (arith, after)) in
          rw (put_forward, e, t, run, print, lines_from-page chain mid p e, parts) refl
    ]

page_at-lt : (ps : List Page) (i : ℕ) (p : Page) → page_at ps i ≡ some p → i < length ps
page_at-lt [] i p e = absurd cc
page_at-lt (q ∷ ps) zero p e = omega arith
page_at-lt (q ∷ ps) (suc i) p e = omega (arith, page_at-lt ps i p e)

module _ (chain : List Page) (mid i n : ℕ) (p : Page) (e : page_at chain mid ≡ some p)
    (h : i < length p.text) (v : IsNumbered 0 chain) (k : 0 < n) where
  back_parts :
      take n (drop i (back_from chain (suc mid)))
      ≡ page_lines i (min n (length p.text - i)) (reverse p.text)
        ++ take (n - min n (length p.text - i)) (back_from chain mid)
  back_parts =
      let len = length-reverse p.text in
      let parts = printed i n (reverse p.text) (back_from chain mid) (omega (arith, len)) k in
      rw (back_from-page chain mid p v e, parts, len) refl

  -- The loop ends in this page.
  put_back_last :
      (fuel : ℕ)
      → (n - min n (length p.text - i) == 0) ≡ true
      → put_backward (suc fuel) chain mid i n ≡ some (take n (drop i (back_from chain (suc mid))))
  unfolding put_backward
  put_back_last fuel t =
      let last : n - min n (length p.text - i) ≡ 0 = ground (arith, t) in
      rw (put_backward, e, t, back_parts, last)
        (ap some (sym (append-nil (page_lines i (min n (length p.text - i)) (reverse p.text)))))

pub put_backward_lem :
    (fuel : ℕ) (chain : List Page) (mid i n : ℕ) (p : Page)
    → page_at chain mid ≡ some p
    → i < length p.text
    → IsNumbered 0 chain
    → 0 < n
    → n ≤ fuel
    → i + n ≤ before chain (suc mid)
    → put_backward fuel chain mid i n ≡ some (take n (drop i (back_from chain (suc mid))))
unfolding put_backward print
put_backward_lem zero chain mid i n p e h v k f room = absurd (omega arith)
put_backward_lem (suc fuel) chain zero i n p e h v k f room =
    let after = (before-page_at chain 0 0 p v e).2 in
    let fits : n ≤ length p.text - i = omega (arith, after) in
    put_back_last chain 0 i n p e h v k fuel (==_zero (n - min n (length p.text - i)) (omega arith))
put_backward_lem (suc fuel) chain (suc m) i n p e h v k f room =
    let lines = min n (length p.text - i) in
    let after = (before-page_at chain (suc m) 0 p v e).2 in
    elim (Bool-cases (n - lines == 0)) [
      | inl t ↦ put_back_last chain (suc m) i n p e h v k fuel t
      | inr t ↦
          let not_last : 0 < n - lines = ground (arith, t) in
          let (q, e') = page_at-some chain m (omega (arith, page_at-lt chain (suc m) p e)) in
          let run =
            put_backward_lem fuel chain m 0 (n - lines) q e' (before-page_at chain m 0 q v e').1 v
              not_last (omega arith) (omega (arith, after)) in
          rw (put_backward, e, t, run, print, back_parts chain (suc m) i n p e h v k) refl
    ]
