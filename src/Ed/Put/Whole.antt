-- ===== src/Ed/Put/Whole.antt =====
-- That put prints the lines it is asked for.
use Prim.Native.Nat.{min}
use mathlib.Core.List.{reverse-append, append-nil}
use dgd.Prelude.{
  ℕ, suc, ◌+◌, ◌-◌, ◌≤◌, ◌<◌, ◌≡◌, refl, sym, ap, ◌∙◌, Bool, true, false, List, ◌++◌, reverse,
  Option, some, arith, ltb, Bool-cases, inl, inr, length, take, drop, take-take, drop-take,
  drop-drop, drop-reverse, take_add, take_low, take_all, part-append, part_high, length-append,
  length-take, length-drop, length-reverse,
}
use dgd.Ed.{Line, Range, Block, range, joined, size}
use dgd.Ed.Cat.{before, first_place, text_lines, lines_of, IsBlock, IsRange}
use dgd.Ed.Find.{find_line_lem, before-lt, before_mono, before-page_at}
use dgd.Ed.Split.Laws.{before_all, length-lines_of}
use dgd.Ed.Put.{print, put_range, put_two, put1, put}
use dgd.Ed.Put.Pages.{put_forward_lem, put_backward_lem}

-- The lines in the order in which they are printed.
abbrev pub view : Bool → List Line → List Line
view false xs = xs
view true xs = reverse xs

module _ (r : Range) (v : IsRange r) (idx n : ℕ) (h : 0 < n) (k : idx + n ≤ r.lines) where
  abbrev text : List Line
  text = text_lines r.chain

  room : first_place r + r.lines ≤ before r.chain (length r.chain)
  room = omega (
    arith,
    v.ends,
    before_mono r.chain (suc r.llast) (length r.chain) (omega (arith, v.in_chain)),
  )

  part_on :
      (mid i : ℕ)
      → before r.chain mid + i ≡ first_place r + idx
      → take n (drop i (drop (before r.chain mid) text)) ≡ take n (drop idx (lines_of (range r)))
  unfolding lines_of
  part_on mid i e =
      rw
        (
          drop-drop i (before r.chain mid) text,
          e,
          drop-take idx r.lines (drop (first_place r) text),
          drop-drop idx (first_place r) text,
          take-take n (r.lines - idx) (drop (first_place r + idx) text) (omega arith),
        )
        refl

  put_range_on : put_range false r idx n ≡ some (take n (drop idx (lines_of (range r))))
  unfolding put_range
  put_range_on =
      let (mid, i, run, x) = find_line_lem r v idx (omega arith) in
      let printed =
        put_forward_lem (suc n) r.chain mid i n x.page x.stands x.inside v.numbered h (omega arith)
          (omega (arith, x.counted, room)) in
      rw (put_range, run) (printed ∙ ap some (part_on mid i x.counted))

  part_back :
      (top j : ℕ)
      → top ≤ before r.chain (length r.chain)
      → top - j ≡ first_place r + (r.lines - idx)
      → take n (drop j (reverse (take top text))) ≡ take n (drop idx (reverse (lines_of (range r))))
  unfolding lines_of
  part_back top j b e =
      let rest = drop (first_place r) text in
      let all = before_all r.chain in
      let top_lines : length (take top text) ≡ top =
        rw (length-take top text) (omega (arith, all, b)) in
      let lines : length (take r.lines rest) ≡ r.lines =
        rw (length-take r.lines rest, length-drop (first_place r) text)
          (omega (arith, all, room)) in
      let part : length (reverse (take (r.lines - idx) rest)) ≡ r.lines - idx =
        rw
          (
            length-reverse (take (r.lines - idx) rest),
            length-take (r.lines - idx) rest,
            length-drop (first_place r) text,
          )
          (omega (arith, all, room)) in
      rw
        (
          drop-reverse j (take top text),
          top_lines,
          take-take (top - j) top text (omega arith),
          e,
          take_add (first_place r) (r.lines - idx) text,
          reverse-append (take (first_place r) text) (take (r.lines - idx) rest),
          take_low (reverse (take (r.lines - idx) rest)) (reverse (take (first_place r) text)) n
              (omega (arith, part)),
          drop-reverse idx (take r.lines rest),
          lines,
          take-take (r.lines - idx) r.lines rest (omega arith),
        )
        refl

  put_range_back : put_range true r idx n ≡ some (take n (drop idx (reverse (lines_of (range r)))))
  unfolding put_range
  put_range_back =
      let (mid, i, run, x) = find_line_lem r v (r.lines - idx - 1) (omega arith) in
      let (index, some_line, after) = before-page_at r.chain mid 0 x.page v.numbered x.stands in
      let within = before-lt r.chain mid (length r.chain) (omega (arith, x.counted, room)) in
      let below = before_mono r.chain (suc mid) (length r.chain) (omega arith) in
      let printed =
        put_backward_lem (suc n) r.chain mid (length x.page.text - i - 1) n x.page x.stands
          (omega arith) v.numbered h (omega arith) (omega (arith, x.counted, after, x.inside)) in
      rw (put_range, run, x.stands)
        (printed
          ∙ ap some (
              part_back (before r.chain (suc mid)) (length x.page.text - i - 1) below
                (omega (arith, x.counted, after, x.inside))))

-- A function that prints the lines of the list.
abbrev Prints : (ℕ → ℕ → Option (List Line)) → List Line → Type 0
Prints f xs = (i n : ℕ) → 0 < n → i + n ≤ length xs → f i n ≡ some (take n (drop i xs))

put_two-Prints :
    (near far : ℕ → ℕ → Option (List Line)) (lines : ℕ) (xs ys : List Line)
    → lines ≡ length xs
    → Prints near xs
    → Prints far ys
    → Prints (put_two near far lines) (xs ++ ys)
unfolding put_two print
put_two-Prints near far lines xs ys e p q i n h k =
    let both = length-append xs ys in
    elim (Bool-cases (ltb i lines)) [
      | inl low ↦
          let below : i < lines = ground (arith, low) in
          let part = min n (lines - i) in
          let first = p i part (omega arith) (omega (arith, e)) in
          let same : part ≡ min n (length xs - i) = omega (arith, e) in
          let whole : take n (drop i (xs ++ ys)) ≡ take part (drop i xs) ++ take (n - part) ys =
            rw (same) (part-append i n xs ys (omega (arith, e))) in
          elim (Bool-cases (ltb 0 (n - part))) [
            | inl more ↦
                let left : 0 < n - part = ground (arith, more) in
                let rest = q 0 (n - part) left (omega (arith, both, e)) in
                rw (put_two, low, first, more, rest, print, whole) refl
            | inr over ↦
                let all : n - part ≡ 0 = ground (arith, over) in
                rw (put_two, low, first, over, whole, all)
                  (ap some (sym (append-nil (take part (drop i xs)))))
          ]
      | inr high ↦
          let past : length xs ≤ i = ground (arith, high, e) in
          let some_n : ltb 0 n ≡ true = ground (arith, h) in
          let rest = q (i - lines) n h (omega (arith, both, e)) in
          rw (put_two, high, some_n, rest, part_high i n xs ys past, e) refl
    ]

put1-Prints : (rev : Bool) (b : Block) → IsBlock b → Prints (put1 rev b) (view rev (lines_of b))
unfolding put1 IsBlock lines_of
put1-Prints false (range r) v i n h k =
    put_range_on r v i n h (omega (arith, length-lines_of (range r) v))
put1-Prints true (range r) v i n h k =
    put_range_back r v i n h
      (omega (arith, length-lines_of (range r) v, length-reverse (lines_of (range r))))
put1-Prints false (joined f l m d u) v i n h k =
    put_two-Prints (put1 false f) (put1 false l) (size f) (lines_of f) (lines_of l)
      (sym (length-lines_of f v.0)) (put1-Prints false f v.0) (put1-Prints false l v.1) i n h k
put1-Prints true (joined f l m d u) v i n h k =
    let lines : size l ≡ length (reverse (lines_of l)) =
      omega (arith, length-lines_of l v.1, length-reverse (lines_of l)) in
    let order = reverse-append (lines_of f) (lines_of l) in
    rw order (
      put_two-Prints (put1 true l) (put1 true f) (size l) (reverse (lines_of l))
        (reverse (lines_of f)) lines (put1-Prints true l v.1) (put1-Prints true f v.0) i n h
        (omega (arith, k, ap length order)))

part-reverse :
    (idx n : ℕ) (xs : List Line)
    → idx + n ≤ length xs
    → take n (drop (length xs - idx - n) (reverse xs)) ≡ reverse (take n (drop idx xs))
part-reverse idx n xs h =
    let upto : length xs - (length xs - idx - n) ≡ idx + n = omega arith in
    let count_lines : length (reverse (take n (drop idx xs))) ≡ n =
      rw (length-reverse (take n (drop idx xs)), length-take n (drop idx xs), length-drop idx xs)
        (omega arith) in
    rw
      (
        drop-reverse (length xs - idx - n) xs,
        upto,
        take_add idx n xs,
        reverse-append (take idx xs) (take n (drop idx xs)),
        take_low (reverse (take n (drop idx xs))) (reverse (take idx xs)) n
            (omega (arith, count_lines)),
      )
      (take_all n (reverse (take n (drop idx xs))) (omega (arith, count_lines)))

-- The lines of a block from `idx` on are printed, `n` of them, in their order or the last one
-- first: the search for the page finds it, and the loops over the pages end.
pub put-view :
    (rev : Bool) (b : Block) (idx n : ℕ)
    → IsBlock b
    → 0 < n
    → idx + n ≤ size b
    → put rev b idx n ≡ some (view rev (take n (drop idx (lines_of b))))
unfolding put
put-view false b idx n v h k = put1-Prints false b v idx n h (omega (arith, length-lines_of b v))
put-view true b idx n v h k =
    let len = length-lines_of b v in
    let turned = length-reverse (lines_of b) in
    rw (put, sym len)
      (put1-Prints true b v (length (lines_of b) - idx - n) n h (omega (arith, len, turned))
        ∙ ap some (part-reverse idx n (lines_of b) (omega (arith, len))))
