-- ===== src/Ed/Edits.antt =====
-- The editing operations, on the lines of the buffer.
use Prim.Native.Nat.{max}
use mathlib.Core.List.{append-nil}
use dgd.Prelude.{
  drop-take, Bool, ℕ, suc, ◌+◌, ◌-◌, ◌^◌, ◌≤◌, ◌<◌, ◌≡◌, refl, sym, ap, subst, ◌∙◌, false, List, [],
  ◌++◌, Option, none, some, arith, leb, length, take, drop, length-append, length-take, length-drop,
  take-take,
}
use dgd.Ed.{Line, Block, depth, max_depth}
use dgd.Ed.Cat.{lines_of, IsBlock}
use dgd.Ed.Split.Laws.{length-lines_of}
use dgd.Ed.Buffer.{
  done, EditBuf, del, yank, change, range_lines, the_block, ◌>>=◌, size_of, overflows,
}
use dgd.Ed.Put.Whole
use dgd.Ed.Put.Whole.{view}
use dgd.Ed.Steps.{
  whole, Holds, levels, Shows, join_rest_lem, cut_last_lem, cut_first_lem, before_first_lem,
  after_last_lem,
}

-- The lines from `first` to `last`, counted from 1, and the lines before and after.
abbrev pub lines_at : ℕ → ℕ → List Line → List Line
lines_at first last xs = drop (first - 1) (take last xs)

abbrev pub with_lines : ℕ → ℕ → List Line → List Line → List Line
with_lines first last ys xs = take (first - 1) xs ++ ys ++ drop last xs

-- A block of lines, for what yank and del return.
pub record IsPart (b : Block) (xs : List Line) : Type 0 where
  pub valid : IsBlock b
  pub text : lines_of b ≡ xs

pub below_leb : (m n : ℕ) → n < m → leb m n ≡ false
below_leb m n h = ground arith

size_of_lem : (b : Option Block) (ys : List Line) → Holds b ys → size_of b ≡ length ys
unfolding Holds
size_of_lem none ys p = sym (ap length p)
size_of_lem (some b) ys p = sym (length-lines_of b p.0) ∙ ap length p.1

fits : (b : Option Block) (n : ℕ) → n < 2 ^ 31 → overflows b n ≡ false
fits none n h = refl
fits (some b) n h = below_leb (2 ^ 31) n h

module _ (eb : EditBuf) (xs : List Line) (v : Shows eb xs) (first last : ℕ) (h : 1 ≤ first)
    (k : first ≤ last) (m : last ≤ length xs) where
  pub length-with_lines :
      (ys : List Line)
      → length (with_lines first last ys xs) ≡ length xs - (last - first + 1) + length ys
  length-with_lines ys =
      rw
        (
          length-append (take (first - 1) xs ++ ys) (drop last xs),
          length-append (take (first - 1) xs) ys,
          length-take (first - 1) xs,
          length-drop last xs,
        )
        (omega arith)

  -- The lines from `first` to `last` are deleted and returned.
  pub del-Shows :
      levels eb.buffer < max_depth
      → (mid : Block) × (eb' : EditBuf) × (del first last eb ≡ done (mid, eb'))
        × IsPart mid (lines_at first last xs)
        × Shows eb' (with_lines first last [] xs)
        × (levels eb'.buffer ≤ suc (levels eb.buffer))
        × (depth mid ≤ levels eb.buffer)
  unfolding del
  del-Shows low =
      let (upto, tail, run, w, text, n, after, d, e) =
        cut_last_lem eb xs v (omega (arith, low)) last (omega arith) m in
      let (head, mid, run', front, w', text', n', d', depth_mid) =
        cut_first_lem first upto w (omega (arith, d, low)) h (omega (arith, n, k)) in
      let (rest, run'', left, e'') =
        join_rest_lem head tail (take (first - 1) (lines_of upto)) (drop last xs) front after
          (omega (arith, d, d', low)) (omega (arith, e, low)) in
      (
        mid,
        record { buffer = rest; lines = eb.lines - (last - first + 1) },
        rw (del, run, run', run'') refl,
        record { valid = w'; text = rw (text', text) refl },
        record {
          holds =
              subst (Holds rest)
                (rw
                  (
                    text,
                    take-take (first - 1) last xs (omega arith),
                    append-nil (take (first - 1) xs),
                  )
                  refl)
                left;
          counted = omega (arith, v.counted, length-with_lines []);
        },
        omega (arith, e'', d, d', e),
        omega (arith, d, depth_mid),
      )

  -- yank returns the lines from `first` to `last`.
  yank-IsPart :
      levels eb.buffer ≤ max_depth
      → (mid : Block) × (yank first last eb ≡ done mid)
        × IsPart mid (lines_at first last xs)
        × (depth mid ≤ levels eb.buffer)
  unfolding yank
  yank-IsPart low =
      let (upto, tail, run, w, text, n, after, d, e) =
        cut_last_lem eb xs v low last (omega arith) m in
      let (head, mid, run', front, w', text', n', d', e') =
        cut_first_lem first upto w (omega (arith, d, low)) h (omega (arith, n, k)) in
      (
        mid,
        rw (yank, run, run') refl,
        record { valid = w'; text = rw (text', text) refl },
        omega (arith, d, e'),
      )

  -- The lines from `first` to `last` are changed into the lines of a block, or deleted.
  pub change-Shows :
      (b : Option Block) (ys : List Line)
      → Holds b ys
      → length xs - (last - first + 1) + length ys < 2 ^ 31
      → levels eb.buffer + 1 < max_depth
      → levels b + 1 < max_depth
      → (eb' : EditBuf) × (change first last b eb ≡ done eb')
        × Shows eb' (with_lines first last ys xs)
        × (levels eb'.buffer ≤ 2 + max (levels eb.buffer) (levels b))
  unfolding change
  change-Shows b ys p room low low' =
      let (head, run, front, d) =
        before_first_lem eb xs v (omega (arith, low)) first h (omega arith) in
      let (tail, run', after, d') =
        after_last_lem eb xs v (omega (arith, low)) last (omega arith) m in
      let (a, run'', both, e) =
        join_rest_lem head b (take (first - 1) xs) ys front p (omega (arith, d, low))
          (omega (arith, low')) in
      let (c, run3, all, e') =
        join_rest_lem a tail (take (first - 1) xs ++ ys) (drop last xs) both after
          (omega (arith, e, d, low, low')) (omega (arith, d', low)) in
      (
        record { buffer = c; lines = eb.lines - (last - first + 1) + size_of b },
        rw
            (
              change,
              fits b (eb.lines - (last - first + 1) + size_of b)
                  (omega (arith, room, v.counted, size_of_lem b ys p)),
              run,
              run',
              run'',
              run3,
            )
            refl,
        record {
          holds = all;
          counted = omega (arith, v.counted, length-with_lines ys, size_of_lem b ys p);
        },
        omega (arith, e', e, d, d'),
      )

  -- The lines from `first` to `last` are printed, in their order or the last one first.
  range_lines_lem :
      (rev : Bool)
      → levels eb.buffer ≤ max_depth
      → range_lines first last rev eb ≡ done (view rev (lines_at first last xs))
  unfolding range_lines the_block
  range_lines_lem rev low =
      let (b, e, w, text, n, d) = whole eb xs v low (omega arith) in
      let count_lines : last - first + 1 ≡ last - (first - 1) = omega arith in
      let printed =
        Whole.put-view rev b (first - 1) (last - first + 1) w (omega arith) (omega (arith, n)) in
      let part : take (last - first + 1) (drop (first - 1) (lines_of b)) ≡ lines_at first last xs =
        rw (text, drop-take (first - 1) last xs, count_lines) refl in
      rw (range_lines, e, the_block, ◌>>=◌, printed, part) refl
