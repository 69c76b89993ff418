-- ===== src/Ed/Insert.antt =====
-- Putting lines into the buffer.
use Prim.Native.Nat.{max}
use mathlib.Core.List.{append-nil}
use dgd.Prelude.{
  ℕ, ◌+◌, ◌^◌, ◌≤◌, ◌<◌, ◌≡◌, refl, sym, ap, subst, ◌∙◌, true, false, List, [], ◌∷◌, ◌++◌, some,
  arith, ◌==◌, Bool-cases, inl, inr, length, take, drop, take_all, drop_all, take_nil, drop_nil,
  length-append, length-take, length-drop, take-append-drop,
}
use dgd.Ed.{Line, Block, size, depth, max_depth}
use dgd.Ed.Split.Laws.{length-lines_of}
use dgd.Ed.Buffer.{
  Result, done, too_big, add, EditBuf, the_block, insert_block, put, join_blocks, split_both,
}
use dgd.Ed.Steps.{Holds, levels, Shows, join_blocks_lem, split_both_lem, whole}
use dgd.Ed.Create.{WriteBuf, create}
use dgd.Ed.Create.Laws.{create_lem}
use dgd.Ed.Lines.Laws.{create-none, depth-le-leaves}
use dgd.Ed.Edits.{IsPart, below_leb}

abbrev pub inserted : ℕ → List Line → List Line → List Line
inserted ln ys xs = take ln xs ++ ys ++ drop ln xs

length-inserted :
    (ln : ℕ) (ys xs : List Line)
    → ln ≤ length xs
    → length (inserted ln ys xs) ≡ length xs + length ys
length-inserted ln ys xs h =
    rw
      (
        length-append (take ln xs ++ ys) (drop ln xs),
        length-append (take ln xs) ys,
        length-take ln xs,
        length-drop ln xs,
      )
      (omega arith)

inserted_none : (ln : ℕ) (ys xs : List Line) → length xs ≤ 0 → inserted ln ys xs ≡ ys
inserted_none ln ys [] h = rw (take_nil {A = Line} ln, drop_nil {A = Line} ln) (append-nil ys)
inserted_none ln ys (x ∷ xs) h = absurd (omega arith)

insert_run :
    (ln : ℕ) (b old head tail a c : Block) (eb : EditBuf)
    → (ln == 0) ≡ false
    → eb.buffer ≡ some old
    → (ln == eb.lines) ≡ false
    → split_both old ln ≡ done (head, tail)
    → join_blocks head b ≡ done a
    → join_blocks a tail ≡ done c
    → insert_block ln b eb ≡ done c
unfolding insert_block the_block
insert_run ln b old head tail a c eb after e within cut run run' =
    rw (insert_block, after, e, the_block, within, cut, run, run') refl

module _ (eb : EditBuf) (xs : List Line) (v : Shows eb xs) (b : Block) (ys : List Line)
    (p : IsPart b ys) (low : levels eb.buffer + 1 < max_depth)
    (low' : depth b + 1 < max_depth) where
  -- A block with the new lines, that is at most two levels deeper.
  abbrev Inserts : ℕ → Result Block → Type 0
  Inserts ln r =
      (c : Block) × (r ≡ done c)
      × IsPart c (inserted ln ys xs)
      × (depth c ≤ 2 + max (levels eb.buffer) (depth b))

  insert_before : (ln : ℕ) → ln ≡ 0 → (ln == 0) ≡ true → Inserts ln (insert_block ln b eb)
  unfolding insert_block the_block
  insert_before ln zero_ln first = elim (Bool-cases (eb.lines == 0)) [
    | inl none_yet ↦
        let empty : length xs ≤ 0 = ground (arith, none_yet, v.counted) in
        (
          b,
          rw (insert_block, first, none_yet) refl,
          record { valid = p.valid; text = rw (inserted_none ln ys xs empty) p.text },
          omega arith,
        )
    | inr more ↦
        let (old, e, w, text, n, d) =
          whole eb xs v (omega (arith, low)) (ground (arith, more, v.counted)) in
        let (c, run, x) =
          join_blocks_lem b old p.valid w (omega (arith, low')) (omega (arith, d, low)) in
        (
          c,
          rw (insert_block, first, more, e, the_block, run) refl,
          record { valid = x.valid; text = rw (x.text, p.text, text, zero_ln) refl },
          omega (arith, x.shallow, d),
        )
  ]

  insert_after :
      (ln : ℕ) → 0 < ln → ln ≤ length xs → (ln == 0) ≡ false → Inserts ln (insert_block ln b eb)
  unfolding insert_block the_block
  insert_after ln some_before h after =
      let (old, e, w, text, n, d) = whole eb xs v (omega (arith, low)) (omega arith) in
      elim (Bool-cases (ln == eb.lines)) [
        | inl end ↦
            let all : length xs ≤ ln = ground (arith, end, v.counted) in
            let (c, run, x) =
              join_blocks_lem old b w p.valid (omega (arith, d, low)) (omega (arith, low')) in
            (
              c,
              rw (insert_block, after, e, the_block, end, run) refl,
              record {
                valid = x.valid;
                text =
                    rw (x.text, p.text, text, take_all ln xs all, drop_all ln xs all)
                      (sym (append-nil (xs ++ ys)));
              },
              omega (arith, x.shallow, d),
            )
        | inr within ↦
            let less : ln < size old = ground (arith, within, v.counted, n) in
            let (head, tail, cut, x) =
              split_both_lem old ln w some_before less (omega (arith, d, low)) in
            let (a, run, y) =
              join_blocks_lem head b x.head_valid p.valid (omega (arith, x.head_depth, d, low))
                (omega (arith, low')) in
            let (c, run', z) =
              join_blocks_lem a tail y.valid x.tail_valid
                (omega (arith, y.shallow, x.head_depth, d, low, low'))
                (omega (arith, x.tail_depth, d, low)) in
            (
              c,
              insert_run ln b old head tail a c eb after e within cut run run',
              record {
                valid = z.valid;
                text = rw (z.text, y.text, x.first_lines, x.other_lines, text, p.text) refl;
              },
              omega (arith, z.shallow, y.shallow, x.head_depth, x.tail_depth, d),
            )
      ]

  insert_block_lem : (ln : ℕ) → ln ≤ length xs → Inserts ln (insert_block ln b eb)
  insert_block_lem ln h = elim (Bool-cases (ln == 0)) [
    | inl first ↦ insert_before ln (ground (arith, first)) first
    | inr after ↦ insert_after ln (ground (arith, after)) h after
  ]

  count_lines : size b ≡ length ys
  count_lines = sym (length-lines_of b p.valid) ∙ ap length p.text

  -- A block is put after line `ln`: the buffer shows its lines there, and the others as before.
  pub put-Shows :
      (ln : ℕ)
      → ln ≤ length xs
      → length xs + length ys < 2 ^ 31
      → (eb' : EditBuf) × (put ln b eb ≡ done eb')
        × Shows eb' (inserted ln ys xs)
        × (levels eb'.buffer ≤ 2 + max (levels eb.buffer) (depth b))
  unfolding put Holds
  put-Shows ln h room =
      let (c, run, x, d) = insert_block_lem ln h in
      let fits : too_big (eb.lines + size b) ≡ false =
        below_leb (2 ^ 31) (eb.lines + size b) (omega (arith, room, v.counted, count_lines)) in
      (
        record { buffer = some c; lines = eb.lines + size b },
        rw (put, fits, run) refl,
        record {
          holds = (x.valid, x.text);
          counted = omega (arith, v.counted, count_lines, length-inserted ln ys xs h);
        },
        d,
      )

-- Lines that are read are added after line `ln`: the buffer shows them there.
add-create :
    (eb : EditBuf) (xs : List Line) (al : ℕ) (wb : WriteBuf) (ts : List Line) (ln : ℕ)
    → Shows eb xs
    → levels eb.buffer + 1 < max_depth
    → ln ≤ length xs
    → length xs + length ts < 2 ^ 31
    → (eb' : EditBuf) × (add ln (create al wb ts).0 eb ≡ done eb') × Shows eb' (inserted ln ts xs)
unfolding add
add-create eb xs al wb [] ln v low h room =
    let same : inserted ln [] xs ≡ xs = rw (append-nil (take ln xs)) (take-append-drop ln xs) in
    (eb, rw (create-none al wb) refl, subst (Shows eb) (sym same) v)
add-create eb xs al wb (t ∷ ts) ln v low h room =
    let (b, run, w, text, n) = create_lem al wb t ts in
    let one : depth b + 1 < max_depth = omega (arith, depth-le-leaves b w, n) in
    let (eb', run', v', d) =
      put-Shows eb xs v b (t ∷ ts) (record { valid = w; text = text }) low one ln h room in
    (eb', rw (run, add) run', v')
