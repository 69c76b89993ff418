-- ===== src/Ed/Restore.antt =====
-- That lines that were deleted can be put back where they were.
use dgd.Prelude.{
  take-append-drop, ℕ, zero, suc, ◌+◌, ◌-◌, ◌^◌, ◌≤◌, ◌<◌, ◌≡◌, ap, subst, List, [], ◌∷◌, ◌++◌,
  arith, length, take, drop, length-take, length-drop,
}
use dgd.Ed.{Line, Block, max_depth}
use dgd.Ed.Buffer.{done, EditBuf, put, del}
use dgd.Ed.Steps.{levels, Shows}
use dgd.Ed.Edits.{lines_at, with_lines, del-Shows, length-with_lines}
use dgd.Ed.Insert.{inserted, put-Shows}

restored :
    (i j : ℕ) (xs : List Line)
    → i ≤ j
    → j ≤ length xs
    → inserted i (drop i (take j xs)) (take i xs ++ [] ++ drop j xs) ≡ xs
restored zero j xs h k = take-append-drop j xs
restored (suc i) zero xs h k = absurd (omega arith)
restored (suc i) (suc j) [] h k = absurd (omega arith)
restored (suc i) (suc j) (x ∷ xs) h k = ap (◌∷◌ x) (restored i j xs (omega arith) (omega arith))

-- Lines that are deleted can be put back where they were.
pub put-del :
    (eb : EditBuf) (xs : List Line) (first last : ℕ)
    → Shows eb xs
    → 1 ≤ first
    → first ≤ last
    → last ≤ length xs
    → length xs < 2 ^ 31
    → levels eb.buffer + 2 < max_depth
    → (mid : Block) × (eb' : EditBuf) × (eb'' : EditBuf) × (del first last eb ≡ done (mid, eb'))
      × (put (first - 1) mid eb' ≡ done eb'')
      × Shows eb'' xs
put-del eb xs first last v h k m room low =
    let (mid, eb', run, part, v', d, d') =
      del-Shows eb xs v first last h k m (omega (arith, low)) in
    let ys = lines_at first last xs in
    let rest = with_lines first last [] xs in
    let left : length rest ≡ length xs - (last - first + 1) + 0 =
      length-with_lines eb xs v first last h k m [] in
    let taken : length ys ≡ last - (first - 1) =
      rw (length-drop (first - 1) (take last xs), length-take last xs) (omega arith) in
    let (eb'', run', v'', e) =
      put-Shows eb' rest v' mid ys part (omega (arith, d, low)) (omega (arith, d', low)) (first - 1)
        (omega (arith, left)) (omega (arith, left, taken)) in
    (
      mid,
      eb',
      eb'',
      run,
      run',
      subst (Shows eb'') (restored (first - 1) last xs (omega arith) m) v'',
    )
