-- ===== src/Ed/Create/Laws.antt =====
-- That create keeps the lines, and never overfills the write buffer.
use dgd.Prelude.{
  ltb-true, ltb-false, ℕ, suc, ◌+◌, ◌-◌, ◌≤◌, ◌<◌, ◌≡◌, refl, ap, ◌∙◌, List, [], ◌∷◌, ◌++◌, some,
  arith, ltb, Bool-cases, inl, inr, ◌⊎◌, length, take_all, length-append, All,
}
use native.Mathlib.Nat.{div-add-mod', mod-lt}
use mathlib.Core.List.{append_assoc}
use dgd.Ed.{Line, Page, Block, range}
use dgd.Ed.Cat.{before, text_lines, lines_of, leaves, IsNumbered, IsBlock}
use dgd.Ed.Chain.{block_size}
use dgd.Ed.Split.Laws.{before_all}
use dgd.Ed.Create.{WriteBuf, blk_size, write, align, make_room, putblk, putlns, create}

putlns_lem :
    (wb : WriteBuf) (p : Page) (ts : List Line)
    → 0 < length p.text
    → IsNumbered p.lindex (putlns wb p ts).0
      × (text_lines (putlns wb p ts).0 ≡ p.text ++ ts)
      × (0 < length (putlns wb p ts).0)
unfolding putlns
putlns_lem wb p [] h = ((refl, h, tt), refl, omega arith)
putlns_lem wb p (t ∷ ts) h =
    elim (Bool-cases (ltb block_size (wb.blksz + wb.txtsz + (2 + (length t + 1))))) [
      | inl full ↦
          let w = write wb in
          let (v, text, n) =
            putlns_lem (record { blksz = w.blksz + 2 + blk_size; txtsz = w.txtsz + (length t + 1) })
              (record { lindex = p.lindex + length p.text; text = t ∷ [] }) ts (omega arith) in
          rw (putlns, full) ((refl, h, v), ap (λ xs. p.text ++ xs) text, omega arith)
      | inr room ↦
          let more = length-append p.text (t ∷ []) in
          let (v, text, n) =
            putlns_lem (record { blksz = wb.blksz + 2; txtsz = wb.txtsz + (length t + 1) })
              (record p { text = p.text ++ t ∷ [] }) ts (omega (arith, more)) in
          rw (putlns, room) (v, text ∙ append_assoc p.text (t ∷ []) ts, n)
    ]

-- The lines that are read become a block that holds them; there is no block for no lines.
pub create_lem :
    (al : ℕ) (wb : WriteBuf) (t : Line) (ts : List Line)
    → (b : Block) × ((create al wb (t ∷ ts)).0 ≡ some b)
      × IsBlock b
      × (lines_of b ≡ t ∷ ts)
      × (leaves b ≡ 1)
unfolding create IsBlock lines_of
create_lem al wb t ts =
    let w = putblk al wb (blk_size + 2) (length t + 1) in
    let p : Page = record { lindex = 0; text = t ∷ [] } in
    let (v, text, n) = putlns_lem w p ts (omega arith) in
    let ps = (putlns w p ts).0 in
    let all : before ps (suc (length ps - 1)) ≡ length (t ∷ ts) =
      ap (before ps) {x = suc (length ps - 1)} (omega arith) ∙ before_all ps ∙ ap length text in
    (
      range (record {
        chain = ps;
        lfirst = 0;
        llast = length ps - 1;
        lines = length (t ∷ ts);
        index1 = 0;
        index2 = 0;
      }),
      refl,
      record {
        numbered = v;
        not_empty = omega arith;
        ordered = omega arith;
        in_chain = omega arith;
        ends = omega (arith, all);
      },
      rw text (take_all (length (t ∷ ts)) (t ∷ ts) (omega arith)),
      refl,
    )

-- The blocks and the text do not overlap, and text stands only in a buffer that has blocks.
pub record Fits (wb : WriteBuf) : Type 0 where
  pub apart : wb.blksz + wb.txtsz ≤ block_size
  pub used : (0 < wb.blksz) ⊎ (wb.txtsz ≡ 0)

-- A line that is short enough for a page of its own.
abbrev pub IsShort : Line → Type 0
IsShort t = length t + 1 + 2 + blk_size ≤ block_size

-- There is a block, or there is no text.
abbrev IsUsed : WriteBuf → Type 0
IsUsed wb = (0 < wb.blksz) ⊎ (wb.txtsz ≡ 0)

no_text : (wb : WriteBuf) → IsUsed wb → wb.blksz ≡ 0 → wb.txtsz ≡ 0
no_text wb v e = elim v [ inl h ↦ absurd (omega arith) | inr h ↦ h ]

write-empty : (wb : WriteBuf) → IsUsed wb → write wb ≡ record { blksz = 0; txtsz = 0 }
write-empty wb v = elim (Bool-cases (ltb 0 wb.blksz)) [
  | inl some_block ↦ rw some_block refl
  | inr no_block ↦
      let b : wb.blksz ≡ 0 = ground (arith, no_block) in
      let t : wb.txtsz ≡ 0 = no_text wb v b in
      rw no_block (λ i. record { blksz = b i; txtsz = t i })
]

putlns-Fits :
    (wb : WriteBuf) (p : Page) (ts : List Line) → Fits wb → All IsShort ts → Fits (putlns wb p ts).1
unfolding putlns
putlns-Fits wb p [] v s = v
putlns-Fits wb p (t ∷ ts) v s =
    elim (Bool-cases (ltb block_size (wb.blksz + wb.txtsz + (2 + (length t + 1))))) [
      | inl full ↦
          rw (putlns, full, write-empty wb v.used)
            (putlns-Fits (record { blksz = 0 + 2 + blk_size; txtsz = 0 + (length t + 1) })
              (record { lindex = p.lindex + length p.text; text = t ∷ [] }) ts
              (record { apart = omega (arith, s.0); used = inl (omega arith) }) s.1)
      | inr room ↦
          let fits = ltb-false block_size (wb.blksz + wb.txtsz + (2 + (length t + 1))) room in
          rw (putlns, room)
            (putlns-Fits (record { blksz = wb.blksz + 2; txtsz = wb.txtsz + (length t + 1) })
              (record p { text = p.text ++ t ∷ [] }) ts
              (record { apart = omega (arith, fits); used = inl (omega arith) }) s.1)
    ]

make_room-le :
    (wb : WriteBuf) (n : ℕ)
    → IsUsed wb
    → n ≤ block_size
    → (make_room wb n).blksz + (make_room wb n).txtsz + n ≤ block_size
unfolding make_room
make_room-le wb n v h = elim (Bool-cases (ltb block_size (wb.blksz + wb.txtsz + n))) [
  | inl full ↦ rw (make_room, full, write-empty wb v) (omega (arith, h))
  | inr room ↦ rw (make_room, room) (ltb-false block_size (wb.blksz + wb.txtsz + n) room)
]

align-pos : (al n : ℕ) → 0 < n → 0 < align al n
align-pos al n h = elim (Bool-cases (ltb 2 al)) [
  | inl wide ↦
      let some_al : 2 < al = ltb-true 2 al wide in
      let parts = div-add-mod' (n + al - 1) al in
      rw wide (omega (arith, parts, mod-lt (n + al - 1) {m = al} (omega arith)))
  | inr narrow ↦ rw narrow h
]

putblk-Fits :
    (al : ℕ) (wb : WriteBuf) (b t : ℕ)
    → Fits wb
    → 0 < b
    → b + t ≤ block_size
    → Fits (putblk al wb b t)
unfolding putblk
putblk-Fits al wb b t v h k =
    let w : WriteBuf = record wb { blksz = align al wb.blksz } in
    let used : IsUsed w = elim v.used [ inl n ↦ inl (align-pos al wb.blksz n) | inr n ↦ inr n ] in
    let room = make_room-le w (b + t) used k in
    record { apart = omega (arith, room); used = inl (omega arith) }

-- The lines that are read never make blocks and text overlap in the write buffer.
pub create-Fits :
    (al : ℕ) (wb : WriteBuf) (ts : List Line) → Fits wb → All IsShort ts → Fits (create al wb ts).1
unfolding create
create-Fits al wb [] v s = v
create-Fits al wb (t ∷ ts) v s =
    let w = putblk al wb (blk_size + 2) (length t + 1) in
    let w-Fits =
      putblk-Fits al wb (blk_size + 2) (length t + 1) v (omega arith) (omega (arith, s.0)) in
    let p : Page = record { lindex = 0; text = t ∷ [] } in
    putblk-Fits al (putlns w p ts).1 blk_size 0 (putlns-Fits w p ts w-Fits s.1) (omega arith)
      (omega arith)
