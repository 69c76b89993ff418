-- ===== src/Ed/Create.antt =====
-- Reading lines into a chain of pages (src/ed/line.cpp): putblk, putln and create. Of the write
-- buffer the model keeps how full it is; what is written to the file is read back by load.
pub mod Laws
use dgd.Prelude.{
  ltb-true, ltb-false, ℕ, zero, suc, ◌+◌, ◌-◌, ◌*◌, ◌/◌, ◌≤◌, ◌<◌, ◌≡◌, refl, sym, ap, ◌∙◌, true,
  false, List, [], ◌∷◌, ◌++◌, Option, none, some, arith, ltb, Bool-cases, inl, inr, ◌⊎◌, length,
  take_all, length-append, All, if◌then◌else◌,
}
use native.Mathlib.Nat.{div-add-mod', mod-lt}
use mathlib.Core.List.{append_assoc, append-nil}
use dgd.Ed.{Line, Page, Range, Block, range}
use dgd.Ed.Cat.{before, first_place, text_lines, lines_of, IsNumbered, IsRange, IsBlock}
use dgd.Ed.Chain.{block_size}
use dgd.Ed.Split.Laws.{before_all}

-- The bytes of blocks at the one side of the write buffer, and of text at the other.
pub record WriteBuf : Type 0 where
  pub blksz : ℕ
  pub txtsz : ℕ

-- sizeof(Blk)
abbrev pub blk_size : ℕ
blk_size = 16

-- `write`: a buffer without blocks is not written.
abbrev pub write : WriteBuf → WriteBuf
write wb = if ltb 0 wb.blksz then record { blksz = 0; txtsz = 0 } else wb

-- The alignment of blocks, where `al` is STRUCT_AL.
abbrev pub align : ℕ → ℕ → ℕ
align al n = if ltb 2 al then (n + al - 1) / al * al else n

-- The buffer is written first if there is no room.
unfoldable pub make_room : WriteBuf → ℕ → WriteBuf
make_room wb n = if ltb block_size (wb.blksz + wb.txtsz + n) then write wb else wb

-- `putblk`, for a block of `b` bytes with `t` bytes of text.
unfoldable pub putblk : ℕ → WriteBuf → ℕ → ℕ → WriteBuf
putblk al wb b t =
    let w = make_room (record wb { blksz = align al wb.blksz }) (b + t) in
    record { blksz = w.blksz + b; txtsz = w.txtsz + t }

-- `putln` for each of the lines: a line goes into page `p`, or into a new page if the buffer is
-- full. The pages that follow the closed ones.
unfoldable pub putlns : WriteBuf → Page → List Line → List Page × WriteBuf
putlns wb p [] = (p ∷ [], wb)
putlns wb p (t ∷ ts) =
    let need = 2 + (length t + 1) in
    elim (ltb block_size (wb.blksz + wb.txtsz + need)) [
      | true ↦
          let w = write wb in
          let (ps, w') =
            putlns (record { blksz = w.blksz + 2 + blk_size; txtsz = w.txtsz + (length t + 1) })
              (record { lindex = p.lindex + length p.text; text = t ∷ [] }) ts in
          (p ∷ ps, w')
      | false ↦
          putlns (record { blksz = wb.blksz + 2; txtsz = wb.txtsz + (length t + 1) })
            (record p { text = p.text ++ t ∷ [] }) ts
    ]

unfoldable pub create : ℕ → WriteBuf → List Line → Option Block × WriteBuf
create al wb [] = (none, wb)
create al wb (t ∷ ts) =
    let w = putblk al wb (blk_size + 2) (length t + 1) in
    let (ps, w') = putlns w (record { lindex = 0; text = t ∷ [] }) ts in
    (
      some (
          range (record {
            chain = ps;
            lfirst = 0;
            llast = length ps - 1;
            lines = length (t ∷ ts);
            index1 = 0;
            index2 = 0;
          })),
      putblk al w' blk_size 0,
    )
