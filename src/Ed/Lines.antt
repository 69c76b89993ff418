-- ===== src/Ed/Lines.antt =====
-- Collecting lines one at a time (src/ed/buffer.cpp): startblock, addblock, endblock and flushLine.
-- `sizeof(llines)` is the size of a pointer, so a line is flushed as soon as 8 bytes are there.
pub mod Laws
use Prim.Native.Nat.{max}
use dgd.Prelude.{
  ℕ, zero, suc, ◌+◌, ◌-◌, ◌*◌, ◌≤◌, ◌<◌, ◌≡◌, refl, sym, ap, ◌∙◌, true, false, List, [], ◌∷◌, ◌++◌,
  Option, none, some, arith, Bool, ltb, leb, Bool-cases, inl, inr, length, length-append,
}
use mathlib.Core.List.{append_assoc, append-nil}
use dgd.Ed.{Line, Block, range, joined, depth, max_depth}
use dgd.Ed.Cat.{lines_of, leaves, IsBlock}
use dgd.Ed.Create.{WriteBuf, create}
use dgd.Ed.Create.Laws.{create_lem}
use dgd.Ed.Buffer.{Result, done, failed, no_block, join_blocks, ◌>>=◌}
use dgd.Ed.Steps.{Holds, levels, join_blocks_lem}

-- `pending` are the lines in llbuf, from llines on.
pub record Lines : Type 0 where
  pub flines : Option Block
  pub pending : List Line
  pub szlines : ℕ
  pub wb : WriteBuf

-- sizeof(llines)
abbrev pub pointer_size : ℕ
pointer_size = 8

unfoldable pub startblock : Lines → Lines
startblock s = record s { flines = none; pending = []; szlines = 0 }

-- `flines`, or what it becomes with the block of the flushed lines.
unfoldable pub append_block : Option Block → Option Block → Result (Option Block)
append_block none b = done b
append_block (some f) none = failed no_block
append_block (some f) (some b) = do c ← join_blocks f b; done (some c)

unfoldable pub flush_line : ℕ → Lines → Result Lines
flush_line al s =
    let (b, w) = create al s.wb s.pending in
    do f ← append_block s.flines b; done (record { flines = f; pending = []; szlines = 0; wb = w })

unfoldable pub flush_if : Bool → ℕ → Lines → Result Lines
flush_if true al s = flush_line al s
flush_if false al s = done s

unfoldable pub addblock : ℕ → Line → Lines → Result Lines
addblock al text s = do
  let len = length text + 1
  a ← flush_if (leb pointer_size (s.szlines + len)) al s
  done (record a { pending = a.pending ++ text ∷ []; szlines = a.szlines + len })

unfoldable pub endblock : ℕ → Lines → Result Lines
endblock al s = flush_if (ltb 0 s.szlines) al s

-- A whole run.
unfoldable pub add_all : ℕ → List Line → Lines → Result Lines
add_all al [] s = endblock al s
add_all al (t ∷ ts) s = do a ← addblock al t s; add_all al ts a
