-- ===== src/Ed/Buffer.antt =====
-- The editing operations on a buffer of lines (src/ed/buffer.h, src/ed/buffer.cpp).
use dgd.Prelude.{ℕ, ◌+◌, ◌-◌, ◌^◌, Bool, true, false, List, Option, none, some, ltb, leb, ◌==◌}
use dgd.Ed.{Line, Block, size, cat}
use dgd.Ed.Split.{split1}
use dgd.Ed.Put

-- "Editor line tree too large", "Too many lines", and what the source does not check for: a block
-- number of 0 where there must be a block.
pub data Failure : Type 0 where
  too_large too_many no_block : Failure

pub data Result {ℓ} (A : Type ℓ) : Type ℓ where
  done : A → Result A
  failed : Failure → Result A

infixl 5 ◌>>=◌ ◌>>◌
abbrev pub ◌>>=◌ {ℓ κ} : {A : Type ℓ} {B : Type κ} → Result A → (A → Result B) → Result B
done a >>= f = f a
failed e >>= f = failed e

abbrev pub ◌>>◌ {ℓ} : {B : Type ℓ} → Result (Unit {0}) → Result B → Result B
m >> k = m >>= λ _. k

pub record EditBuf : Type 0 where
  pub buffer : Option Block
  pub lines : ℕ

-- The constructor of the class, and `clear`.
abbrev pub empty : EditBuf
empty = record { buffer = none; lines = 0 }

-- The calls of cat and split; `split_head` and `split_tail` want one part only.
unfoldable pub join_blocks : Block → Block → Result Block
join_blocks b1 b2 = elim (cat b1 b2) [ none ↦ failed too_large | some b ↦ done b ]

unfoldable pub split_both : Block → ℕ → Result (Block × Block)
split_both b n = elim (split1 true true b n) [
  | some (some h, some t) ↦ done (h, t)
  | _ ↦ failed too_large
]

unfoldable pub split_head : Block → ℕ → Result Block
split_head b n = elim (split1 true false b n) [ some (some h, _) ↦ done h | _ ↦ failed too_large ]

unfoldable pub split_tail : Block → ℕ → Result Block
split_tail b n = elim (split1 false true b n) [ some (_, some t) ↦ done t | _ ↦ failed too_large ]

unfoldable pub the_block : Option Block → Result Block
the_block none = failed no_block
the_block (some b) = done b

-- An Int of 32 bits is negative from here on: the sum of two of them does not reach 2 ^ 32.
abbrev pub too_big : ℕ → Bool
too_big n = leb (2 ^ 31) n

-- Where a block goes that is put after line `ln`.
unfoldable pub insert_block : ℕ → Block → EditBuf → Result Block
insert_block ln b eb = elim (ln == 0) [
  | true ↦ elim (eb.lines == 0) [
    | true ↦ done b
    | false ↦ do old ← the_block eb.buffer; join_blocks b old
  ]
  | false ↦ do
    old ← the_block eb.buffer
    elim (ln == eb.lines) [
      | true ↦ join_blocks old b
      | false ↦ do (head, tail) ← split_both old ln; c ← join_blocks head b; join_blocks c tail
    ]
]

unfoldable pub put : ℕ → Block → EditBuf → Result EditBuf
put ln b eb =
    let total = eb.lines + size b in
    elim (too_big total) [
      | true ↦ failed too_many
      | false ↦ do c ← insert_block ln b eb; done (record { buffer = some c; lines = total })
    ]

-- `b` is what create returns: 0 where there are no lines to read.
unfoldable pub add : ℕ → Option Block → EditBuf → Result EditBuf
add ln none eb = done eb
add ln (some b) eb = put ln b eb

-- The lines up to `last`, and the block of the lines that follow, if there are any.
unfoldable pub cut_last : ℕ → EditBuf → Result (Block × Option Block)
cut_last last eb = do
  old ← the_block eb.buffer
  elim (ltb last eb.lines) [
    | true ↦ do (mid, tail) ← split_both old last; done (mid, some tail)
    | false ↦ done (old, none)
  ]

-- `first` and what follows it, cut off from the lines before it.
unfoldable pub cut_first : ℕ → Block → Result (Option Block × Block)
cut_first first mid = elim (ltb 1 first) [
  | true ↦ do (head, rest) ← split_both mid (first - 1); done (some head, rest)
  | false ↦ done (none, mid)
]

-- What is left: 0, one of the two blocks, or both joined.
unfoldable pub join_rest : Option Block → Option Block → Result (Option Block)
join_rest none tail = done tail
join_rest (some head) none = done (some head)
join_rest (some head) (some tail) = do c ← join_blocks head tail; done (some c)

unfoldable pub del : ℕ → ℕ → EditBuf → Result (Block × EditBuf)
del first last eb = do
  (upto, tail) ← cut_last last eb
  (head, mid) ← cut_first first upto
  rest ← join_rest head tail
  done (mid, record { buffer = rest; lines = eb.lines - (last - first + 1) })

unfoldable pub yank : ℕ → ℕ → EditBuf → Result Block
yank first last eb = do
  (upto, tail) ← cut_last last eb
  (head, mid) ← cut_first first upto
  done mid

-- The part before `first` and the part after `last`, for change.
unfoldable pub before_first : ℕ → EditBuf → Result (Option Block)
before_first first eb = elim (ltb 1 first) [
  | true ↦ do old ← the_block eb.buffer; head ← split_head old (first - 1); done (some head)
  | false ↦ done none
]

unfoldable pub after_last : ℕ → EditBuf → Result (Option Block)
after_last last eb = elim (ltb last eb.lines) [
  | true ↦ do old ← the_block eb.buffer; tail ← split_tail old last; done (some tail)
  | false ↦ done none
]

abbrev pub size_of : Option Block → ℕ
size_of none = 0
size_of (some b) = size b

-- Only a block that is put in can make the buffer too large.
abbrev pub overflows : Option Block → ℕ → Bool
overflows none total = false
overflows (some b) total = too_big total

-- `b` is 0 where the lines are only deleted; the buffer becomes 0 where nothing is left.
unfoldable pub change : ℕ → ℕ → Option Block → EditBuf → Result EditBuf
change first last b eb =
    let total = eb.lines - (last - first + 1) + size_of b in
    elim (overflows b total) [
      | true ↦ failed too_many
      | false ↦ do
        head ← before_first first eb
        tail ← after_last last eb
        front ← join_rest head b
        whole ← join_rest front tail
        done (record { buffer = whole; lines = total })
    ]

-- The lines that are printed, forwards or, if `rev`, backwards.
unfoldable pub range_lines : ℕ → ℕ → Bool → EditBuf → Result (List Line)
range_lines first last rev eb = do
  old ← the_block eb.buffer
  elim (Put.put rev old (first - 1) (last - first + 1)) [
    | none ↦ failed no_block
    | some out ↦ done out
  ]
