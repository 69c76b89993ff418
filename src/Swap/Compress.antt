-- ===== src/Swap/Compress.antt =====
-- The compression of swapped data (src/swap.cpp): a table predicts each byte from the three before
-- it. A bit tells if it was right; if not, the byte follows.
use Prim.Native.Nat.{bit_xor}
use dgd.Prelude.{
  ℕ, zero, suc, ◌+◌, ◌-◌, ◌*◌, ◌/◌, ◌%◌, ◌^◌, true, false, List, [], ◌∷◌, ◌++◌, Option, none, some,
  leb, ◌==◌, if◌then◌else◌, length, update,
}
use dgd.Hash.{hashchar}

-- The table, and the place of the next prediction in it.
pub record Predictor : Type 0 where
  pub htab : ℕ → ℕ
  pub x : ℕ

abbrev pub cleared : Predictor
cleared = record { htab = λ _. 0; x = 0 }

unfoldable pub hash_next : ℕ → ℕ → ℕ
hash_next x c = bit_xor (x * 8 % 16384) (hashchar c)

-- After a byte that was predicted, and after one that was not.
abbrev pub confirm : Predictor → ℕ → Predictor
confirm s c = record s { x = hash_next s.x c }

abbrev pub learn : Predictor → ℕ → Predictor
learn s c = record { htab = update s.htab s.x c; x = hash_next s.x c }

-- The two forms of `*q++`: bytes are put before what follows.
unfoldable pub put_bytes : List ℕ → Option (List ℕ) → Option (List ℕ)
put_bytes bs none = none
put_bytes bs (some rest) = some (bs ++ rest)

-- The bits that wait are the highest `bufsize` of the 16 of `buf`. The bits of the next byte are put
-- behind them.
unfoldable pub push_hit : ℕ → ℕ
push_hit buf = buf / 2

unfoldable pub push_miss : ℕ → ℕ → ℕ
push_miss buf c = (buf / 512 + 128 + c * 256) % 65536

-- The predictor, buf and bufsize after a byte.
unfoldable pub code : Predictor → ℕ → ℕ → ℕ → Predictor × ℕ × ℕ
code s buf bufsize c =
    if s.htab s.x == c
    then (confirm s c, push_hit buf, bufsize + 1)
    else (learn s c, push_miss buf c, bufsize + 9)

-- The whole bytes that wait are written, and the loop goes on with `rest`.
unfoldable pub flush : (ℕ → ℕ → Option (List ℕ)) → ℕ → ℕ → ℕ → Option (List ℕ)
flush rest b n cspace = elim (leb 8 n) [
  | false ↦ rest n cspace
  | true ↦ elim (n == 16) [
    | true ↦ elim (leb cspace 2) [
      | true ↦ none
      | false ↦ put_bytes (b % 256 ∷ b / 256 % 256 ∷ []) (rest 0 (cspace - 2))
    ]
    | false ↦ elim (cspace == 1) [
      | true ↦ none
      | false ↦ put_bytes (b / 2 ^ (16 - n) % 256 ∷ []) (rest (n - 8) (cspace - 1))
    ]
  ]
]

-- The loop over the bytes, and the last incomplete byte; none is "out of space".
unfoldable pub compress_from : List ℕ → Predictor → ℕ → ℕ → ℕ → Option (List ℕ)
compress_from [] s buf bufsize cspace =
    if bufsize == 0
    then some []
    else if cspace == 1
    then none
    else some ((buf / 2 ^ (16 - bufsize) + 255 * 2 ^ bufsize) % 256 ∷ [])
compress_from (c ∷ text) s buf bufsize cspace =
    let (t, b, n) = code s buf bufsize c in flush (compress_from text t b) b n cspace

-- The size before compression stands first, in four bytes.
abbrev pub size_bytes : ℕ → List ℕ
size_bytes n = n / 16777216 % 256 ∷ n / 65536 % 256 ∷ n / 256 % 256 ∷ n % 256 ∷ []

-- none is the result 0.
unfoldable pub compress : List ℕ → Option (List ℕ)
compress text =
    if leb (length text) 5
    then none
    else put_bytes (size_bytes (length text)) (compress_from text cleared 0 0 (length text - 4))

-- A byte that is decompressed.
abbrev pub emit : ℕ → Option (List ℕ) → Option (List ℕ)
emit c rest = put_bytes (c ∷ []) rest

-- A byte is taken where no bit is left.
unfoldable pub refill : List ℕ → ℕ → ℕ → Option (List ℕ × ℕ × ℕ)
refill [] buf bufsize = if bufsize == 0 then none else some ([], buf, bufsize)
refill (c ∷ rest) buf bufsize =
    if bufsize == 0 then some (rest, c, 8) else some (c ∷ rest, buf, bufsize)

-- The inner loop of decompress; the bits that are left of a byte are the lowest of `buf`. A new
-- piece of the data is read where the bytes of the last one end, which leaves the state as it is, so
-- the data is one list here. Each round gives a byte, and the fuel counts them.
unfoldable pub decompress_from : ℕ → List ℕ → Predictor → ℕ → ℕ → Option (List ℕ)
decompress_from zero bytes s buf bufsize = none
decompress_from (suc fuel) bytes s buf bufsize = elim (refill bytes buf bufsize) [
  | none ↦ some []
  | some (rest, b, n) ↦ elim (b % 2 == 1) [
    | true ↦ elim rest [
      | [] ↦ some []
      | c ∷ rest' ↦
          let wide = (b + c * 2 ^ n) % 65536 in
          emit (wide / 2 % 256)
            (decompress_from fuel rest' (learn s (wide / 2 % 256)) (wide / 512) (n - 1))
    ]
    | false ↦ emit (s.htab s.x) (decompress_from fuel rest (confirm s (s.htab s.x)) (b / 2) (n - 1))
  ]
]

-- `(UCHAR(p[0]) << 24) | (UCHAR(p[1]) << 16) | (UCHAR(p[2]) << 8) | UCHAR(p[3])`, of bytes
abbrev pub size_of_bytes : ℕ → ℕ → ℕ → ℕ → ℕ
size_of_bytes b0 b1 b2 b3 = b0 * 16777216 + b1 * 65536 + b2 * 256 + b3

-- The result is what stands from `q - *dsize` on, and `*dsize`. The bytes are put from the start of
-- the `*dsize` that are allocated, where `q - *dsize` points if they are as many; none stands for
-- fewer bytes, for more of them than are allocated, and for data without the four bytes of the size.
unfoldable pub allocated : ℕ → Option (List ℕ) → Option (List ℕ × ℕ)
allocated dsize none = none
allocated dsize (some out) = if length out == dsize then some (out, dsize) else none

-- Swap::decompress
unfoldable pub decompress : ℕ → List ℕ → Option (List ℕ × ℕ)
unfolding allocated decompress_from
decompress fuel (b0 ∷ (b1 ∷ (b2 ∷ (b3 ∷ bytes)))) =
    allocated (size_of_bytes b0 b1 b2 b3) (decompress_from fuel bytes cleared 0 0)
decompress fuel bytes = none
