-- ===== src/Asn/Text.antt =====
-- Asi::strtonum and Asi::numtostr: numbers as strings of bytes in two's complement, the highest first.
use dgd.Prelude.{
  ℕ, zero, suc, ◌+◌, ◌-◌, ◌*◌, ◌/◌, ◌%◌, ◌^◌, Bool, true, false, List, [], ◌∷◌, ◌++◌, reverse, none,
  some, ltb, leb, ◌==◌, ◌&&◌, not, if◌then◌else◌, length, take, replicate,
}
use dgd.Str
use dgd.Asn.{word_mod, sub}
use dgd.Asn.Div.{word_at}

-- `while (*text == c) { text++; ... }`
unfoldable pub skip_bytes : ℕ → List ℕ → List ℕ
skip_bytes c [] = []
skip_bytes c (b ∷ text) = let rest = skip_bytes c text in if b == c then rest else b ∷ text

-- `bits = (bits << 8) | UCHAR(*text++)`
abbrev pub next_bits : ℕ → ℕ → ℕ
next_bits bits b = (bits * 256 % word_mod) + b

-- The words of the text, which is given from its end; `bits` is what the highest word starts from.
unfoldable pub words_of : ℕ → List ℕ → List ℕ
words_of bits [] = []
words_of bits (b0 ∷ []) = next_bits bits b0 ∷ []
words_of bits (b0 ∷ (b1 ∷ [])) = next_bits (next_bits bits b1) b0 ∷ []
words_of bits (b0 ∷ (b1 ∷ (b2 ∷ []))) = next_bits (next_bits (next_bits bits b2) b1) b0 ∷ []
words_of bits (b0 ∷ (b1 ∷ (b2 ∷ (b3 ∷ text)))) =
    (b3 * 16777216 + b2 * 65536 + b1 * 256 + b0) ∷ words_of bits text

-- The number for the text behind its leading bytes of sign, where there is any
unfoldable pub positive : List ℕ → List ℕ
unfolding words_of
positive [] = 0 ∷ []
positive (b ∷ text) = words_of 0 (reverse (b ∷ text))

unfoldable pub negative : List ℕ → List ℕ
unfolding words_of
negative [] = 1 ∷ []
negative (b ∷ text) =
    let t = words_of 4294967295 (reverse (b ∷ text)) in (sub (replicate (length t) 0) t).0

-- Asi::strtonum: the words, and if the number is negative
unfoldable pub strtonum : List ℕ → List ℕ × Bool
unfolding skip_bytes positive negative
strtonum [] = (0 ∷ [], false)
strtonum (b ∷ text) =
    if leb 128 b
    then (negative (skip_bytes 255 (b ∷ text)), true)
    else (positive (skip_bytes 0 (b ∷ text)), false)

-- The size without leading words that are 0
unfoldable pub trim : List ℕ → ℕ
trim [] = 0
trim (a ∷ us) = let sz = trim us in if sz == 0 && a == 0 then 0 else suc sz

-- The bytes of a word, the lowest first
abbrev pub low_bytes : ℕ → ℕ → List ℕ
low_bytes zero a = []
low_bytes (suc n) a = a % 256 ∷ low_bytes n (a / 256)

-- `for (len = 24; (bits >> len) == 0; len -= 8) ; len = (len >> 3) + 1`, for bits that are not all 0
unfoldable pub len_from : ℕ → ℕ → ℕ
len_from zero bits = 1
len_from (suc n) bits =
    let lower = len_from n bits in if bits / 256 ^ suc n == 0 then lower else suc (suc n)

-- Where the loop over the bytes 0xff ends: at a byte that is not 0xff, or at a shift of a 32-bit word
-- by more than 31, which is undefined; `starved` is the end of the fuel.
pub data HighByte : Type 0 where
  found shifted : ℕ → HighByte
  starved : HighByte

-- `for (len = 24; UCHAR(bits >> len) == 0xff; len -= 8) ;`, from `len` on, which is unsigned and has 16
-- bits
unfoldable pub len_minus : ℕ → ℕ → ℕ → HighByte
len_minus zero bits len = starved
len_minus (suc fuel) bits len =
    let rest = len_minus fuel bits ((len + 65528) % 65536) in
    if leb 32 len then shifted len else if bits / 2 ^ len % 256 == 255 then rest else found len

-- The text from its end: the words `us`, and `len` bytes of the highest word, `bits`
abbrev pub text_of : List ℕ → ℕ → ℕ → List ℕ
text_of [] bits len = low_bytes len bits
text_of (a ∷ us) bits len = low_bytes 4 a ++ text_of us bits len

-- The text in its order, behind a byte that tells the sign where one is needed
unfoldable pub put_text : List ℕ → ℕ → ℕ → Bool → ℕ → List ℕ
put_text us bits len prefix sign =
    let text = reverse (text_of us bits len) in if prefix then sign ∷ text else text

-- `(bits >> len) & 0x80`, for the `len` of a loop that found `n` bytes
abbrev pub has_sign : ℕ → ℕ → Bool
has_sign bits n = leb 128 (bits / 256 ^ (n - 1) % 256)

-- What numtostr does: it returns a string, or ends with the error "String too long" of
-- String::create, or its behaviour is undefined: words behind the end of `tmp` are written, or a word
-- is shifted by more than 31. `unfinished` is the end of the fuel.
pub data Written : Type 0 where
  written : List ℕ → Written
  too_long past_end unfinished : Written
  bad_shift : ℕ → Written

-- String::create, with the bytes that are put there
abbrev pub string_of : List ℕ → Written
string_of text = elim (Str.create text) [ none ↦ too_long | some s ↦ written s ]

-- The text for a number below 0, whose two's complement is `t`. The loop of len_minus looks at four
-- bytes at most before `len` wraps around.
unfoldable pub minus_text : List ℕ → ℕ → Written
unfolding len_minus
minus_text t sz =
    let bits = word_at t (sz - 1) in
    if sz == 1 && bits == 4294967295
    then string_of (put_text (take (sz - 1) t) bits 1 false 255)
    else elim (len_minus 5 bits 24) [
      | found len ↦
          let n = len / 8 + 1 in
          string_of (put_text (take (sz - 1) t) bits n (not (has_sign bits n)) 255)
      | shifted len ↦ bad_shift len
      | starved ↦ unfinished
    ]

-- Asi::numtostr, of a number of at least one word. For a number below 0, `t` has `sz` words, and
-- `t.sub(*this)` goes over all the words of the number.
unfoldable pub numtostr : Bool → List ℕ → Written
numtostr minus num =
    let sz = trim num in
    let top = word_at num (sz - 1) in
    let len = len_from 3 top in
    if sz == 0
    then string_of (0 ∷ [])
    else if minus
    then (if ltb sz (length num) then past_end else minus_text (sub (replicate sz 0) num).0 sz)
    else string_of (put_text (take (sz - 1) num) top len (has_sign top len) 0)
