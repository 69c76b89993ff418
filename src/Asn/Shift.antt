-- ===== src/Asn/Shift.antt =====
-- Asi::lshift and Asi::rshift. Where `|` joins bits that do not overlap, it is a sum.
use dgd.Prelude.{
  ℕ, ◌+◌, ◌-◌, ◌*◌, ◌/◌, ◌%◌, ◌^◌, List, [], ◌∷◌, ◌++◌, ◌==◌, if◌then◌else◌, length, take, drop,
  replicate,
}
use dgd.Asn.{word_mod}

-- The loop of Asi::lshift by fewer bits than a word has, from a word on: `bits` come from the word
-- below.
unfoldable pub shl : ℕ → ℕ → List ℕ → List ℕ
shl lshift bits [] = []
shl lshift bits (a ∷ us) =
    (a * 2 ^ lshift % word_mod + bits) ∷ shl lshift (a / 2 ^ (32 - lshift)) us

-- Asi::lshift: `offset` words come in at the low end, and what leaves the number is lost.
unfoldable pub lshift : ℕ → List ℕ → List ℕ
unfolding shl
lshift n num =
    let offset = (n + 31) / 32 in
    let sz = length num - offset in
    if n % 32 == 0
    then replicate offset 0 ++ take sz num
    else replicate (offset - 1) 0 ++ shl (n % 32) 0 (take (sz + 1) num)

-- The loop of Asi::rshift by fewer bits than a word has
unfoldable pub shr : ℕ → List ℕ → List ℕ
shr rshift [] = []
shr rshift (a ∷ []) = a / 2 ^ rshift ∷ []
shr rshift (a ∷ (b ∷ us)) =
    (a / 2 ^ rshift + b * 2 ^ (32 - rshift) % word_mod) ∷ shr rshift (b ∷ us)

-- Asi::rshift
unfoldable pub rshift : ℕ → List ℕ → List ℕ
unfolding shr
rshift n num =
    let offset = (n + 31) / 32 in
    if n % 32 == 0
    then drop offset num ++ replicate offset 0
    else shr (n % 32) (drop (offset - 1) num) ++ replicate (offset - 1) 0
