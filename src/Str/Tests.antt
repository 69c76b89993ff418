-- ===== src/Str/Tests.antt =====
-- The theorems on strings at concrete strings.
use dgd.Prelude.{ℕ, ◌≡◌, List, [], ◌∷◌}
use dgd.Str.{cmp}
use dgd.Str.Order.{lex, cmp-lex}

abbrev abc : List ℕ
abc = b'a' ∷ b'b' ∷ b'c' ∷ []

abbrev ab0 : List ℕ
ab0 = b'a' ∷ b'b' ∷ 0 ∷ []

cmp-lex_example : cmp ab0 abc ≡ lex ab0 abc
cmp-lex_example = cmp-lex ab0 abc
