-- ===== src/Asn/Tests.antt =====
-- The theorems on numbers of any size at concrete numbers.
use dgd.Prelude.{
  ℕ, suc, ◌*◌, ◌≡◌, ◌≢◌, refl, true, false, List, [], ◌∷◌, ◌++◌, arith, length, ◌+◌, ◌≤◌,
}
use dgd.Str
use dgd.Asn.{add, sub, cmp, mult_row}
use dgd.Asn.Div.{shift_from, div_by, div}
use dgd.Asn.DivStep.{Holds}
use dgd.Asn.Minus.{numtostr-minus, numtostr-shifted}
use dgd.Asn.Mult.{apart_x, apart_y, middle, join, mult_from, mult_inner, sqr}
use dgd.Asn.Product.{mult_inner-Holds}
use dgd.Asn.Quotient.{IsQuotient}
use dgd.Asn.Places.{place}
use dgd.Asn.Long.{mult}
use dgd.Asn.LongProduct.{mult-Holds}
use dgd.Asn.Square.{sqr-Holds}
use dgd.Asn.Text.{
  skip_bytes, words_of, negative, strtonum, trim, len_minus, put_text, minus_text, numtostr,
  written, past_end, bad_shift, string_of,
}
use dgd.Asn.Value.{value, AreWords}
use dgd.Asn.Whole.{div-IsQuotient}
use dgd.Asn.Write.{numtostr-strtonum}

-- Two words with all bits set
abbrev ones : List ℕ
ones = 4294967295 ∷ (4294967295 ∷ [])

abbrev three : List ℕ
three = 7 ∷ (5 ∷ (4 ∷ []))

ones-AreWords : AreWords ones
ones-AreWords = (omega arith, (omega arith, tt))

three-AreWords : AreWords three
three-AreWords = (omega arith, (omega arith, (omega arith, tt)))

-- Carries run through both words.
adds : add ones (1 ∷ []) ≡ (0 ∷ (0 ∷ []), 1)
unfolding add
adds = refl

-- The first guess for this quotient is too large.
divides : div three ones ≡ (11 ∷ (5 ∷ []), 4 ∷ (0 ∷ []))
unfolding div div_by shift_from sub cmp mult_row
divides = refl

multiplies : mult_inner ones ones ≡ 1 ∷ (0 ∷ (4294967294 ∷ (4294967295 ∷ [])))
unfolding mult_inner mult_from apart_x apart_y middle join add sub cmp
multiplies = refl

-- For four words by three, what is carried out of the sum in the middle is lost: the seventh word should
-- have all bits set, too.
loses :
    mult_inner (ones ++ ones) (4294967295 ∷ ones)
    ≡ 1 ∷ (0 ∷ (0 ∷ (4294967295 ∷ (4294967294 ∷ (4294967295 ∷ (4294967294 ∷ []))))))
unfolding mult_inner mult_from apart_x apart_y middle join add sub cmp
loses = refl

-- -128, and what is read for -(2 ^ 32)
writes : numtostr true (128 ∷ []) ≡ written (128 ∷ [])
unfolding numtostr minus_text trim len_minus put_text sub Str.create
writes = refl

-- With a leading word that is 0, the words behind the end of tmp are written.
leading_zero : numtostr true (128 ∷ (0 ∷ [])) ≡ past_end
unfolding numtostr trim
leading_zero = refl

reads_zero : strtonum (255 ∷ (0 ∷ (0 ∷ (0 ∷ (0 ∷ []))))) ≡ (0 ∷ [], true)
unfolding strtonum skip_bytes negative words_of sub
reads_zero = refl

-- 0xff 0x7f 0x01
abbrev negative_text : List ℕ
negative_text = 255 ∷ (127 ∷ (1 ∷ []))

div-IsQuotient_example :
    IsQuotient (9 ∷ (3 ∷ [])) three (div three (9 ∷ (3 ∷ []))).1 (div three (9 ∷ (3 ∷ []))).0
div-IsQuotient_example =
    div-IsQuotient three (9 ∷ (3 ∷ [])) 1 refl (omega arith) three-AreWords
      (omega arith, (omega arith, tt)) (omega arith) (omega arith)

mult_inner-Holds_example : Holds (value ones * value ones) 4 (mult_inner ones ones)
mult_inner-Holds_example = mult_inner-Holds 1 ones ones refl refl ones-AreWords ones-AreWords

sqr-Holds_example : Holds (value three * value three) 6 (sqr three)
sqr-Holds_example = sqr-Holds three (omega arith) three-AreWords

numtostr-strtonum_example :
    (s : List ℕ) × (numtostr false three ≡ string_of s)
    × (length s ≤ 4 * length three + 1)
    × ((strtonum s).1 ≡ false)
    × (value (strtonum s).0 ≡ value three)
numtostr-strtonum_example = numtostr-strtonum three three-AreWords

no_power : (k : ℕ) → value (9 ∷ (3 ∷ [])) ≢ place (suc k)
no_power k e = omega (arith, e)

numtostr-minus_example :
    (s : List ℕ) × (numtostr true (9 ∷ (3 ∷ [])) ≡ string_of s)
    × (length s ≤ 4 * 2 + 1)
    × ((strtonum s).1 ≡ true)
    × (value (strtonum s).0 ≡ value (9 ∷ (3 ∷ [])))
numtostr-minus_example =
    numtostr-minus (9 ∷ (3 ∷ [])) (omega arith, (omega arith, tt)) (omega arith) no_power

numtostr-shifted_example : numtostr true (0 ∷ (0 ∷ (1 ∷ []))) ≡ bad_shift 65528
numtostr-shifted_example =
    numtostr-shifted (0 ∷ (0 ∷ (1 ∷ []))) 1 (omega arith, (omega arith, (omega arith, tt)))
      (omega arith) refl

-- Four words by two
mult-Holds_example : Holds (value (ones ++ ones) * value ones) 6 (mult (ones ++ ones) ones)
mult-Holds_example =
    mult-Holds 1 1 (ones ++ ones) ones (omega arith) refl refl
      (omega arith, (omega arith, (omega arith, (omega arith, tt)))) ones-AreWords
