-- ===== src/Str/Order.antt =====
-- String::cmp orders strings lexicographically by their bytes.
use Prim.Native.Nat.{compare, Ordering}
use dgd.Prelude.{ℕ, suc, ◌+◌, ◌≡◌, ◌≢◌, ◌↔◌, refl, List, [], ◌∷◌, arith, ltb, if◌then◌else◌, length}
use dgd.Str.{byte, skip_equal, cmp}

-- The specification: the first bytes that differ decide, or else one string begins the other.
unfoldable pub lex : List ℕ → List ℕ → Ordering
lex [] [] = Ordering.eq
lex [] (b ∷ t) = Ordering.lt
lex (a ∷ s) [] = Ordering.gt
lex (a ∷ s) (b ∷ t) = elim (compare a b) [
  | Ordering.lt ↦ Ordering.lt
  | Ordering.eq ↦ lex s t
  | Ordering.gt ↦ Ordering.gt
]

-- The end of cmp, for strings of the lengths `m` and `n`.
abbrev decide : ℕ → ℕ → List ℕ → List ℕ → Ordering
decide m n p q = elim (compare (byte p) (byte q)) [
  | Ordering.lt ↦ Ordering.lt
  | Ordering.eq ↦ compare m n
  | Ordering.gt ↦ Ordering.gt
]

shorter : ℕ → ℕ → ℕ
shorter a b = if ltb b a then b else a

shorter-suc : (a b : ℕ) → shorter (suc a) (suc b) ≡ suc (shorter a b)
unfolding shorter
shorter-suc a b = ground arith

-- What is left of the strings is as much shorter or longer as they are.
skip_equal-lex :
    (m n : ℕ) (s t : List ℕ)
    → m + length t ≡ n + length s
    → let (p, q) = skip_equal (shorter (length s) (length t)) s t in decide m n p q ≡ lex s t
unfolding skip_equal lex shorter
skip_equal-lex m n [] [] h = ground arith
skip_equal-lex m n [] (b ∷ t) h = ground arith
skip_equal-lex m n (a ∷ s) [] h = ground arith
skip_equal-lex m n (a ∷ s) (b ∷ t) h =
    rw (shorter-suc (length s) (length t), skip_equal) (ground (arith, skip_equal-lex m n s t))

-- String::cmp is the lexicographic order of the bytes, of zero bytes too.
pub cmp-lex : (s t : List ℕ) → cmp s t ≡ lex s t
unfolding cmp shorter
cmp-lex s t = skip_equal-lex (length s) (length t) s t (omega arith)

lex-eq : (s t : List ℕ) → lex s t ≡ Ordering.eq → s ≡ t
unfolding lex
lex-eq [] [] e = refl
lex-eq [] (b ∷ t) e = cc
lex-eq (a ∷ s) [] e = cc
lex-eq (a ∷ s) (b ∷ t) e = ground (arith, lex-eq s t)

lex_self : (s : List ℕ) → lex s s ≡ Ordering.eq
unfolding lex
lex_self [] = refl
lex_self (a ∷ s) = ground (arith, lex_self s)

-- The result with the arguments swapped.
abbrev pub opposite : Ordering → Ordering
opposite Ordering.lt = Ordering.gt
opposite Ordering.eq = Ordering.eq
opposite Ordering.gt = Ordering.lt

lex_flip : (s t : List ℕ) → lex t s ≡ opposite (lex s t)
unfolding lex
lex_flip [] [] = refl
lex_flip [] (b ∷ t) = refl
lex_flip (a ∷ s) [] = refl
lex_flip (a ∷ s) (b ∷ t) = ground (arith, lex_flip s t)

lex_trans : (s t u : List ℕ) → lex s t ≡ Ordering.lt → lex t u ≡ Ordering.lt → lex s u ≡ Ordering.lt
unfolding lex
lex_trans [] [] [] e f = cc
lex_trans [] (b ∷ t) [] e f = cc
lex_trans [] t (c ∷ u) e f = refl
lex_trans (a ∷ s) [] u e f = cc
lex_trans (a ∷ s) (b ∷ t) [] e f = cc
lex_trans (a ∷ s) (b ∷ t) (c ∷ u) e f = ground (arith, lex_trans s t u)

-- Strings compare as equal exactly if they are the same, and the other way round if they are swapped.
pub cmp_order :
    (s t : List ℕ) → ((cmp s t ≡ Ordering.eq) ↔ (s ≡ t)) × (cmp t s ≡ opposite (cmp s t))
cmp_order s t = rw (cmp-lex s t, cmp-lex t s) ((lex-eq s t, λ e. rw e (lex_self t)), lex_flip s t)

-- The order of strings is transitive: if s is less than t and t is less than u, s is less than u.
cmp_trans : (s t u : List ℕ) → cmp s t ≡ Ordering.lt → cmp t u ≡ Ordering.lt → cmp s u ≡ Ordering.lt
cmp_trans s t u = rw (cmp-lex s t, cmp-lex t u, cmp-lex s u) (lex_trans s t u)

pub lex_below :
    (s t u : List ℕ) → lex s u ≡ Ordering.gt → lex t u ≢ Ordering.gt → lex s t ≡ Ordering.gt
unfolding lex
lex_below [] t [] e f = cc
lex_below [] t (c ∷ u) e f = cc
lex_below (a ∷ s) [] u e f = refl
lex_below (a ∷ s) (b ∷ t) [] e f = absurd (f refl)
lex_below (a ∷ s) (b ∷ t) (c ∷ u) e f = ground (arith, lex_below s t u)

pub lex_above :
    (s t u : List ℕ) → lex s t ≡ Ordering.lt → lex t u ≢ Ordering.gt → lex s u ≡ Ordering.lt
unfolding lex
lex_above [] [] u e f = cc
lex_above [] (b ∷ t) [] e f = absurd (f refl)
lex_above [] (b ∷ t) (c ∷ u) e f = refl
lex_above (a ∷ s) [] u e f = cc
lex_above (a ∷ s) (b ∷ t) [] e f = absurd (f refl)
lex_above (a ∷ s) (b ∷ t) (c ∷ u) e f = ground (arith, lex_above s t u)
