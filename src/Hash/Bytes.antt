-- ===== src/Hash/Bytes.antt =====
-- The table of hashchar, and the range of the hash functions.
use dgd.Prelude.{
  ℕ, zero, suc, ◌<◌, ◌≡◌, ◌≢◌, refl, sym, ap, ◌∙◌, Bool, true, ◌&&◌, List, [], ◌∷◌, arith, ltb,
  ◌==◌, if◌then◌else◌, Bool-cases, inl, inr, take,
}
use Prim.Native.Nat.{bit_xor}
use dgd.Hash.{tab, nth, hashchar, hash_from, hashstr, hashmem}

are_bytes : List ℕ → Bool
are_bytes [] = true
are_bytes (x ∷ xs) = ltb x 256 && are_bytes xs

nth-bound : (xs : List ℕ) (i : ℕ) → are_bytes xs ≡ true → nth xs i < 256
unfolding are_bytes
nth-bound [] i e = omega arith
nth-bound (x ∷ xs) zero e = ground (arith, e)
nth-bound (x ∷ xs) (suc i) e = nth-bound xs i (ground (arith, e))

hashchar-bound : (c : ℕ) → hashchar c < 256
unfolding hashchar are_bytes
hashchar-bound c = nth-bound tab c refl

hash_from-bound : (p : List ℕ) (h l : ℕ) → h < 256 → l < 256 → hash_from p h l < 65536
unfolding hash_from
hash_from-bound [] h l a b = omega arith
hash_from-bound (c ∷ p) h l a b =
    hash_from-bound p l (hashchar (bit_xor l c)) b (hashchar-bound (bit_xor l c))

-- The hash functions return values of 16 bits, whatever bytes they read.
hash_bounds : (name : List ℕ) (len : ℕ) → (hashstr name len < 65536) × (hashmem name len < 65536)
unfolding hashstr hashmem
hash_bounds name len = (
  hash_from-bound (take len name) 0 0 (omega arith) (omega arith),
  hash_from-bound (take len name) 0 0 (omega arith) (omega arith),
)

-- The first place of a value in a list
place : ℕ → List ℕ → ℕ
place x [] = 0
place x (y ∷ ys) = if x == y then 0 else suc (place x ys)

inverse_below : List ℕ → ℕ → Bool
unfolding place
inverse_below xs zero = true
inverse_below xs (suc n) = (place (nth xs n) xs == n) && inverse_below xs n

inverse_all : inverse_below tab 256 ≡ true
unfolding inverse_below
inverse_all = refl

inverse_at : (xs : List ℕ) (n c : ℕ) → c < n → inverse_below xs n ≡ true → place (nth xs c) xs ≡ c
unfolding inverse_below
inverse_at xs zero c h e = absurd (omega arith)
inverse_at xs (suc n) c h e = elim (Bool-cases (c == n)) [
  | inl p ↦ ground (arith, e, p)
  | inr p ↦ inverse_at xs n c (ground (arith, h, p)) (ground (arith, e))
]

-- hashchar maps different bytes to different bytes.
hashchar_unique : (c d : ℕ) → c < 256 → d < 256 → c ≢ d → hashchar c ≢ hashchar d
unfolding hashchar
hashchar_unique c d h k differ e = differ (
    sym (inverse_at tab 256 c h inverse_all)
    ∙ ap (λ (x : ℕ). place x tab) e
    ∙ inverse_at tab 256 d k inverse_all)
