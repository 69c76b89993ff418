-- ===== src/Swap/Chain.antt =====
-- Doubly linked lists of slots of the cache in src/swap.cpp, such as the first-last list, read as lists of indices.
use dgd.Prelude.{
  ℕ, ◌≡◌, ◌≢◌, refl, sym, List, [], ◌∷◌, ◌++◌, Option, none, some, arith, ◌==◌, update,
  update_other, update_same, All, ◌⊎◌, inl, inr, Bool-cases, ==_iff,
}
use dgd.Swap.Device.{SwapSlot}

abbrev pub NotIn : ℕ → List ℕ → Type 0
NotIn i l = All (λ j. i ≢ j) l

abbrev pub Unique : List ℕ → Type 0
Unique [] = Unit {0}
Unique (i ∷ l) = NotIn i l × Unique l

-- The first and the last slot of a list, or else `p`.
abbrev pub head_or : List ℕ → Option ℕ → Option ℕ
head_or [] p = p
head_or (i ∷ l) p = some i

abbrev pub final : ℕ → List ℕ → ℕ
final i [] = i
final i (j ∷ l) = final j l

abbrev pub last_or : Option ℕ → List ℕ → Option ℕ
last_or p [] = p
last_or p (i ∷ l) = some (final i l)

-- The slots `l` are linked, between `p` and `q`.
abbrev pub Linked : (ℕ → SwapSlot) → Option ℕ → List ℕ → Option ℕ → Type 0
Linked s p [] q = Unit {0}
Linked s p (i ∷ l) q = ((s i).prev ≡ p) × ((s i).next ≡ head_or l q) × Linked s (some i) l q

-- The slots `f` are linked by their next pointers alone.
abbrev pub Queued : (ℕ → SwapSlot) → List ℕ → Type 0
Queued s [] = Unit {0}
Queued s (i ∷ f) = ((s i).next ≡ head_or f none) × Queued s f

NotIn-append : (i : ℕ) (xs ys : List ℕ) → NotIn i xs → NotIn i ys → NotIn i (xs ++ ys)
NotIn-append i [] ys a b = b
NotIn-append i (x ∷ xs) ys a b = (a.0, NotIn-append i xs ys a.1 b)

pub NotIn-both : (i : ℕ) (xs ys : List ℕ) → NotIn i (xs ++ ys) → NotIn i xs × NotIn i ys
NotIn-both i [] ys a = (tt, a)
NotIn-both i (x ∷ xs) ys a = let (b, c) = NotIn-both i xs ys a.1 in ((a.0, b), c)

-- A slot is in a list, which it splits, or not.
pub split_at :
    (i : ℕ) (l : List ℕ) → ((xs : List ℕ) × (ys : List ℕ) × (l ≡ xs ++ i ∷ ys)) ⊎ NotIn i l
split_at i [] = inr tt
split_at i (j ∷ l) = elim (Bool-cases (i == j)) [
  | inl same ↦ inl ([], l, rw ((==_iff i j).0 same) refl)
  | inr other ↦ elim (split_at i l) [
    | inl (xs, ys, e) ↦ inl (j ∷ xs, ys, rw e refl)
    | inr out ↦ inr (ground arith, out)
  ]
]

pub Unique-move :
    (xs : List ℕ) (i : ℕ) (ys : List ℕ) → Unique (xs ++ i ∷ ys) → Unique (i ∷ (xs ++ ys))
Unique-move [] i ys u = u
Unique-move (x ∷ xs) i ys u =
    let (out, rest) = Unique-move xs i ys u.1 in
    let (a, b) = NotIn-both x xs (i ∷ ys) u.0 in
    (((λ e. b.0 (sym e)), out), (NotIn-append x xs ys a b.1, rest))

pub Unique-apart :
    (xs : List ℕ) (ys : List ℕ)
    → Unique (xs ++ ys)
    → All (λ x. NotIn x ys) xs × Unique xs × Unique ys
Unique-apart [] ys u = (tt, tt, u)
Unique-apart (x ∷ xs) ys u =
    let (a, b, c) = Unique-apart xs ys u.1 in
    let (d, e) = NotIn-both x xs ys u.0 in ((e, a), (d, b), c)

pub NotIn-final : (j i : ℕ) (l : List ℕ) → NotIn j (i ∷ l) → j ≢ final i l
NotIn-final j i [] a = a.0
NotIn-final j i (k ∷ l) a = NotIn-final j k l a.1

pub Linked-split :
    (s : ℕ → SwapSlot) (p : Option ℕ) (xs ys : List ℕ) (q : Option ℕ)
    → Linked s p (xs ++ ys) q
    → Linked s p xs (head_or ys q) × Linked s (last_or p xs) ys q
Linked-split s p [] ys q c = (tt, c)
Linked-split s p (x ∷ []) ys q c = ((c.0, c.1, tt), c.2)
Linked-split s p (x ∷ x' ∷ xs) ys q c =
    let (a, b) = Linked-split s (some x) (x' ∷ xs) ys q c.2 in ((c.0, c.1, a), b)

pub Linked-append :
    (s : ℕ → SwapSlot) (p : Option ℕ) (xs ys : List ℕ) (q : Option ℕ)
    → Linked s p xs (head_or ys q)
    → Linked s (last_or p xs) ys q
    → Linked s p (xs ++ ys) q
Linked-append s p [] ys q a b = b
Linked-append s p (x ∷ []) ys q a b = (a.0, a.1, b)
Linked-append s p (x ∷ x' ∷ xs) ys q a b = (a.0, a.1, Linked-append s (some x) (x' ∷ xs) ys q a.2 b)

-- Writes to slots outside of a list.
pub Linked-update :
    (s : ℕ → SwapSlot) (j : ℕ) (v : SwapSlot) (p : Option ℕ) (l : List ℕ) (q : Option ℕ)
    → NotIn j l
    → Linked s p l q
    → Linked (update s j v) p l q
Linked-update s j v p [] q a c = tt
Linked-update s j v p (i ∷ l) q a c = (
  rw (update_other s j i v a.0) c.0,
  rw (update_other s j i v a.0) c.1,
  Linked-update s j v (some i) l q a.1 c.2,
)

pub Queued-update :
    (s : ℕ → SwapSlot) (j : ℕ) (v : SwapSlot) (f : List ℕ)
    → NotIn j f
    → Queued s f
    → Queued (update s j v) f
Queued-update s j v [] a c = tt
Queued-update s j v (i ∷ f) a c = (rw (update_other s j i v a.0) c.0, Queued-update s j v f a.1 c.1)

-- The last slot gets another `next`, the first another `prev`.
pub Linked-set_next :
    (s : ℕ → SwapSlot) (p : Option ℕ) (x : ℕ) (xs : List ℕ) (q q' : Option ℕ)
    → Unique (x ∷ xs)
    → Linked s p (x ∷ xs) q
    → Linked (update s (final x xs) (record (s (final x xs)) { next = q' })) p (x ∷ xs) q'
Linked-set_next s p x [] q q' u c =
    let e = update_same s x (record (s x) { next = q' }) in (rw e c.0, rw e refl, tt)
Linked-set_next s p x (y ∷ xs) q q' u c =
    let e =
      update_other s (final y xs) x (record (s (final y xs)) { next = q' })
        (λ g. NotIn-final x y xs u.0 (sym g)) in
    (rw e c.0, rw e c.1, Linked-set_next s (some x) y xs q q' u.1 c.2)

pub Linked-set_prev :
    (s : ℕ → SwapSlot) (p p' : Option ℕ) (x : ℕ) (xs : List ℕ) (q : Option ℕ)
    → Unique (x ∷ xs)
    → Linked s p (x ∷ xs) q
    → Linked (update s x (record (s x) { prev = p' })) p' (x ∷ xs) q
Linked-set_prev s p p' x xs q u c =
    let v = record (s x) { prev = p' } in
    let e = update_same s x v in (rw e refl, rw e c.1, Linked-update s x v (some x) xs q u.0 c.2)

pub All-final : (P : ℕ → Type 0) (i : ℕ) (l : List ℕ) → All P (i ∷ l) → P (final i l)
All-final P i [] a = a.0
All-final P i (j ∷ l) a = All-final P j l a.1

pub final-append : (x : ℕ) (xs : List ℕ) (i : ℕ) (ys : List ℕ) → final x (xs ++ i ∷ ys) ≡ final i ys
final-append x [] i ys = refl
final-append x (y ∷ xs) i ys = final-append y xs i ys

pub last_or-append :
    (p : Option ℕ) (xs : List ℕ) (i : ℕ) (ys : List ℕ)
    → last_or p (xs ++ i ∷ ys) ≡ some (final i ys)
last_or-append p [] i ys = refl
last_or-append p (x ∷ xs) i ys = rw (final-append x xs i ys) refl

pub All-move :
    (P : ℕ → Type 0) (xs : List ℕ) (i : ℕ) (ys : List ℕ)
    → All P (xs ++ i ∷ ys)
    → All P (i ∷ (xs ++ ys))
All-move P [] i ys a = a
All-move P (x ∷ xs) i ys a = let (b, c) = All-move P xs i ys a.1 in (b, (a.0, c))

pub All-back :
    (P : ℕ → Type 0) (xs : List ℕ) (i : ℕ) (ys : List ℕ)
    → All P (i ∷ (xs ++ ys))
    → All P (xs ++ i ∷ ys)
All-back P [] i ys a = a
All-back P (x ∷ xs) i ys a = (a.1.0, All-back P xs i ys (a.0, a.1.1))
