-- ===== src/Arr/Both.antt =====
-- What two arrays have in common, from either side: for the second round of setXAdd.
use dgd.Prelude.{◌≡◌, refl, true, false, List, [], ◌∷◌, arith, Bool-cases, inl, inr, All}
use dgd.Arr.{Value, cmp}
use dgd.Arr.Match.{is_equal, is_match, clash, Ordering-cases, cmp-type, unequal}
use dgd.Arr.Order.{cmp_flip}
use dgd.Arr.Found.{PointersTell, contains, pick}

module _ {P Q : Value → Type 0} where
  All-map : ((v : Value) → P v → Q v) → (vs : List Value) → All P vs → All Q vs
  All-map f [] h = tt
  All-map f (v ∷ vs) h = (f v h.0, All-map f vs h.1)

All-pick : (P : Value → Type 0) (us vs : List Value) → All P us → All P (pick true us vs)
unfolding pick
All-pick P [] vs h = tt
All-pick P (u ∷ us) vs h = elim (Bool-cases (contains u vs)) [
  | inl e ↦ rw e (h.0, All-pick P us vs h.1)
  | inr e ↦ rw e (All-pick P us vs h.1)
]

pub PointersTell-pick :
    (us vs xs : List Value) → PointersTell xs us → PointersTell xs (pick true us vs)
PointersTell-pick us vs xs = All-map (λ v p. (p.0, All-pick (λ w. clash v w ≡ false) us vs p.1)) xs

-- What `x` matches in `us` is in `vs` too.
abbrev Covered : List Value → List Value → Value → Type 0
Covered us vs x = All (λ w. is_match x w ≡ true → contains w vs ≡ true) us

contains-pick :
    (x : Value) (us vs : List Value)
    → Covered us vs x
    → contains x (pick true us vs) ≡ contains x us
unfolding pick contains
contains-pick x [] vs h = refl
contains-pick x (w ∷ us) vs h = elim (Bool-cases (contains w vs)) [
  | inl e ↦ rw (e, contains, contains-pick x us vs h.1) refl
  | inr e ↦ elim (Bool-cases (is_match x w)) [
    | inl m ↦ absurd (ground (arith, h.0 m, e))
    | inr m ↦ rw (e, m) (contains-pick x us vs h.1)
  ]
]

-- A match is one from either side.
match-flip : (v w : Value) → is_match v w ≡ true → is_match w v ≡ true
match-flip v w e = elim (Ordering-cases (cmp v w)) [
  | inl c ↦ absurd (let no = unequal v w (λ d. cc) in cc)
  | inr (inr c) ↦ absurd (let no = unequal v w (λ d. cc) in cc)
  | inr (inl c) ↦
      let back = cmp_flip v w c in
      let types = cmp-type v w c in rw (is_match, is_equal, back) (ground (arith, e, types, c))
]

match-contains : (us : List Value) (x : Value) (xs : List Value) → Covered us (x ∷ xs) x
unfolding contains
match-contains [] x xs = tt
match-contains (w ∷ us) x xs = (λ m. rw (match-flip x w m) refl, match-contains us x xs)

covered :
    (us xs vs : List Value)
    → ((w : Value) → contains w xs ≡ true → contains w vs ≡ true)
    → All (Covered us vs) xs
unfolding contains
covered us [] vs sub = tt
covered us (x ∷ xs) vs sub = (
  All-map (λ w f m. sub w (f m)) us (match-contains us x xs),
  covered us xs vs
      (λ w e. sub w (elim (Bool-cases (is_match w x)) [ inl m ↦ rw m refl | inr m ↦ rw m e ])),
)

pick-Covered :
    (xs us vs : List Value)
    → All (Covered us vs) xs
    → pick false xs (pick true us vs) ≡ pick false xs us
unfolding pick
pick-Covered [] us vs h = refl
pick-Covered (x ∷ xs) us vs h = rw (pick, contains-pick x us vs h.0, pick-Covered xs us vs h.1) refl

-- For the second list, the values of the first one that both have are as good as all of them.
pub pick-pick : (us vs : List Value) → pick false vs (pick true us vs) ≡ pick false vs us
pick-pick us vs = pick-Covered vs us vs (covered us vs vs (λ w e. e))
