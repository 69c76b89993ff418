-- ===== src/Arr/Found.antt =====
-- What search finds in the sorted copy of an array, by the array itself.
use Prim.Native.Nat.{Ordering}
use dgd.Prelude.{
  ℕ, zero, suc, ◌+◌, ◌≤◌, ◌<◌, ◌≡◌, ◌≢◌, refl, sym, ap, ◌∙◌, Bool, true, false, ◌||◌, List, [], ◌∷◌,
  Option, none, some, arith, ltb, if◌then◌else◌, Bool-cases, inl, inr, length, All,
}
use dgd.Arr.{Value, t_lwobject, cmp, search}
use dgd.Arr.Match.{is_match, clash, IsSorted}
use dgd.Arr.Search.{Found, answer, search-Found}
use dgd.Arr.Order.{cmp_below, cmp_above}
use dgd.Arr.Sets.{elt_at, is_found, select}

-- The specification: does a value of the list match `v`?
unfoldable pub contains : Value → List Value → Bool
contains v [] = false
contains v (w ∷ ws) = is_match v w || contains v ws

-- The values of the first list that the second contains, or those that it does not contain.
unfoldable pub pick : Bool → List Value → List Value → List Value
unfolding contains
pick present [] vs = []
pick present (v ∷ us) vs =
    let rest = pick present us vs in
    if contains v vs
    then (if present then v ∷ rest else rest)
    else if present
    then rest
    else v ∷ rest

abbrev pub total : (Value → ℕ) → List Value → ℕ
total f [] = 0
total f (v ∷ vs) = f v + total f vs

-- What std::qsort promises: `ws` has the values of `vs`, each as often, in an order that cmp accepts.
pub record IsSortOf (vs ws : List Value) : Type 0 where
  pub rearranged : (f : Value → ℕ) → total f ws ≡ total f vs
  pub ordered : (i j : ℕ) → i ≤ j → j < length ws → cmp (elt_at ws i) (elt_at ws j) ≢ Ordering.gt

-- The values of the first list have one of the types, and where a value of each list points to the same
-- array, both have its type and tag.
abbrev pub PointersTell : List Value → List Value → Type 0
PointersTell us vs = All (λ v. (v.type ≤ t_lwobject) × All (λ w. clash v w ≡ false) vs) us

abbrev indicator : (Value → Bool) → Value → ℕ
indicator p v = if p v then 1 else 0

contains-total :
    (v : Value) (vs : List Value) → contains v vs ≡ ltb 0 (total (indicator (is_match v)) vs)
unfolding contains
contains-total v [] = refl
contains-total v (w ∷ ws) = elim (Bool-cases (is_match v w)) [
  | inl e ↦ rw e (ground arith)
  | inr e ↦ rw e (ground (arith, contains-total v ws))
]

contains-elt_at :
    (v : Value) (ws : List Value) (k : ℕ)
    → k < length ws
    → is_match v (elt_at ws k) ≡ true
    → contains v ws ≡ true
unfolding contains
contains-elt_at v [] k h e = absurd (omega arith)
contains-elt_at v (w ∷ ws) zero h e = rw e refl
contains-elt_at v (w ∷ ws) (suc k) h e = elim (Bool-cases (is_match v w)) [
  | inl p ↦ rw p refl
  | inr p ↦ rw p (contains-elt_at v ws k (omega arith) e)
]

contains-none :
    (v : Value) (ws : List Value)
    → ((i : ℕ) → i < length ws → is_match v (elt_at ws i) ≡ false)
    → contains v ws ≡ false
unfolding contains
contains-none v [] h = refl
contains-none v (w ∷ ws) h =
    rw (h 0 (omega arith)) (contains-none v ws (λ i j. h (suc i) (omega arith)))

-- A test that all values of the list pass, as a sum, and back.
total-All :
    (p : Value → Bool) (vs : List Value) → All (λ w. p w ≡ false) vs → total (indicator p) vs ≡ 0
total-All p [] h = refl
total-All p (v ∷ vs) h = rw h.0 (omega (arith, total-All p vs h.1))

total-elt_at :
    (p : Value → Bool) (vs : List Value) (i : ℕ)
    → total (indicator p) vs ≡ 0
    → i < length vs
    → p (elt_at vs i) ≡ false
total-elt_at p [] i e h = absurd (omega arith)
total-elt_at p (v ∷ vs) zero e h = ground (arith, e)
total-elt_at p (v ∷ vs) (suc i) e h = total-elt_at p vs i (omega arith) (omega arith)

module _ (v : Value) (vs ws : List Value) (s : IsSortOf vs ws) where
  IsSorted-IsSortOf :
      v.type ≤ t_lwobject → All (λ w. clash v w ≡ false) vs → IsSorted v (elt_at ws) (length ws)
  IsSorted-IsSortOf k h = record {
    below = λ i j p k e. cmp_below v (elt_at ws i) (elt_at ws j) e (s.ordered i j p k);
    above = λ i j p k e. cmp_above v (elt_at ws i) (elt_at ws j) e (s.ordered i j p k);
    known = k;
    pointers = λ i p.
        total-elt_at (clash v) ws i (s.rearranged (indicator (clash v)) ∙ total-All (clash v) vs h)
          p;
  }

  contains-sorted : contains v ws ≡ contains v vs
  contains-sorted =
      contains-total v ws
      ∙ ap (λ (n : ℕ). ltb 0 n) (s.rearranged (indicator (is_match v)))
      ∙ sym (contains-total v vs)

  is_found-contains :
      v.type ≤ t_lwobject → All (λ w. clash v w ≡ false) vs → is_found v ws ≡ contains v vs
  unfolding is_found
  is_found-contains k h =
      let (o, k, run, found) =
        search-Found v (elt_at ws) (length ws) false (IsSorted-IsSortOf k h) in
      go o k run found
    where
      go :
          (o : Option ℕ) (k : ℕ)
          → search v (elt_at ws) (length ws) 1 false ≡ some (answer false o k)
          → Found (elt_at ws) v (length ws) o k
          → is_found v ws ≡ contains v vs
      go none k run found = rw (is_found, run) (sym (contains-none v ws found.2) ∙ contains-sorted)
      go (some i) k run found =
          rw (is_found, run) (sym (contains-elt_at v ws i found.0 found.1) ∙ contains-sorted)

pub select-pick :
    (present : Bool) (us vs ws : List Value)
    → IsSortOf vs ws
    → PointersTell us vs
    → select present us ws ≡ pick present us vs
unfolding select pick
select-pick present [] vs ws s h = refl
select-pick present (v ∷ us) vs ws s h =
    rw (is_found-contains v vs ws s h.0.0 h.0.1, select-pick present us vs ws s h.1) refl
