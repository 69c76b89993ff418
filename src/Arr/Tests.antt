-- ===== src/Arr/Tests.antt =====
-- The theorems on arrays at concrete arrays.
use Prim.Native.Nat.{Ordering}
use dgd.Prelude.{
  ℕ, zero, suc, ◌+◌, ◌≤◌, ◌<◌, ◌≡◌, ◌≢◌, refl, true, false, List, [], ◌∷◌, ◌++◌, Option, none, some,
  arith, length,
}
use dgd.Str
use dgd.Str.{skip_equal}
use dgd.Arr.{
  Value, nil, cmp_same, cmp, search_forward, search_backward, search_at, search_from, search,
}
use dgd.Arr.Match.{IsSorted}
use dgd.Arr.Search.{Found, answer, search-Found}
use dgd.Arr.Sets.{World, Array, copytmp, elt_at, sub, set_x_add}
use dgd.Arr.Found.{IsSortOf, PointersTell, contains, pick}
use dgd.Arr.Laws.{live, outcome, sub-pick, set_x_add-pick}

abbrev number : ℕ → Value
number n = record nil { type = 1; number = n }

abbrev text : List ℕ → Value
text s = record nil { type = 3; string = s }

abbrev insert : Value → List Value → List Value
insert v [] = v ∷ []
insert v (w ∷ ws) = elim (cmp v w) [ Ordering.gt ↦ w ∷ insert v ws | _ ↦ v ∷ (w ∷ ws) ]

abbrev qsort : List Value → List Value
qsort [] = []
qsort (v ∷ vs) = insert v (qsort vs)

abbrev world : World
world = record { max_size = 10; atag = 0; destr_count = 1; is_destructed = λ v. false }

-- ({ 5, "x", 5 })
abbrev left : Array
left = record { elts = number 5 ∷ text (b'x' ∷ []) ∷ number 5 ∷ []; tag = 0; obj_destr_count = 1 }

-- ({ "x", -1 })
abbrev right : Array
right = record { elts = text (b'x' ∷ []) ∷ number 4294967295 ∷ []; tag = 0; obj_destr_count = 1 }

right_ordered :
    (i j : ℕ)
    → i ≤ j
    → j < 2
    → cmp
        (elt_at (number 4294967295 ∷ text (b'x' ∷ []) ∷ []) i)
        (elt_at (number 4294967295 ∷ text (b'x' ∷ []) ∷ []) j)
      ≢ Ordering.gt
unfolding cmp cmp_same Str.cmp skip_equal
right_ordered zero zero p q = λ e. cc
right_ordered zero (suc zero) p q = λ e. cc
right_ordered (suc i) zero p q = absurd (omega arith)
right_ordered (suc zero) (suc zero) p q = λ e. cc
right_ordered (suc (suc i)) (suc zero) p q = absurd (omega arith)
right_ordered i (suc (suc j)) p q = absurd (omega arith)

right-IsSortOf : IsSortOf (live world right) (qsort (live world right))
unfolding cmp cmp_same Str.cmp skip_equal copytmp
right-IsSortOf = record { rearranged = λ f. omega arith; ordered = right_ordered }

agree : PointersTell (live world left) (live world right)
unfolding cmp cmp_same Str.cmp skip_equal copytmp
agree = (
  (omega arith, (refl, (refl, tt))),
  ((omega arith, (refl, (refl, tt))), ((omega arith, (refl, (refl, tt))), tt)),
)

sub-pick_example :
    sub qsort world left right
    ≡ outcome world left right 3 (pick false (live world left) (live world right))
sub-pick_example = sub-pick qsort world left right right-IsSortOf agree (omega arith) (omega arith)

-- ({ 5, "x", 5 }) - ({ "x", -1 }) is ({ 5, 5 }).
sub_fives : pick false (live world left) (live world right) ≡ number 5 ∷ number 5 ∷ []
unfolding pick copytmp contains cmp cmp_same Str.cmp skip_equal
sub_fives = refl

-- Arrays that all have the tag 7
abbrev tagged : ℕ → Value
tagged k = record nil { type = 5; array = k; tag = 7 }

-- The search begins at the second of them, and finds the third, and the first.
found_behind : search (tagged 2) tagged 3 1 false ≡ some (some 2)
unfolding search search_from search_at search_forward search_backward cmp cmp_same
found_behind = refl

found_before : search (tagged 0) tagged 3 1 false ≡ some (some 0)
unfolding search search_from search_at search_forward search_backward cmp cmp_same
found_before = refl

not_among : search (tagged 9) tagged 3 1 false ≡ some none
unfolding search search_from search_at search_forward search_backward cmp cmp_same
not_among = refl

tagged-IsSorted : IsSorted (tagged 2) tagged 3
unfolding cmp cmp_same
tagged-IsSorted = record {
  below = λ i j p q e. absurd cc;
  above = λ i j p q e. absurd cc;
  known = omega arith;
  pointers = λ i p. ground arith;
}

search-Found_example :
    (o : Option ℕ) × (k : ℕ) × (search (tagged 2) tagged 3 1 true ≡ some (answer true o k))
    × Found tagged (tagged 2) 3 o k
search-Found_example = search-Found (tagged 2) tagged 3 true tagged-IsSorted

both-IsSortOf :
    let both = pick true (live world left) (live world right) in IsSortOf both (qsort both)
unfolding pick copytmp contains cmp cmp_same Str.cmp skip_equal
both-IsSortOf = record { rearranged = λ f. omega arith; ordered = go }
  where
    go :
        (i j : ℕ)
        → i ≤ j
        → j < 1
        → cmp (elt_at (text (b'x' ∷ []) ∷ []) i) (elt_at (text (b'x' ∷ []) ∷ []) j) ≢ Ordering.gt
    go zero zero p q = λ e. cc
    go (suc i) zero p q = absurd (omega arith)
    go i (suc j) p q = absurd (omega arith)

agree_back : PointersTell (live world right) (live world left)
unfolding cmp cmp_same Str.cmp skip_equal copytmp
agree_back =
    ((omega arith, (refl, (refl, (refl, tt)))), ((omega arith, (refl, (refl, (refl, tt)))), tt))

set_x_add-pick_example :
    let l = pick false (live world left) (live world right) in
    let r = pick false (live world right) (live world left) in
    set_x_add qsort world left right ≡ outcome world left right (length l + length r) (l ++ r)
set_x_add-pick_example =
    set_x_add-pick qsort world left right right-IsSortOf both-IsSortOf agree agree_back
      (omega arith) (omega arith)
