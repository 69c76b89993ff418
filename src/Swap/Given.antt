-- ===== src/Swap/Given.antt =====
-- Swap::newv gives sectors that the cache can use, and Swap::init a cache that is coherent.
use dgd.Prelude.{
  ℕ, zero, suc, length, ◌+◌, ◌-◌, ◌≤◌, ◌<◌, ◌≡◌, ◌≢◌, inl, inr, refl, subst, List, [], ◌∷◌, ◌++◌,
  some, true, false, arith, ◌==◌, All, Bool-cases, Option-cases, take, drop,
}
use dgd.Swap.Device.{Device, init, unused, newv, newv_fresh, count}
use dgd.Swap.Free.{range, IsFree, newv_lem}
use dgd.Swap.Chain.{NotIn, Unique, Queued}
use dgd.Swap.Loaded.{IsCache}
use dgd.Swap.Fresh.{With, Gives, Gives-cons, nowhere}

-- The sectors `vec` are all different, and none is in use.
abbrev pub IsFresh : (ℕ → Type 0) → List ℕ → Type 0
IsFresh Live vec = Unique vec × All (λ x. (x ≢ unused) × (Live x → ⊥)) vec

-- What a call of newv or of its second loop returns.
abbrev Returned : (ℕ → Type 0) → Device → List ℕ → List ℕ → List ℕ → Device × List ℕ → Type 0
Returned Live d l f fs r = IsFresh Live r.1 → Gives Live d r.1 l f fs r.0

fresh-With :
    (Live : ℕ → Type 0) (x : ℕ) (vec : List ℕ)
    → NotIn x vec
    → All (λ y. (y ≢ unused) × (Live y → ⊥)) vec
    → All (λ y. (y ≢ unused) × (With x Live y → ⊥)) vec
fresh-With Live x [] n a = tt
fresh-With Live x (y ∷ vec) n a =
    ((a.0.0, λ w. elim w [ inl e ↦ n.0 e | inr g ↦ a.0.1 g ]), fresh-With Live x vec n.1 a.1)

-- One more sector before those of the rest.
Returned-cons :
    (Live : ℕ → Type 0) (d : Device) (x nsectors nfree mfree : ℕ) (l f fs : List ℕ) (b : Device)
    (vec : List ℕ)
    → IsCache Live d l f fs []
    → d.cachesize ≤ unused
    → (IsCache (With x Live) (nowhere d x nsectors nfree mfree) l f fs []
        → Returned (With x Live) (nowhere d x nsectors nfree mfree) l f fs (b, vec))
    → Returned Live d l f fs (b, x ∷ vec)
Returned-cons Live d x nsectors nfree mfree l f fs b vec v small rest (u, a) =
    Gives-cons Live d x nsectors nfree mfree vec l f fs b v small a.0.0 a.0.1 u.0
      (λ v'. rest v' (u.1, fresh-With Live x vec u.0 a.1))

newv_fresh-Returned :
    (size : ℕ) (Live : ℕ → Type 0) (d : Device) (l f fs : List ℕ) (r : Device × List ℕ)
    → IsCache Live d l f fs []
    → d.cachesize ≤ unused
    → newv_fresh d size ≡ some r
    → Returned Live d l f fs r
unfolding newv_fresh
newv_fresh-Returned zero Live d l f fs r v small e =
    let same : (d, []) ≡ r = cc in
    subst (Returned Live d l f fs) same (λ _. (v, tt, (λ t lt o. refl), refl))
newv_fresh-Returned (suc size) Live d l f fs r v small e =
    let a = nowhere d d.nsectors (d.nsectors + 1) d.nfree d.mfree in
    elim (Bool-cases (d.nsectors == d.swapsize)) [
      | inl full ↦ absurd (let g = rw full at e in cc)
      | inr room ↦ elim (Option-cases (newv_fresh a size)) [
        | inl n ↦ absurd (let g = rw (room, n) at e in cc)
        | inr ((b, vec), run) ↦
            let g = rw (room, run) at e in
            let same : (b, d.nsectors ∷ vec) ≡ r = cc in
            subst (Returned Live d l f fs) same (
              Returned-cons Live d d.nsectors (d.nsectors + 1) d.nfree d.mfree l f fs b vec v small
                (λ v'.
                  newv_fresh-Returned size (With d.nsectors Live) a l f fs (b, vec) v' small run))
      ]
    ]

newv-Returned :
    (size : ℕ) (Live : ℕ → Type 0) (d : Device) (l f fs : List ℕ) (r : Device × List ℕ)
    → IsCache Live d l f fs []
    → d.cachesize ≤ unused
    → newv d size ≡ some r
    → Returned Live d l f fs r
unfolding newv
newv-Returned zero Live d l f fs r v small e =
    let same : (d, []) ≡ r = cc in
    subst (Returned Live d l f fs) same (λ _. (v, tt, (λ t lt o. refl), refl))
newv-Returned (suc size) Live d l f fs r v small e =
    let a = nowhere d d.mfree d.nsectors (d.nfree - 1) (d.map d.mfree) in
    elim (Bool-cases (d.mfree == unused)) [
      | inl none_left ↦ newv_fresh-Returned (suc size) Live d l f fs r v small (rw none_left at e)
      | inr more ↦ elim (Option-cases (newv a size)) [
        | inl n ↦ absurd (let g = rw (more, n) at e in cc)
        | inr ((b, vec), run) ↦
            let g = rw (more, run) at e in
            let same : (b, d.mfree ∷ vec) ≡ r = cc in
            subst (Returned Live d l f fs) same (
              Returned-cons Live d d.mfree d.nsectors (d.nfree - 1) (d.map d.mfree) l f fs b vec v
                small (λ v'. newv-Returned size (With d.mfree Live) a l f fs (b, vec) v' small run))
      ]
    ]

-- The sectors that newv gives, free ones and then new ones, can be used with the cache if none of
-- them is in use yet: the cache is coherent with them, they are zero, and the sectors that were in
-- use keep their data; the rest of the free ones are left on the list.
pub newv-Gives :
    (Live : ℕ → Type 0) (d : Device) (xs : List ℕ) (size : ℕ) (l f fs : List ℕ)
    → IsCache Live d l f fs []
    → d.cachesize ≤ unused
    → IsFree d xs
    → d.nsectors + (size - length xs) ≤ d.swapsize
    → IsFresh Live (take size xs ++ range d.nsectors (size - length xs))
    → (d' : Device) × (newv d size ≡ some (d', take size xs ++ range d.nsectors (size - length xs)))
      × Gives Live d (take size xs ++ range d.nsectors (size - length xs)) l f fs d'
      × IsFree d' (drop size xs)
      × (count d' ≡ count d + size)
newv-Gives Live d xs size l f fs v small free room fresh =
    let (d', run, left, counted) = newv_lem d xs size free room in
    (
      d',
      run,
      newv-Returned size Live d l f fs (d', take size xs ++ range d.nsectors (size - length xs)) v
          small run fresh,
      left,
      counted,
    )

-- The slots from `n` on, of 128.
init-Queued :
    (n k : ℕ) (total secsize : ℕ) (junk : ℕ → ℕ)
    → n + k ≡ 128
    → Queued (init total secsize junk).slots (range n k)
init-Queued n zero total secsize junk e = tt
init-Queued n (suc zero) total secsize junk e =
    let last : (n + 1 == 128) ≡ true = ground (arith, e) in (rw last refl, tt)
init-Queued n (suc (suc k)) total secsize junk e =
    let more : (n + 1 == 128) ≡ false = ground (arith, e) in
    (rw more refl, init-Queued (n + 1) (suc k) total secsize junk (omega arith))

NotIn-range : (i n k : ℕ) → i < n → NotIn i (range n k)
NotIn-range i n zero h = tt
NotIn-range i n (suc k) h = ((λ e. omega arith), NotIn-range i (n + 1) k (omega arith))

Unique-range : (n k : ℕ) → Unique (range n k)
Unique-range n zero = tt
Unique-range n (suc k) = (NotIn-range n (n + 1) k (omega arith), Unique-range (n + 1) k)

range_below : (n k m : ℕ) → n + k ≤ m → All (λ j. j < m) (range n k)
range_below n zero m h = tt
range_below n (suc k) m h = (omega arith, range_below (n + 1) k m (omega arith))

-- After init the cache is coherent with no sector in use, and all of its slots are free.
pub init-IsCache :
    (total secsize : ℕ) (junk : ℕ → ℕ)
    → IsCache (λ t. ⊥) (init total secsize junk) [] (range 0 128) [] []
init-IsCache total secsize junk = record {
  first = refl;
  last = refl;
  lfree = refl;
  lists = record {
    chain = tt;
    queue = init-Queued 0 128 total secsize junk refl;
    once = Unique-range 0 128;
    idle = λ j out. refl;
    full = tt;
    fits = range_below 0 128 128 (omega arith);
  };
  coherent = record {
    numbered = λ t live. absurd live;
    sized = λ j. omega arith;
    file_sized = λ w. omega arith;
    held = λ j. inl refl;
    clean = λ j out used. absurd (used refl);
    places = record {
      apart = λ t u a. absurd a;
      below = λ t a. absurd a;
      room = omega arith;
      free = refl;
      unowned = tt;
    };
  };
}
