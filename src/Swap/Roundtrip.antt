-- ===== src/Swap/Roundtrip.antt =====
-- What Swap::writev wrote, Swap::readv reads.
use native.Mathlib.Nat.{mod-lt, div-add-mod', div-lt_iff_lt-mul, suc-mul, zero-mul}
use mathlib.Core.List.{append_assoc}
use dgd.Prelude.{
  ℕ, length, ◌+◌, ◌-◌, ◌*◌, ◌/◌, ◌%◌, ◌≤◌, ◌<◌, ◌≡◌, ◌≢◌, refl, sym, ap, subst, ◌∙◌, List, [], ◌∷◌,
  ◌++◌, some, arith, All, take, drop, length-append, length-take, length-drop, take_low, drop_high,
  take_high, take-append-drop, drop-append, take_all, All-both,
}
use dgd.Swap.Device.{Device, unused}
use dgd.Swap.Cache.{writev, readv, copy_at}
use dgd.Swap.Chain.{NotIn, Unique, NotIn-both, Unique-apart}
use dgd.Swap.Coherent.{view}
use dgd.Swap.Loaded.{IsCache}
use dgd.Swap.Transfer.{gather, readv-view, left_size}
use dgd.Swap.Vectors.{Stores, write_from-Stores}

gather-append : (p : ℕ → List ℕ) (xs ys : List ℕ) → gather p (xs ++ ys) ≡ gather p xs ++ gather p ys
gather-append p [] ys = refl
gather-append p (x ∷ xs) ys =
    ap (λ z. p x ++ z) (gather-append p xs ys)
    ∙ sym (append_assoc (p x) (gather p xs) (gather p ys))

gather_kept :
    (p q : ℕ → List ℕ) (Live : ℕ → Type 0) (ys xs : List ℕ)
    → All Live xs
    → All (λ t. NotIn t ys) xs
    → ((t : ℕ) → Live t → NotIn t ys → q t ≡ p t)
    → gather q xs ≡ gather p xs
gather_kept p q Live ys [] a n same = refl
gather_kept p q Live ys (x ∷ xs) a n same =
    rw (same x a.0 n.0, gather_kept p q Live ys xs a.1 n.1 same) refl

length-gather :
    (p : ℕ → List ℕ) (s : ℕ) (Live : ℕ → Type 0) (xs : List ℕ)
    → All Live xs
    → ((t : ℕ) → Live t → length (p t) ≡ s)
    → length (gather p xs) ≡ length xs * s
length-gather p s Live [] a n = omega (arith, zero-mul s)
length-gather p s Live (x ∷ xs) a n =
    let long = n x a.0 in
    let e = length-append (p x) (gather p xs) in
    omega (arith, length-gather p s Live xs a.1 n, suc-mul (length xs) s)

copy_behind :
    (xs ys : List ℕ) (r : ℕ) (m : List ℕ)
    → copy_at (xs ++ ys) (length xs + r) m ≡ xs ++ copy_at ys r m
copy_behind xs ys r m =
    let a : length xs + r - length xs ≡ r = omega arith in
    let b : length xs + r + length m - length xs ≡ r + length m = omega arith in
    rw
      (
        take_high xs ys (length xs + r) (omega arith),
        drop_high xs ys (length xs + r + length m) (omega arith),
        a,
        b,
      )
      (append_assoc xs (take r ys) (m ++ drop (r + length m) ys))

-- The data of a vector whose first sectors are before the place.
gather-joined :
    (p q : ℕ → List ℕ) (xs ys vec m : List ℕ) (r idx : ℕ)
    → xs ++ ys ≡ vec
    → gather q xs ≡ gather p xs
    → gather q ys ≡ copy_at (gather p ys) r m
    → length (gather p xs) + r ≡ idx
    → gather q vec ≡ copy_at (gather p vec) idx m
gather-joined p q xs ys vec m r idx whole first rest at =
    subst (λ z. gather q z ≡ copy_at (gather p z) idx m) whole
      (gather-append q xs ys
        ∙ (rw (first, rest) (sym (copy_behind (gather p xs) (gather p ys) r m))
            ∙ (ap (λ z. copy_at (gather p xs ++ gather p ys) z m) at
                ∙ ap (λ z. copy_at z idx m) (sym (gather-append p xs ys)))))

-- The copy is what is read at its place.
part-copy_at :
    (xs : List ℕ) (idx : ℕ) (m : List ℕ)
    → idx ≤ length xs
    → take (length m) (drop idx (copy_at xs idx m)) ≡ m
part-copy_at xs idx m h =
    let e : length (take idx xs) ≡ idx = omega (arith, length-take idx xs) in
    let rest = drop (idx + length m) xs in
    let d : drop idx (copy_at xs idx m) ≡ m ++ rest =
      subst (λ k. drop k (copy_at xs idx m) ≡ m ++ rest) e
        (drop-append (take idx xs) (m ++ rest)) in
    ap (take (length m)) d
    ∙ (take_low m rest (length m) (omega arith) ∙ take_all (length m) m (omega arith))

-- Data that is written into a vector of sectors, all different, is in them after that, at its place;
-- the rest of their data and the other sectors in use are as they were, and the cache is coherent.
-- The swap file must have room for the sectors that may be turned out.
pub writev-Stores :
    (Live : ℕ → Type 0) (d : Device) (vec m : List ℕ) (idx : ℕ) (l f fs : List ℕ)
    → IsCache Live d l f fs []
    → l ++ f ≢ []
    → All Live vec
    → Unique vec
    → ((t : ℕ) → Live t → length (view d t) ≡ d.sectorsize)
    → d.ssectors + length vec ≤ unused
    → 0 < d.sectorsize
    → 0 < length m
    → idx + length m ≤ length vec * d.sectorsize
    → (d' : Device) × (writev d vec m idx ≡ some d')
      × Stores Live d vec (copy_at (gather (view d) vec) idx m) d'
unfolding writev
writev-Stores Live d vec m idx l f fs v n a u sized room some_size pos fits =
    let s = d.sectorsize in
    let k = idx / s in
    let r = idx % s in
    let xs = take k vec in
    let ys = drop k vec in
    let whole : xs ++ ys ≡ vec = take-append-drop k vec in
    let (ax, ay) = All-both Live xs ys (subst (All Live) (sym whole) a) in
    let (apart, ux, uy) = Unique-apart xs ys (subst Unique (sym whole) u) in
    let at = div-add-mod' idx s in
    let left = length-drop k vec in
    let (d', run, (l1, f1, fs1, v1, n1, data1, keep, sized1, same, more)) =
      write_from-Stores Live ys d m r l f fs v n ay uy sized (omega arith) (mod-lt idx some_size)
        pos (rw left (left_size (length vec) k s r (length m) (omega arith) pos)) in
    let first = gather_kept (view d) (view d') Live ys xs ax apart keep in
    let short : k < length vec = (div-lt_iff_lt-mul some_size).1 (omega arith) in
    let long : length (gather (view d) xs) ≡ k * s =
      length-gather (view d) s Live xs ax sized
      ∙ ap (λ z. z * s) (omega (arith, length-take k vec)) in
    let data2 : gather (view d') vec ≡ copy_at (gather (view d) vec) idx m =
      gather-joined (view d) (view d') xs ys vec m r idx whole first data1 (omega arith) in
    (
      d',
      run,
      (
        l1,
        f1,
        fs1,
        v1,
        n1,
        data2,
        (λ t lt out. keep t lt (NotIn-both t xs ys (subst (NotIn t) (sym whole) out)).1),
        sized1,
        same,
        omega arith,
      ),
    )

-- The data that writev writes is the data that readv reads at the same place, where the sectors are
-- different and hold it, and the swap file has room for all of them twice; the other sectors in use
-- are as they were.
pub writev-readv :
    (Live : ℕ → Type 0) (d : Device) (vec m : List ℕ) (idx : ℕ) (l f fs : List ℕ)
    → IsCache Live d l f fs []
    → l ++ f ≢ []
    → All Live vec
    → Unique vec
    → ((t : ℕ) → Live t → length (view d t) ≡ d.sectorsize)
    → d.ssectors + length vec + length vec ≤ unused
    → 0 < d.sectorsize
    → 0 < length m
    → idx + length m ≤ length vec * d.sectorsize
    → (d1 : Device) × (d2 : Device) × (writev d vec m idx ≡ some d1)
      × (readv d1 vec (length m) idx ≡ some (d2, m))
      × ((t : ℕ) → Live t → NotIn t vec → view d2 t ≡ view d t)
writev-readv Live d vec m idx l f fs v n a u sized room some_size pos fits =
    let (d1, run, (l1, f1, fs1, v1, n1, data1, keep, sized1, same, more)) =
      writev-Stores Live d vec m idx l f fs v n a u sized (omega arith) some_size pos fits in
    let (d2, got, (_, _, _, _, _, kept)) =
      readv-view Live d1 vec (length m) idx l1 f1 fs1 v1 n1 a sized1 (omega arith) (omega arith) pos
        (rw same fits) in
    let long = length-gather (view d) d.sectorsize Live vec a sized in
    (
      d1,
      d2,
      run,
      got
          ∙ ap (λ z. some (d2, z))
              (ap (λ z. take (length m) (drop idx z)) data1
                ∙ part-copy_at (gather (view d) vec) idx m (omega arith)),
      (λ t lt out. kept t lt ∙ keep t lt out),
    )
