-- ===== src/Swap/Vectors.antt =====
-- Swap::writev on a whole vector of sectors, and what Swap::readv then reads.
use mathlib.Core.List.{append-nil, append_assoc}
use dgd.Prelude.{
  ℕ, length, ◌+◌, ◌-◌, ◌*◌, ◌≤◌, ◌<◌, ◌≡◌, ◌≢◌, ◌⊎◌, inl, inr, refl, sym, ap, ◌∙◌, List, [], ◌∷◌,
  ◌++◌, some, true, not, arith, ◌==◌, ltb, All, Bool-cases, take, drop, length-take, length-drop,
  take_low, drop_high, take_all, ltb-true, ltb-false, ==_iff, ==_refl, drop_low, drop_all,
  take-append-drop,
}
use dgd.Swap.Device.{Device, unused}
use dgd.Swap.Cache.{write_from, chunk, copy_at}
use dgd.Swap.Chain.{NotIn, Unique}
use dgd.Swap.Coherent.{view}
use dgd.Swap.Loaded.{IsCache}
use dgd.Swap.Transfer.{gather, fits_next}
use dgd.Swap.Writes.{write-Round, after, write_last, write_more, length-copy_at_whole}

-- The copy into the first part of a list, or over its end into the rest.
copy_first :
    (xs rest : List ℕ) (idx : ℕ) (m : List ℕ)
    → idx + length m ≤ length xs
    → copy_at (xs ++ rest) idx m ≡ copy_at xs idx m ++ rest
copy_first xs rest idx m h =
    rw (take_low xs rest idx (omega arith), drop_low xs rest (idx + length m) h) (simp append_assoc)

copy_next :
    (xs rest : List ℕ) (idx : ℕ) (m : List ℕ)
    → idx ≤ length xs
    → length xs - idx ≤ length m
    → copy_at (xs ++ rest) idx m
      ≡ copy_at xs idx (take (length xs - idx) m) ++ copy_at rest 0 (drop (length xs - idx) m)
copy_next xs rest idx m h k =
    let past = drop (idx + length m - length xs) rest in
    let a : idx + length (take (length xs - idx) m) ≡ length xs =
      omega (arith, length-take (length xs - idx) m) in
    let b : 0 + length (drop (length xs - idx) m) ≡ idx + length m - length xs =
      omega (arith, length-drop (length xs - idx) m) in
    rw
      (
        take_low xs rest idx h,
        drop_high xs rest (idx + length m) (omega arith),
        a,
        b,
        drop_all (length xs) xs (omega arith),
        append-nil (take (length xs - idx) m),
      )
      (ap (λ z. take idx xs ++ z)
          (ap (λ z. z ++ past) (sym (take-append-drop (length xs - idx) m))
            ∙ append_assoc (take (length xs - idx) m) (drop (length xs - idx) m) past)
        ∙ sym (
            append_assoc (take idx xs) (take (length xs - idx) m)
              (drop (length xs - idx) m ++ past)))

gather_apart :
    (p q : ℕ → List ℕ) (Live : ℕ → Type 0) (sec : ℕ) (vec : List ℕ)
    → All Live vec
    → NotIn sec vec
    → ((t : ℕ) → Live t → sec ≢ t → q t ≡ p t)
    → gather q vec ≡ gather p vec
gather_apart p q Live sec [] a n same = refl
gather_apart p q Live sec (t ∷ vec) a n same =
    rw (same t a.0 n.0, gather_apart p q Live sec vec a.1 n.1 same) refl

-- The device after data went into a vector, whose sectors then have the data `r`.
abbrev pub Stores : (ℕ → Type 0) → Device → List ℕ → List ℕ → Device → Type 0
Stores Live d vec r d' =
    (l : List ℕ) × (f : List ℕ) × (fs : List ℕ) × IsCache Live d' l f fs []
    × (l ++ f ≢ [])
    × (gather (view d') vec ≡ r)
    × ((t : ℕ) → Live t → NotIn t vec → view d' t ≡ view d t)
    × ((t : ℕ) → Live t → length (view d' t) ≡ d'.sectorsize)
    × (d'.sectorsize ≡ d.sectorsize)
    × (d'.ssectors ≤ d.ssectors + length vec)

sized_after :
    (Live : ℕ → Type 0) (d d2 : Device) (sec idx : ℕ) (p : List ℕ)
    → Live sec
    → ((t : ℕ) → Live t → length (view d t) ≡ d.sectorsize)
    → idx + length p ≤ d.sectorsize
    → view d2 sec ≡ copy_at (view d sec) idx p
    → ((t : ℕ) → Live t → sec ≢ t → view d2 t ≡ view d t)
    → d2.sectorsize ≡ d.sectorsize
    → (t : ℕ) → Live t
    → length (view d2 t) ≡ d2.sectorsize
sized_after Live d d2 sec idx p live sized fits here there same t lt =
    elim (Bool-cases (sec == t)) [
      | inl e ↦
          let k = sized sec live in
          rw (← ((==_iff sec t).0 e)) (
            ap length here
            ∙ (length-copy_at_whole (view d sec) idx p (omega arith) ∙ (k ∙ sym same)))
      | inr e ↦ ap length (there t lt (ground (arith, e))) ∙ (sized t lt ∙ sym same)
    ]

-- In a round, the data that is cut off for the sector.
module _ (d : Device) (m : List ℕ) (idx : ℕ) (low : idx < d.sectorsize) where
  abbrev part : List ℕ
  part = take (chunk d (length m) idx) m

  length-part : length part ≡ chunk d (length m) idx
  length-part = let e = length-take (chunk d (length m) idx) m in ground (arith, e)

  part_fits : idx + length part ≤ d.sectorsize
  part_fits = let e = length-part in ground (arith, e)

  read_or_whole :
      (not (chunk d (length m) idx == d.sectorsize) ≡ true) ⊎ (length part ≡ d.sectorsize)
  read_or_whole = elim (Bool-cases (chunk d (length m) idx == d.sectorsize)) [
    | inl e ↦ inr (length-part ∙ (==_iff (chunk d (length m) idx) d.sectorsize).0 e)
    | inr e ↦ inl (rw e refl)
  ]

-- The data of a vector after a round, the last one or not.
module _ (d d2 : Device) (sec : ℕ) (vec : List ℕ) (idx : ℕ) (m : List ℕ)
    (low : idx < length (view d sec)) where
  store_last :
      view d2 sec ≡ copy_at (view d sec) idx m
      → gather (view d2) vec ≡ gather (view d) vec
      → idx + length m ≤ length (view d sec)
      → gather (view d2) (sec ∷ vec) ≡ copy_at (gather (view d) (sec ∷ vec)) idx m
  store_last here rest fits =
      rw (here, rest) (sym (copy_first (view d sec) (gather (view d) vec) idx m fits))

  store_next :
      (d3 : Device) (k : ℕ)
      → k ≡ length (view d sec) - idx
      → k ≤ length m
      → view d2 sec ≡ copy_at (view d sec) idx (take k m)
      → gather (view d2) vec ≡ gather (view d) vec
      → view d3 sec ≡ view d2 sec
      → gather (view d3) vec ≡ copy_at (gather (view d2) vec) 0 (drop k m)
      → gather (view d3) (sec ∷ vec) ≡ copy_at (gather (view d) (sec ∷ vec)) idx m
  store_next d3 k e h here rest kept next =
      rw (next, kept, here, rest, e)
        (sym (copy_next (view d sec) (gather (view d) vec) idx m (omega arith) (omega arith)))

pub write_from-Stores :
    (Live : ℕ → Type 0) (vec : List ℕ) (d : Device) (m : List ℕ) (idx : ℕ) (l f fs : List ℕ)
    → IsCache Live d l f fs []
    → l ++ f ≢ []
    → All Live vec
    → Unique vec
    → ((t : ℕ) → Live t → length (view d t) ≡ d.sectorsize)
    → d.ssectors + length vec ≤ unused
    → idx < d.sectorsize
    → 0 < length m
    → idx + length m ≤ length vec * d.sectorsize
    → (d' : Device) × (write_from d vec m idx ≡ some d')
      × Stores Live d vec (copy_at (gather (view d) vec) idx m) d'
write_from-Stores Live [] d m idx l f fs v n a u sized room low pos fits = absurd (omega arith)
write_from-Stores Live (sec ∷ vec) d m idx l f fs v n a u sized room low pos fits =
    let p = part d m idx low in
    let fill = not (chunk d (length m) idx == d.sectorsize) in
    let (d1, i, run, (l1, f1, fs1, v1, n1, here, there, same, more)) =
      write-Round Live d sec idx p fill a.0 (sized sec a.0) (part_fits d m idx low)
        (read_or_whole d m idx low) l f fs v n (omega arith) in
    let d2 = after d d1 i sec vec m idx run in
    let sized2 =
      sized_after Live d d2 sec idx p a.0 sized (part_fits d m idx low) here there same in
    let rest = gather_apart (view d) (view d2) Live sec vec a.1 u.0 there in
    let long = sized sec a.0 in
    elim (Bool-cases (ltb (d.sectorsize - idx) (length m))) [
      | inr ends ↦
          let c : chunk d (length m) idx ≡ length m = rw ends refl in
          let h = ltb-false (d.sectorsize - idx) (length m) ends in
          let all : p ≡ m = rw c (take_all (length m) m (omega arith)) in
          (
            d2,
            write_last d d1 i sec vec m idx run (rw c (==_refl (length m))),
            (
              l1,
              f1,
              fs1,
              v1,
              n1,
              store_last d d2 sec vec idx m (omega arith) (here ∙ ap (copy_at (view d sec) idx) all)
                  rest (omega arith),
              (λ t lt out. there t lt (λ e. out.0 (sym e))),
              sized2,
              same,
              omega arith,
            ),
          )
      | inl goes ↦
          let c : chunk d (length m) idx ≡ d.sectorsize - idx = rw goes refl in
          let h = ltb-true (d.sectorsize - idx) (length m) goes in
          let m2 = drop (chunk d (length m) idx) m in
          let left = length-drop (chunk d (length m) idx) m in
          let (d3, run3, (l3, f3, fs3, v3, n3, data3, keep3, sized3, same3, more3)) =
            write_from-Stores Live vec d2 m2 0 l1 f1 fs1 v1 n1 a.1 u.1 sized2 (omega arith)
              (omega arith) (omega arith)
              (rw same (
                omega (
                  arith,
                  fits_next d.sectorsize idx (length m) (length vec) fits (omega arith) h,
                ))) in
          (
            d3,
            write_more d d1 i sec vec m idx run d3 (rw c (ground arith)) run3,
            (
              l3,
              f3,
              fs3,
              v3,
              n3,
              store_next d d2 sec vec idx m (omega arith) d3 (chunk d (length m) idx)
                  (c ∙ ap (λ z. z - idx) (sym long)) (omega arith) here rest (keep3 sec a.0 u.0)
                  data3,
              (λ t lt out. keep3 t lt out.1 ∙ there t lt (λ e. out.0 (sym e))),
              sized3,
              same3 ∙ same,
              omega arith,
            ),
          )
    ]
