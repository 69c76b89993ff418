-- ===== src/Swap/Transfer.antt =====
-- Swap::readv: the data of a vector of sectors.
use native.Mathlib.Nat.{suc-mul, zero-mul, mod-lt, div-add-mod'}
use dgd.Prelude.{
  ℕ, zero, suc, ◌+◌, ◌-◌, ◌*◌, ◌/◌, ◌%◌, ◌≤◌, ◌<◌, ◌≡◌, ◌≢◌, inl, inr, refl, sym, ap, ◌∙◌, List, [],
  ◌∷◌, ◌++◌, some, true, false, arith, ◌==◌, ltb, length, take, drop, All, Bool-cases, part_low,
  drop_low, take_high, length-drop, take_all, ltb-true, ltb-false, ==_refl, drop_nil, drop_high,
  drop-drop,
}
use dgd.Swap.Device.{Device, unused}
use dgd.Swap.Cache.{read_from, readv, load, chunk}
use dgd.Swap.Coherent.{view, IsCoherent, is_cached-true}
use dgd.Swap.Loaded.{IsCache}
use dgd.Swap.Recent.{load_Loads}

-- The data of a vector of sectors.
abbrev pub gather : (ℕ → List ℕ) → List ℕ → List ℕ
gather data1 [] = []
gather data1 (sec ∷ vec) = data1 sec ++ gather data1 vec

gather_same :
    (p q : ℕ → List ℕ) (Live : ℕ → Type 0) (vec : List ℕ)
    → All Live vec
    → ((t : ℕ) → Live t → q t ≡ p t)
    → gather q vec ≡ gather p vec
gather_same p q Live [] a same = refl
gather_same p q Live (sec ∷ vec) a same = rw (same sec a.0, gather_same p q Live vec a.1 same) refl

-- What is in the slot of a sector is its data.
pub view_slot :
    (Live : ℕ → Type 0) (d : Device) (fs o : List ℕ) (sec i : ℕ)
    → IsCoherent Live d fs o
    → Live sec
    → (d.slots i).sec ≡ sec
    → view d sec ≡ (d.slots i).bytes
unfolding view
view_slot Live d fs o sec i v live its = elim (v.held i) [
  | inl free ↦ absurd (v.numbered sec live (sym its ∙ free))
  | inr (_, low, at, _) ↦
      let m : d.map sec ≡ i = ap d.map (sym its) ∙ at in
      rw (is_cached-true d sec i m low its, m) refl
]

-- The device after a transfer that leaves the data alone.
abbrev pub Keeps : (ℕ → Type 0) → Device → Device → Type 0
Keeps Live d d' =
    (l : List ℕ) × (f : List ℕ) × (fs : List ℕ) × IsCache Live d' l f fs []
    × (l ++ f ≢ [])
    × ((t : ℕ) → Live t → view d' t ≡ view d t)

-- A round of the loop, the last one or not.
module _ (d d1 : Device) (i sec : ℕ) (vec : List ℕ) (size idx : ℕ)
    (run : load d sec false true ≡ some (d1, i)) where
  read_last :
      (size == chunk d size idx) ≡ true
      → read_from d (sec ∷ vec) size idx
        ≡ some (d1, take (chunk d size idx) (drop idx (d1.slots i).bytes))
  unfolding read_from
  read_last done = rw (run, done) refl

  read_more :
      (d2 : Device) (more : List ℕ)
      → (size == chunk d size idx) ≡ false
      → read_from d1 vec (size - chunk d size idx) 0 ≡ some (d2, more)
      → read_from d (sec ∷ vec) size idx
        ≡ some (d2, take (chunk d size idx) (drop idx (d1.slots i).bytes) ++ more)
  unfolding read_from
  read_more d2 more left rest = rw (run, left, rest) refl

Keeps-trans :
    (Live : ℕ → Type 0) (d d1 d2 : Device)
    → ((t : ℕ) → Live t → view d1 t ≡ view d t)
    → Keeps Live d1 d2
    → Keeps Live d d2
Keeps-trans Live d d1 d2 same (l, f, fs, v, n, views) =
    (l, f, fs, v, n, λ t lt. views t lt ∙ same t lt)

-- The part of the data that lies in the first sector, and what is behind it.
part_first :
    (s size idx : ℕ) (xs ys : List ℕ)
    → length xs ≡ s
    → idx + size ≤ s
    → take size (drop idx (xs ++ ys)) ≡ take size (drop idx xs)
part_first s size idx xs ys n h = part_low idx size xs ys (omega arith)

part_next :
    (s size idx : ℕ) (xs ys : List ℕ)
    → length xs ≡ s
    → idx ≤ s
    → s ≤ idx + size
    → take size (drop idx (xs ++ ys)) ≡ take (s - idx) (drop idx xs) ++ take (size - (s - idx)) ys
part_next s size idx xs ys n h k =
    let m : length (drop idx xs) ≡ s - idx = omega (arith, length-drop idx xs) in
    rw
      (
        drop_low xs ys idx (omega arith),
        take_high (drop idx xs) ys size (omega arith),
        m,
        take_all (s - idx) (drop idx xs) (omega arith),
      )
      refl

pub fits_next :
    (s idx size n : ℕ)
    → idx + size ≤ suc n * s
    → idx ≤ s
    → s - idx < size
    → 0 + (size - (s - idx)) ≤ n * s
fits_next s idx size n h k m = grind arith

read_from-view :
    (Live : ℕ → Type 0) (vec : List ℕ) (d : Device) (size idx : ℕ) (l f fs : List ℕ)
    → IsCache Live d l f fs []
    → l ++ f ≢ []
    → All Live vec
    → ((t : ℕ) → Live t → length (view d t) ≡ d.sectorsize)
    → d.ssectors + length vec ≤ unused
    → idx < d.sectorsize
    → 0 < size
    → idx + size ≤ length vec * d.sectorsize
    → (d' : Device) × (read_from d vec size idx
        ≡ some (d', take size (drop idx (gather (view d) vec))))
      × Keeps Live d d'
read_from-view Live [] d size idx l f fs v n a sized room low pos fits = absurd (omega arith)
read_from-view Live (sec ∷ vec) d size idx l f fs v n a sized room low pos fits =
    let (d1, i, l1, f1, fs1, run, v1, its, taken, views, same_size, more) =
      load_Loads Live d sec true l f fs v a.0 (omega arith) n in
    let same : (t : ℕ) → Live t → view d1 t ≡ view d t = λ t lt. views t lt (inl refl) in
    let bytes : (d1.slots i).bytes ≡ view d sec =
      sym (view_slot Live d1 fs1 [] sec i v1.coherent a.0 its) ∙ same sec a.0 in
    let long = sized sec a.0 in
    elim (Bool-cases (ltb (d.sectorsize - idx) size)) [
      | inr ends ↦
          let c : chunk d size idx ≡ size = rw ends refl in
          let h = ltb-false (d.sectorsize - idx) size ends in
          (
            d1,
            rw
                (
                  read_last d d1 i sec vec size idx run (rw c (==_refl size)),
                  c,
                  bytes,
                  part_first d.sectorsize size idx (view d sec) (gather (view d) vec) long
                      (omega arith),
                )
                refl,
            (i ∷ l1, f1, fs1, v1, (λ e. cc), same),
          )
      | inl goes ↦
          let c : chunk d size idx ≡ d.sectorsize - idx = rw goes refl in
          let h = ltb-true (d.sectorsize - idx) size goes in
          let (d2, rest, keeps) =
            read_from-view Live vec d1 (size - chunk d size idx) 0 (i ∷ l1) f1 fs1 v1 (λ e. cc) a.1
              (λ t lt. ap length (same t lt) ∙ (sized t lt ∙ sym same_size)) (omega arith)
              (omega arith) (omega arith)
              (rw (same_size, c)
                (fits_next d.sectorsize idx size (length vec) fits (omega arith) h)) in
          (
            d2,
            read_more d d1 i sec vec size idx run d2
                  (take (size - chunk d size idx) (drop 0 (gather (view d1) vec)))
                  (rw c (ground arith)) rest
                ∙ ap (λ z. some (d2, z))
                    (rw (c, bytes, gather_same (view d) (view d1) Live vec a.1 same)
                      (sym (
                        part_next d.sectorsize size idx (view d sec) (gather (view d) vec) long
                          (omega arith) (omega arith)))),
            Keeps-trans Live d d1 d2 same keeps,
          )
    ]

gather-drop :
    (p : ℕ → List ℕ) (s : ℕ) (Live : ℕ → Type 0) (k : ℕ) (vec : List ℕ)
    → All Live vec
    → ((t : ℕ) → Live t → length (p t) ≡ s)
    → drop (k * s) (gather p vec) ≡ gather p (drop k vec)
gather-drop p s Live zero vec a n = rw (zero-mul s) refl
gather-drop p s Live (suc k) [] a n = drop_nil {A = ℕ} (suc k * s)
gather-drop p s Live (suc k) (sec ∷ vec) a n =
    let long = n sec a.0 in
    let past : suc k * s - length (p sec) ≡ k * s = omega (arith, suc-mul k s) in
    drop_high (p sec) (gather p vec) (suc k * s) (omega (arith, suc-mul k s))
    ∙ (rw past (gather-drop p s Live k vec a.1 n))

All-drop : (Live : ℕ → Type 0) (k : ℕ) (vec : List ℕ) → All Live vec → All Live (drop k vec)
All-drop Live zero vec a = a
All-drop Live (suc k) [] a = tt
All-drop Live (suc k) (sec ∷ vec) a = All-drop Live k vec a.1

pub left_size : (n k s r size : ℕ) → k * s + r + size ≤ n * s → 0 < size → r + size ≤ (n - k) * s
left_size n zero s r size h p =
    let same : n - 0 ≡ n = omega arith in rw same (omega (arith, zero-mul s))
left_size zero (suc k) s r size h p = absurd (omega (arith, zero-mul s))
left_size (suc n) (suc k) s r size h p =
    let same : suc n - suc k ≡ n - k = omega arith in
    rw same (left_size n k s r size (omega (arith, suc-mul n s, suc-mul k s)) p)

-- Data that is within the sectors of a vector is read as it is, from wherever the sectors are; the
-- cache is coherent after that, and no sector that is in use has changed. The swap file must have
-- room for the sectors that may be turned out.
pub readv-view :
    (Live : ℕ → Type 0) (d : Device) (vec : List ℕ) (size idx : ℕ) (l f fs : List ℕ)
    → IsCache Live d l f fs []
    → l ++ f ≢ []
    → All Live vec
    → ((t : ℕ) → Live t → length (view d t) ≡ d.sectorsize)
    → d.ssectors + length vec ≤ unused
    → 0 < d.sectorsize
    → 0 < size
    → idx + size ≤ length vec * d.sectorsize
    → (d' : Device) × (readv d vec size idx ≡ some (d', take size (drop idx (gather (view d) vec))))
      × Keeps Live d d'
unfolding readv
readv-view Live d vec size idx l f fs v n a sized room some_size pos fits =
    let k = idx / d.sectorsize in
    let (d', run, keeps) =
      read_from-view Live (drop k vec) d size (idx % d.sectorsize) l f fs v n
        (All-drop Live k vec a) sized (omega (arith, length-drop k vec)) (mod-lt idx some_size) pos
        (rw (length-drop k vec) (
          left_size (length vec) k d.sectorsize (idx % d.sectorsize) size
            (omega (arith, div-add-mod' idx d.sectorsize)) pos)) in
    let at : drop (idx % d.sectorsize) (gather (view d) (drop k vec))
        ≡ drop idx (gather (view d) vec) =
      rw
        (
          ← (gather-drop (view d) d.sectorsize Live k vec a sized),
          drop-drop (idx % d.sectorsize) (k * d.sectorsize) (gather (view d) vec),
          div-add-mod' idx d.sectorsize,
        )
        refl in
    (d', run ∙ ap (λ z. some (d', take size z)) at, keeps)
