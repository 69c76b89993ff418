-- ===== src/Swap/Free.antt =====
-- The free sectors: what newv takes, and what delv gives back.
use dgd.Prelude.{
  ℕ, zero, suc, ◌+◌, ◌-◌, ◌≤◌, ◌<◌, ◌≡◌, ◌≢◌, refl, sym, ap, ◌∙◌, List, [], ◌∷◌, ◌++◌, Option, none,
  some, arith, ◌==◌, Bool-cases, inl, inr, update, update_other, update_same, length, take, drop,
  All, true, false,
}
use dgd.Swap.Device.{
  Device, unused, newv_fresh, newv, SwapSlot, delete, drop_slot, is_slot, unchain_next,
  unchain_prev, is_cached, at_slot, count,
}

-- The sectors `n`, `n + 1`, ... , `k` of them.
abbrev pub range : ℕ → ℕ → List ℕ
range n zero = []
range n (suc k) = n ∷ range (n + 1) k

-- The free list through the map holds the sectors `xs`, in this order and each once.
abbrev pub Chain : (ℕ → ℕ) → ℕ → List ℕ → Type 0
Chain map head [] = head ≡ unused
Chain map head (x ∷ xs) = (head ≡ x) × (x ≢ unused) × All (λ y. x ≢ y) xs × Chain map (map x) xs

pub record IsFree (d : Device) (xs : List ℕ) : Type 0 where
  pub chain : Chain d.map d.mfree xs
  pub counted : d.nfree ≡ length xs
  pub known : length xs ≤ d.nsectors

Chain-update :
    (map : ℕ → ℕ) (head sec v : ℕ) (xs : List ℕ)
    → All (λ y. sec ≢ y) xs
    → Chain map head xs
    → Chain (update map sec v) head xs
Chain-update map head sec v [] p c = c
Chain-update map head sec v (x ∷ xs) p c =
    (c.0, c.1, c.2, rw (update_other map sec x v p.0) (Chain-update map (map x) sec v xs p.1 c.3))

newv_fresh_lem :
    (d : Device) (size : ℕ)
    → IsFree d []
    → d.nsectors + size ≤ d.swapsize
    → (d' : Device) × (newv_fresh d size ≡ some (d', range d.nsectors size))
      × IsFree d' []
      × (d'.nsectors ≡ d.nsectors + size)
unfolding newv_fresh
newv_fresh_lem d zero v h = (d, refl, v, omega arith)
newv_fresh_lem d (suc size) v h =
    let a = record d { map = update d.map d.nsectors unused; nsectors = d.nsectors + 1 } in
    let (d', run, v', n) =
      newv_fresh_lem a size (record { chain = v.chain; counted = v.counted; known = omega arith })
        (omega arith) in
    let room : (d.nsectors == d.swapsize) ≡ false = ground arith in
    (d', rw (room, run) refl, v', omega arith)

newv_fresh-none :
    (d : Device) (size : ℕ)
    → d.nsectors ≤ d.swapsize
    → d.swapsize < d.nsectors + size
    → newv_fresh d size ≡ none
unfolding newv_fresh
newv_fresh-none d zero h k = absurd (omega arith)
newv_fresh-none d (suc size) h k = elim (Bool-cases (d.nsectors == d.swapsize)) [
  | inl full ↦ rw full refl
  | inr room ↦
      rw
        (
          room,
          newv_fresh-none
              (record d { map = update d.map d.nsectors unused; nsectors = d.nsectors + 1 }) size
              (ground (arith, room)) (omega arith),
        )
        refl
]

-- The device after the first sector of the free list is taken.
abbrev taken : Device → Device
taken d = record d { mfree = d.map d.mfree; map = update d.map d.mfree unused; nfree = d.nfree - 1 }

module _ (d : Device) (x : ℕ) (xs : List ℕ) (v : IsFree d (x ∷ xs)) where
  not_empty : (d.mfree == unused) ≡ false
  not_empty = ground (arith, v.chain.0, v.chain.1)

  taken-IsFree : IsFree (taken d) xs
  taken-IsFree =
      let e = v.chain.0 in
      record {
        chain = rw e (Chain-update d.map (d.map x) x unused xs v.chain.2 v.chain.3);
        counted = omega (arith, v.counted);
        known = omega (arith, v.known);
      }

  newv-reuse :
      (size : ℕ) (r : Option (Device × List ℕ))
      → newv (taken d) size ≡ r
      → newv d (suc size) ≡ elim r [ none ↦ none | some (b, vec) ↦ some (b, x ∷ vec) ]
  unfolding newv
  newv-reuse size r run =
      rw (not_empty, run)
        (ap
          (λ (y : ℕ). elim r as (λ _. Option (Device × List ℕ)) [
            | none ↦ none
            | some (b, vec) ↦ some (b, y ∷ vec)
          ])
          v.chain.0)

newv-empty : (d : Device) (size : ℕ) → IsFree d [] → newv d (suc size) ≡ newv_fresh d (suc size)
unfolding newv
newv-empty d size v =
    let empty : (d.mfree == unused) ≡ true = ground (arith, v.chain) in rw empty refl

-- With enough free and unused sectors newv returns a vector of the free ones, in the order of the
-- list, and then of new ones, and takes them off the list.
pub newv_lem :
    (d : Device) (xs : List ℕ) (size : ℕ)
    → IsFree d xs
    → d.nsectors + (size - length xs) ≤ d.swapsize
    → (d' : Device) × (newv d size ≡ some (d', take size xs ++ range d.nsectors (size - length xs)))
      × IsFree d' (drop size xs)
      × (count d' ≡ count d + size)
unfolding newv count
newv_lem d xs zero v h =
    let nothing : 0 - length xs ≡ 0 = omega arith in (d, rw nothing refl, v, omega arith)
newv_lem d [] (suc size) v h =
    let (d', run, v', n) = newv_fresh_lem d (suc size) v (omega arith) in
    let all : suc size - 0 ≡ suc size = omega arith in
    (
      d',
      newv-empty d size v ∙ run ∙ ap (λ (k : ℕ). some (d', range d.nsectors k)) (sym all),
      v',
      omega (arith, v.counted, v'.counted),
    )
newv_lem d (x ∷ xs) (suc size) v h =
    let rest = taken-IsFree d x xs v in
    let (d', run, v', n) = newv_lem (taken d) xs size rest (omega arith) in
    let less : suc size - suc (length xs) ≡ size - length xs = omega arith in
    (
      d',
      newv-reuse d x xs v size _ run
          ∙ ap (λ (k : ℕ). some (d', x ∷ (take size xs ++ range d.nsectors k))) (sym less),
      v',
      omega (arith, v.counted, v.known),
    )

-- Without enough sectors newv fails.
newv-none :
    (d : Device) (xs : List ℕ) (size : ℕ)
    → IsFree d xs
    → d.nsectors ≤ d.swapsize
    → d.swapsize < d.nsectors + (size - length xs)
    → newv d size ≡ none
unfolding newv
newv-none d xs zero v h k = absurd (omega arith)
newv-none d [] (suc size) v h k = newv-empty d size v ∙ newv_fresh-none d (suc size) h (omega arith)
newv-none d (x ∷ xs) (suc size) v h k =
    newv-reuse d x xs v size none
      (newv-none (taken d) xs size (taken-IsFree d x xs v) h (omega arith))

-- The bookkeeping of sectors is the same in both devices.
abbrev SameSectors : Device → Device → Type 0
SameSectors a b =
    (a.map ≡ b.map) × (a.mfree ≡ b.mfree) × (a.nfree ≡ b.nfree) × (a.nsectors ≡ b.nsectors)

at_slot-SameSectors :
    (o : Option ℕ) (f : SwapSlot → SwapSlot) (d : Device) → SameSectors (at_slot o f d) d
at_slot-SameSectors none f d = (refl, refl, refl, refl)
at_slot-SameSectors (some i) f d = (refl, refl, refl, refl)

unchain_next-SameSectors : (d : Device) (i : ℕ) → SameSectors (unchain_next d i) d
unfolding unchain_next
unchain_next-SameSectors d i = elim (Bool-cases (is_slot d.first i)) [
  | inl e ↦ rw e (at_slot-SameSectors (d.slots i).next _ _)
  | inr e ↦ rw e (at_slot-SameSectors (d.slots i).prev _ _)
]

unchain_prev-SameSectors : (d : Device) (i : ℕ) → SameSectors (unchain_prev d i) d
unfolding unchain_prev
unchain_prev-SameSectors d i = elim (Bool-cases (is_slot d.last i)) [
  | inl e ↦ rw e (at_slot-SameSectors (d.slots i).prev _ _)
  | inr e ↦ rw e (at_slot-SameSectors (d.slots i).next _ _)
]

drop_slot-SameSectors : (d : Device) (i : ℕ) → SameSectors (drop_slot d i) d
unfolding drop_slot
drop_slot-SameSectors d i =
    let a = unchain_next-SameSectors d i in
    let b = unchain_prev-SameSectors (unchain_next d i) i in
    (b.0 ∙ a.0, b.1 ∙ a.1, b.2 ∙ a.2, b.3 ∙ a.3)

put_back :
    (d a : Device) (xs : List ℕ) (sec : ℕ)
    → SameSectors a d
    → IsFree d xs
    → sec ≢ unused
    → All (λ y. sec ≢ y) xs
    → length xs < d.nsectors
    → IsFree
        (record a { map = update a.map sec a.mfree; mfree = sec; nfree = a.nfree + 1 })
        (sec ∷ xs)
put_back d a xs sec (m, f, n, s) v h p k = record {
  chain = (
    refl,
    h,
    p,
    rw (update_same a.map sec a.mfree)
        (Chain-update a.map a.mfree sec a.mfree xs p (rw (m, f) v.chain)),
  );
  counted = omega (arith, v.counted);
  known = omega arith;
}

-- A deleted sector is the first to be used again, and no longer counts as in use.
delete-IsFree :
    (d : Device) (xs : List ℕ) (sec : ℕ)
    → IsFree d xs
    → sec ≢ unused
    → All (λ y. sec ≢ y) xs
    → length xs < d.nsectors
    → IsFree (delete d sec) (sec ∷ xs) × (count (delete d sec) + 1 ≡ count d)
unfolding delete count
delete-IsFree d xs sec v h p k = elim (Bool-cases (is_cached d sec)) [
  | inl e ↦
      let same = drop_slot-SameSectors d (d.map sec) in
      rw (delete, e)
        (
          put_back d (drop_slot d (d.map sec)) xs sec same v h p k,
          omega (arith, v.counted, same.2, same.3),
        )
  | inr e ↦
      rw (delete, e)
        (put_back d d xs sec (refl, refl, refl, refl) v h p k, omega (arith, v.counted))
]
