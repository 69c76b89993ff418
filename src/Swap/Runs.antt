-- ===== src/Swap/Runs.antt =====
-- A device whose cache has a single slot, and the theorems on the cache there.
use dgd.Prelude.{
  ◌+◌, ℕ, ◌≡◌, ◌⊎◌, inl, inr, refl, [], ◌∷◌, none, some, true, false, arith, ◌==◌, if◌then◌else◌,
  take, drop, Bool-cases, ==_iff,
}
use dgd.Swap.Device.{Device, SwapSlot, init, unused, is_cached, newv, count}
use dgd.Swap.Cache.{readv, writev, copy_at}
use dgd.Swap.Coherent.{swap_of, view, Holds, HasPlaces}
use dgd.Swap.Loaded.{IsCache, Loads}
use dgd.Swap.Free.{IsFree, range}
use dgd.Swap.Fresh.{Gives}
use dgd.Swap.Given.{newv-Gives, init-IsCache}
use dgd.Swap.Recent.{load_Loads}
use dgd.Swap.Chain.{NotIn}
use dgd.Swap.Vectors.{Stores}
use dgd.Swap.Roundtrip.{writev-Stores, writev-readv}
use dgd.Swap.Transfer.{gather, Keeps, readv-view}

-- Slot 0 holds sector 0, which was changed; sector 1 is in the swap file.
abbrev its_slot : SwapSlot
its_slot = record {
  prev = none;
  next = none;
  sec = 0;
  swap = unused;
  dirty = true;
  bytes = 1 ∷ 2 ∷ 3 ∷ 4 ∷ [];
}

abbrev no_slot : SwapSlot
no_slot = record {
  prev = none;
  next = none;
  sec = unused;
  swap = unused;
  dirty = false;
  bytes = [];
}

abbrev small : Device
small = record (init 10 4 (λ _. unused)) {
  cachesize = 1;
  nsectors = 2;
  ssectors = 1;
  map = λ t. if t == 0 then 0 else if t == 1 then 0 else unused;
  slots = λ j. if j == 0 then its_slot else no_slot;
  first = some 0;
  last = some 0;
  lfree = none;
  file = λ w. 5 ∷ 6 ∷ 7 ∷ 8 ∷ [];
}

abbrev Live : ℕ → Type 0
Live t = (t ≡ 0) ⊎ (t ≡ 1)

-- Only sector 1 has a place in the swap file.
place_small : (t : ℕ) → Live t → swap_of small t ≡ (if t == 0 then unused else 0)
unfolding swap_of is_cached
place_small t (inl e) = rw e refl
place_small t (inr e) = rw e refl

view_small :
    (t : ℕ) → Live t → view small t ≡ (if t == 0 then 1 ∷ 2 ∷ 3 ∷ 4 ∷ [] else 5 ∷ 6 ∷ 7 ∷ 8 ∷ [])
unfolding view is_cached
view_small t (inl e) = rw e refl
view_small t (inr e) = rw e refl

small-HasPlaces : HasPlaces Live (swap_of small) 1 0 (λ _. unused) unused []
small-HasPlaces = record {
  apart = λ t u a b e n. ground (arith, place_small t a, place_small u b);
  below = λ t a n. ground (arith, place_small t a);
  room = omega arith;
  free = refl;
  unowned = tt;
}

held_small : (j : ℕ) → ((small.slots j).sec ≡ unused) ⊎ Holds Live small j
held_small j = elim (Bool-cases (j == 0)) [
  | inl e ↦ rw ((==_iff j 0).0 e) (inr (omega arith, omega arith, refl, inl refl))
  | inr e ↦ rw e (inl refl)
]

small-IsCache : IsCache Live small (0 ∷ []) [] [] []
small-IsCache = record {
  first = refl;
  last = refl;
  lfree = refl;
  lists = record {
    chain = (refl, refl, tt);
    queue = tt;
    once = omega arith;
    idle = λ j out. ground (arith, out.0);
    full = omega arith;
    fits = tt;
  };
  coherent = record {
    numbered = λ t a e. ground arith;
    sized = λ j. ground arith;
    file_sized = λ w. omega arith;
    held = held_small;
    clean = λ j out used still. ground arith;
    places = small-HasPlaces;
  };
}

-- Sector 1 comes into the slot, for which sector 0 goes to the swap file.
load_Loads_example : Loads Live small 1 true (0 ∷ []) []
load_Loads_example =
    load_Loads Live small 1 true (0 ∷ []) [] [] small-IsCache (inr refl) (omega arith) (λ e. cc)

-- Six bytes over both sectors, from the second byte on.
readv-view_example :
    (d' : Device) × (readv small (1 ∷ 0 ∷ []) 6 1
      ≡ some (d', take 6 (drop 1 (gather (view small) (1 ∷ 0 ∷ [])))))
    × Keeps Live small d'
readv-view_example =
    readv-view Live small (1 ∷ 0 ∷ []) 6 1 (0 ∷ []) [] [] small-IsCache (λ e. cc)
      (inr refl, (inl refl, tt)) (λ t a. ground (arith, view_small t a)) (omega arith) (omega arith)
      (omega arith) (omega arith)

-- Six bytes go into both sectors, and are read back.
writev-Stores_example :
    (d' : Device) × (writev small (1 ∷ 0 ∷ []) (11 ∷ 12 ∷ 13 ∷ 14 ∷ 15 ∷ 16 ∷ []) 1 ≡ some d')
    × Stores Live small
        (1 ∷ 0 ∷ [])
        (copy_at (gather (view small) (1 ∷ 0 ∷ [])) 1 (11 ∷ 12 ∷ 13 ∷ 14 ∷ 15 ∷ 16 ∷ []))
        d'
writev-Stores_example =
    writev-Stores Live small (1 ∷ 0 ∷ []) (11 ∷ 12 ∷ 13 ∷ 14 ∷ 15 ∷ 16 ∷ []) 1 (0 ∷ []) [] []
      small-IsCache (λ e. cc) (inr refl, (inl refl, tt)) (omega arith)
      (λ t a. ground (arith, view_small t a)) (omega arith) (omega arith) (omega arith)
      (omega arith)

writev-readv_example :
    (d1 : Device) × (d2 : Device) × (writev small (1 ∷ 0 ∷ []) (11 ∷ 12 ∷ 13 ∷ 14 ∷ 15 ∷ 16 ∷ []) 1
      ≡ some d1)
    × (readv d1 (1 ∷ 0 ∷ []) 6 1 ≡ some (d2, 11 ∷ 12 ∷ 13 ∷ 14 ∷ 15 ∷ 16 ∷ []))
    × ((t : ℕ) → Live t → NotIn t (1 ∷ 0 ∷ []) → view d2 t ≡ view small t)
writev-readv_example =
    writev-readv Live small (1 ∷ 0 ∷ []) (11 ∷ 12 ∷ 13 ∷ 14 ∷ 15 ∷ 16 ∷ []) 1 (0 ∷ []) [] []
      small-IsCache (λ e. cc) (inr refl, (inl refl, tt)) (omega arith)
      (λ t a. ground (arith, view_small t a)) (omega arith) (omega arith) (omega arith)
      (omega arith)

-- A new device, and two sectors of it.
abbrev new_device : Device
new_device = init 10 4 (λ _. unused)

new_device-IsFree : IsFree new_device []
new_device-IsFree = record { chain = refl; counted = refl; known = omega arith }

newv-Gives_example :
    (d' : Device) × (newv new_device 2 ≡ some (d', 0 ∷ 1 ∷ []))
    × Gives (λ t. ⊥) new_device (0 ∷ 1 ∷ []) [] (range 0 128) [] d'
    × IsFree d' []
    × (count d' ≡ count new_device + 2)
newv-Gives_example =
    newv-Gives (λ t. ⊥) new_device [] 2 [] (range 0 128) [] (init-IsCache 10 4 (λ _. unused))
      (omega arith) new_device-IsFree (omega arith)
      (omega arith, (((λ e. omega arith), λ w. w), (((λ e. omega arith), λ w. w), tt)))
