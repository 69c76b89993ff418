-- ===== src/Swap/Device.antt =====
-- The data of src/swap.cpp, and the allocation of sectors: mapsize, newv, wipev, delv and alloc.
use dgd.Prelude.{
  ℕ, zero, suc, ◌+◌, ◌-◌, ◌*◌, ◌/◌, ◌%◌, Bool, false, not, ◌&&◌, List, [], ◌∷◌, ◌++◌, Option, none,
  some, ltb, leb, ◌==◌, if◌then◌else◌, update, length, take, drop,
}

abbrev pub sector_mod : ℕ
sector_mod = 65536

-- sizeof(Sector)
abbrev pub sector_bytes : ℕ
sector_bytes = 2

-- SW_UNUSED
abbrev pub unused : ℕ
unused = 65535

-- A slot of the cache: the header SwapSlot, and the sector's bytes behind it. A pointer to a slot is
-- the slot's index, none for NULL.
pub record SwapSlot : Type 0 where
  pub prev : Option ℕ
  pub next : Option ℕ
  pub sec : ℕ
  pub swap : ℕ
  pub dirty : Bool
  pub bytes : List ℕ

-- The static variables, and the contents of the swap file and of the snapshot by sector.
pub record Device : Type 0 where
  pub sectorsize : ℕ
  pub swapsize : ℕ
  pub cachesize : ℕ
  pub nsectors : ℕ
  pub nfree : ℕ
  pub ssectors : ℕ
  pub sbarrier : ℕ
  pub map : ℕ → ℕ
  pub smap : ℕ → ℕ
  pub mfree : ℕ
  pub sfree : ℕ
  pub slots : ℕ → SwapSlot
  pub first : Option ℕ
  pub last : Option ℕ
  pub lfree : Option ℕ
  pub file : ℕ → List ℕ
  pub dump : ℕ → List ℕ

-- Swap::init: every slot of the cache is free, chained to the one behind it.
abbrev pub init : ℕ → ℕ → (ℕ → ℕ) → Device
init total secsize junk = record {
  sectorsize = secsize;
  swapsize = total;
  cachesize = 128;
  nsectors = 0;
  nfree = 0;
  ssectors = 0;
  sbarrier = 0;
  map = junk;
  smap = junk;
  mfree = unused;
  sfree = unused;
  slots = λ i. record {
    prev = none;
    next = if i + 1 == 128 then none else some (i + 1);
    sec = unused;
    swap = unused;
    dirty = false;
    bytes = [];
  };
  first = none;
  last = none;
  lfree = some 0;
  file = λ _. [];
  dump = λ _. [];
}

-- Sectors that hold `size` bytes and a map of `n` sectors.
abbrev pub sectors_for : ℕ → ℕ → ℕ → ℕ
sectors_for sectorsize size n = (size + n * sector_bytes + sectorsize - 1) / sectorsize % sector_mod

-- The loop of Swap::mapsize from `n` on; none means that the fuel ran out.
unfoldable pub mapsize_from : ℕ → ℕ → ℕ → ℕ → Option ℕ
mapsize_from zero sectorsize size n = none
mapsize_from (suc fuel) sectorsize size n =
    let i = sectors_for sectorsize size n in
    let next = mapsize_from fuel sectorsize size i in if n == i then some n else next

-- Swap::mapsize; the number of sectors grows in each round but the last.
unfoldable pub mapsize : ℕ → ℕ → Option ℕ
unfolding mapsize_from
mapsize sectorsize size = mapsize_from (sector_mod + 1) sectorsize size 0

-- The second loop of Swap::newv: sectors that were never used. none is the fatal error.
unfoldable pub newv_fresh : Device → ℕ → Option (Device × List ℕ)
newv_fresh d zero = some (d, [])
newv_fresh d (suc size) =
    let a = record d { map = update d.map d.nsectors unused; nsectors = d.nsectors + 1 } in
    let rest = newv_fresh a size in
    if d.nsectors == d.swapsize
    then none
    else elim rest [ none ↦ none | some (b, vec) ↦ some (b, d.nsectors ∷ vec) ]

-- Swap::newv: a vector of `size` sectors, deleted ones first.
unfoldable pub newv : Device → ℕ → Option (Device × List ℕ)
newv d zero = some (d, [])
newv d (suc size) =
    let sec = d.mfree in
    let a = record d { mfree = d.map sec; map = update d.map sec unused; nfree = d.nfree - 1 } in
    let reuse = newv a size in
    if d.mfree == unused
    then newv_fresh d (suc size)
    else elim reuse [ none ↦ none | some (b, vec) ↦ some (b, sec ∷ vec) ]

-- Is sector `sec` in the slot that the map names?
unfoldable pub is_cached : Device → ℕ → Bool
is_cached d sec = ltb (d.map sec) d.cachesize && (d.slots (d.map sec)).sec == sec

abbrev pub modify_slot : Device → ℕ → (SwapSlot → SwapSlot) → Device
modify_slot d i f = record d { slots = update d.slots i (f (d.slots i)) }

-- `if (i != SW_UNUSED && i >= sbarrier) { ... }`: a sector of the swap file is free.
unfoldable pub free_swap : Device → ℕ → Device
free_swap d i =
    if not (i == unused) && leb d.sbarrier i
    then record d { smap = update d.smap (i - d.sbarrier) d.sfree; sfree = i - d.sbarrier }
    else d

-- One round of Swap::wipev.
unfoldable pub wipe : Device → ℕ → Device
unfolding is_cached free_swap
wipe d sec =
    let i = d.map sec in
    if is_cached d sec
    then free_swap (modify_slot d i (λ h. record h { swap = unused })) (d.slots i).swap
    else free_swap (record d { map = update d.map sec unused }) i

-- A loop over a vector from its end.
abbrev pub each_back : (Device → ℕ → Device) → Device → List ℕ → Device
each_back step d [] = d
each_back step d (sec ∷ vec) = step (each_back step d vec) sec

-- Swap::wipev
unfoldable pub wipev : Device → List ℕ → Device
unfolding wipe
wipev d vec = each_back wipe d vec

-- What is written through a pointer to a slot, if it is not NULL.
abbrev pub at_slot : Option ℕ → (SwapSlot → SwapSlot) → Device → Device
at_slot none f d = d
at_slot (some i) f d = modify_slot d i f

abbrev pub is_slot : Option ℕ → ℕ → Bool
is_slot none i = false
is_slot (some j) i = j == i

-- `if (h != first) h->prev->next = h->next; else { first = h->next; ... }`
unfoldable pub unchain_next : Device → ℕ → Device
unchain_next d i =
    let h = d.slots i in
    if is_slot d.first i
    then at_slot h.next (λ n. record n { prev = none }) (record d { first = h.next })
    else at_slot h.prev (λ p. record p { next = h.next }) d

-- `if (h != last) h->next->prev = h->prev; else { last = h->prev; ... }`
unfoldable pub unchain_prev : Device → ℕ → Device
unchain_prev d i =
    let h = d.slots i in
    if is_slot d.last i
    then at_slot h.prev (λ p. record p { next = none }) (record d { last = h.prev })
    else at_slot h.next (λ n. record n { prev = h.prev }) d

-- The slot `i` leaves the first-last list for the list of free slots.
unfoldable pub drop_slot : Device → ℕ → Device
unfolding unchain_next unchain_prev
drop_slot d i =
    let a = unchain_prev (unchain_next d i) i in
    record (modify_slot a i (λ h. record h { sec = unused; next = a.lfree })) { lfree = some i }

-- One round of Swap::delv.
unfoldable pub delete : Device → ℕ → Device
unfolding is_cached drop_slot
delete d sec =
    let a = if is_cached d sec then drop_slot d (d.map sec) else d in
    record a { map = update a.map sec a.mfree; mfree = sec; nfree = a.nfree + 1 }

-- Swap::delv
unfoldable pub delv : Device → List ℕ → Device
unfolding delete
delv d vec = each_back delete d vec

-- Swap::alloc: the vector for `size` bytes, which replaces the vector `old`.
unfoldable pub alloc : Device → ℕ → List ℕ → Option (Device × List ℕ)
unfolding wipev delv mapsize newv newv_fresh
alloc d size old =
    let a = wipev d old in
    elim (mapsize d.sectorsize size) [
      | none ↦ none
      | some n ↦
          if ltb n (length old)
          then some (delv a (drop n old), take n old)
          else elim (newv a (n - length old)) [ none ↦ none | some (b, vec) ↦ some (b, old ++ vec) ]
    ]

-- Swap::count
unfoldable pub count : Device → ℕ
count d = d.nsectors - d.nfree
