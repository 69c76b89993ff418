-- ===== src/Swap/Cache.antt =====
-- The cache of sectors in memory: Swap::load, and the transfers readv, writev and dreadv.
use dgd.Prelude.{
  ℕ, ◌+◌, ◌-◌, ◌/◌, ◌%◌, Bool, true, false, not, ◌&&◌, List, [], ◌∷◌, ◌++◌, Option, none, some, ltb,
  leb, ◌==◌, if◌then◌else◌, update, length, take, drop, replicate,
}
use dgd.Swap.Device.{Device, unused, is_cached, modify_slot, at_slot, is_slot}

infixl 5 ◌>>=◌
abbrev pub ◌>>=◌ {ℓ κ} : {A : Type ℓ} {B : Type κ} → Option A → (A → Option B) → Option B
none >>= f = none
some a >>= f = f a

-- A sector of the swap file for the slot's data: the one it has, a free one, or one at the end of
-- the file. none is the fatal error.
unfoldable pub swap_sector : Device → ℕ → Option (Device × ℕ)
swap_sector d save =
    if not (save == unused) && leb d.sbarrier save
    then some (d, save)
    else if not (d.sfree == unused)
    then some (record d { sfree = d.smap d.sfree }, d.sfree + d.sbarrier)
    else if d.ssectors == unused
    then none
    else some (record d { ssectors = d.ssectors + 1 }, d.ssectors)

-- `last = h->prev; ...`: the first-last list without its last slot
unfoldable pub without_last : Device → Option ℕ → Device
without_last d none = record d { last = none; first = none }
without_last d (some j) = modify_slot (record d { last = some j }) j (λ s. record s { next = none })

-- The data of the slot is written to the swap file, if it was changed, and the map says so.
unfoldable pub write_back : Device → ℕ → Option (Device × ℕ)
unfolding swap_sector
write_back d i =
    let h = d.slots i in
    if h.dirty
    then (do
      (a, save) ← swap_sector d h.swap
      some (record a { file = update a.file save h.bytes; map = update a.map h.sec save }, i))
    else some (record d { map = update d.map h.sec h.swap }, i)

-- The last slot of the first-last list, taken off it; its data is written to the swap file if it
-- was changed. The source does not expect that there is no such slot.
unfoldable pub evict : Device → Option (Device × ℕ)
unfolding without_last write_back
evict d = do i ← d.last; write_back (without_last d (d.slots i).prev) i

-- A slot from the free list, or else one that is taken from another sector.
unfoldable pub claim : Device → Option (Device × ℕ)
unfolding evict
claim d = elim d.lfree [ none ↦ evict d | some i ↦ some (record d { lfree = (d.slots i).next }, i) ]

-- The data of a sector that is brought into a slot: from the snapshot, from the swap file, or zero.
unfoldable pub contents : Device → ℕ → Bool → Bool → List ℕ → List ℕ
contents d load restore fill old =
    if not (load == unused)
    then (if restore then d.dump load else if fill then d.file load else old)
    else if fill
    then replicate d.sectorsize 0
    else old

-- The first branch of Swap::load: sector `sec` gets a slot.
unfoldable pub bring_in : Device → ℕ → Bool → Bool → Option (Device × ℕ)
unfolding claim contents
bring_in d sec restore fill = do
  let load = d.map sec
  (a, i) ← claim d
  let bytes = contents a load restore fill (a.slots i).bytes
  let b = modify_slot a i (λ h. record h { sec = sec; swap = load; dirty = false; bytes = bytes })
  some (record b { map = update b.map sec i }, i)

-- `if (h != first) h->prev->next = h->next; else first = h->next;`
unfoldable pub cut_next : Device → ℕ → Device
cut_next d i =
    let h = d.slots i in
    if is_slot d.first i
    then record d { first = h.next }
    else at_slot h.prev (λ p. record p { next = h.next }) d

-- `if (h != last) h->next->prev = h->prev; else { last = h->prev; ... }`
unfoldable pub cut_prev : Device → ℕ → Device
cut_prev d i =
    let h = d.slots i in
    if is_slot d.last i
    then at_slot h.prev (λ p. record p { next = none }) (record d { last = h.prev })
    else at_slot h.next (λ n. record n { prev = h.prev }) d

-- The second branch: the slot is taken off the first-last list.
unfoldable pub unchain : Device → ℕ → Device
unfolding cut_next cut_prev
unchain d i = cut_prev (cut_next d i) i

-- The slot is put at the head of the first-last list.
unfoldable pub to_front : Device → ℕ → Device
to_front d i =
    let a = modify_slot d i (λ h. record h { prev = none; next = d.first }) in
    let b : Device = elim d.first [
      | none ↦ record a { last = some i }
      | some j ↦ modify_slot a j (λ h. record h { prev = some i })
    ] in
    record b { first = some i }

-- Swap::load: the slot for the sector.
unfoldable pub load : Device → ℕ → Bool → Bool → Option (Device × ℕ)
unfolding bring_in unchain to_front is_cached
load d sec restore fill = do
  (a, i) ←
      (if is_cached d sec
        then some (unchain d (d.map sec), d.map sec)
        else bring_in d sec restore fill)
  some (to_front a i, i)

-- The bytes of one round of a transfer: `size > sectorsize - idx ? sectorsize - idx : size`
abbrev pub chunk : Device → ℕ → ℕ → ℕ
chunk d size idx = if ltb (d.sectorsize - idx) size then d.sectorsize - idx else size

-- The loop of Swap::readv over the vector from the sector of `idx` on.
unfoldable pub read_from : Device → List ℕ → ℕ → ℕ → Option (Device × List ℕ)
unfolding load
read_from d [] size idx = none
read_from d (sec ∷ vec) size idx =
    let len = chunk d size idx in
    let rest = λ (a : Device). read_from a vec (size - len) 0 in
    do
      (a, i) ← load d sec false true
      let m = take len (drop idx (a.slots i).bytes)
      if size == len then some (a, m) else (do (b, more) ← rest a; some (b, m ++ more))

-- Swap::readv
unfoldable pub readv : Device → List ℕ → ℕ → ℕ → Option (Device × List ℕ)
unfolding read_from
readv d vec size idx = read_from d (drop (idx / d.sectorsize) vec) size (idx % d.sectorsize)

-- `memcpy(to + idx, m, len)`
abbrev pub copy_at : List ℕ → ℕ → List ℕ → List ℕ
copy_at to idx m = take idx to ++ (m ++ drop (idx + length m) to)

-- The loop of Swap::writev; a sector that is wholly overwritten is not read first.
unfoldable pub write_from : Device → List ℕ → List ℕ → ℕ → Option Device
unfolding load
write_from d [] m idx = none
write_from d (sec ∷ vec) m idx =
    let size = length m in
    let len = chunk d size idx in
    let rest = λ (a : Device). write_from a vec (drop len m) 0 in
    do
      (a, i) ← load d sec false (not (len == d.sectorsize))
      let b =
          modify_slot a i (λ h. record h { dirty = true; bytes = copy_at h.bytes idx (take len m) })
      if size == len then some b else rest b

-- Swap::writev
unfoldable pub writev : Device → List ℕ → List ℕ → ℕ → Option Device
unfolding write_from
writev d vec m idx = write_from d (drop (idx / d.sectorsize) vec) m (idx % d.sectorsize)

-- The loop of Swap::dreadv: the sectors come from the snapshot, and are in no swap sector then.
unfoldable pub restore_from : Device → List ℕ → ℕ → ℕ → Option (Device × List ℕ)
unfolding load
restore_from d [] size idx = none
restore_from d (sec ∷ vec) size idx =
    let len = chunk d size idx in
    let rest = λ (a : Device). restore_from a vec (size - len) 0 in
    do
      (a, i) ← load d sec true false
      let b = modify_slot a i (λ h. record h { swap = unused })
      let m = take len (drop idx (b.slots i).bytes)
      if size == len then some (b, m) else (do (c, more) ← rest b; some (c, m ++ more))

-- Swap::dreadv
unfoldable pub dreadv : Device → List ℕ → ℕ → ℕ → Option (Device × List ℕ)
unfolding restore_from
dreadv d vec size idx = restore_from d (drop (idx / d.sectorsize) vec) size (idx % d.sectorsize)
