-- ===== src/CallOut/Table.antt =====
-- The data of src/call_out.cpp, and class CallOut's operations on the heap.
use dgd.Prelude.{
  ℕ, zero, suc, ◌+◌, ◌-◌, ◌*◌, ◌/◌, ◌%◌, Option, none, some, ltb, leb, if◌then◌else◌, update,
}

abbrev pub cycbuf_size : ℕ
cycbuf_size = 128

abbrev pub swperiod : ℕ
swperiod = 60

abbrev pub cindex_mod : ℕ
cindex_mod = 65536

abbrev pub uindex_max : ℕ
uindex_max = 65535

abbrev pub uint_mod : ℕ
uint_mod = 4294967296

-- A callout. The source overlays `time` (in the heap) with `count`, `prev` and `next` (in a list):
-- an entry is read as what it was last written as.
pub record CallOut : Type 0 where
  pub time : ℕ
  pub count : ℕ
  pub prev : ℕ
  pub next : ℕ
  pub handle : ℕ
  pub oindex : ℕ

-- The static variables. `memory` is the allocated array, whose element 0 is the heap's sentinel:
-- the source's cotab[i] is memory (i + 1), and its l[i], in the heap functions, is memory i.
pub record Table : Type 0 where
  pub memory : ℕ → CallOut
  pub cotabsz : ℕ
  pub queuebrk : ℕ
  pub cycbrk : ℕ
  pub flist : ℕ
  pub nzero : ℕ
  pub nshort : ℕ
  pub running : ℕ
  pub immediate : ℕ
  pub cycbuf : ℕ → ℕ
  pub timestamp : ℕ
  pub timeout : ℕ
  pub timediff : ℕ
  pub cotime : ℕ
  pub comtime : ℕ
  pub swaptime : ℕ
  pub swapped1 : ℕ → ℕ
  pub swapped5 : ℕ → ℕ
  pub swaprate1 : ℕ
  pub swaprate5 : ℕ

-- `((Time) t << 16) | m`
abbrev pub pack_time : ℕ → ℕ → ℕ
pack_time t m = t * 65536 + m

-- `for (j = i >> 1; l[j].time > time; i = j, j >>= 1) l[i] = l[j];` with the final `i`;
-- none means that the fuel ran out.
unfoldable pub sift_up : ℕ → (ℕ → CallOut) → ℕ → ℕ → Option ((ℕ → CallOut) × ℕ)
sift_up zero l i time = none
sift_up (suc fuel) l i time =
    let next = sift_up fuel (update l i (l (i / 2))) (i / 2) time in
    if ltb time (l (i / 2)).time then next else some (l, i)

-- The child that the downward loop compares with: `if (l[j].time > l[j + 1].time) j++;`
unfoldable pub child : (ℕ → CallOut) → ℕ → ℕ
child l j = if ltb (l (j + 1)).time (l j).time then j + 1 else j

-- `for (; j < queuebrk; i = j, j <<= 1) { ... if (t <= l[j].time) break; l[i] = l[j]; }`
unfoldable pub sift_down : ℕ → (ℕ → CallOut) → ℕ → ℕ → ℕ → ℕ → Option ((ℕ → CallOut) × ℕ)
sift_down zero l queuebrk i j t = none
sift_down (suc fuel) l queuebrk i j t =
    let m = child l j in
    let next = sift_down fuel (update l i (l m)) queuebrk m (m * 2 % cindex_mod) t in
    if ltb j queuebrk then (if leb t (l m).time then some (l, i) else next) else some (l, i)

-- CallOut::enqueue, which returns the index of the new entry in `memory`. Its handle and object
-- are set by the caller.
unfoldable pub enqueue : Table → ℕ → ℕ → Option (Table × ℕ)
unfolding sift_up
enqueue s t m =
    let i = (s.queuebrk + 1) % cindex_mod in
    let time = pack_time t m in
    elim (sift_up (i + 1) s.memory i time) [
      | none ↦ none
      | some (l, k) ↦
          some (record s { memory = update l k (record (l k) { time = time }); queuebrk = i }, k)
    ]

-- The branches of CallOut::dequeue: the free place `k` of the heap moves to where the last callout
-- belongs. The source's comparison with UINDEX_MAX keeps `k << 1` within a cindex.
unfoldable pub free_place : (ℕ → CallOut) → ℕ → ℕ → Option ((ℕ → CallOut) × ℕ)
unfolding sift_up sift_down child
free_place l q k =
    let t = (l q).time in
    if ltb t (l k).time
    then sift_up (k + 1) l k t
    else if leb k (uindex_max / 2)
    then sift_down (q + 1) l q k (k * 2 % cindex_mod) t
    else some (l, k)

-- CallOut::dequeue; `i` indexes cotab.
unfoldable pub dequeue : Table → ℕ → Option Table
unfolding free_place
dequeue s i = elim (free_place s.memory s.queuebrk (i + 1)) [
  | none ↦ none
  | some (l, k) ↦ some (record s {
    memory = update l k (l s.queuebrk);
    queuebrk = (s.queuebrk + cindex_mod - 1) % cindex_mod;
  })
]
