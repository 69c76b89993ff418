-- ===== src/CallOut/Lists.antt =====
-- The linked lists of short-term callouts: CallOut::newcallout, freecallout and rmshort.
use dgd.Prelude.{
  ℕ, zero, suc, ◌+◌, ◌-◌, ◌%◌, Bool, true, false, not, ◌&&◌, ◌||◌, Option, none, some, ltb, ◌==◌,
  if◌then◌else◌, update,
}
use dgd.CallOut.Table.{CallOut, Table, cycbuf_size, cindex_mod, uint_mod}

-- The variable behind a `cindex *list`: one of the lists, by the place that holds its head.
pub data Place : Type 0 where
  immediate running : Place
  slot : ℕ → Place

-- `*list`
unfoldable pub head : Table → Place → ℕ
head s immediate = s.immediate
head s running = s.running
head s (slot i) = s.cycbuf i

-- `*list = i`
unfoldable pub set_head : Table → Place → ℕ → Table
set_head s immediate i = record s { immediate = i }
set_head s running i = record s { running = i }
set_head s (slot k) i = record s { cycbuf = update s.cycbuf k i }

-- `cotab[i]`
abbrev pub entry : Table → ℕ → CallOut
entry s i = s.memory (i + 1)

-- A write to a part of `cotab[i]`.
abbrev pub modify : Table → ℕ → (CallOut → CallOut) → Table
modify s i f = record s { memory = update s.memory (i + 1) (f (entry s i)) }

abbrev pub inc : ℕ → ℕ
inc n = (n + 1) % cindex_mod

abbrev pub dec : ℕ → ℕ
dec n = (n + cindex_mod - 1) % cindex_mod

-- A place from the free list, or else one next to the lists in use.
unfoldable pub take_place : Table → Table × ℕ
take_place s =
    if s.flist == 0
    then (record s { cycbrk = dec s.cycbrk }, dec s.cycbrk)
    else (record s { flist = (entry s s.flist).next }, s.flist)

-- `nshort++; if (t == 0) nzero++;`
unfoldable pub count_in : Table → ℕ → Table
count_in s t = record s { nshort = inc s.nshort; nzero = if t == 0 then inc s.nzero else s.nzero }

-- `--nshort; if (t == 0) --nzero;`
unfoldable pub count_out : Table → ℕ → Table
count_out s t = record s { nshort = dec s.nshort; nzero = if t == 0 then dec s.nzero else s.nzero }

-- The place of the last callout of a list that begins with `cotab[first]`; the source names the
-- field `prev` of a list's first callout `last`.
unfoldable pub last_place : Table → ℕ → ℕ
last_place s first = if (entry s first).count == 1 then first else (entry s first).prev

-- Callout `i` becomes the only one of the list, or its last.
unfoldable pub link : Table → Place → ℕ → ℕ → Table
unfolding head set_head last_place
link s list i t =
    if head s list == 0
    then (let a = modify (set_head s list i) i (λ co. record co { count = 1 }) in
        if not (t == 0) && (a.timeout == 0 || ltb t a.timeout) then record a { timeout = t } else a)
    else (let first = head s list in
        let a = modify s (last_place s first) (λ co. record co { next = i }) in
        let b = modify a first (λ co. record co { count = inc co.count }) in
        modify b first (λ co. record co { prev = i }))

-- CallOut::newcallout, with the index of the callout, whose handle and object the caller sets
unfoldable pub newcallout : Table → Place → ℕ → Table × ℕ
unfolding take_place count_in link
newcallout s list t =
    let (a, i) = take_place s in
    let b = link (count_in a t) list i t in (modify b i (λ co. record co { prev = 0; next = 0 }), i)

-- `while (cycbuf[t & CYCBUF_MASK] == 0) t++;`; none means that the fuel ran out.
unfoldable pub next_slot : ℕ → (ℕ → ℕ) → ℕ → Option ℕ
next_slot zero cycbuf t = none
next_slot (suc fuel) cycbuf t =
    let next = next_slot fuel cycbuf ((t + 1) % uint_mod) in
    if cycbuf (t % cycbuf_size) == 0 then next else some t

-- The time of the first callout in the cyclic buffer, sought from time `t` on. Every slot of the
-- buffer is reached in CYCBUF_SIZE rounds.
unfoldable pub reset_timeout : Table → ℕ → Option Table
unfolding next_slot
reset_timeout s t =
    if s.nshort == s.nzero
    then some (record s { timeout = 0 })
    else elim (next_slot cycbuf_size s.cycbuf t) [
      | none ↦ none
      | some u ↦ some (record s { timeout = u })
    ]

-- The first callout of a list is taken out.
unfoldable pub unlink_first : Table → Place → ℕ → Option Table
unfolding head set_head reset_timeout
unlink_first s list t =
    let first = head s list in
    let co = entry s first in
    if co.count == 1
    then (let a = set_head s list 0 in
        if not (t == 0) && t == a.timeout then reset_timeout a t else some a)
    else (let a =
          modify (set_head s list co.next) co.next (λ n. record n { count = dec co.count }) in
        some (if co.count == 2 then a else modify a co.next (λ n. record n { prev = co.prev })))

-- Callout `i`, which follows `j` in the list, is taken out.
unfoldable pub unlink_next : Table → Place → ℕ → ℕ → Table
unfolding head
unlink_next s list j i =
    let first = head s list in
    let a = modify s first (λ co. record co { count = dec co.count }) in
    if i == (entry a first).prev
    then (let b = modify a j (λ co. record co { prev = 0; next = 0 }) in
        if (entry b first).count == 1 then b else modify b first (λ co. record co { prev = j }))
    else modify a j (λ co. record co { next = (entry a i).next })

-- A free place next to the boundary leaves the free list.
unfoldable pub drop_free : Table → Table
drop_free s =
    let co = entry s s.cycbrk in
    if s.cycbrk == s.flist
    then record s { flist = co.next }
    else (let a = modify s co.prev (λ p. record p { next = co.next }) in
        if co.next == 0 then a else modify a co.next (λ n. record n { prev = co.prev }))

-- `while (++cycbrk != cotabsz && (++l)->handle == 0) { ... }`; the rounds are at most those from
-- the boundary to the end of the table.
unfoldable pub trim : ℕ → Table → Table
unfolding drop_free
trim zero s = s
trim (suc rounds) s =
    let a = record s { cycbrk = inc s.cycbrk } in
    let next = trim rounds (drop_free a) in
    if a.cycbrk == a.cotabsz || not ((entry a a.cycbrk).handle == 0) then a else next

-- The place `i` is marked as unused and given back.
unfoldable pub release : Table → ℕ → Table
unfolding trim
release s i =
    let a = modify s i (λ co. record co { handle = 0 }) in
    if i == a.cycbrk
    then trim (a.cotabsz - a.cycbrk) a
    else (let b = if a.flist == 0 then a else modify a a.flist (λ co. record co { prev = i }) in
        record (modify b i (λ co. record co { next = b.flist })) { flist = i })

-- CallOut::freecallout
unfoldable pub freecallout : Table → Place → ℕ → ℕ → ℕ → Option Table
unfolding count_out unlink_first unlink_next release
freecallout s list j i t =
    let a = count_out s t in
    elim (if i == j then unlink_first a list t else some (unlink_next a list j i)) [
      | none ↦ none
      | some b ↦ some (release b i)
    ]

-- Does `cotab[k]` hold the callout?
abbrev pub is_callout : Table → ℕ → ℕ → ℕ → Bool
is_callout s k oindex handle = (entry s k).oindex == oindex && (entry s k).handle == handle

-- `do { ... } while ((k = l[j].r.next) != 0);` from the callout `k` behind `j`: the place of the
-- callout and of the one before it, if the list holds it. The outer none means that the fuel, which
-- bounds the list's length, ran out.
unfoldable pub find_next : ℕ → Table → ℕ → ℕ → ℕ → ℕ → Option (Option (ℕ × ℕ))
find_next zero s j k oindex handle = none
find_next (suc fuel) s j k oindex handle =
    let next = find_next fuel s k (entry s k).next oindex handle in
    if is_callout s k oindex handle
    then some (some (j, k))
    else if (entry s k).next == 0
    then some none
    else next

-- `freecallout(...); return TRUE;`
unfoldable pub free_found : Table → Place → ℕ → ℕ → ℕ → Option (Table × Bool)
unfolding freecallout
free_found s list j i t = elim (freecallout s list j i t) [ none ↦ none | some a ↦ some (a, true) ]

-- CallOut::rmshort, with the value that it returns; none means that a loop ran out of fuel.
unfoldable pub rmshort : Table → Place → ℕ → ℕ → ℕ → Option (Table × Bool)
unfolding head find_next free_found
rmshort s list oindex handle t =
    let k = head s list in
    if k == 0
    then some (s, false)
    else if is_callout s k oindex handle
    then free_found s list k k t
    else if (entry s k).count == 1
    then some (s, false)
    else elim (find_next s.cotabsz s k (entry s k).next oindex handle) [
      | none ↦ none
      | some found ↦ elim found [ none ↦ some (s, false) | some (j, i) ↦ free_found s list j i t ]
    ]
