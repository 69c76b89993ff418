-- ===== src/CallOut/Clock.antt =====
-- The time as callouts see it, and what callers of class CallOut use: init, cotime, check, create,
-- remaining, del, info and delay. The clock P_mtime is an argument, its reading in seconds and
-- milliseconds.
use dgd.Prelude.{
  ℕ, zero, suc, ◌+◌, ◌-◌, ◌/◌, ◌%◌, Bool, true, false, not, ◌&&◌, ◌||◌, Option, none, some, ltb,
  leb, ◌==◌, if◌then◌else◌, update,
}
use dgd.CallOut.Table.{CallOut, Table, cycbuf_size, uint_mod, pack_time, enqueue, dequeue}
use dgd.CallOut.Lists.{Place, immediate, running, slot, entry, modify, newcallout, rmshort}

abbrev pub time_int : ℕ
time_int = 2000

-- Uint addition and subtraction
abbrev pub add32 : ℕ → ℕ → ℕ
add32 a b = (a + b) % uint_mod

abbrev pub sub32 : ℕ → ℕ → ℕ
sub32 a b = (a + uint_mod - b) % uint_mod

abbrev pub blank : CallOut
blank = record { time = 0; count = 0; prev = 0; next = 0; handle = 0; oindex = 0 }

-- CallOut::init, at time `now`. The table is allocated without being cleared, but for the sentinel,
-- so that its contents are an argument.
abbrev pub init : ℕ → ℕ → (ℕ → CallOut) → Table
init max now junk = record {
  memory = update junk 0 (record (junk 0) { time = 0 });
  cotabsz = max;
  queuebrk = 0;
  cycbrk = max;
  flist = 0;
  nzero = 0;
  nshort = 0;
  running = 0;
  immediate = 0;
  cycbuf = λ _. 0;
  timestamp = 0;
  timeout = 0;
  timediff = 0;
  cotime = 0;
  comtime = 0;
  swaptime = now;
  swapped1 = λ _. 0;
  swapped5 = λ _. 0;
  swaprate1 = 0;
  swaprate5 = 0;
}

-- `if (running == 0) { ... }`: the time stamp follows the clock up to the next second with callouts.
unfoldable pub advance : Table → ℕ → ℕ
advance s t =
    if not (s.running == 0)
    then s.timestamp
    else if s.timeout == 0 || ltb t s.timeout
    then t
    else if ltb s.timestamp s.timeout
    then s.timeout - 1
    else s.timestamp

-- The branches of CallOut::cotime on the reading `t`, `m`: the new time stamp, and the time.
unfoldable pub adjust : Table → ℕ → ℕ → ℕ × ℕ × ℕ
unfolding advance
adjust s t m =
    if ltb t s.timestamp
    then (s.timestamp, s.timestamp, 0)
    else if ltb s.timestamp t
    then (let stamp = advance s t in
        if ltb (add32 stamp 60) t then (stamp, add32 stamp 60, 0) else (stamp, t, m))
    else (s.timestamp, t, m)

-- CallOut::cotime: the time in seconds, and in milliseconds.
unfoldable pub cotime : ℕ × ℕ → Table → Table × ℕ × ℕ
unfolding adjust
cotime (now, mnow) s =
    if not (s.cotime == 0)
    then (s, s.cotime, s.comtime)
    else (let (stamp, t, m) = adjust s (sub32 now s.timediff) mnow in
        let u = add32 t s.timediff in
        (record s { timestamp = stamp; comtime = m; cotime = u }, u, m))

-- What CallOut::check finds: callouts are disabled, an error, or the table with the time and the
-- list for the new callout; the list is none for the heap.
pub data Checked : Type 0 where
  disabled too_many : Checked
  too_long : Table → Checked
  planned : Table → ℕ → ℕ → Option Place → Checked

-- The part of CallOut::check for a delayed callout, at the time `time`, `mtime` of cotime.
unfoldable pub plan : Table → ℕ → ℕ → ℕ → ℕ → Checked
plan s delay mdelay time mtime =
    let t0 = sub32 time s.timediff in
    if leb (add32 (add32 t0 delay) 1) t0
    then too_long s
    else (let t1 = add32 t0 delay in
        if mdelay == time_int
        then planned s t1 time_int (
            if ltb t1 (add32 s.timestamp cycbuf_size) then some (slot (t1 % cycbuf_size)) else none)
        else if leb 1000 (mtime + mdelay)
        then planned s (add32 t1 1) (mtime + mdelay - 1000) none
        else planned s t1 (mtime + mdelay) none)

-- CallOut::check: `n` is the number of callouts that are not yet in the table.
unfoldable pub check : ℕ × ℕ → Table → ℕ → ℕ → ℕ → Checked
unfolding cotime plan
check now s n delay mdelay =
    if s.cotabsz == 0
    then disabled
    else if s.queuebrk + n == s.cycbrk || s.cycbrk == n + 1
    then too_many
    else if delay == 0 && (mdelay == 0 || mdelay == time_int)
    then planned (if s.nshort == 0 && s.queuebrk == 0 && n == 0 then (cotime now s).0 else s) 0
        time_int (some immediate)
    else (let (a, time, mtime) = cotime now s in plan a delay mdelay time mtime)

-- CallOut::create
unfoldable pub create : Table → ℕ → ℕ → ℕ → ℕ → Option Place → Option Table
unfolding newcallout enqueue
create s oindex handle t m (some list) =
    let (a, i) = newcallout s list t in
    some (modify a i (λ co. record co { handle = handle; oindex = oindex }))
create s oindex handle t m none = elim (enqueue s t (if m == time_int then 0 else m)) [
  | none ↦ none
  | some (a, k) ↦ some (record a {
    memory = update a.memory k (record (a.memory k) { handle = handle; oindex = oindex });
  })
]

-- The branches of CallOut::remaining for a callout at `u`, `m`.
unfoldable pub time_left : ℕ → ℕ → ℕ → ℕ → ℕ × ℕ
time_left u m time mtime =
    if m == time_int
    then (if ltb time u then (u - time, m) else (0, m))
    else if u == time && ltb mtime m
    then (0, m - mtime)
    else if ltb time u
    then (if ltb m mtime then (u - 1 - time, m + 1000 - mtime) else (u - time, m - mtime))
    else (0, time_int)

-- CallOut::remaining: the seconds that are left, and the milliseconds.
unfoldable pub remaining : ℕ × ℕ → Table → ℕ → ℕ → Table × ℕ × ℕ
unfolding cotime time_left
remaining now s t m =
    let (a, time, mtime) = cotime now s in
    if t == 0
    then (a, 0, m)
    else (let (left, m') = time_left (add32 t a.timediff) m time mtime in (a, left, m'))

-- The search for a callout in the heap, from cotab[i] on; none means that it is not there, where the
-- source stops with a fatal error or runs on.
unfoldable pub find_queue : ℕ → Table → ℕ → ℕ → ℕ → Option ℕ
find_queue zero s i oindex handle = none
find_queue (suc n) s i oindex handle =
    let next = find_queue n s (i + 1) oindex handle in
    if (entry s i).oindex == oindex && (entry s i).handle == handle then some i else next

unfoldable pub del_queue : Table → ℕ → ℕ → Option Table
unfolding find_queue dequeue
del_queue s oindex handle = elim (find_queue s.queuebrk s 0 oindex handle) [
  | none ↦ none
  | some i ↦ dequeue s i
]

-- One list after the other: what is left to do if rmshort returns FALSE.
abbrev pub or_else : Option (Table × Bool) → (Table → Option Table) → Option Table
or_else none rest = none
or_else (some (s, found)) rest = elim found [ true ↦ some s | false ↦ rest s ]

-- The part of CallOut::del for a callout that is not in the cyclic buffer.
unfoldable pub del_other : Table → ℕ → ℕ → ℕ → Option Table
unfolding rmshort del_queue
del_other s oindex handle t =
    if leb t s.timestamp
    then or_else (rmshort s immediate oindex handle 0)
        (λ a. or_else (rmshort a running oindex handle 0) (λ b. del_queue b oindex handle))
    else del_queue s oindex handle

-- CallOut::del
unfoldable pub del : Table → ℕ → ℕ → ℕ → ℕ → Option Table
unfolding rmshort del_other
del s oindex handle t m =
    or_else
      (if m == time_int && ltb s.timestamp t && ltb t (add32 s.timestamp cycbuf_size)
        then rmshort s (slot (t % cycbuf_size)) oindex handle t
        else some (s, false))
      (λ a. del_other a oindex handle t)

-- CallOut::info
unfoldable pub info : Table → ℕ × ℕ
info s = (s.nshort, s.queuebrk)

-- `if (timeout != 0 && ...) { rtime = timeout; rmtime = 0; }`
unfoldable pub buffer_time : Table → ℕ → ℕ → ℕ × ℕ
buffer_time s r rm =
    if not (s.timeout == 0) && (r == 0 || leb s.timeout r) then (s.timeout, 0) else (r, rm)

-- `if (queuebrk != 0 && ...) { rtime = cotab[0].time >> 16; rmtime = cotab[0].time; }`
unfoldable pub queue_time : Table → ℕ → ℕ → ℕ × ℕ
queue_time s r rm =
    let time = (entry s 0).time in
    if not (s.queuebrk == 0) && (r == 0 || leb time (pack_time r rm))
    then (time / 65536 % uint_mod, time % 65536)
    else (r, rm)

-- The first time among `rtime`, `rmtime` (0 for none), the cyclic buffer and the heap.
unfoldable pub first_time : Table → ℕ → ℕ → ℕ × ℕ
unfolding buffer_time queue_time
first_time s rtime rmtime =
    let given : ℕ = if rtime == 0 then rtime else sub32 rtime s.timediff in
    let (r1, m1) = buffer_time s given rmtime in
    let (r2, m2) = queue_time s r1 m1 in (if r2 == 0 then r2 else add32 r2 s.timediff, m2)

-- CallOut::delay: the seconds and milliseconds until the next timeout; 0xffff milliseconds stand
-- for no timeout.
unfoldable pub delay : ℕ × ℕ → Table → ℕ → ℕ → Table × ℕ × ℕ
unfolding first_time cotime
delay now s rtime rmtime =
    if not (s.nzero == 0)
    then (s, 0, 0)
    else if rtime == 0 && s.timeout == 0 && s.queuebrk == 0
    then (s, 0, 65535)
    else (let (r, rm) = first_time s rtime rmtime in
        let (a, t, m) = cotime now s in
        let b = record a { cotime = 0 } in
        if ltb r t || r == t && leb rm m
        then (b, 0, 0)
        else if ltb rm m
        then (b, r - (t + 1), rm + 1000 - m)
        else (b, r - t, rm - m))
