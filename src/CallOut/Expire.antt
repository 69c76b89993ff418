-- ===== src/CallOut/Expire.antt =====
-- CallOut::expire, the part of CallOut::call that picks the next callout to run, and the counts of
-- objects swapped out.
use dgd.Prelude.{
  ℕ, zero, suc, ◌+◌, ◌-◌, ◌*◌, ◌/◌, ◌%◌, Bool, not, ◌&&◌, ◌||◌, Option, none, some, ltb, leb, ◌==◌,
  if◌then◌else◌, update,
}
use dgd.CallOut.Table.{Table, cycbuf_size, swperiod, cindex_mod, uint_mod, pack_time, dequeue}
use dgd.CallOut.Lists.{
  immediate, running, entry, modify, newcallout, freecallout, last_place, reset_timeout,
}
use dgd.CallOut.Clock.{add32, sub32}

infixl 5 ◌>>=◌
abbrev pub ◌>>=◌ {ℓ κ} : {A : Type ℓ} {B : Type κ} → Option A → (A → Option B) → Option B
none >>= f = none
some a >>= f = f a

-- The first callout of the heap moves to the list of callouts to run.
unfoldable pub move_first : Table → Option Table
unfolding dequeue newcallout
move_first s =
    let co = entry s 0 in
    do
      a ← dequeue s 0
      let (b, i) = newcallout a immediate 0
      some (modify b i (λ e. record e { handle = co.handle; oindex = co.oindex }))

-- `while (queuebrk != 0 && cotab[0] is due) { ... }`; none means that the fuel ran out.
unfoldable pub move_due : ℕ → (ℕ → Bool) → Table → Option Table
unfolding move_first
move_due zero due s = none
move_due (suc fuel) due s =
    let next = move_first s >>= move_due fuel due in
    if not (s.queuebrk == 0) && due (entry s 0).time then next else some s

-- The list of the slot of the time stamp is put behind the list of callouts to run.
unfoldable pub splice : Table → Table
unfolding last_place
splice s =
    let c = s.timestamp % cycbuf_size in
    let i = s.cycbuf c in
    if i == 0
    then s
    else (let a = record s { cycbuf = update s.cycbuf c 0 } in
        let first = a.immediate in
        let n = (entry a i).count in
        let b =
          if first == 0
          then record a { immediate = i }
          else (let d = modify a (last_place a first) (λ co. record co { next = i }) in
              let e =
                modify d first
                  (λ co. record co { count = (co.count + (entry d i).count) % cindex_mod }) in
              modify e first (λ co. record co {
                prev = if (entry e i).count == 1 then i else (entry e i).prev;
              })) in
        record b { nzero = (b.nzero + (entry b i).count) % cindex_mod })

-- One round of `while (timestamp < t) { ... }`
unfoldable pub next_second : Table → Option Table
unfolding move_due splice
next_second s =
    let a = record s { timestamp = add32 s.timestamp 1 } in
    do
      b ← move_due (a.queuebrk + 1) (λ time. ltb (time / 65536 % uint_mod) a.timestamp) a
      some (splice b)

-- The whole loop; `rounds` is t - timestamp.
unfoldable pub seconds : ℕ → Table → Option Table
unfolding next_second
seconds zero s = some s
seconds (suc rounds) s = next_second s >>= seconds rounds

-- One round of the swap rates' loop.
unfoldable pub swap_second : Table → Table
swap_second s =
    let n = add32 s.swaptime 1 in
    let a = record s {
      swaptime = n;
      swaprate1 = sub32 s.swaprate1 (s.swapped1 (n % swperiod));
      swapped1 = update s.swapped1 (n % swperiod) 0;
    } in
    let k = n % (5 * swperiod) / 5 in
    if n % 5 == 0
    then record a { swaprate5 = sub32 a.swaprate5 (a.swapped5 k); swapped5 = update a.swapped5 k 0 }
    else a

unfoldable pub swap_seconds : ℕ → Table → Table
unfolding swap_second
swap_seconds zero s = s
swap_seconds (suc rounds) s = swap_seconds rounds (swap_second s)

-- `if (timeout <= timestamp) { ... }`. The search for the next timeout counts in the variable `t`,
-- whose value at the end is the second result.
unfoldable pub renew_timeout : Table → ℕ → Option (Table × ℕ)
unfolding reset_timeout
renew_timeout s t =
    if leb s.timeout s.timestamp
    then (do
      a ← reset_timeout s s.timestamp
      some (a, if s.nshort == s.nzero then t else a.timeout))
    else some (s, t)

-- The guarded part of CallOut::expire, at time `t`, `m`, with the last value of `t`.
unfoldable pub expire_due : Table → ℕ → ℕ → Option (Table × ℕ)
unfolding seconds move_due renew_timeout
expire_due s t m = do
  a ← seconds (t - s.timestamp) s
  b ← move_due (a.queuebrk + 1) (λ time. leb time (pack_time t m)) a
  renew_timeout b t

-- The guard itself: is a callout of the cyclic buffer or of the heap due?
unfoldable pub is_due : Table → ℕ → ℕ → Bool
is_due s t m =
    not (s.timeout == 0) && leb s.timeout t
    || not (s.queuebrk == 0) && leb (entry s 0).time (pack_time t m)

-- CallOut::expire, at the clock's reading.
unfoldable pub expire : ℕ × ℕ → Table → Option Table
unfolding expire_due swap_seconds is_due
expire (now, m) s =
    let t = sub32 now s.timediff in
    do
      (a, u) ← (if is_due s t m then expire_due s t m else some (s, t))
      some (swap_seconds (u - a.swaptime) a)

-- The beginning of CallOut::call: if nothing is running, the callouts that are due are.
unfoldable pub start : ℕ × ℕ → Table → Option Table
unfolding expire
start now s =
    if s.running == 0
    then (do a ← expire now s; some (record a { running = a.immediate; immediate = 0 }))
    else some s

-- One round of the loop of CallOut::call: the handle and object of the next callout to run.
unfoldable pub next_running : Table → Option (Table × Option (ℕ × ℕ))
unfolding freecallout
next_running s = if s.running == 0 then some (s, none) else (do
  a ← freecallout s running s.running s.running 0
  some (a, some ((entry s s.running).handle, (entry s s.running).oindex)))

-- CallOut::swapcount
unfoldable pub swapcount : Table → ℕ → Table
swapcount s count =
    let i = s.swaptime % swperiod in
    let k = s.swaptime % (swperiod * 5) / 5 in
    record s {
      swaprate1 = add32 s.swaprate1 count;
      swaprate5 = add32 s.swaprate5 count;
      swapped1 = update s.swapped1 i (add32 (s.swapped1 i) count);
      swapped5 = update s.swapped5 k (add32 (s.swapped5 k) count);
      cotime = 0;
    }
