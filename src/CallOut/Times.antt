-- ===== src/CallOut/Times.antt =====
-- What class CallOut promises about times.
use dgd.Prelude.{
  ℕ, ◌+◌, ◌-◌, ◌%◌, ◌≤◌, ◌<◌, ◌≡◌, ◌≢◌, ◌⊎◌, ◌↔◌, refl, false, Option, some, arith, leb, ◌==◌,
  Bool-cases, inl, inr,
}
use dgd.CallOut.Table.{Table, cycbuf_size, uint_mod}
use dgd.CallOut.Lists.{Place, slot}
use dgd.CallOut.Clock.{
  add32, sub32, time_int, adjust, planned, too_long, plan, cotime, time_left, remaining,
}

-- Unless the clock is about to wrap around, the time stamp never goes back, the time lies at most 60
-- seconds after it, and it does not reach a timeout that was still ahead of it.
adjust_bounds :
    (s : Table) (t m : ℕ)
    → t + 60 < uint_mod
    → s.timestamp + 60 < uint_mod
    → let r = adjust s t m in
      (s.timestamp ≤ r.0)
      × (r.0 ≤ r.1)
      × (r.1 ≤ r.0 + 60)
      × ((s.timeout ≤ s.timestamp) ⊎ (r.0 < s.timeout))
unfolding adjust
adjust_bounds s t m h k = ground arith

-- A delay is refused exactly if the time of the callout would not fit in 32 bits with room for one
-- more second.
plan-too_long :
    (s : Table) (delay mdelay time mtime : ℕ)
    → delay < uint_mod
    → (plan s delay mdelay time mtime ≡ too_long s) ↔ (uint_mod ≤ sub32 time s.timediff + delay + 1)
unfolding plan
plan-too_long s delay mdelay time mtime h = (λ e. ground arith, λ e. ground arith)

-- A callout that goes into the cyclic buffer goes where del looks for it: it has no milliseconds,
-- and its time is within CYCBUF_SIZE seconds after the time stamp.
plan-slot :
    (s a : Table) (delay mdelay time mtime t m c : ℕ)
    → 0 < delay
    → delay < uint_mod
    → s.timestamp ≤ sub32 time s.timediff
    → s.timestamp + cycbuf_size < uint_mod
    → plan s delay mdelay time mtime ≡ planned a t m (some (slot c))
    → (m ≡ time_int)
      × (c ≡ t % cycbuf_size)
      × (a.timestamp < t)
      × (t < add32 a.timestamp cycbuf_size)
unfolding plan
plan-slot s a delay mdelay time mtime t m c h1 h2 h3 h4 e = ground arith

time_left_lem :
    (u m time mtime delay mdelay : ℕ)
    → ((m ≡ time_int) × (mdelay ≡ m) × (u ≡ time + delay) × (0 < delay))
      ⊎ (((m ≡ mtime + mdelay) × (m < 1000) × (u ≡ time + delay) × (0 < delay + mdelay))
          ⊎ ((m + 1000 ≡ mtime + mdelay)
              × (mtime < 1000)
              × (mdelay < 1000)
              × (u ≡ time + delay + 1)))
    → time_left u m time mtime ≡ (delay, mdelay)
unfolding time_left
time_left_lem u m time mtime delay mdelay (inl h) = ground arith
time_left_lem u m time mtime delay mdelay (inr (inl h)) = ground arith
time_left_lem u m time mtime delay mdelay (inr (inr h)) = ground arith

remaining-cached :
    (now : ℕ × ℕ) (s : Table) (t m delay mdelay : ℕ)
    → s.cotime ≢ 0
    → 0 < t
    → time_left (add32 t s.timediff) m s.cotime s.comtime ≡ (delay, mdelay)
    → remaining now s t m ≡ (s, delay, mdelay)
unfolding remaining cotime
remaining-cached now s t m delay mdelay h k e =
    let cached : (s.cotime == 0) ≡ false = ground arith in
    let there : (t == 0) ≡ false = ground arith in rw (cached, there, e) refl

-- The times that plan may choose, without wrap-around.
abbrev PlannedAs : Table → ℕ → ℕ → ℕ → ℕ → Type 0
PlannedAs s delay mdelay t m =
    ((mdelay ≡ time_int) × (m ≡ time_int) × (t + s.timediff ≡ s.cotime + delay))
    ⊎ (((mdelay ≢ time_int)
          × (m ≡ s.comtime + mdelay)
          × (m < 1000)
          × (t + s.timediff ≡ s.cotime + delay))
        ⊎ ((mdelay ≢ time_int)
            × (m + 1000 ≡ s.comtime + mdelay)
            × (t + s.timediff ≡ s.cotime + delay + 1)))

plan_times :
    (s a : Table) (delay mdelay t m : ℕ) (list : Option Place)
    → s.cotime + delay + 1 < uint_mod
    → s.timediff ≤ s.cotime
    → plan s delay mdelay s.cotime s.comtime ≡ planned a t m list
    → (a ≡ s) × PlannedAs s delay mdelay t m
unfolding plan
plan_times s a delay mdelay t m list h k e =
    let start : sub32 s.cotime s.timediff ≡ s.cotime - s.timediff = omega arith in
    elim (Bool-cases (mdelay == time_int)) [
      | inl whole ↦ ground arith
      | inr parts ↦ elim (Bool-cases (leb 1000 (s.comtime + mdelay))) [
        | inl carry ↦ ground arith
        | inr same ↦ ground arith
      ]
    ]

-- Right after a callout was planned, its remaining delay is the delay that was asked for.
pub remaining-plan :
    (now : ℕ × ℕ) (s a : Table) (delay mdelay t m : ℕ) (list : Option Place)
    → s.cotime ≢ 0
    → s.comtime < 1000
    → s.cotime + delay + 1 < uint_mod
    → s.timediff < s.cotime
    → ((mdelay ≡ time_int) × (0 < delay)) ⊎ ((mdelay < 1000) × (0 < delay + mdelay))
    → plan s delay mdelay s.cotime s.comtime ≡ planned a t m list
    → remaining now a t m ≡ (s, delay, mdelay)
remaining-plan now s a delay mdelay t m list h1 h2 h3 h4 h6 e =
    let (same, times) = plan_times s a delay mdelay t m list h3 (omega arith) e in
    rw same (
      remaining-cached now s t m delay mdelay h1 (later times)
        (time_left_lem _ m s.cotime s.comtime delay mdelay (kinds times)))
  where
    later : PlannedAs s delay mdelay t m → 0 < t
    later (inl p) = omega arith
    later (inr (inl p)) = omega arith
    later (inr (inr p)) = omega arith

    kinds :
        PlannedAs s delay mdelay t m
        → ((m ≡ time_int) × (mdelay ≡ m) × (add32 t s.timediff ≡ s.cotime + delay) × (0 < delay))
          ⊎ (((m ≡ s.comtime + mdelay)
                × (m < 1000)
                × (add32 t s.timediff ≡ s.cotime + delay)
                × (0 < delay + mdelay))
              ⊎ ((m + 1000 ≡ s.comtime + mdelay)
                  × (s.comtime < 1000)
                  × (mdelay < 1000)
                  × (add32 t s.timediff ≡ s.cotime + delay + 1)))
    kinds (inl p) = inl (omega arith)
    kinds (inr (inl p)) = inr (inl (omega arith))
    kinds (inr (inr p)) = inr (inr (omega arith))
