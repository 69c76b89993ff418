-- ===== src/CallOut/Tests.antt =====
-- Runs of the callout functions, and the theorems at concrete tables.
use dgd.Prelude.{ℕ, ◌+◌, ◌≡◌, refl, inr, some, none, arith, ◌==◌, if◌then◌else◌}
use dgd.CallOut.Table.{CallOut, Table, pack_time, dequeue}
use dgd.CallOut.Heap.{sum}
use dgd.CallOut.Lists.{entry}
use dgd.CallOut.Clock.{blank, init, plan, create, remaining}
use dgd.CallOut.Queue.{IsQueue, measure, create-IsQueue, dequeue-IsQueue}
use dgd.CallOut.Times.{remaining-plan}

abbrev at_time : ℕ → ℕ → CallOut
at_time time handle = record blank { time = time; handle = handle; oindex = 1 }

-- A table with room for 9 callouts, three of them in the heap, at 1000 seconds.
abbrev three : Table
three = record (init 9 0 (λ _. blank)) {
  memory = λ i.
      if i == 1
      then at_time 5 1
      else if i == 2
      then at_time 9 2
      else if i == 3
      then at_time 7 3
      else blank;
  queuebrk = 3;
  timestamp = 1000;
  timeout = 1010;
  cotime = 1000;
}

three-IsQueue : IsQueue three
three-IsQueue = record { ordered = λ k p q. ground arith; sentinel = refl }

create-IsQueue_example :
    (s' : Table) × (create three 4 5 1200 250 none ≡ some s')
    × IsQueue s'
    × (s'.queuebrk ≡ 4)
    × ((f : ℕ → ℕ → ℕ → ℕ)
        → sum (measure f) s'.memory s'.queuebrk
          ≡ sum (measure f) three.memory 3 + f (pack_time 1200 250) 5 4)
create-IsQueue_example = create-IsQueue three 4 5 1200 250 three-IsQueue (omega arith)

dequeue-IsQueue_example :
    (s' : Table) × (dequeue three 0 ≡ some s')
    × IsQueue s'
    × (s'.queuebrk + 1 ≡ 3)
    × ((f : CallOut → ℕ) → sum f s'.memory s'.queuebrk + f (entry three 0) ≡ sum f three.memory 3)
dequeue-IsQueue_example = dequeue-IsQueue three 0 three-IsQueue (omega arith) (omega arith)

remaining-plan_example : remaining (1000, 0) three 1010 250 ≡ (three, 10, 250)
unfolding plan
remaining-plan_example =
    remaining-plan (1000, 0) three three 10 250 1010 250 none (omega arith) (omega arith)
      (omega arith) (omega arith) (inr (omega arith)) refl
