-- ===== src/CallOut/Queue.antt =====
-- The heap of delayed callouts as a priority queue: what create and dequeue do to it.
use mathlib.Core.Path.{fun_ext}
use native.Mathlib.Decide.{ℕ_discrete}
use native.Mathlib.Numerals.{add-one}
use dgd.Prelude.{
  ℕ, suc, ◌+◌, ◌-◌, ◌*◌, ◌/◌, ◌%◌, ◌≤◌, ◌<◌, ◌≡◌, ◌⊎◌, true, false, refl, sym, ap, ◌∙◌, none, some,
  arith, ltb, leb, ◌==◌, if◌then◌else◌, update, update_same, update_other, Bool-cases, inl, inr,
}
use dgd.CallOut.Table.{
  CallOut, Table, cindex_mod, uindex_max, pack_time, sift_up, sift_down, free_place, enqueue,
  dequeue,
}
use dgd.CallOut.Heap.{Memory, IsHeap, Hole, Placed, sum, sum-update, sift_up_lem, sift_down_lem}
use dgd.CallOut.Lists.{entry}
use dgd.CallOut.Clock.{create, time_int}

-- The heap of the table is in order, and its sentinel in place.
pub record IsQueue (s : Table) : Type 0 where
  pub ordered : IsHeap s.memory s.queuebrk
  pub sentinel : (s.memory 0).time ≡ 0

-- What a callout is: all that is kept of it while it waits in the heap.
abbrev pub measure : (ℕ → ℕ → ℕ → ℕ) → CallOut → ℕ
measure f co = f co.time co.handle co.oindex

module _ (l : Memory) (n i x : ℕ) (l' : Memory) (k : ℕ) (w : Placed l n i x (l', k)) (v : CallOut)
    (e : v.time ≡ x) where
  fill-IsHeap : IsHeap (update l' k v) n
  fill-IsHeap c p q =
      ground (arith, e, w.hole.edges c p q, w.hole.bridge c p q, w.above, w.below c p q)

  fill-sum : (f : CallOut → ℕ) → sum f (update l' k v) n + f (l i) ≡ sum f l n + f v
  fill-sum f =
      omega (
        arith,
        w.moved.same f n (omega arith),
        sum-update f l' n k v w.hole.inside.0 w.hole.inside.1,
      )

  fill-sentinel : update l' k v 0 ≡ l 0
  fill-sentinel = update_other l' k 0 v (omega (arith, w.hole.inside)) ∙ w.moved.sentinel

Hole-end : (l : Memory) (n : ℕ) → IsHeap l n → Hole l (suc n) (suc n)
Hole-end l n v = record {
  inside = omega arith;
  edges = λ k p q r s. v k p (omega arith);
  bridge = λ k p q r s. absurd (omega arith);
}

Hole-inside : (l : Memory) (n i : ℕ) → 1 ≤ i → i ≤ n → IsHeap l n → Hole l n i
Hole-inside l n i h k v = record {
  inside = (h, k);
  edges = λ c p q r s. v c p q;
  bridge = λ c p q r s. ground (arith, v c p q, v i s k);
}

update-update : (l : Memory) (k : ℕ) (a b : CallOut) → update (update l k a) k b ≡ update l k b
update-update l k a b = fun_ext (λ j. ground arith)

update_self : (l : Memory) (k : ℕ) → update l k (l k) ≡ l
update_self l k = fun_ext (λ j. ground (arith, same j))
  where
    same : (j : ℕ) → k ≡ j → l k ≡ l j
    same j e = ap l e

sum-suc : (f : CallOut → ℕ) (l : Memory) (q n : ℕ) → q ≡ suc n → sum f l q ≡ sum f l n + f (l q)
sum-suc f l q n e = rw e (unfold sum in refl)

-- Where the last callout is to go: into a free place of the heap without it, or, if it is the one to
-- be removed, nowhere.
abbrev Found : Memory → ℕ → ℕ → ℕ → Memory × ℕ → Type 0
Found l q n k r = Placed l n k (l q).time r ⊎ ((k ≡ q) × (r.0 ≡ l) × (r.1 ≡ q))

free_place-last : (l : Memory) (q : ℕ) → 0 < q → 2 * q ≤ cindex_mod → free_place l q q ≡ some (l, q)
unfolding free_place sift_down
free_place-last l q h w =
    let still : ltb (l q).time (l q).time ≡ false = ground arith in
    rw still (elim (Bool-cases (leb q (uindex_max / 2))) [
      | inr far ↦ rw far refl
      | inl near ↦
          let doubled : q * 2 % cindex_mod ≡ q * 2 = ground (arith, near) in
          let leaf : ltb (q * 2) q ≡ false = ground arith in
          rw (near, add-one, sift_down, doubled, leaf) refl
    ])

free_place-inside :
    (l : Memory) (n k : ℕ)
    → 2 * suc n ≤ cindex_mod
    → 1 ≤ k
    → k ≤ n
    → IsHeap l (suc n)
    → (l 0).time ≡ 0
    → (r : Memory × ℕ) × (free_place l (suc n) k ≡ some r) × Placed l n k (l (suc n)).time r
unfolding free_place
free_place-inside l n k w h1 h2 v z =
    let hole = Hole-inside l n k h1 h2 (λ c p q. v c p (omega arith)) in
    elim (Bool-cases (ltb (l (suc n)).time (l k).time)) [
      | inl up ↦ rw up (
          sift_up_lem (k + 1) l n k (l (suc n)).time (omega arith) hole
            (λ c p q r. ground (arith, up, v c p)) z)
      | inr down ↦
          let near : leb k (uindex_max / 2) ≡ true = ground arith in
          rw (down, near)
            (sift_down_lem (suc n + 1) l n k (l (suc n)).time (omega arith) w refl hole
              (λ p. ground (arith, down, v k p)))
    ]

free_place_lem :
    (l : Memory) (q n k : ℕ)
    → q ≡ suc n
    → 2 * q ≤ cindex_mod
    → 1 ≤ k
    → k ≤ q
    → IsHeap l q
    → (l 0).time ≡ 0
    → (r : Memory × ℕ) × (free_place l q k ≡ some r) × Found l q n k r
free_place_lem l q n k e w h1 h2 v z = elim (ℕ_discrete k q) [
  | yes last ↦ ((l, q), rw last (free_place-last l q (omega arith) w), inr (last, refl, refl))
  | no ne ↦
      let (r, run, placed) =
        rw (sym e) at (free_place-inside l n k (omega arith) h1 (omega arith) (rw e at v) z) in
      (r, run, inl placed)
]

unchanged :
    (l m : Memory) (q n : ℕ)
    → q ≡ suc n
    → IsHeap l q
    → m ≡ l
    → IsHeap m n × ((f : CallOut → ℕ) → sum f m n + f (l q) ≡ sum f l q) × (m 0 ≡ l 0)
unchanged l m q n e v same =
    rw same (λ c p r. v c p (omega arith), λ f. sym (sum-suc f l q n e), refl)

filled :
    (l : Memory) (q n k : ℕ) (l' : Memory) (k' : ℕ)
    → q ≡ suc n
    → IsHeap l q
    → Found l q n k (l', k')
    → IsHeap (update l' k' (l' q)) n
      × ((f : CallOut → ℕ) → sum f (update l' k' (l' q)) n + f (l k) ≡ sum f l q)
      × (update l' k' (l' q) 0 ≡ l 0)
filled l q n k l' k' e v (inl w) =
    let kept = w.moved.outside q (omega arith) in
    rw kept (
      fill-IsHeap l n k (l q).time l' k' w (l q) refl,
      λ f. omega (arith, fill-sum l n k (l q).time l' k' w (l q) refl f, sum-suc f l q n e),
      fill-sentinel l n k (l q).time l' k' w (l q) refl,
    )
filled l q n k l' k' e v (inr (last, a, b)) =
    rw last (unchanged l (update l' k' (l' q)) q n e v (rw (a, b) (update_self l q)))

dequeue-some :
    (s : Table) (i : ℕ) (l' : Memory) (k : ℕ)
    → free_place s.memory s.queuebrk (i + 1) ≡ some (l', k)
    → dequeue s i
      ≡ some (record s {
        memory = update l' k (l' s.queuebrk);
        queuebrk = (s.queuebrk + cindex_mod - 1) % cindex_mod;
      })
unfolding dequeue
dequeue-some s i l' k e = rw (dequeue, e) refl

create-some :
    (s : Table) (oindex handle t m q : ℕ) (l' : Memory) (k : ℕ)
    → (s.queuebrk + 1) % cindex_mod ≡ q
    → sift_up (q + 1) s.memory q (pack_time t (if m == time_int then 0 else m)) ≡ some (l', k)
    → create s oindex handle t m none
      ≡ some (record s {
        memory = update l' k (record (l' k) {
          time = pack_time t (if m == time_int then 0 else m);
          handle = handle;
          oindex = oindex;
        });
        queuebrk = q;
      })
unfolding create enqueue
create-some s oindex handle t m q l' k e run =
    let timed = record (l' k) { time = pack_time t (if m == time_int then 0 else m) } in
    rw (create, enqueue, e, run, update_same l' k timed, update-update l' k timed, e) refl

-- The callout at any place of the heap can be taken out; the heap stays in order, and keeps all the
-- others. This needs a heap of at most half as many callouts as cindex has values.
pub dequeue-IsQueue :
    (s : Table) (i : ℕ)
    → IsQueue s
    → i < s.queuebrk
    → 2 * s.queuebrk ≤ cindex_mod
    → (s' : Table) × (dequeue s i ≡ some s')
      × IsQueue s'
      × (s'.queuebrk + 1 ≡ s.queuebrk)
      × ((f : CallOut → ℕ)
          → sum f s'.memory s'.queuebrk + f (entry s i) ≡ sum f s.memory s.queuebrk)
unfolding dequeue
dequeue-IsQueue s i v h w =
    let q = s.queuebrk in
    let n = q - 1 in
    let k = i + 1 in
    let l = s.memory in
    let size : q ≡ suc n = omega arith in
    let ((l', k'), run, found) =
      free_place_lem l q n k size w (omega arith) (omega arith) v.ordered v.sentinel in
    let (heap, same, sentinel) = filled l q n k l' k' size v.ordered found in
    let less : (q + cindex_mod - 1) % cindex_mod ≡ n = omega arith in
    (
      record s { memory = update l' k' (l' q); queuebrk = (q + cindex_mod - 1) % cindex_mod },
      dequeue-some s i l' k' run,
      record {
        ordered = rw less heap;
        sentinel = ap (λ (c : CallOut). c.time) sentinel ∙ v.sentinel;
      },
      omega (arith, less),
      λ f. rw less (same f),
    )

-- A new callout without a list goes into the heap, which stays in order and holds, besides it, what
-- it held before.
pub create-IsQueue :
    (s : Table) (oindex handle t m : ℕ)
    → IsQueue s
    → s.queuebrk + 1 < cindex_mod
    → (s' : Table) × (create s oindex handle t m none ≡ some s')
      × IsQueue s'
      × (s'.queuebrk ≡ s.queuebrk + 1)
      × ((f : ℕ → ℕ → ℕ → ℕ)
          → sum (measure f) s'.memory s'.queuebrk
            ≡ sum (measure f) s.memory s.queuebrk
              + f (pack_time t (if m == time_int then 0 else m)) handle oindex)
unfolding create enqueue
create-IsQueue s oindex handle t m v h =
    let q = s.queuebrk in
    let l = s.memory in
    let time = pack_time t (if m == time_int then 0 else m) in
    let grown : (q + 1) % cindex_mod ≡ suc q = omega arith in
    let ((l', k), run, placed) =
      sift_up_lem (suc q + 1) l (suc q) (suc q) time (omega arith) (Hole-end l q v.ordered)
        (λ c p r e. absurd (omega arith)) v.sentinel in
    let co = record (l' k) { time = time; handle = handle; oindex = oindex } in
    (
      record s { memory = update l' k co; queuebrk = suc q },
      create-some s oindex handle t m (suc q) l' k grown run,
      record {
        ordered = fill-IsHeap l (suc q) (suc q) time l' k placed co refl;
        sentinel =
            ap (λ (c : CallOut). c.time) (fill-sentinel l (suc q) (suc q) time l' k placed co refl)
            ∙ v.sentinel;
      },
      omega arith,
      λ f. omega (
        arith,
        fill-sum l (suc q) (suc q) time l' k placed co refl (measure f),
        sum-suc (measure f) l (suc q) q refl,
      ),
    )
