-- ===== src/CallOut/Heap.antt =====
-- The heap order, and the loops that move a free place through the heap.
use dgd.Prelude.{
  ℕ, zero, suc, ◌+◌, ◌*◌, ◌/◌, ◌%◌, ◌≤◌, ◌<◌, ◌≡◌, ◌≢◌, ◌⊎◌, refl, ap, ◌∙◌, some, arith, ltb, leb,
  update, update_other, Bool-cases, inl, inr,
}
use dgd.CallOut.Table.{CallOut, cindex_mod, sift_up, sift_down, child}

abbrev pub Memory : Type 0
Memory = ℕ → CallOut

-- No callout in the heap of `n` elements comes before the one above it.
abbrev pub IsHeap : Memory → ℕ → Type 0
IsHeap l n = (k : ℕ) → 2 ≤ k → k ≤ n → (l (k / 2)).time ≤ (l k).time

-- What a measure `f` of callouts adds up to over the heap: for all `f`, the bag of its elements.
unfoldable pub sum : (CallOut → ℕ) → Memory → ℕ → ℕ
sum f l zero = 0
sum f l (suc n) = sum f l n + f (l (suc n))

sum-update_out :
    (f : CallOut → ℕ) (l : Memory) (n i : ℕ) (v : CallOut)
    → n < i
    → sum f (update l i v) n ≡ sum f l n
unfolding sum
sum-update_out f l zero i v h = refl
sum-update_out f l (suc n) i v h =
    rw (sum-update_out f l n i v (omega arith), update_other l i (suc n) v (omega arith))

pub sum-update :
    (f : CallOut → ℕ) (l : Memory) (n i : ℕ) (v : CallOut)
    → 1 ≤ i
    → i ≤ n
    → sum f (update l i v) n + f (l i) ≡ sum f l n + f v
unfolding sum
sum-update f l zero i v h k = absurd (omega arith)
sum-update f l (suc n) i v h k = ground (arith, sum-update f l n i v h, sum-update_out f l n i v)

-- The place `i` is free, in a heap that is in order elsewhere.
pub record Hole (l : Memory) (n i : ℕ) : Type 0 where
  pub inside : (1 ≤ i) × (i ≤ n)
  pub edges : (k : ℕ) → 2 ≤ k → k ≤ n → k ≢ i → k / 2 ≢ i → (l (k / 2)).time ≤ (l k).time
  pub bridge : (k : ℕ) → 2 ≤ k → k ≤ n → k / 2 ≡ i → 2 ≤ i → (l (i / 2)).time ≤ (l k).time

-- A callout of time `x` may stand in the free place, for what is below it, and for what is above.
abbrev pub FitsBelow : Memory → ℕ → ℕ → ℕ → Type 0
FitsBelow l n i x = (k : ℕ) → 2 ≤ k → k ≤ n → k / 2 ≡ i → x ≤ (l k).time

abbrev pub FitsAbove : Memory → ℕ → ℕ → Type 0
FitsAbove l i x = 2 ≤ i → (l (i / 2)).time ≤ x

-- From `l` with the free place `i` to `l'` with the free place `i'`: the same callouts, moved.
pub record Moved (l : Memory) (n i : ℕ) (l' : Memory) (i' : ℕ) : Type 0 where
  pub same : (f : CallOut → ℕ) (m : ℕ) → n ≤ m → sum f l' m + f (l i) ≡ sum f l m + f (l' i')
  pub outside : (k : ℕ) → n < k → l' k ≡ l k
  pub sentinel : l' 0 ≡ l 0

Moved-here : (l : Memory) (n i : ℕ) → Moved l n i l i
Moved-here l n i = record { same = λ f m h. refl; outside = λ k h. refl; sentinel = refl }

Moved-step :
    (l : Memory) (n i j : ℕ) (l' : Memory) (i' : ℕ)
    → 1 ≤ i
    → i ≤ n
    → i ≢ j
    → Moved (update l i (l j)) n j l' i'
    → Moved l n i l' i'
Moved-step l n i j l' i' h k ne v = record {
  same = λ f m e.
      let kept = rw (update_other l i j (l j) ne) at (v.same f m e) in
      omega (arith, kept, sum-update f l m i (l j) h (omega arith));
  outside = λ a e. v.outside a e ∙ update_other l i a (l j) (omega arith);
  sentinel = v.sentinel ∙ update_other l i 0 (l j) (omega arith);
}

Hole-up :
    (l : Memory) (n i x : ℕ)
    → Hole l n i
    → FitsBelow l n i x
    → 2 ≤ i
    → x < (l (i / 2)).time
    → Hole (update l i (l (i / 2))) n (i / 2) × FitsBelow (update l i (l (i / 2))) n (i / 2) x
Hole-up l n i x v b h lt =
    let j = i / 2 in
    (
      record {
        inside = omega (arith, v.inside);
        edges = λ k p q r s. ground (arith, v.edges k p q, v.bridge k p q);
        bridge = λ k p q r s. ground (arith, v.edges k p q, v.edges j s);
      },
      λ k p q r. ground (arith, v.edges k p q),
    )

Hole-down :
    (l : Memory) (n i m x : ℕ)
    → Hole l n i
    → FitsAbove l i x
    → 2 ≤ m
    → m ≤ n
    → m / 2 ≡ i
    → ((k : ℕ) → 2 ≤ k → k ≤ n → k / 2 ≡ i → (l m).time ≤ (l k).time)
    → (l m).time < x
    → Hole (update l i (l m)) n m × FitsAbove (update l i (l m)) m x
Hole-down l n i m x v a h1 h2 h3 least lt = (
  record {
    inside = omega arith;
    edges = λ k p q r s. ground (arith, v.edges k p q, v.bridge m h1 h2 h3, least k p q);
    bridge = λ k p q r s. ground (arith, v.edges k p q);
  },
  λ p. ground arith,
)

-- What a loop leaves: a free place in which a callout of time `x` restores the order.
pub record Placed (l : Memory) (n i x : ℕ) (r : Memory × ℕ) : Type 0 where
  pub hole : Hole r.0 n r.1
  pub above : FitsAbove r.0 r.1 x
  pub below : FitsBelow r.0 n r.1 x
  pub moved : Moved l n i r.0 r.1

Placed-step :
    (l : Memory) (n i j x : ℕ) (r : Memory × ℕ)
    → 1 ≤ i
    → i ≤ n
    → i ≢ j
    → Placed (update l i (l j)) n j x r
    → Placed l n i x r
Placed-step l n i j x r h k ne w = record {
  hole = w.hole;
  above = w.above;
  below = w.below;
  moved = Moved-step l n i j r.0 r.1 h k ne w.moved;
}

-- In the topmost place, the place above is the sentinel's.
one_half : (i : ℕ) → 1 ≤ i → i < 2 → i / 2 ≡ 0
one_half i h k = omega arith

pub sift_up_lem :
    (fuel : ℕ) (l : Memory) (n i x : ℕ)
    → i < fuel
    → Hole l n i
    → FitsBelow l n i x
    → (l 0).time ≡ 0
    → (r : Memory × ℕ) × (sift_up fuel l i x ≡ some r) × Placed l n i x r
unfolding sift_up
sift_up_lem zero l n i x h v b z = absurd (omega arith)
sift_up_lem (suc fuel) l n i x h v b z = elim (Bool-cases (ltb x (l (i / 2)).time)) [
  | inl more ↦
      let h2 : 2 ≤ i = ground (arith, v.inside, z, more, one_half i) in
      let (v', b') = Hole-up l n i x v b h2 (ground (arith, more)) in
      let z' : (update l i (l (i / 2)) 0).time ≡ 0 =
        rw (update_other l i 0 (l (i / 2)) (omega arith)) z in
      let (r, e, w) =
        sift_up_lem fuel (update l i (l (i / 2))) n (i / 2) x (omega arith) v' b' z' in
      (r, rw more e, Placed-step l n i (i / 2) x r v.inside.0 v.inside.1 (omega arith) w)
  | inr done ↦ (
    (l, i),
    rw done refl,
    record { hole = v; above = λ p. ground (arith, done); below = b; moved = Moved-here l n i },
  )
]

halves : (k i : ℕ) → k / 2 ≡ i → (k ≡ i * 2) ⊎ (k ≡ i * 2 + 1)
halves k i e = grind arith

-- Of the callouts below `i`, the one that the downward loop picks has the least time; where it is
-- not the last callout itself, which is about to be moved, it is in the heap.
module _ (l : Memory) (q i : ℕ) (h : 1 ≤ i) (inside : i * 2 < q) where
  child-half : child l (i * 2) / 2 ≡ i
  unfolding child
  child-half = ground arith

  child-bounds : (2 ≤ child l (i * 2)) × (child l (i * 2) ≤ q)
  unfolding child
  child-bounds = ground arith

  child-least : (k : ℕ) → k / 2 ≡ i → (l (child l (i * 2))).time ≤ (l k).time
  unfolding child
  child-least k e = elim (halves k i e) [
    | inl e ↦ rw e (ground arith)
    | inr e ↦ rw e (ground arith)
  ]

pub sift_down_lem :
    (fuel : ℕ) (l : Memory) (n i x : ℕ)
    → n < fuel + i
    → 2 * suc n ≤ cindex_mod
    → (l (suc n)).time ≡ x
    → Hole l n i
    → FitsAbove l i x
    → (r : Memory × ℕ) × (sift_down fuel l (suc n) i (i * 2 % cindex_mod) x ≡ some r)
      × Placed l n i x r
unfolding sift_down
sift_down_lem zero l n i x h w e v a = absurd (omega (arith, v.inside))
sift_down_lem (suc fuel) l n i x h w e v a = rw (doubled) (elim (Bool-cases (ltb (i * 2) (suc n))) [
  | inr leaf ↦ (
    (l, i),
    rw leaf refl,
    record {
      hole = v;
      above = a;
      below = λ k p q r. absurd (ground (arith, leaf));
      moved = Moved-here l n i;
    },
  )
  | inl inner ↦ elim (Bool-cases (leb x (l (child l (i * 2))).time)) [
    | inl stop ↦ (
      (l, i),
      rw (inner, stop) refl,
      record {
        hole = v;
        above = a;
        below = λ k p q r.
            ground (arith, stop, child-least l (suc n) i v.inside.0 (ground (arith, inner)) k r);
        moved = Moved-here l n i;
      },
    )
    | inr more ↦
        let m = child l (i * 2) in
        let below : i * 2 < suc n = ground (arith, inner) in
        let half = child-half l (suc n) i v.inside.0 below in
        let bounds = child-bounds l (suc n) i v.inside.0 below in
        let lt : (l m).time < x = ground (arith, more) in
        let last : m ≢ suc n = λ t. absurd (omega (arith, ap (λ (c : ℕ). (l c).time) t)) in
        let ne : i ≢ m = omega arith in
        let (v', a') =
          Hole-down l n i m x v a bounds.0 (omega arith) half
            (λ k p q r. child-least l (suc n) i v.inside.0 below k r) lt in
        let e' : (update l i (l m) (suc n)).time ≡ x =
          rw (update_other l i (suc n) (l m) (omega arith)) e in
        let (r, run, placed) =
          sift_down_lem fuel (update l i (l m)) n m x (omega arith) w e' v' a' in
        (r, rw (inner, more) run, Placed-step l n i m x r v.inside.0 v.inside.1 ne placed)
  ]
])
  where
    doubled : i * 2 % cindex_mod ≡ i * 2
    doubled = omega (arith, v.inside)
