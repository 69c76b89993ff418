-- ===== src/Swap/Relink.antt =====
-- The steps of Swap::load on the first-last list: a slot that is taken off, and put in front.
use mathlib.Core.List.{append-nil}
use dgd.Prelude.{
  ℕ, ◌≡◌, refl, sym, ap, ◌∙◌, List, [], ◌∷◌, ◌++◌, Option, none, some, arith, ◌==◌, update,
  update_other, update_same, false, ==_refl,
}
use dgd.Swap.Device.{Device, SwapSlot}
use dgd.Swap.Cache.{cut_next, cut_prev, unchain, to_front, without_last}
use dgd.Swap.Chain.{
  NotIn, Unique, head_or, last_or, final, Linked, Unique-move, Unique-apart, NotIn-final,
  Linked-split, Linked-append, Linked-update, Linked-set_next, Linked-set_prev, NotIn-both,
  All-final, last_or-append, final-append,
}

-- Slots that differ at most in their links.
abbrev pub SameData : (ℕ → SwapSlot) → (ℕ → SwapSlot) → Type 0
SameData s s' =
    (j : ℕ)
    → ((s' j).sec ≡ (s j).sec)
      × ((s' j).swap ≡ (s j).swap)
      × ((s' j).dirty ≡ (s j).dirty)
      × ((s' j).bytes ≡ (s j).bytes)

-- Slots that differ at most within a list.
abbrev pub SameOutside : List ℕ → (ℕ → SwapSlot) → (ℕ → SwapSlot) → Type 0
SameOutside l s s' = (j : ℕ) → NotIn j l → s' j ≡ s j

SameData-next :
    (s : ℕ → SwapSlot) (i : ℕ) (q : Option ℕ) → SameData s (update s i (record (s i) { next = q }))
SameData-next s i q j = ground arith

SameData-prev :
    (s : ℕ → SwapSlot) (i : ℕ) (p : Option ℕ) → SameData s (update s i (record (s i) { prev = p }))
SameData-prev s i p j = ground arith

-- The device `d` with the first-last list `l`.
abbrev pub relinked : Device → (ℕ → SwapSlot) → List ℕ → Device
relinked d s l = record d { slots = s; first = head_or l none; last = last_or none l }

-- After the first half: the slot is skipped forwards.
cut_next_lem :
    (d : Device) (s : ℕ → SwapSlot) (last : Option ℕ) (xs : List ℕ) (i : ℕ) (ys : List ℕ)
    → Linked s none (xs ++ i ∷ ys) none
    → Unique (xs ++ i ∷ ys)
    → (s' : ℕ → SwapSlot) × (cut_next
          (record d { slots = s; first = head_or (xs ++ i ∷ ys) none; last = last })
          i
        ≡ record d { slots = s'; first = head_or (xs ++ ys) none; last = last })
      × Linked s' none xs (head_or ys none)
      × Linked s' (some i) ys none
      × SameData s s'
      × SameOutside xs s s'
      × (s' i ≡ s i)
unfolding cut_next
cut_next_lem d s last [] i ys c u =
    (s, rw (==_refl i, c.1) refl, tt, c.2, (λ j. (refl, refl, refl, refl)), (λ j out. refl), refl)
cut_next_lem d s last (x ∷ xs) i ys c u =
    let (a, b) = Linked-split s none (x ∷ xs) (i ∷ ys) none c in
    let (apart, once, rest) = Unique-apart (x ∷ xs) (i ∷ ys) u in
    let k = final x xs in
    let v = record (s k) { next = head_or ys none } in
    let out = All-final (λ y. NotIn y (i ∷ ys)) x xs apart in
    let miss : (x == i) ≡ false = ground (arith, apart.0.0) in
    (
      update s k v,
      rw (miss, b.0, b.1) refl,
      Linked-set_next s none x xs (some i) (head_or ys none) once a,
      Linked-update s k v (some i) ys none out.1 b.2,
      SameData-next s k (head_or ys none),
      (λ j away. update_other s k j v (λ e. NotIn-final j x xs away (sym e))),
      update_other s k i v out.0,
    )

-- After the second half: the slot is skipped backwards too.
cut_prev_lem :
    (d : Device) (s : ℕ → SwapSlot) (first : Option ℕ) (xs : List ℕ) (i : ℕ) (ys : List ℕ)
    → (s i).prev ≡ last_or none xs
    → (s i).next ≡ head_or ys none
    → Linked s none xs (head_or ys none)
    → Linked s (some i) ys none
    → Unique (xs ++ i ∷ ys)
    → (s' : ℕ → SwapSlot) × (cut_prev
          (record d { slots = s; first = first; last = last_or none (xs ++ i ∷ ys) })
          i
        ≡ record d { slots = s'; first = first; last = last_or none (xs ++ ys) })
      × Linked s' none (xs ++ ys) none
      × SameData s s'
      × SameOutside (xs ++ ys) s s'
unfolding cut_prev
cut_prev_lem d s first [] i [] p n a b u =
    (s, rw (==_refl i, p) refl, tt, (λ j. (refl, refl, refl, refl)), (λ j out. refl))
cut_prev_lem d s first (x ∷ xs) i [] p n a b u =
    let k = final x xs in
    let v = record (s k) { next = none } in
    let (apart, once, rest) = Unique-apart (x ∷ xs) (i ∷ []) u in
    (
      update s k v,
      rw (final-append x xs i [], ==_refl i, p, append-nil xs) refl,
      rw (append-nil xs) (Linked-set_next s none x xs none none once a),
      SameData-next s k none,
      (λ j away.
          update_other s k j v (λ e. NotIn-final j x xs (NotIn-both j (x ∷ xs) [] away).0 (sym e))),
    )
cut_prev_lem d s first xs i (y ∷ ys) p n a b u =
    let v = record (s y) { prev = last_or none xs } in
    let (apart, once, rest) = Unique-apart xs (i ∷ y ∷ ys) u in
    let miss : (final y ys == i) ≡ false = ground (arith, NotIn-final i y ys rest.0) in
    (
      update s y v,
      rw (last_or-append none xs i (y ∷ ys), last_or-append none xs y ys, miss, n, p) refl,
      Linked-append (update s y v) none xs (y ∷ ys) none
          (Linked-update s y v none xs (some y)
            (NotIn-both y xs ys (Unique-move xs y ys (Unique-move xs i (y ∷ ys) u).1).0).0 a)
          (Linked-set_prev s (some i) (last_or none xs) y ys none rest.1 b),
      SameData-prev s y (last_or none xs),
      (λ j away. update_other s y j v (λ e. (NotIn-both j xs (y ∷ ys) away).1.0 (sym e))),
    )

pub SameData-trans : (s s' s'' : ℕ → SwapSlot) → SameData s s' → SameData s' s'' → SameData s s''
SameData-trans s s' s'' p q j =
    let a = p j in let b = q j in (b.0 ∙ a.0, b.1 ∙ a.1, b.2 ∙ a.2, b.3 ∙ a.3)

pub unchain_lem :
    (d : Device) (s : ℕ → SwapSlot) (xs : List ℕ) (i : ℕ) (ys : List ℕ)
    → Linked s none (xs ++ i ∷ ys) none
    → Unique (xs ++ i ∷ ys)
    → (s' : ℕ → SwapSlot) × (unchain (relinked d s (xs ++ i ∷ ys)) i ≡ relinked d s' (xs ++ ys))
      × Linked s' none (xs ++ ys) none
      × SameData s s'
      × SameOutside (xs ++ ys) s s'
unfolding unchain
unchain_lem d s xs i ys c u =
    let (s1, e1, a, b, same1, out1, here) =
      cut_next_lem d s (last_or none (xs ++ i ∷ ys)) xs i ys c u in
    let (p, n, _) = (Linked-split s none xs (i ∷ ys) none c).1 in
    let (s2, e2, c2, same2, out2) =
      cut_prev_lem d s1 (head_or (xs ++ ys) none) xs i ys (ap (λ h. h.prev) here ∙ p)
        (ap (λ h. h.next) here ∙ n) a b u in
    (
      s2,
      ap (λ x. cut_prev x i) e1 ∙ e2,
      c2,
      SameData-trans s s1 s2 same1 same2,
      (λ j away. out2 j away ∙ out1 j (NotIn-both j xs ys away).0),
    )

pub to_front_lem :
    (d : Device) (s : ℕ → SwapSlot) (i : ℕ) (l : List ℕ)
    → Linked s none l none
    → Unique (i ∷ l)
    → (s' : ℕ → SwapSlot) × (to_front (relinked d s l) i ≡ relinked d s' (i ∷ l))
      × Linked s' none (i ∷ l) none
      × SameData s s'
      × SameOutside (i ∷ l) s s'
unfolding to_front
to_front_lem d s i [] c u =
    let v = record (s i) { prev = none; next = none } in
    let e = update_same s i v in
    (
      update s i v,
      refl,
      (rw e refl, rw e refl, tt),
      (λ j. ground arith),
      (λ j away. update_other s i j v (λ e. away.0 (sym e))),
    )
to_front_lem d s i (x ∷ l) c u =
    let v = record (s i) { prev = none; next = some x } in
    let t = update s i v in
    let w = record (t x) { prev = some i } in
    let e = update_same s i v in
    let f = update_other t x i w (λ g. u.0.0 (sym g)) in
    let (data1, data2) : SameData s t × SameData t (update t x w) =
      ((λ j. ground arith), SameData-prev t x (some i)) in
    (
      update t x w,
      refl,
      (
        rw (f, e) refl,
        rw (f, e) refl,
        Linked-set_prev t none (some i) x l none u.1 (Linked-update s i v none (x ∷ l) none u.0 c),
      ),
      SameData-trans s t (update t x w) data1 data2,
      (λ j away.
          update_other t x j w (λ g. away.1.0 (sym g))
          ∙ update_other s i j v (λ g. away.0 (sym g))),
    )

pub without_last_lem :
    (d : Device) (s : ℕ → SwapSlot) (xs : List ℕ) (i : ℕ)
    → Linked s none (xs ++ i ∷ []) none
    → Unique (xs ++ i ∷ [])
    → (s' : ℕ → SwapSlot) × (without_last (relinked d s (xs ++ i ∷ [])) (s i).prev
        ≡ relinked d s' xs)
      × Linked s' none xs none
      × SameData s s'
      × SameOutside xs s s'
unfolding without_last
without_last_lem d s [] i c u =
    (s, rw c.0 refl, tt, (λ j. (refl, refl, refl, refl)), (λ j away. refl))
without_last_lem d s (x ∷ xs) i c u =
    let k = final x xs in
    let v = record (s k) { next = none } in
    let (a, b) = Linked-split s none (x ∷ xs) (i ∷ []) none c in
    let (apart, once, rest) = Unique-apart (x ∷ xs) (i ∷ []) u in
    (
      update s k v,
      rw b.0 refl,
      Linked-set_next s none x xs (some i) none once a,
      SameData-next s k none,
      (λ j away. update_other s k j v (λ e. NotIn-final j x xs away (sym e))),
    )
