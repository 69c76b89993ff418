-- ===== src/Swap/Filled.antt =====
-- Swap::load in src/swap.cpp: a sector comes into a slot of the cache that is empty.
use dgd.Prelude.{
  ℕ, length, ◌≤◌, ◌<◌, ◌≡◌, ◌≢◌, ◌⊎◌, inl, inr, refl, sym, ap, ◌∙◌, List, [], true, false, arith,
  ◌==◌, update, update_same, update_other, Bool-cases, ==_iff,
}
use dgd.Swap.Device.{Device, SwapSlot, unused, is_cached}
use dgd.Swap.Chain.{NotIn}
use dgd.Swap.Coherent.{
  stored, swap_of, view, Holds, IsCoherent, HasPlaces-same, is_cached-true, SamePlace,
  swap_of-SamePlace, view-SamePlace,
}

abbrev pub filled : Device → ℕ → ℕ → SwapSlot → Device
filled d sec i h = record d { slots = update d.slots i h; map = update d.map sec i }

module _ (Live : ℕ → Type 0) (d : Device) (fs : List ℕ) (v : IsCoherent Live d fs []) (sec i : ℕ)
    (live : Live sec) (away : is_cached d sec ≡ false) (empty : (d.slots i).sec ≡ unused)
    (small : i < d.cachesize) (h : SwapSlot) (its : h.sec ≡ sec) (place : h.swap ≡ d.map sec) where
  is_cached-filled : is_cached (filled d sec i h) sec ≡ true
  is_cached-filled =
      is_cached-true (filled d sec i h) sec i (update_same d.map sec i) small
        (rw (update_same d.slots i h) its)

  SamePlace-filled : (t : ℕ) → t ≢ unused → sec ≢ t → SamePlace d (filled d sec i h) t
  unfolding is_cached
  SamePlace-filled t n o = elim (Bool-cases (i == d.map t)) [
    | inl here ↦
        let e : i ≡ d.map t = (==_iff i (d.map t)).0 here in
        let e' : (d.slots (d.map t)).sec ≡ unused = rw (← e) empty in
        let f : is_cached d t ≡ false = ground (arith, e', n) in
        (
          rw (update_other d.map sec t i o, ← e, update_same d.slots i h, its, empty)
              (ground (arith, n, o)),
          inr f,
          update_other d.map sec t i o,
        )
    | inr there ↦
        let e = update_other d.slots i (d.map t) h (ground arith) in
        (rw (update_other d.map sec t i o, e) refl, inl e, update_other d.map sec t i o)
  ]

  pub view-filled :
      (view (filled d sec i h) sec ≡ h.bytes) × (swap_of (filled d sec i h) sec ≡ d.map sec)
  unfolding view swap_of
  view-filled =
      let e = update_same d.slots i h in
      (
        rw (is_cached-filled, update_same d.map sec i, e) refl,
        rw (is_cached-filled, update_same d.map sec i, e) place,
      )

  pub view-filled_other : (t : ℕ) → Live t → sec ≢ t → view (filled d sec i h) t ≡ view d t
  view-filled_other t l o =
      view-SamePlace d (filled d sec i h) t (SamePlace-filled t (v.numbered t l) o) refl

  swap_of-filled : (t : ℕ) → Live t → swap_of (filled d sec i h) t ≡ swap_of d t
  unfolding swap_of
  swap_of-filled t l = elim (Bool-cases (sec == t)) [
    | inl same ↦ let e = (==_iff sec t).0 same in rw (← e) (view-filled.1 ∙ rw away refl)
    | inr other ↦
        unfold swap_of in
        swap_of-SamePlace d (filled d sec i h) t
          (SamePlace-filled t (v.numbered t l) (ground (arith, other)))
  ]

  not_in : (j : ℕ) → j < d.cachesize → d.map (d.slots j).sec ≡ j → sec ≢ (d.slots j).sec
  not_in j low at e =
      let yes_it = is_cached-true d (d.slots j).sec j at low refl in
      absurd (let f : is_cached d sec ≡ true = rw e yes_it in cc)

  held-filled :
      (j : ℕ) → (((filled d sec i h).slots j).sec ≡ unused) ⊎ Holds Live (filled d sec i h) j
  held-filled j = elim (Bool-cases (i == j)) [
    | inl here ↦
        let e = (==_iff i j).0 here in
        inr (
          rw (← e, update_same d.slots i h, its, update_same d.map sec i)
            (v.numbered sec live, small, refl, live))
    | inr there ↦
        let e = update_other d.slots i j h (ground arith) in
        rw e (elim (v.held j) [
          | inl free ↦ inl free
          | inr (used, low, at, l) ↦
              inr (used, low, update_other d.map sec (d.slots j).sec i (not_in j low at) ∙ at, l)
        ])
  ]

  pub IsCoherent-filled :
      (o : List ℕ)
      → length h.bytes ≤ d.sectorsize
      → (NotIn i o → h.bytes ≡ stored d (d.map sec))
      → IsCoherent Live (filled d sec i h) fs o
  IsCoherent-filled o fits fill = record {
    numbered = v.numbered;
    sized = λ j. elim (Bool-cases (i == j)) [
      | inl here ↦ rw (← ((==_iff i j).0 here), update_same d.slots i h) fits
      | inr there ↦ rw (update_other d.slots i j h (ground arith)) (v.sized j)
    ];
    file_sized = v.file_sized;
    held = held-filled;
    clean = λ j out. elim (Bool-cases (i == j)) [
      | inl here ↦
          let e = (==_iff i j).0 here in
          rw (← e, update_same d.slots i h)
            (λ used still. fill (rw e out) ∙ ap (stored d) (sym place))
      | inr there ↦ rw (update_other d.slots i j h (ground arith)) (v.clean j tt)
    ];
    places =
        HasPlaces-same Live d.ssectors d.sbarrier d.smap d.sfree (swap_of d)
          (swap_of (filled d sec i h)) swap_of-filled fs v.places;
  }
