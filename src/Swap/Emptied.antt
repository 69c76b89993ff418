-- ===== src/Swap/Emptied.antt =====
-- Swap::load in src/swap.cpp: a slot of the cache is emptied, and its sector gets a place in the
-- swap file.
use dgd.Prelude.{
  ℕ, length, ◌+◌, ◌≤◌, ◌<◌, ◌≡◌, ◌≢◌, inl, inr, refl, sym, ap, subst, ◌∙◌, List, [], ◌∷◌, false,
  arith, ◌==◌, update, update_same, update_other, Bool-cases, ==_iff, All,
}
use dgd.Swap.Device.{Device, SwapSlot, unused, is_cached}
use dgd.Swap.Free.{Chain}
use dgd.Swap.Coherent.{
  stored, swap_of, view, Holds, HasPlaces, IsUnowned, IsCoherent, is_cached-true, SamePlace,
  swap_of-SamePlace, view-SamePlace,
}

-- The device after the sector in slot `i` went to `save`, with what was used of the swap file.
abbrev pub emptied : Device → ℕ → ℕ → (ℕ → List ℕ) → ℕ → ℕ → Device
emptied d i save file sfree ssectors = record d {
  slots = update d.slots i (record (d.slots i) { sec = unused });
  map = update d.map (d.slots i).sec save;
  file = file;
  sfree = sfree;
  ssectors = ssectors;
}

-- A place that stays free when a sector goes to `save`.
abbrev pub IsSpare : (ℕ → Type 0) → Device → ℕ → ℕ → ℕ → Type 0
IsSpare Live d save ssectors x =
    (x + d.sbarrier < ssectors)
    × ((t : ℕ) → Live t → swap_of d t ≢ x + d.sbarrier)
    × (save ≢ x + d.sbarrier)

-- What the place `save` has to be, for the sector in slot `i`.
pub record IsSaved (Live : ℕ → Type 0) (d : Device) (i save : ℕ) (file : ℕ → List ℕ)
    (sfree ssectors : ℕ) (fs : List ℕ) : Type 0 where
  pub whole : (w : ℕ) → length (file w) ≤ d.sectorsize
  pub own : stored (record d { file = file }) save ≡ (d.slots i).bytes
  pub others :
      (t : ℕ)
      → Live t
      → (d.slots i).sec ≢ t
      → stored (record d { file = file }) (swap_of d t) ≡ stored d (swap_of d t)
  pub alone : (t : ℕ) → Live t → (d.slots i).sec ≢ t → save ≢ unused → swap_of d t ≢ save
  pub low : save ≢ unused → save < ssectors
  pub more : d.ssectors ≤ ssectors
  pub most : ssectors ≤ unused
  pub chain : Chain d.smap sfree fs
  pub spare : All (IsSpare Live d save ssectors) fs

module _ (Live : ℕ → Type 0) (d : Device) (fs : List ℕ) (v : IsCoherent Live d fs []) (i : ℕ)
    (full : (d.slots i).sec ≢ unused) (save : ℕ) (file : ℕ → List ℕ) (sfree ssectors : ℕ)
    (fs' : List ℕ) (w : IsSaved Live d i save file sfree ssectors fs') where
  abbrev gone : Device
  gone = emptied d i save file sfree ssectors

  abbrev bare : SwapSlot
  bare = record (d.slots i) { sec = unused }

  its : Holds Live d i
  its = elim (v.held i) [ inl e ↦ absurd (full e) | inr h ↦ h ]

  -- Only slot `i` holds its sector.
  only : (j : ℕ) → i ≢ j → (d.slots i).sec ≢ (d.slots j).sec
  only j n e = elim (v.held j) [
    | inl free ↦ full (e ∙ free)
    | inr (_, _, at, _) ↦ n (sym its.2 ∙ (ap d.map e ∙ at))
  ]

  is_cached-emptied : is_cached gone (d.slots i).sec ≡ false
  unfolding is_cached
  is_cached-emptied = elim (Bool-cases (i == save)) [
    | inl here ↦
        let e = (==_iff i save).0 here in
        rw (update_same d.map (d.slots i).sec save, ← e, update_same d.slots i bare)
          (ground (arith, full))
    | inr there ↦
        let n : i ≢ save = ground (arith, there) in
        rw (update_same d.map (d.slots i).sec save, update_other d.slots i save bare n)
          (ground (arith, only save n))
  ]

  pub SamePlace-emptied : (t : ℕ) → t ≢ unused → (d.slots i).sec ≢ t → SamePlace d gone t
  unfolding is_cached
  SamePlace-emptied t n o = elim (Bool-cases (i == d.map t)) [
    | inl here ↦
        let e = (==_iff i (d.map t)).0 here in
        let f : is_cached d t ≡ false = rw (← e) (ground (arith, o)) in
        (
          rw (update_other d.map (d.slots i).sec t save o, ← e, update_same d.slots i bare)
              (ground (arith, n, o)),
          inr f,
          update_other d.map (d.slots i).sec t save o,
        )
    | inr there ↦
        let e = update_other d.slots i (d.map t) bare (ground arith) in
        (
          rw (update_other d.map (d.slots i).sec t save o, e) refl,
          inl e,
          update_other d.map (d.slots i).sec t save o,
        )
  ]

  its_view :
      (view gone (d.slots i).sec ≡ view d (d.slots i).sec) × (swap_of gone (d.slots i).sec ≡ save)
  unfolding view swap_of
  its_view =
      let yes_it = is_cached-true d (d.slots i).sec i its.2 its.1 refl in
      let m = update_same d.map (d.slots i).sec save in
      (rw (is_cached-emptied, m, yes_it, its.2) w.own, rw (is_cached-emptied, m) refl)

  swap_of-emptied : (t : ℕ) → Live t → (d.slots i).sec ≢ t → swap_of gone t ≡ swap_of d t
  swap_of-emptied t l o = swap_of-SamePlace d gone t (SamePlace-emptied t (v.numbered t l) o)

  pub view-emptied : (t : ℕ) → Live t → view gone t ≡ view d t
  view-emptied t l = elim (Bool-cases ((d.slots i).sec == t)) [
    | inl same ↦ let e = (==_iff (d.slots i).sec t).0 same in rw (← e) its_view.0
    | inr other ↦
        let o : (d.slots i).sec ≢ t = ground (arith, other) in
        view-SamePlace d gone t (SamePlace-emptied t (v.numbered t l) o) (w.others t l o)
  ]

  apart_emptied :
      (t u : ℕ)
      → Live t
      → Live u
      → swap_of gone t ≡ swap_of gone u
      → swap_of gone t ≢ unused
      → t ≡ u
  apart_emptied t u a b e n = elim (Bool-cases ((d.slots i).sec == t)) [
    | inl tt0 ↦ elim (Bool-cases ((d.slots i).sec == u)) [
      | inl uu ↦ ground arith
      | inr uo ↦
          let o : (d.slots i).sec ≢ u = ground (arith, uo) in
          let et : swap_of gone t ≡ save = rw (← ((==_iff (d.slots i).sec t).0 tt0)) its_view.1 in
          absurd (w.alone u b o (λ g. n (et ∙ g)) (sym (swap_of-emptied u b o) ∙ (sym e ∙ et)))
    ]
    | inr to ↦
        let o : (d.slots i).sec ≢ t = ground (arith, to) in
        elim (Bool-cases ((d.slots i).sec == u)) [
          | inl uu ↦
              let eu : swap_of gone u ≡ save =
                rw (← ((==_iff (d.slots i).sec u).0 uu)) its_view.1 in
              absurd
                (w.alone t a o (λ g. n (e ∙ (eu ∙ g))) (sym (swap_of-emptied t a o) ∙ (e ∙ eu)))
          | inr uo ↦
              let o' : (d.slots i).sec ≢ u = ground (arith, uo) in
              let et = swap_of-emptied t a o in
              let eu = swap_of-emptied u b o' in
              v.places.apart t u a b (sym et ∙ (e ∙ eu)) (λ g. n (et ∙ g))
        ]
  ]

  -- What holds of the place `save`, and of the places of the others, holds of all.
  each_place :
      (P : ℕ → Type 0)
      → P save
      → ((t : ℕ) → Live t → P (swap_of d t))
      → (t : ℕ) → Live t
      → P (swap_of gone t)
  each_place P mine theirs t l = elim (Bool-cases ((d.slots i).sec == t)) [
    | inl same ↦ rw (← ((==_iff (d.slots i).sec t).0 same)) (subst P (sym its_view.1) mine)
    | inr other ↦ subst P (sym (swap_of-emptied t l (ground (arith, other)))) (theirs t l)
  ]

  IsUnowned-emptied :
      (ys : List ℕ)
      → All (IsSpare Live d save ssectors) ys
      → All (IsUnowned Live (swap_of gone) ssectors d.sbarrier) ys
  IsUnowned-emptied [] a = tt
  IsUnowned-emptied (x ∷ ys) a =
      ((a.0.0, each_place (λ p. p ≢ x + d.sbarrier) a.0.2 a.0.1), IsUnowned-emptied ys a.1)

  places_emptied : HasPlaces Live (swap_of gone) ssectors d.sbarrier d.smap sfree fs'
  places_emptied = record {
    apart = apart_emptied;
    below =
        each_place (λ p. p ≢ unused → p < ssectors) w.low
          (λ t l n. let a = v.places.below t l n in omega (arith, a, w.more));
    room = w.most;
    free = w.chain;
    unowned = IsUnowned-emptied fs' w.spare;
  }

  pub IsCoherent-emptied : IsCoherent Live gone fs' []
  unfolding swap_of
  IsCoherent-emptied = record {
    numbered = v.numbered;
    sized = λ j. elim (Bool-cases (i == j)) [
      | inl here ↦ rw (← ((==_iff i j).0 here), update_same d.slots i bare) (v.sized i)
      | inr there ↦ rw (update_other d.slots i j bare (ground arith)) (v.sized j)
    ];
    file_sized = w.whole;
    held = λ j. elim (Bool-cases (i == j)) [
      | inl here ↦ inl (rw (← ((==_iff i j).0 here), update_same d.slots i bare) refl)
      | inr there ↦
          let n : i ≢ j = ground (arith, there) in
          rw (update_other d.slots i j bare n) (elim (v.held j) [
            | inl free ↦ inl free
            | inr (used, low, at, l) ↦ inr (
              used,
              low,
              update_other d.map (d.slots i).sec (d.slots j).sec save (only j n) ∙ at,
              l,
            )
          ])
    ];
    clean = λ j out. elim (Bool-cases (i == j)) [
      | inl here ↦
          rw (← ((==_iff i j).0 here), update_same d.slots i bare) (λ used. absurd (used refl))
      | inr there ↦
          let n : i ≢ j = ground (arith, there) in
          rw (update_other d.slots i j bare n) (λ used still. elim (v.held j) [
            | inl free ↦ absurd (used free)
            | inr (_, low, at, l) ↦
                let yes_it = is_cached-true d (d.slots j).sec j at low refl in
                let e : swap_of d (d.slots j).sec ≡ (d.slots j).swap = rw (yes_it, at) refl in
                v.clean j tt used still ∙ rw (← e) (sym (w.others (d.slots j).sec l (only j n)))
          ])
    ];
    places = places_emptied;
  }
