-- ===== src/Swap/Brought.antt =====
-- The last half of Swap::load for a sector that had no slot: its data comes into slot `i`, which is
-- in no list, and the slot goes to the front.
use dgd.Prelude.{
  ℕ, zero, length, length-replicate, ◌≤◌, ◌<◌, ◌≡◌, ◌≢◌, ◌⊎◌, inl, inr, refl, sym, ap, ◌∙◌, List,
  [], ◌∷◌, ◌++◌, none, some, Bool, true, false, arith, ◌==◌, update, update_same, update_other, All,
  Bool-cases, ==_iff,
}
use dgd.Swap.Device.{Device, SwapSlot, unused, is_cached}
use dgd.Swap.Cache.{to_front, contents}
use dgd.Swap.Chain.{
  NotIn, Unique, head_or, last_or, Linked, Queued, NotIn-both, Linked-update, Queued-update,
}
use dgd.Swap.Relink.{SameData, SameData-trans}
use dgd.Swap.Coherent.{stored, view, IsCoherent, IsCoherent-same, view_same}
use dgd.Swap.Filled.{filled, view-filled, view-filled_other, IsCoherent-filled}
use dgd.Swap.Listed.{IsListed, listed, front_lem}

-- The slots whose data is not there yet.
abbrev pub opened : Bool → ℕ → List ℕ
opened true i = []
opened false i = i ∷ []

contents-filled : (a : Device) (w : ℕ) (old : List ℕ) → contents a w false true old ≡ stored a w
unfolding contents
contents-filled a w old = elim (Bool-cases (w == unused)) [ inl e ↦ rw e refl | inr e ↦ rw e refl ]

All-full_update :
    (s : ℕ → SwapSlot) (i : ℕ) (h : SwapSlot) (l : List ℕ)
    → NotIn i l
    → All (λ j. (s j).sec ≢ unused) l
    → All (λ j. (update s i h j).sec ≢ unused) l
All-full_update s i h [] n a = tt
All-full_update s i h (j ∷ l) n a =
    (rw (update_other s i j h n.0) a.0, All-full_update s i h l n.1 a.1)

-- The device with slot `i` empty.
abbrev pub vacant : Device → (ℕ → SwapSlot) → List ℕ → List ℕ → ℕ → Device
vacant a s l f i = listed a (update s i (record (s i) { sec = unused })) l f

abbrev pub brought : Device → (ℕ → SwapSlot) → ℕ → ℕ → Bool → SwapSlot
brought a s i sec fill = record (s i) {
  sec = sec;
  swap = a.map sec;
  dirty = false;
  bytes = contents a (a.map sec) false fill (s i).bytes;
}

module _ (Live : ℕ → Type 0) (a : Device) (s : ℕ → SwapSlot) (l f fs : List ℕ) (i sec : ℕ)
    (chain : Linked s none l none) (queue : Queued s f) (once : Unique (i ∷ (l ++ f)))
    (empty : (j : ℕ) → NotIn j (i ∷ l) → (s j).sec ≡ unused)
    (full : All (λ j. (s j).sec ≢ unused) l) (fits : All (λ j. j < a.cachesize) f)
    (small : i < a.cachesize) where
  SameData-brought :
      (h : SwapSlot)
      → SameData (update (update s i (record (s i) { sec = unused })) i h) (update s i h)
  SameData-brought h j = ground arith

  brought-stored :
      (fill : Bool)
      → NotIn i (opened fill i)
      → (brought a s i sec fill).bytes ≡ stored (vacant a s l f i) (a.map sec)
  brought-stored true out = contents-filled a (a.map sec) (s i).bytes
  brought-stored false out = absurd (out.0 refl)

  brought-sized :
      (fill : Bool)
      → IsCoherent Live (vacant a s l f i) fs []
      → length (brought a s i sec fill).bytes ≤ a.sectorsize
  unfolding contents
  brought-sized fill v =
      let old : length (s i).bytes ≤ a.sectorsize =
        rw (update_same s i (record (s i) { sec = unused })) at (v.sized i) in
      let zeros = length-replicate a.sectorsize (zero) in
      let kept = v.file_sized (a.map sec) in
      elim (Bool-cases (a.map sec == unused)) [
        | inl e ↦ elim (Bool-cases fill) [ inl g ↦ rw (e, g) (omega arith) | inr g ↦ rw (e, g) old ]
        | inr e ↦ elim (Bool-cases fill) [ inl g ↦ rw (e, g) kept | inr g ↦ rw (e, g) old ]
      ]

  module _ (v : IsCoherent Live (vacant a s l f i) fs [])
      (away : is_cached (vacant a s l f i) sec ≡ false) (live : Live sec) where
    vacant_empty : ((vacant a s l f i).slots i).sec ≡ unused
    vacant_empty = ap (λ g. g.sec) (update_same s i (record (s i) { sec = unused }))

    view-brought :
        (fill : Bool) (t : ℕ)
        → Live t
        → (fill ≡ true) ⊎ (sec ≢ t)
        → view (filled (vacant a s l f i) sec i (brought a s i sec fill)) t
          ≡ view (vacant a s l f i) t
    unfolding view
    view-brought fill t lt given = elim (Bool-cases (sec == t)) [
      | inr other ↦
          unfold view in
          view-filled_other Live (vacant a s l f i) fs v sec i live away vacant_empty small
            (brought a s i sec fill) refl refl t lt (ground (arith, other))
      | inl same ↦
          let e = (==_iff sec t).0 same in
          let filling : fill ≡ true = elim given [ inl g ↦ g | inr g ↦ absurd (g e) ] in
          let there : view (vacant a s l f i) sec ≡ stored (vacant a s l f i) (a.map sec) =
            rw away refl in
          let bytes : fill ≡ true
              → (brought a s i sec fill).bytes ≡ stored (vacant a s l f i) (a.map sec) =
            λ g. rw g (contents-filled a (a.map sec) (s i).bytes) in
          rw (← e) (
            (view-filled Live (vacant a s l f i) fs v sec i live away vacant_empty small
              (brought a s i sec fill) refl refl).0
            ∙ (bytes filling ∙ sym there))
    ]

  pub bring_lem :
      (fill : Bool)
      → IsCoherent Live (vacant a s l f i) fs []
      → is_cached (vacant a s l f i) sec ≡ false
      → Live sec
      → (s' : ℕ → SwapSlot) × (to_front
            (listed
              (record a { map = update a.map sec i })
              (update s i (brought a s i sec fill))
              l
              f)
            i
          ≡ listed (record a { map = update a.map sec i }) s' (i ∷ l) f)
        × IsListed s' a.cachesize (i ∷ l) f
        × IsCoherent Live
            (listed (record a { map = update a.map sec i }) s' (i ∷ l) f)
            fs
            (opened fill i)
        × ((s' i).sec ≡ sec)
        × ((t : ℕ)
            → Live t
            → (fill ≡ true) ⊎ (sec ≢ t)
            → view (listed (record a { map = update a.map sec i }) s' (i ∷ l) f) t
              ≡ view (vacant a s l f i) t)
  bring_lem fill v away live =
      let h = brought a s i sec fill in
      let (il, ifr) = NotIn-both i l f once.0 in
      let e = update_same s i h in
      let (s', run, lists, same) =
        front_lem (record a { map = update a.map sec i }) (update s i h) a.cachesize i l f
          (Linked-update s i h none l none il chain) (Queued-update s i h f ifr queue) once
          (λ j out. rw (update_other s i j h (λ g. out.0 (sym g))) (empty j out))
          (rw e (v.numbered sec live), All-full_update s i h l il full) fits in
      let same' =
        SameData-trans (update (update s i (record (s i) { sec = unused })) i h) (update s i h) s'
          (SameData-brought h) same in
      (
        s',
        run,
        lists,
        IsCoherent-same Live (filled (vacant a s l f i) sec i h) s' (some i) (last_or none (i ∷ l))
            (head_or f none) same' fs (opened fill i)
            (IsCoherent-filled Live (vacant a s l f i) fs v sec i live away
              (vacant_empty v away live) small h refl refl (opened fill i) (brought-sized fill v)
              (brought-stored fill)),
        (same i).0 ∙ ap (λ g. g.sec) e,
        (λ t lt given.
            view_same Live (filled (vacant a s l f i) sec i h) s' (some i) (last_or none (i ∷ l))
              (head_or f none) same' t
            ∙ view-brought v away live fill t lt given),
      )
