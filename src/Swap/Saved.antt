-- ===== src/Swap/Saved.antt =====
-- The place in the swap file that Swap::load takes for the sector it turns out of a slot.
use dgd.Prelude.{
  ℕ, ==_iff, ◌+◌, ◌≤◌, ◌<◌, ◌≡◌, ◌≢◌, inl, inr, refl, sym, ◌∙◌, List, [], ◌∷◌, some, true, false,
  not, ◌&&◌, leb, arith, ◌==◌, update, update_same, update_other, Bool-cases, All,
}
use dgd.Swap.Device.{Device, unused}
use dgd.Swap.Free.{Chain}
use dgd.Swap.Cache.{write_back}
use dgd.Swap.Coherent.{stored, swap_of, Holds, IsUnowned, IsCoherent, is_cached-true}
use dgd.Swap.Emptied.{IsSaved, IsSpare}

-- A write to one place of the swap file.
stored-write :
    (d : Device) (w p : ℕ) (bytes : List ℕ)
    → w ≢ p
    → stored (record d { file = update d.file w bytes }) p ≡ stored d p
stored-write d w p bytes n = rw (update_other d.file w p bytes n) refl

module _ (Live : ℕ → Type 0) (d : Device) (fs : List ℕ) (v : IsCoherent Live d fs []) (i : ℕ)
    (its : Holds Live d i) where
  swap_of_its : swap_of d (d.slots i).sec ≡ (d.slots i).swap
  unfolding swap_of
  swap_of_its = rw (is_cached-true d (d.slots i).sec i its.2 its.1 refl, its.2) refl

  -- The place that the sector had is its own.
  old_alone :
      (t : ℕ)
      → Live t
      → (d.slots i).sec ≢ t
      → (d.slots i).swap ≢ unused
      → swap_of d t ≢ (d.slots i).swap
  old_alone t l o n e = o (
      v.places.apart (d.slots i).sec t its.3 l (swap_of_its ∙ sym e) (λ g. n (sym swap_of_its ∙ g)))

  old_low : (d.slots i).swap ≢ unused → (d.slots i).swap < d.ssectors
  old_low n =
      rw swap_of_its at (v.places.below (d.slots i).sec its.3 (λ g. n (sym swap_of_its ∙ g)))

  old-IsSpare :
      (ys : List ℕ)
      → All (IsUnowned Live (swap_of d) d.ssectors d.sbarrier) ys
      → All (IsSpare Live d (d.slots i).swap d.ssectors) ys
  old-IsSpare [] a = tt
  old-IsSpare (x ∷ ys) a =
      ((a.0.0, a.0.1, λ e. a.0.1 (d.slots i).sec its.3 (swap_of_its ∙ e)), old-IsSpare ys a.1)

  clean-IsSaved :
      (d.slots i).dirty ≡ false → IsSaved Live d i (d.slots i).swap d.file d.sfree d.ssectors fs
  clean-IsSaved still = record {
    whole = v.file_sized;
    own = sym (v.clean i tt its.0 still);
    others = λ t l o. refl;
    alone = old_alone;
    low = old_low;
    more = omega arith;
    most = v.places.room;
    chain = v.places.free;
    spare = old-IsSpare fs v.places.unowned;
  }

  -- The data is written to a place that is not another sector's.
  written-IsSaved :
      (save sfree ssectors : ℕ) (fs' : List ℕ)
      → save ≢ unused
      → ((t : ℕ) → Live t → (d.slots i).sec ≢ t → swap_of d t ≢ save)
      → save < ssectors
      → d.ssectors ≤ ssectors
      → ssectors ≤ unused
      → Chain d.smap sfree fs'
      → All (IsSpare Live d save ssectors) fs'
      → IsSaved Live d i save (update d.file save (d.slots i).bytes) sfree ssectors fs'
  written-IsSaved save sfree ssectors fs' n alone low more most chain spare = record {
    whole = λ p. elim (Bool-cases (save == p)) [
      | inl here ↦
          rw (← ((==_iff save p).0 here), update_same d.file save (d.slots i).bytes) (v.sized i)
      | inr there ↦
          rw (update_other d.file save p (d.slots i).bytes (ground arith)) (v.file_sized p)
    ];
    own =
        let f : (save == unused) ≡ false = ground (arith, n) in
        rw (f, update_same d.file save (d.slots i).bytes) refl;
    others =
        λ t l o. stored-write d save (swap_of d t) (d.slots i).bytes (λ e. alone t l o (sym e));
    alone = λ t l o _. alone t l o;
    low = λ _. low;
    more = more;
    most = most;
    chain = chain;
    spare = spare;
  }

  -- A place from the free list is none of the others'.
  free-IsSpare :
      (x : ℕ) (ys : List ℕ)
      → All (λ y. x ≢ y) ys
      → All (IsUnowned Live (swap_of d) d.ssectors d.sbarrier) ys
      → All (IsSpare Live d (x + d.sbarrier) d.ssectors) ys
  free-IsSpare x [] n a = tt
  free-IsSpare x (y ∷ ys) n a = ((a.0.0, a.0.1, λ e. n.0 (omega arith)), free-IsSpare x ys n.1 a.1)

  -- A place at the end of the file is nobody's.
  fresh_alone : (t : ℕ) → Live t → d.ssectors < unused → swap_of d t ≢ d.ssectors
  fresh_alone t l room e = let a = v.places.below t l (λ g. absurd (omega arith)) in omega arith

  abbrev written : ℕ → (ℕ → List ℕ) → ℕ → ℕ → Device
  written save file sfree ssectors = record d {
    map = update d.map (d.slots i).sec save;
    file = file;
    sfree = sfree;
    ssectors = ssectors;
  }

  -- A new place for a sector that was changed: a free one, or else one at the end of the file.
  new_place :
      (ys : List ℕ)
      → Chain d.smap d.sfree ys
      → All (IsUnowned Live (swap_of d) d.ssectors d.sbarrier) ys
      → d.ssectors < unused
      → (d.slots i).dirty ≡ true
      → (not ((d.slots i).swap == unused) && leb d.sbarrier (d.slots i).swap) ≡ false
      → (save : ℕ) × (file : ℕ → List ℕ) × (sfree : ℕ) × (ssectors : ℕ) × (fs' : List ℕ)
        × (write_back d i ≡ some (written save file sfree ssectors, i))
        × IsSaved Live d i save file sfree ssectors fs'
        × (ssectors ≤ d.ssectors + 1)
  unfolding write_back
  new_place [] c a room dirty moved =
      let none_free : (d.sfree == unused) ≡ true = ground (arith, c) in
      let more : (d.ssectors == unused) ≡ false = ground (arith, room) in
      (
        d.ssectors,
        update d.file d.ssectors (d.slots i).bytes,
        d.sfree,
        d.ssectors + 1,
        [],
        rw (dirty, moved, none_free, more) refl,
        written-IsSaved d.ssectors d.sfree (d.ssectors + 1) [] (λ e. omega arith)
            (λ t l o. fresh_alone t l room) (omega arith) (omega arith) (omega arith) c tt,
        omega arith,
      )
  new_place (x ∷ ys) (e, n, once, c) a room dirty moved =
      let some_free : (d.sfree == unused) ≡ false = ground (arith, e, n) in
      let low = a.0.0 in
      (
        x + d.sbarrier,
        update d.file (x + d.sbarrier) (d.slots i).bytes,
        d.smap x,
        d.ssectors,
        ys,
        rw (dirty, moved, some_free, e) refl,
        written-IsSaved (x + d.sbarrier) (d.smap x) d.ssectors ys (λ g. omega arith)
            (λ t l o. a.0.1 t l) low (omega arith) v.places.room c (free-IsSpare x ys once a.1),
        omega arith,
      )

  -- There is a place for the sector, if there is one at the end of the file, and it is as it has to
  -- be.
  pub write_back-IsSaved :
      d.ssectors < unused
      → (save : ℕ) × (file : ℕ → List ℕ) × (sfree : ℕ) × (ssectors : ℕ) × (fs' : List ℕ)
        × (write_back d i ≡ some (written save file sfree ssectors, i))
        × IsSaved Live d i save file sfree ssectors fs'
        × (ssectors ≤ d.ssectors + 1)
  unfolding write_back
  write_back-IsSaved room = elim (Bool-cases (d.slots i).dirty) [
    | inr still ↦ (
      (d.slots i).swap,
      d.file,
      d.sfree,
      d.ssectors,
      fs,
      rw still refl,
      clean-IsSaved still,
      omega arith,
    )
    | inl dirty ↦
        elim (Bool-cases (not ((d.slots i).swap == unused) && leb d.sbarrier (d.slots i).swap)) [
          | inl kept ↦
              let n : (d.slots i).swap ≢ unused = ground arith in
              (
                (d.slots i).swap,
                update d.file (d.slots i).swap (d.slots i).bytes,
                d.sfree,
                d.ssectors,
                fs,
                rw (dirty, kept) refl,
                written-IsSaved (d.slots i).swap d.sfree d.ssectors fs n
                    (λ t l o. old_alone t l o n) (old_low n) (omega arith) v.places.room
                    v.places.free (old-IsSpare fs v.places.unowned),
                omega arith,
              )
          | inr moved ↦ new_place fs v.places.free v.places.unowned room dirty moved
        ]
  ]
