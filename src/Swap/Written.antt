-- ===== src/Swap/Written.antt =====
-- What Swap::writev does to the slot that Swap::load gave it.
use dgd.Prelude.{
  ℕ, length, ◌≤◌, ◌≡◌, ◌≢◌, inl, inr, refl, sym, ap, ◌∙◌, List, [], ◌∷◌, Option, none, some, Bool,
  true, false, arith, ◌==◌, update_same, update_other, All, Bool-cases, ==_iff,
}
use dgd.Swap.Device.{Device, SwapSlot, unused, is_cached, modify_slot}
use dgd.Swap.Chain.{NotIn, Linked, Queued}
use dgd.Swap.Coherent.{view, swap_of, IsCoherent, HasPlaces-same, view-SamePlace}
use dgd.Swap.Brought.{opened}
use dgd.Swap.Listed.{IsListed}
use dgd.Swap.Loaded.{IsCache}
use dgd.Swap.Transfer.{view_slot}

-- Slots that have the same links and sectors.
abbrev SameLinks : (ℕ → SwapSlot) → (ℕ → SwapSlot) → Type 0
SameLinks s s' =
    (j : ℕ) → ((s' j).prev ≡ (s j).prev) × ((s' j).next ≡ (s j).next) × ((s' j).sec ≡ (s j).sec)

Linked-SameLinks :
    (s s' : ℕ → SwapSlot) (p : Option ℕ) (l : List ℕ) (q : Option ℕ)
    → SameLinks s s'
    → Linked s p l q
    → Linked s' p l q
Linked-SameLinks s s' p [] q same c = tt
Linked-SameLinks s s' p (i ∷ l) q same c =
    ((same i).0 ∙ c.0, (same i).1 ∙ c.1, Linked-SameLinks s s' (some i) l q same c.2)

Queued-SameLinks : (s s' : ℕ → SwapSlot) (f : List ℕ) → SameLinks s s' → Queued s f → Queued s' f
Queued-SameLinks s s' [] same c = tt
Queued-SameLinks s s' (i ∷ f) same c = ((same i).1 ∙ c.0, Queued-SameLinks s s' f same c.1)

full-SameLinks :
    (s s' : ℕ → SwapSlot) (l : List ℕ)
    → SameLinks s s'
    → All (λ j. (s j).sec ≢ unused) l
    → All (λ j. (s' j).sec ≢ unused) l
full-SameLinks s s' [] same a = tt
full-SameLinks s s' (j ∷ l) same a =
    ((λ e. a.0 (sym (same j).2 ∙ e)), full-SameLinks s s' l same a.1)

IsListed-SameLinks :
    (s s' : ℕ → SwapSlot) (n : ℕ) (l f : List ℕ)
    → SameLinks s s'
    → IsListed s n l f
    → IsListed s' n l f
IsListed-SameLinks s s' n l f same v = record {
  chain = Linked-SameLinks s s' none l none same v.chain;
  queue = Queued-SameLinks s s' f same v.queue;
  once = v.once;
  idle = λ j out. (same j).2 ∙ v.idle j out;
  full = full-SameLinks s s' l same v.full;
  fits = v.fits;
}

NotIn-opened : (fill : Bool) (i j : ℕ) → i ≢ j → NotIn j (opened fill i)
NotIn-opened true i j n = tt
NotIn-opened false i j n = ((λ e. n (sym e)), tt)

-- New data in slot `i`.
abbrev pub written_to : Device → ℕ → List ℕ → Device
written_to d i bytes = modify_slot d i (λ h. record h { dirty = true; bytes = bytes })

module _ (Live : ℕ → Type 0) (d : Device) (i : ℕ) (l f fs : List ℕ) (fill : Bool) (sec : ℕ)
    (v : IsCache Live d (i ∷ l) f fs (opened fill i)) (live : Live sec)
    (its : (d.slots i).sec ≡ sec) (bytes : List ℕ) (fits : length bytes ≤ d.sectorsize) where
  links : SameLinks d.slots (written_to d i bytes).slots
  links j = ground arith

  swaps : (j : ℕ) → ((written_to d i bytes).slots j).swap ≡ (d.slots j).swap
  swaps j = ground arith

  is_cached-written : (t : ℕ) → is_cached (written_to d i bytes) t ≡ is_cached d t
  unfolding is_cached
  is_cached-written t = rw (links (d.map t)).2 refl

  swap_of-written : (t : ℕ) → swap_of (written_to d i bytes) t ≡ swap_of d t
  unfolding swap_of
  swap_of-written t = rw (is_cached-written t, swaps (d.map t)) refl

  IsCoherent-written : IsCoherent Live (written_to d i bytes) fs []
  IsCoherent-written = record {
    numbered = v.coherent.numbered;
    sized = λ j. elim (Bool-cases (i == j)) [
      | inl here ↦ rw (here) fits
      | inr there ↦ rw there (v.coherent.sized j)
    ];
    file_sized = v.coherent.file_sized;
    held = λ j. rw (links j).2 (v.coherent.held j);
    clean = λ j out. elim (Bool-cases (i == j)) [
      | inl here ↦ rw here (λ used still. cc)
      | inr there ↦ rw there (v.coherent.clean j (NotIn-opened fill i j (ground (arith, there))))
    ];
    places =
        HasPlaces-same Live d.ssectors d.sbarrier d.smap d.sfree (swap_of d)
          (swap_of (written_to d i bytes)) (λ t _. swap_of-written t) fs v.coherent.places;
  }

  pub IsCache-written : IsCache Live (written_to d i bytes) (i ∷ l) f fs []
  IsCache-written = record {
    first = v.first;
    last = v.last;
    lfree = v.lfree;
    lists =
        IsListed-SameLinks d.slots (written_to d i bytes).slots d.cachesize (i ∷ l) f links v.lists;
    coherent = IsCoherent-written;
  }

  pub view-written : view (written_to d i bytes) sec ≡ bytes
  view-written =
      view_slot Live (written_to d i bytes) fs [] sec i IsCoherent-written live ((links i).2 ∙ its)
      ∙ ap (λ h. h.bytes)
          (update_same d.slots i (record (d.slots i) { dirty = true; bytes = bytes }))

  pub view-written_other : (t : ℕ) → Live t → sec ≢ t → view (written_to d i bytes) t ≡ view d t
  unfolding is_cached
  view-written_other t lt o =
      view-SamePlace d (written_to d i bytes) t
        (
          is_cached-written t,
          elim (Bool-cases (i == d.map t)) [
            | inl here ↦
                let e : (d.slots (d.map t)).sec ≡ sec = rw (← ((==_iff i (d.map t)).0 here)) its in
                inr (rw e (ground (arith, o)))
            | inr there ↦ inl (
                update_other d.slots i (d.map t)
                  (record (d.slots i) { dirty = true; bytes = bytes }) (ground arith))
          ],
          refl,
        )
        refl
