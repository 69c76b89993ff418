-- ===== src/Swap/Fresh.antt =====
-- Swap::newv in src/swap.cpp: sectors that come into use are nowhere yet, and the cache stays coherent.
use dgd.Prelude.{
  ℕ, ◌≤◌, ◌≡◌, ◌≢◌, ◌⊎◌, inl, inr, refl, sym, subst, ◌∙◌, List, [], ◌∷◌, false, arith, ◌==◌, update,
  update_same, update_other, All, Bool-cases, ==_iff, replicate,
}
use dgd.Swap.Device.{Device, unused, is_cached}
use dgd.Swap.Chain.{NotIn}
use dgd.Swap.Coherent.{
  view, swap_of, IsUnowned, IsCoherent, SamePlace, swap_of-SamePlace, view-SamePlace,
}
use dgd.Swap.Loaded.{IsCache}

-- The sectors in use with another one, or with more of them.
abbrev pub With : ℕ → (ℕ → Type 0) → ℕ → Type 0
With x Live t = (x ≡ t) ⊎ Live t

abbrev pub Withs : List ℕ → (ℕ → Type 0) → ℕ → Type 0
Withs [] Live = Live
Withs (x ∷ vec) Live = Withs vec (With x Live)

-- The device after the map says that `x` is nowhere, with other counts of sectors.
abbrev pub nowhere : Device → ℕ → ℕ → ℕ → ℕ → Device
nowhere d x nsectors nfree mfree = record d {
  map = update d.map x unused;
  nsectors = nsectors;
  nfree = nfree;
  mfree = mfree;
}

module _ (Live : ℕ → Type 0) (d : Device) (x nsectors nfree mfree : ℕ) (fs : List ℕ)
    (v : IsCoherent Live d fs []) (named : x ≢ unused) (small : d.cachesize ≤ unused)
    (unused_yet : Live x → ⊥) where
  abbrev gone : Device
  gone = nowhere d x nsectors nfree mfree

  unheld : (j : ℕ) → (d.slots j).sec ≢ x
  unheld j e = elim (v.held j) [
    | inl free ↦ named (sym e ∙ free)
    | inr (_, _, _, live) ↦ unused_yet (subst Live e live)
  ]

  is_cached-nowhere : is_cached gone x ≡ false
  unfolding is_cached
  is_cached-nowhere = rw (update_same d.map x unused) (ground arith)

  SamePlace-nowhere : (t : ℕ) → x ≢ t → SamePlace d gone t
  unfolding is_cached
  SamePlace-nowhere t o =
      (rw (update_other d.map x t unused o) refl, inl refl, update_other d.map x t unused o)

  its_place : (swap_of gone x ≡ unused) × (view gone x ≡ replicate d.sectorsize 0)
  unfolding swap_of view
  its_place = (
    rw (is_cached-nowhere, update_same d.map x unused) refl,
    rw (is_cached-nowhere, update_same d.map x unused) refl,
  )

  place_nowhere :
      (t : ℕ) → With x Live t → swap_of gone t ≢ unused → Live t × (swap_of gone t ≡ swap_of d t)
  place_nowhere t lt n = elim (Bool-cases (x == t)) [
    | inl e ↦ absurd (n (rw (← ((==_iff x t).0 e)) its_place.0))
    | inr e ↦
        let o : x ≢ t = ground (arith, e) in
        (
          (elim lt [ inl g ↦ absurd (o g) | inr g ↦ g ]),
          swap_of-SamePlace d gone t (SamePlace-nowhere t o),
        )
  ]

  IsUnowned-nowhere :
      (ys : List ℕ)
      → d.ssectors ≤ unused
      → All (IsUnowned Live (swap_of d) d.ssectors d.sbarrier) ys
      → All (IsUnowned (With x Live) (swap_of gone) d.ssectors d.sbarrier) ys
  IsUnowned-nowhere [] r a = tt
  IsUnowned-nowhere (y ∷ ys) r a =
      let low = a.0.0 in
      (
        (
          low,
          λ t lt e.
              (let (live, same) = place_nowhere t lt (λ g. omega arith) in
                a.0.1 t live (sym same ∙ e)),
        ),
        IsUnowned-nowhere ys r a.1,
      )

  IsCoherent-nowhere : IsCoherent (With x Live) gone fs []
  IsCoherent-nowhere = record {
    numbered = λ t lt e. elim lt [ inl g ↦ named (g ∙ e) | inr g ↦ v.numbered t g e ];
    sized = v.sized;
    file_sized = v.file_sized;
    held = λ j. elim (v.held j) [
      | inl free ↦ inl free
      | inr (used, low, at, live) ↦ inr (
        used,
        low,
        update_other d.map x (d.slots j).sec unused (λ e. unheld j (sym e)) ∙ at,
        inr live,
      )
    ];
    clean = v.clean;
    places = record {
      apart = λ t u a b e n.
          (let (lt, st) = place_nowhere t a n in
            let (lu, su) = place_nowhere u b (λ g. n (e ∙ g)) in
            v.places.apart t u lt lu (sym st ∙ (e ∙ su)) (λ g. n (st ∙ g)));
      below = λ t a n.
          (let (lt, st) = place_nowhere t a n in rw st (v.places.below t lt (λ g. n (st ∙ g))));
      room = v.places.room;
      free = v.places.free;
      unowned = IsUnowned-nowhere fs v.places.room v.places.unowned;
    };
  }

  view-nowhere : (t : ℕ) → x ≢ t → view gone t ≡ view d t
  view-nowhere t o = view-SamePlace d gone t (SamePlace-nowhere t o) refl

-- The sectors `vec` are in use in `d'`, and zero; nothing else is changed.
abbrev pub Gives : (ℕ → Type 0) → Device → List ℕ → List ℕ → List ℕ → List ℕ → Device → Type 0
Gives Live d vec l f fs d' =
    IsCache (Withs vec Live) d' l f fs []
    × All (λ x. view d' x ≡ replicate d.sectorsize 0) vec
    × ((t : ℕ) → Live t → NotIn t vec → view d' t ≡ view d t)
    × (d'.sectorsize ≡ d.sectorsize)

pub Gives-cons :
    (Live : ℕ → Type 0) (d : Device) (x nsectors nfree mfree : ℕ) (vec l f fs : List ℕ)
    (d' : Device)
    → IsCache Live d l f fs []
    → d.cachesize ≤ unused
    → x ≢ unused
    → (Live x → ⊥)
    → NotIn x vec
    → (IsCache (With x Live) (nowhere d x nsectors nfree mfree) l f fs []
        → Gives (With x Live) (nowhere d x nsectors nfree mfree) vec l f fs d')
    → Gives Live d (x ∷ vec) l f fs d'
Gives-cons Live d x nsectors nfree mfree vec l f fs d' v small named new out rest =
    let (v', zeros, kept, same) = rest (record {
      first = v.first;
      last = v.last;
      lfree = v.lfree;
      lists = v.lists;
      coherent = IsCoherent-nowhere Live d x nsectors nfree mfree fs v.coherent named small new;
    }) in
    (
      v',
      (
        kept x (inl refl) out
            ∙ (its_place Live d x nsectors nfree mfree fs v.coherent named small new).1,
        zeros,
      ),
      (λ t lt o.
          kept t (inr lt) o.1
          ∙ view-nowhere Live d x nsectors nfree mfree fs v.coherent named small new t
              (λ e. o.0 (sym e))),
      same,
    )
