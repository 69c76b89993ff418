-- ===== src/Swap/Coherent.antt =====
-- What the cache and the swap file hold between them: the data of each sector, and where it is.
use dgd.Prelude.{
  ℕ, length, ◌+◌, ◌≤◌, ◌<◌, ◌≡◌, ◌≢◌, ◌⊎◌, inl, inr, refl, sym, ap, ◌∙◌, List, [], ◌∷◌, Option,
  true, false, arith, ◌==◌, if◌then◌else◌, replicate, All, Bool-cases,
}
use dgd.Swap.Device.{Device, SwapSlot, unused, is_cached}
use dgd.Swap.Free.{Chain}
use dgd.Swap.Chain.{NotIn}
use dgd.Swap.Relink.{SameData}

-- The data at a place of the swap file; a sector that was never written there is zero.
abbrev pub stored : Device → ℕ → List ℕ
stored d w = if w == unused then replicate d.sectorsize 0 else d.file w

-- The place in the swap file of a sector, cached or not.
unfoldable pub swap_of : Device → ℕ → ℕ
swap_of d sec = if is_cached d sec then (d.slots (d.map sec)).swap else d.map sec

-- The data of a sector, which the rest of the program sees.
unfoldable pub view : Device → ℕ → List ℕ
view d sec = if is_cached d sec then (d.slots (d.map sec)).bytes else stored d (d.map sec)

-- A slot holds a live sector that the map has there.
abbrev pub Holds : (ℕ → Type 0) → Device → ℕ → Type 0
Holds Live d j =
    ((d.slots j).sec ≢ unused)
    × (j < d.cachesize)
    × (d.map (d.slots j).sec ≡ j)
    × Live (d.slots j).sec

-- A free place lies in the swap file, and is no live sector's. Free places are numbered from
-- sbarrier on.
abbrev pub IsUnowned : (ℕ → Type 0) → (ℕ → ℕ) → ℕ → ℕ → ℕ → Type 0
IsUnowned Live place ssectors sbarrier x =
    (x + sbarrier < ssectors) × ((t : ℕ) → Live t → place t ≢ x + sbarrier)

-- No two live sectors share a place in the swap file, and the free places `fs` are none of theirs.
pub record HasPlaces (Live : ℕ → Type 0) (place : ℕ → ℕ) (ssectors sbarrier : ℕ) (smap : ℕ → ℕ)
    (sfree : ℕ) (fs : List ℕ) : Type 0 where
  pub apart : (t u : ℕ) → Live t → Live u → place t ≡ place u → place t ≢ unused → t ≡ u
  pub below : (t : ℕ) → Live t → place t ≢ unused → place t < ssectors
  pub room : ssectors ≤ unused
  pub free : Chain smap sfree fs
  pub unowned : All (IsUnowned Live place ssectors sbarrier) fs

-- The sectors that are in use, `Live`, have their data in slots or in places of their own. The slots
-- `o` are reserved, but their data is not there yet.
pub record IsCoherent (Live : ℕ → Type 0) (d : Device) (fs o : List ℕ) : Type 0 where
  pub numbered : (t : ℕ) → Live t → t ≢ unused
  pub sized : (j : ℕ) → length (d.slots j).bytes ≤ d.sectorsize
  pub file_sized : (w : ℕ) → length (d.file w) ≤ d.sectorsize
  pub held : (j : ℕ) → ((d.slots j).sec ≡ unused) ⊎ Holds Live d j
  pub clean :
      (j : ℕ)
      → NotIn j o
      → (d.slots j).sec ≢ unused
      → (d.slots j).dirty ≡ false
      → (d.slots j).bytes ≡ stored d (d.slots j).swap
  pub places : HasPlaces Live (swap_of d) d.ssectors d.sbarrier d.smap d.sfree fs

module _ (Live : ℕ → Type 0) (ssectors sbarrier : ℕ) (smap : ℕ → ℕ) (sfree : ℕ) (p q : ℕ → ℕ)
    (same : (t : ℕ) → Live t → q t ≡ p t) where
  IsUnowned-same :
      (fs : List ℕ)
      → All (IsUnowned Live p ssectors sbarrier) fs
      → All (IsUnowned Live q ssectors sbarrier) fs
  IsUnowned-same [] a = tt
  IsUnowned-same (x ∷ fs) a =
      ((a.0.0, λ t l e. a.0.1 t l (sym (same t l) ∙ e)), IsUnowned-same fs a.1)

  pub HasPlaces-same :
      (fs : List ℕ)
      → HasPlaces Live p ssectors sbarrier smap sfree fs
      → HasPlaces Live q ssectors sbarrier smap sfree fs
  HasPlaces-same fs v = record {
    apart =
        λ t u a b e n. v.apart t u a b (sym (same t a) ∙ (e ∙ same u b)) (λ g. n (same t a ∙ g));
    below = λ t a n. rw (same t a) (v.below t a (λ g. n (same t a ∙ g)));
    room = v.room;
    free = v.free;
    unowned = IsUnowned-same fs v.unowned;
  }

-- A test that says that a sector is cached, in both directions.
pub is_cached-true :
    (d : Device) (t j : ℕ)
    → d.map t ≡ j
    → j < d.cachesize
    → (d.slots j).sec ≡ t
    → is_cached d t ≡ true
unfolding is_cached
is_cached-true d t j m k e = rw m (ground arith)

pub cached_at :
    (d : Device) (t : ℕ)
    → is_cached d t ≡ true
    → (d.map t < d.cachesize) × ((d.slots (d.map t)).sec ≡ t)
unfolding is_cached
cached_at d t h = ground arith

-- The device with other slots and lists of them.
abbrev pub with_lists : Device → (ℕ → SwapSlot) → Option ℕ → Option ℕ → Option ℕ → Device
with_lists d s first last lfree = record d { slots = s; first = first; last = last; lfree = lfree }

module _ (Live : ℕ → Type 0) (d : Device) (s : ℕ → SwapSlot) (first last lfree : Option ℕ)
    (same : SameData d.slots s) where
  pub is_cached_same : (t : ℕ) → is_cached (with_lists d s first last lfree) t ≡ is_cached d t
  unfolding is_cached
  is_cached_same t = rw (same (d.map t)).0 refl

  swap_of_same : (t : ℕ) → swap_of (with_lists d s first last lfree) t ≡ swap_of d t
  unfolding swap_of
  swap_of_same t = rw (is_cached_same t, (same (d.map t)).1) refl

  pub view_same : (t : ℕ) → view (with_lists d s first last lfree) t ≡ view d t
  unfolding view
  view_same t = rw (is_cached_same t, (same (d.map t)).3) refl

  -- New links and lists keep all data.
  pub IsCoherent-same :
      (fs o : List ℕ)
      → IsCoherent Live d fs o
      → IsCoherent Live (with_lists d s first last lfree) fs o
  IsCoherent-same fs o v = record {
    numbered = v.numbered;
    sized = λ j. rw (same j).3 (v.sized j);
    file_sized = v.file_sized;
    held = λ j. rw (same j).0 (v.held j);
    clean = λ j away used still.
        (same j).3
        ∙ v.clean j away (λ e. used ((same j).0 ∙ e)) (sym (same j).2 ∙ still)
        ∙ ap (stored d) (sym (same j).1);
    places =
        HasPlaces-same Live d.ssectors d.sbarrier d.smap d.sfree (swap_of d)
          (swap_of (with_lists d s first last lfree)) (λ t l. swap_of_same t) fs v.places;
  }

-- Two devices have a sector at the same place.
abbrev pub SamePlace : Device → Device → ℕ → Type 0
SamePlace d d' t =
    (is_cached d' t ≡ is_cached d t)
    × ((d'.slots (d.map t) ≡ d.slots (d.map t)) ⊎ (is_cached d t ≡ false))
    × (d'.map t ≡ d.map t)

pub swap_of-SamePlace : (d d' : Device) (t : ℕ) → SamePlace d d' t → swap_of d' t ≡ swap_of d t
unfolding swap_of
swap_of-SamePlace d d' t (a, inl e, m) = rw (a, m, e) refl
swap_of-SamePlace d d' t (a, inr f, m) = rw (a, f, m) refl

pub view-SamePlace :
    (d d' : Device) (t : ℕ)
    → SamePlace d d' t
    → stored d' (swap_of d t) ≡ stored d (swap_of d t)
    → view d' t ≡ view d t
unfolding view swap_of
view-SamePlace d d' t (a, b, m) f = elim (Bool-cases (is_cached d t)) [
  | inl c ↦ elim b [ inl e ↦ rw (a, m, c, e) refl | inr g ↦ absurd cc ]
  | inr c ↦ rw (a, m, c) (rw c at f)
]
