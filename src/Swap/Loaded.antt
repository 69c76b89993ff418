-- ===== src/Swap/Loaded.antt =====
-- What Swap::load does to a coherent cache.
use mathlib.Core.List.{append_assoc, append-nil}
use dgd.Prelude.{
  ℕ, ◌+◌, ◌≤◌, ◌<◌, ◌≡◌, ◌≢◌, ◌⊎◌, inl, inr, refl, sym, ap, subst, ◌∙◌, List, [], ◌∷◌, ◌++◌, none,
  some, Bool, true, false, arith, update, All,
}
use dgd.Swap.Device.{Device, SwapSlot, unused, is_cached}
use dgd.Swap.Cache.{load}
use dgd.Swap.Chain.{
  Unique, head_or, last_or, NotIn-both, Unique-move, Unique-apart, All-move, All-back,
  last_or-append,
}
use dgd.Swap.Relink.{SameData, SameData-trans, unchain_lem, without_last_lem}
use dgd.Swap.Coherent.{
  view, IsCoherent, IsCoherent-same, view_same, is_cached_same, Holds, is_cached-true,
}
use dgd.Swap.Emptied.{SamePlace-emptied, IsCoherent-emptied, view-emptied}
use dgd.Swap.Saved.{write_back-IsSaved}
use dgd.Swap.Listed.{IsListed, listed, front_lem, Queued-outside, NotIn-sym, All-same}
use dgd.Swap.Claimed.{load_claimed, claim_free, claim_oldest, load_cached}
use dgd.Swap.Brought.{opened, bring_lem}

-- The cache is coherent, with its slots in the lists `l` and `f`.
pub record IsCache (Live : ℕ → Type 0) (d : Device) (l f fs o : List ℕ) : Type 0 where
  pub first : d.first ≡ head_or l none
  pub last : d.last ≡ last_or none l
  pub lfree : d.lfree ≡ head_or f none
  pub lists : IsListed d.slots d.cachesize l f
  pub coherent : IsCoherent Live d fs o

-- Slot `i` is taken: again, from the free slots, or the least recently used one.
abbrev pub Taken : Bool → List ℕ → List ℕ → ℕ → List ℕ → List ℕ → Type 0
Taken true l f i l' f' =
    (xs : List ℕ) × (ys : List ℕ) × (l ≡ xs ++ i ∷ ys) × (l' ≡ xs ++ ys) × (f' ≡ f)
Taken false l f i l' f' = ((f ≡ i ∷ f') × (l' ≡ l)) ⊎ ((f ≡ []) × (l ≡ l' ++ i ∷ []) × (f' ≡ []))

-- A load of `sec` ends in such a cache, and all sectors keep their data.
abbrev pub Loads : (ℕ → Type 0) → Device → ℕ → Bool → List ℕ → List ℕ → Type 0
Loads Live d sec fill l f =
    (d' : Device) × (i : ℕ) × (l' : List ℕ) × (f' : List ℕ) × (fs' : List ℕ) × (load d sec false
        fill
      ≡ some (d', i))
    × IsCache Live d' (i ∷ l') f' fs' (opened fill i)
    × ((d'.slots i).sec ≡ sec)
    × Taken (is_cached d sec) l f i l' f'
    × ((t : ℕ) → Live t → (fill ≡ true) ⊎ (sec ≢ t) → view d' t ≡ view d t)
    × (d'.sectorsize ≡ d.sectorsize)
    × (d'.ssectors ≤ d.ssectors + 1)

again_once :
    (xs : List ℕ) (i : ℕ) (ys f : List ℕ)
    → Unique ((xs ++ i ∷ ys) ++ f)
    → Unique (i ∷ ((xs ++ ys) ++ f))
again_once xs i ys f u =
    rw (append_assoc xs ys f) (Unique-move xs i (ys ++ f) (rw (append_assoc xs (i ∷ ys) f) at u))

IsCoherent-weaken :
    (Live : ℕ → Type 0) (d : Device) (fs o : List ℕ)
    → IsCoherent Live d fs []
    → IsCoherent Live d fs o
IsCoherent-weaken Live d fs o v = record {
  numbered = v.numbered;
  sized = v.sized;
  file_sized = v.file_sized;
  held = v.held;
  clean = λ j a. v.clean j tt;
  places = v.places;
}

empty_same :
    (s : ℕ → SwapSlot) (i : ℕ)
    → (s i).sec ≡ unused
    → SameData s (update s i (record (s i) { sec = unused }))
empty_same s i e j = ground arith

module _ (Live : ℕ → Type 0) (d : Device) (s : ℕ → SwapSlot) (sec : ℕ) (fill : Bool) (fs : List ℕ)
    (live : Live sec) where
  -- The slot is the first of the free ones.
  pub free_Loads :
      (l : List ℕ) (i : ℕ) (f : List ℕ)
      → IsListed s d.cachesize l (i ∷ f)
      → IsCoherent Live (listed d s l (i ∷ f)) fs []
      → is_cached (listed d s l (i ∷ f)) sec ≡ false
      → Loads Live (listed d s l (i ∷ f)) sec fill l (i ∷ f)
  free_Loads l i f ls v away =
      let once = Unique-move l i f ls.once in
      let out = (NotIn-both i l f once.0).0 in
      let none_in = ls.idle i out in
      let same = empty_same s i none_in in
      let first = head_or l none in
      let last = last_or none l in
      let whole = listed d s l (i ∷ f) in
      let empty_at = update s i (record (s i) { sec = unused }) in
      let (s', run, lists, co, its, views) =
        bring_lem Live d s l f fs i sec ls.chain ls.queue.1 once (λ j a. ls.idle j a.1) ls.full
          ls.fits.1 ls.fits.0 fill
          (IsCoherent-same Live whole empty_at first last (head_or f none) same fs [] v)
          (is_cached_same Live whole empty_at first last (head_or f none) same sec ∙ away) live in
      (
        listed (record d { map = update d.map sec i }) s' (i ∷ l) f,
        i,
        l,
        f,
        fs,
        load_claimed whole d s l f sec i fill
            (listed (record d { map = update d.map sec i }) s' (i ∷ l) f) away
            (claim_free d s l i f ls.queue.0) refl run,
        record { first = refl; last = refl; lfree = refl; lists = lists; coherent = co },
        its,
        rw away (inl (refl, refl)),
        (λ t lt given.
            views t lt given ∙ view_same Live whole empty_at first last (head_or f none) same t),
        refl,
        omega arith,
      )

  -- The sector had a slot.
  pub again_Loads :
      (xs : List ℕ) (i : ℕ) (ys f : List ℕ)
      → IsListed s d.cachesize (xs ++ i ∷ ys) f
      → IsCoherent Live (listed d s (xs ++ i ∷ ys) f) fs []
      → is_cached (listed d s (xs ++ i ∷ ys) f) sec ≡ true
      → d.map sec ≡ i
      → (s i).sec ≡ sec
      → Loads Live (listed d s (xs ++ i ∷ ys) f) sec fill (xs ++ i ∷ ys) f
  again_Loads xs i ys f ls v here at its =
      let whole = listed d s (xs ++ i ∷ ys) f in
      let l = xs ++ ys in
      let once : Unique (i ∷ (l ++ f)) = again_once xs i ys f ls.once in
      let (apart, ul, uf) = Unique-apart (i ∷ l) f once in
      let (s1, e1, c1, same1, out1) =
        unchain_lem (record d { lfree = head_or f none }) s xs i ys ls.chain
          (Unique-apart (xs ++ i ∷ ys) f ls.once).1 in
      let (s2, run, lists, same2) =
        front_lem d s1 d.cachesize i l f c1
          (Queued-outside s s1 l f out1 (NotIn-sym l f apart.1) ls.queue) once
          (λ j a. (same1 j).0 ∙ ls.idle j (All-back (λ k. j ≢ k) xs i ys a))
          (All-same s s1 (i ∷ l) same1 (All-move (λ j. (s j).sec ≢ unused) xs i ys ls.full))
          ls.fits in
      let same = SameData-trans s s1 s2 same1 same2 in
      let first = some i in
      let last = last_or none (i ∷ l) in
      (
        listed d s2 (i ∷ l) f,
        i,
        l,
        f,
        fs,
        load_cached whole (listed d s1 l f) (listed d s2 (i ∷ l) f) sec i fill here at e1 run,
        record {
          first = refl;
          last = refl;
          lfree = refl;
          lists = lists;
          coherent =
              IsCoherent-weaken Live (listed d s2 (i ∷ l) f) fs (opened fill i)
                (IsCoherent-same Live whole s2 first last (head_or f none) same fs [] v);
        },
        (same i).0 ∙ its,
        rw here (xs, ys, refl, refl, refl),
        (λ t lt given. view_same Live whole s2 first last (head_or f none) same t),
        refl,
        omega arith,
      )

  -- There is no free slot, and the last one of the list is taken.
  pub oldest_Loads :
      (l : List ℕ) (i : ℕ)
      → IsListed s d.cachesize (l ++ i ∷ []) []
      → IsCoherent Live (listed d s (l ++ i ∷ []) []) fs []
      → is_cached (listed d s (l ++ i ∷ []) []) sec ≡ false
      → d.ssectors < unused
      → Loads Live (listed d s (l ++ i ∷ []) []) sec fill (l ++ i ∷ []) []
  oldest_Loads l i ls v away room =
      let whole = listed d s (l ++ i ∷ []) [] in
      let first = head_or l none in
      let last = last_or none l in
      let once =
        subst (λ z. Unique (i ∷ (z ++ []))) (append-nil l) (again_once l i [] [] ls.once) in
      let (s1, e1, c1, same, out) =
        without_last_lem (record d { lfree = none }) s l i ls.chain
          (Unique-apart (l ++ i ∷ []) [] ls.once).1 in
      let d1 = listed d s1 l [] in
      let v1 = IsCoherent-same Live whole s1 first last none same fs [] v in
      let full1 =
        All-same s s1 (i ∷ (l ++ [])) same (All-move (λ j. (s j).sec ≢ unused) l i [] ls.full) in
      let its : Holds Live d1 i = elim (v1.held i) [ inl e ↦ absurd (full1.0 e) | inr h ↦ h ] in
      let (save, file, sfree, ss, fs', eW, w, more) = write_back-IsSaved Live d1 fs v1 i its room in
      let away1 : is_cached d1 sec ≡ false =
        is_cached_same Live whole s1 first last none same sec ∙ away in
      let other : (s1 i).sec ≢ sec = λ e.
        (let c : is_cached d1 sec ≡ true =
            is_cached-true d1 sec i (ap d.map (sym e) ∙ its.2) its.1 e in
          absurd cc) in
      let a = record d {
        map = update d.map (s1 i).sec save;
        file = file;
        sfree = sfree;
        ssectors = ss;
      } in
      let place =
        SamePlace-emptied Live d1 fs v1 i its.0 save file sfree ss fs' w sec (v.numbered sec live)
          other in
      let (s', run, lists, co, got, views) =
        bring_lem Live a s1 l [] fs' i sec c1 tt once
          (λ j b.
            (same j).0
            ∙ ls.idle j (
                All-back (λ k. j ≢ k) l i []
                  (b.0, subst (All (λ k. j ≢ k)) (sym (append-nil l)) b.1)))
          (subst (All (λ j. (s1 j).sec ≢ unused)) (append-nil l) full1.1) tt its.1 fill
          (IsCoherent-emptied Live d1 fs v1 i its.0 save file sfree ss fs' w) (place.0 ∙ away1)
          live in
      (
        listed (record a { map = update a.map sec i }) s' (i ∷ l) [],
        i,
        l,
        [],
        fs',
        load_claimed whole a s1 l [] sec i fill
            (listed (record a { map = update a.map sec i }) s' (i ∷ l) []) away
            (claim_oldest whole d1 (listed a s1 l []) i refl (last_or-append none l i []) e1 eW)
            place.2 run,
        record { first = refl; last = refl; lfree = refl; lists = lists; coherent = co },
        got,
        rw away (inr (refl, refl, refl)),
        (λ t lt given.
            views t lt given
            ∙ (view-emptied Live d1 fs v1 i its.0 save file sfree ss fs' w t lt
                ∙ view_same Live whole s1 first last none same t)),
        refl,
        more,
      )
