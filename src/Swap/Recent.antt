-- ===== src/Swap/Recent.antt =====
-- Swap::load keeps the cache coherent, and its slots in the order of use.
use dgd.Prelude.{
  ℕ, ◌<◌, ◌≡◌, ◌≢◌, inl, inr, refl, sym, subst, ◌∙◌, List, [], ◌∷◌, ◌++◌, Bool, true, false,
  Bool-cases,
}
use dgd.Swap.Device.{Device, unused, is_cached}
use dgd.Swap.Chain.{split_at}
use dgd.Swap.Coherent.{IsCoherent, cached_at}
use dgd.Swap.Listed.{IsListed, listed}
use dgd.Swap.Loaded.{IsCache, Loads, free_Loads, again_Loads, oldest_Loads}

last_split : (i : ℕ) (l : List ℕ) → (xs : List ℕ) × (j : ℕ) × (i ∷ l ≡ xs ++ j ∷ [])
last_split i [] = ([], i, refl)
last_split i (k ∷ l) = let (xs, j, e) = last_split k l in (i ∷ xs, j, rw e refl)

module _ (Live : ℕ → Type 0) (d : Device) (sec : ℕ) (fill : Bool) (fs : List ℕ)
    (live : Live sec) where
  -- What a load of a listed device needs.
  abbrev Ends : List ℕ → List ℕ → Type 0
  Ends l f =
      IsListed d.slots d.cachesize l f
      → IsCoherent Live (listed d d.slots l f) fs []
      → Loads Live (listed d d.slots l f) sec fill l f

  cached_Ends : (l f : List ℕ) → is_cached d sec ≡ true → Ends l f
  unfolding is_cached
  cached_Ends l f here ls v =
      let at = (cached_at d sec here).1 in
      elim (split_at (d.map sec) l) [
        | inl (xs, ys, e) ↦
            subst (λ k. Ends k f) (sym e)
              (λ ls' v'.
                again_Loads Live d d.slots sec fill fs live xs (d.map sec) ys f ls' v' here refl at)
              ls v
        | inr out ↦ absurd (v.numbered sec live (sym at ∙ ls.idle (d.map sec) out))
      ]

  uncached_Ends :
      (l f : List ℕ) → is_cached d sec ≡ false → d.ssectors < unused → l ++ f ≢ [] → Ends l f
  unfolding is_cached
  uncached_Ends l (i ∷ f) away room some_slot ls v =
      free_Loads Live d d.slots sec fill fs live l i f ls v away
  uncached_Ends [] [] away room some_slot ls v = absurd (some_slot refl)
  uncached_Ends (i ∷ l) [] away room some_slot ls v =
      let (xs, j, e) = last_split i l in
      subst (λ k. Ends k []) (sym e)
        (λ ls' v'. oldest_Loads Live d d.slots sec fill fs live xs j ls' v' away room) ls v

-- A sector that is in use can be loaded, if the cache has a slot and the swap file has room for one
-- sector more. The cache is coherent again, with the sector in its first slot: the slot that it had,
-- or else the first of the free ones, or else the one that was not used for longest. The other slots
-- keep their order, and every sector that is in use keeps its data, where it was asked for.
pub load_Loads :
    (Live : ℕ → Type 0) (d : Device) (sec : ℕ) (fill : Bool) (l f fs : List ℕ)
    → IsCache Live d l f fs []
    → Live sec
    → d.ssectors < unused
    → l ++ f ≢ []
    → Loads Live d sec fill l f
load_Loads Live d sec fill l f fs v live room some_slot =
    let whole : d ≡ listed d d.slots l f =
      λ k. record d { first = v.first k; last = v.last k; lfree = v.lfree k } in
    let coherent = subst (λ x. IsCoherent Live x fs []) whole v.coherent in
    subst (λ x. Loads Live x sec fill l f) (sym whole)
      (elim (Bool-cases (is_cached d sec)) [
        | inl here ↦ cached_Ends Live d sec fill fs live l f here v.lists coherent
        | inr away ↦ uncached_Ends Live d sec fill fs live l f away room some_slot v.lists coherent
      ])
