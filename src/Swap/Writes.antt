-- ===== src/Swap/Writes.antt =====
-- Swap::writev: data goes into a vector of sectors.
use mathlib.Core.List.{append-nil}
use dgd.Prelude.{
  ℕ, length, ◌+◌, ◌≤◌, ◌<◌, ◌≡◌, ◌≢◌, ◌⊎◌, inl, inr, refl, sym, subst, ◌∙◌, List, [], ◌∷◌, ◌++◌,
  some, Bool, true, false, not, arith, ◌==◌, take, drop, length-append, length-take, length-drop,
  drop_all,
}
use dgd.Swap.Device.{Device, unused}
use dgd.Swap.Cache.{write_from, load, chunk, copy_at}
use dgd.Swap.Coherent.{view}
use dgd.Swap.Brought.{opened}
use dgd.Swap.Loaded.{IsCache}
use dgd.Swap.Recent.{load_Loads}
use dgd.Swap.Transfer.{view_slot}
use dgd.Swap.Written.{written_to, IsCache-written, view-written, view-written_other}

length-copy_at :
    (old : List ℕ) (idx : ℕ) (m : List ℕ) (s : ℕ)
    → length old ≤ s
    → idx + length m ≤ s
    → length (copy_at old idx m) ≤ s
length-copy_at old idx m s h k =
    let a = length-append (take idx old) (m ++ drop (idx + length m) old) in
    let b = length-append m (drop (idx + length m) old) in
    let c = length-take idx old in let e = length-drop (idx + length m) old in omega arith

pub length-copy_at_whole :
    (old : List ℕ) (idx : ℕ) (m : List ℕ)
    → idx + length m ≤ length old
    → length (copy_at old idx m) ≡ length old
length-copy_at_whole old idx m k =
    let a = length-append (take idx old) (m ++ drop (idx + length m) old) in
    let b = length-append m (drop (idx + length m) old) in
    let c = length-take idx old in let e = length-drop (idx + length m) old in omega arith

-- Data as long as the sector leaves nothing of what was there.
copy_at-all : (old m : List ℕ) → length old ≤ length m → copy_at old 0 m ≡ m
copy_at-all old m h =
    let k : 0 + length m ≡ length m = omega arith in
    rw (k, drop_all (length m) old h) (append-nil m)

-- It makes no difference that a sector was not read that is overwritten whole.
copied :
    (old data1 : List ℕ) (idx s : ℕ) (p : List ℕ)
    → length old ≤ s
    → length data1 ≡ s
    → idx + length p ≤ s
    → (old ≡ data1) ⊎ (length p ≡ s)
    → copy_at old idx p ≡ copy_at data1 idx p
copied old data1 idx s p h k b (inl e) = rw e refl
copied old data1 idx s p h k b (inr e) =
    let z : idx ≡ 0 = omega arith in
    subst (λ n. copy_at old n p ≡ copy_at data1 n p) (sym z)
      (copy_at-all old p (omega arith) ∙ sym (copy_at-all data1 p (omega arith)))

-- The device after a round in which `p` went into `sec`, at `idx`.
abbrev pub Round : (ℕ → Type 0) → Device → ℕ → ℕ → List ℕ → Device → Type 0
Round Live d sec idx p d2 =
    (l : List ℕ) × (f : List ℕ) × (fs : List ℕ) × IsCache Live d2 l f fs []
    × (l ++ f ≢ [])
    × (view d2 sec ≡ copy_at (view d sec) idx p)
    × ((t : ℕ) → Live t → sec ≢ t → view d2 t ≡ view d t)
    × (d2.sectorsize ≡ d.sectorsize)
    × (d2.ssectors ≤ d.ssectors + 1)

module _ (Live : ℕ → Type 0) (d : Device) (sec idx : ℕ) (p : List ℕ) (fill : Bool) (live : Live sec)
    (long : length (view d sec) ≡ d.sectorsize) (fits : idx + length p ≤ d.sectorsize)
    (given : (fill ≡ true) ⊎ (length p ≡ d.sectorsize)) where
  loaded_Round :
      (d1 : Device) (i : ℕ) (l f fs : List ℕ)
      → IsCache Live d1 (i ∷ l) f fs (opened fill i)
      → (d1.slots i).sec ≡ sec
      → ((t : ℕ) → Live t → (fill ≡ true) ⊎ (sec ≢ t) → view d1 t ≡ view d t)
      → d1.sectorsize ≡ d.sectorsize
      → d1.ssectors ≤ d.ssectors + 1
      → Round Live d sec idx p (written_to d1 i (copy_at (d1.slots i).bytes idx p))
  loaded_Round d1 i l f fs v its views same more =
      let old = (d1.slots i).bytes in
      let small = v.coherent.sized i in
      let size = length-copy_at old idx p d1.sectorsize small (omega (arith, same)) in
      let here = view_slot Live d1 fs (opened fill i) sec i v.coherent live its in
      let kept : (old ≡ view d sec) ⊎ (length p ≡ d.sectorsize) = elim given [
        | inl e ↦ inl (sym here ∙ views sec live (inl e))
        | inr e ↦ inr e
      ] in
      (
        i ∷ l,
        f,
        fs,
        IsCache-written Live d1 i l f fs fill sec v live its (copy_at old idx p) size,
        (λ e. cc),
        view-written Live d1 i l f fs fill sec v live its (copy_at old idx p) size
            ∙ copied old (view d sec) idx d.sectorsize p (omega (arith, same)) long fits kept,
        (λ t lt o.
            view-written_other Live d1 i l f fs fill sec v live its (copy_at old idx p) size t lt o
            ∙ views t lt (inr o)),
        same,
        more,
      )

  pub write-Round :
      (l f fs : List ℕ)
      → IsCache Live d l f fs []
      → l ++ f ≢ []
      → d.ssectors < unused
      → (d1 : Device) × (i : ℕ) × (load d sec false fill ≡ some (d1, i))
        × Round Live d sec idx p (written_to d1 i (copy_at (d1.slots i).bytes idx p))
  write-Round l f fs v some_slot room =
      let (d1, i, l1, f1, fs1, run, v1, its, taken, views, same, more) =
        load_Loads Live d sec fill l f fs v live room some_slot in
      (d1, i, run, loaded_Round d1 i l1 f1 fs1 v1 its views same more)

-- A round of the loop, the last one or not.
module _ (d d1 : Device) (i sec : ℕ) (vec m : List ℕ) (idx : ℕ)
    (run : load d sec false (not (chunk d (length m) idx == d.sectorsize)) ≡ some (d1, i)) where
  abbrev pub after : Device
  after = written_to d1 i (copy_at (d1.slots i).bytes idx (take (chunk d (length m) idx) m))

  pub write_last :
      (length m == chunk d (length m) idx) ≡ true → write_from d (sec ∷ vec) m idx ≡ some after
  unfolding write_from
  write_last done = rw (run, done) refl

  pub write_more :
      (d2 : Device)
      → (length m == chunk d (length m) idx) ≡ false
      → write_from after vec (drop (chunk d (length m) idx) m) 0 ≡ some d2
      → write_from d (sec ∷ vec) m idx ≡ some d2
  unfolding write_from
  write_more d2 left rest = rw (run, left) rest
