-- ===== src/Swap/Listed.antt =====
-- The slots of the cache as two lists, and what Swap::load does to them.
use dgd.Prelude.{ℕ, ◌<◌, ◌≡◌, ◌≢◌, sym, ◌∙◌, List, [], ◌∷◌, ◌++◌, none, All}
use dgd.Swap.Device.{Device, SwapSlot, unused}
use dgd.Swap.Cache.{to_front}
use dgd.Swap.Chain.{NotIn, Unique, head_or, last_or, Linked, Queued, Unique-apart}
use dgd.Swap.Relink.{SameData, SameOutside, to_front_lem}

-- The slots `l` hold sectors, the last used one first, and the slots `f` are free.
pub record IsListed (s : ℕ → SwapSlot) (n : ℕ) (l f : List ℕ) : Type 0 where
  pub chain : Linked s none l none
  pub queue : Queued s f
  pub once : Unique (l ++ f)
  pub idle : (j : ℕ) → NotIn j l → (s j).sec ≡ unused
  pub full : All (λ j. (s j).sec ≢ unused) l
  pub fits : All (λ j. j < n) f

pub Queued-outside :
    (s s' : ℕ → SwapSlot) (l f : List ℕ)
    → SameOutside l s s'
    → All (λ j. NotIn j l) f
    → Queued s f
    → Queued s' f
Queued-outside s s' l [] same away q = tt
Queued-outside s s' l (j ∷ f) same away q =
    (rw (same j away.0) q.0, Queued-outside s s' l f same away.1 q.1)

pub All-same :
    (s s' : ℕ → SwapSlot) (l : List ℕ)
    → SameData s s'
    → All (λ j. (s j).sec ≢ unused) l
    → All (λ j. (s' j).sec ≢ unused) l
All-same s s' [] same a = tt
All-same s s' (j ∷ l) same a = ((λ e. a.0 (sym (same j).0 ∙ e)), All-same s s' l same a.1)

NotIn-heads : (k : ℕ) (l f : List ℕ) → All (λ j. NotIn j (k ∷ f)) l → NotIn k l
NotIn-heads k [] f a = tt
NotIn-heads k (j ∷ l) f a = ((λ e. a.0.0 (sym e)), NotIn-heads k l f a.1)

All-tails : (k : ℕ) (l f : List ℕ) → All (λ j. NotIn j (k ∷ f)) l → All (λ j. NotIn j f) l
All-tails k [] f a = tt
All-tails k (j ∷ l) f a = (a.0.1, All-tails k l f a.1)

pub NotIn-sym : (l f : List ℕ) → All (λ j. NotIn j f) l → All (λ j. NotIn j l) f
NotIn-sym l [] a = tt
NotIn-sym l (k ∷ f) a = (NotIn-heads k l f a, NotIn-sym l f (All-tails k l f a))

-- The device with these lists.
abbrev pub listed : Device → (ℕ → SwapSlot) → List ℕ → List ℕ → Device
listed d s l f = record d {
  slots = s;
  first = head_or l none;
  last = last_or none l;
  lfree = head_or f none;
}

-- A slot is put in front of the others.
pub front_lem :
    (d : Device) (s : ℕ → SwapSlot) (n i : ℕ) (l f : List ℕ)
    → Linked s none l none
    → Queued s f
    → Unique (i ∷ (l ++ f))
    → ((j : ℕ) → NotIn j (i ∷ l) → (s j).sec ≡ unused)
    → All (λ j. (s j).sec ≢ unused) (i ∷ l)
    → All (λ j. j < n) f
    → (s' : ℕ → SwapSlot) × (to_front (listed d s l f) i ≡ listed d s' (i ∷ l) f)
      × IsListed s' n (i ∷ l) f
      × SameData s s'
front_lem d s n i l f c q u empty full fits =
    let (away, once) = u in
    let (apart, ul, uf) = Unique-apart (i ∷ l) f u in
    let (s', e, c', same, out) = to_front_lem (record d { lfree = head_or f none }) s i l c ul in
    (
      s',
      e,
      record {
        chain = c';
        queue = Queued-outside s s' (i ∷ l) f out (NotIn-sym (i ∷ l) f apart) q;
        once = u;
        idle = λ j a. (same j).0 ∙ empty j a;
        full = All-same s s' (i ∷ l) same full;
        fits = fits;
      },
      same,
    )
