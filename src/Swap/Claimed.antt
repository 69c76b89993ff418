-- ===== src/Swap/Claimed.antt =====
-- Swap::load in its three cases, as one step each.
use dgd.Prelude.{ℕ, ◌≡◌, refl, ap, ◌∙◌, List, ◌∷◌, none, some, Bool, true, false, update}
use dgd.Swap.Device.{Device, SwapSlot, is_cached}
use dgd.Swap.Cache.{
  load, bring_in, claim, evict, to_front, unchain, contents, without_last, write_back, ◌>>=◌,
}
use dgd.Swap.Chain.{head_or}
use dgd.Swap.Listed.{listed}
use dgd.Swap.Brought.{brought}

-- What is put in front after `claim` returned the slot.
bring_claimed :
    (d a : Device) (s : ℕ → SwapSlot) (l f : List ℕ) (sec i : ℕ) (fill : Bool)
    → claim d ≡ some (listed a s l f, i)
    → a.map sec ≡ d.map sec
    → bring_in d sec false fill
      ≡ some (
        listed (record a { map = update a.map sec i }) (update s i (brought a s i sec fill)) l f,
        i,
      )
unfolding bring_in contents
bring_claimed d a s l f sec i fill e m = rw (e, ← m) refl

pub load_claimed :
    (d a : Device) (s : ℕ → SwapSlot) (l f : List ℕ) (sec i : ℕ) (fill : Bool) (r : Device)
    → is_cached d sec ≡ false
    → claim d ≡ some (listed a s l f, i)
    → a.map sec ≡ d.map sec
    → to_front
        (listed (record a { map = update a.map sec i }) (update s i (brought a s i sec fill)) l f)
        i
      ≡ r
    → load d sec false fill ≡ some (r, i)
unfolding load
load_claimed d a s l f sec i fill r away e m run =
    rw (away, bring_claimed d a s l f sec i fill e m) (ap (λ x. some (x, i)) run)

pub claim_free :
    (d : Device) (s : ℕ → SwapSlot) (l : List ℕ) (i : ℕ) (f : List ℕ)
    → (s i).next ≡ head_or f none
    → claim (listed d s l (i ∷ f)) ≡ some (listed d s l f, i)
unfolding claim
claim_free d s l i f next = rw next refl

pub claim_oldest :
    (d d1 a : Device) (i : ℕ)
    → d.lfree ≡ none
    → d.last ≡ some i
    → without_last d (d.slots i).prev ≡ d1
    → write_back d1 i ≡ some (a, i)
    → claim d ≡ some (a, i)
unfolding claim evict
claim_oldest d d1 a i free last e w =
    let start : claim d ≡ evict d = rw free refl in
    start
    ∙ (ap (λ o. o >>= (λ k. write_back (without_last d (d.slots k).prev) k)) last
        ∙ (ap (λ x. write_back x i) e ∙ w))

load_here :
    (d : Device) (sec : ℕ) (fill : Bool)
    → is_cached d sec ≡ true
    → load d sec false fill ≡ some (to_front (unchain d (d.map sec)) (d.map sec), d.map sec)
unfolding load
load_here d sec fill here = rw here refl

pub load_cached :
    (d d1 d2 : Device) (sec i : ℕ) (fill : Bool)
    → is_cached d sec ≡ true
    → d.map sec ≡ i
    → unchain d i ≡ d1
    → to_front d1 i ≡ d2
    → load d sec false fill ≡ some (d2, i)
load_cached d d1 d2 sec i fill here at e1 e2 =
    load_here d sec fill here
    ∙ (ap (λ j. some (to_front (unchain d j) j, j)) at
        ∙ (ap (λ x. some (to_front x i, i)) e1 ∙ ap (λ x. some (x, i)) e2))
