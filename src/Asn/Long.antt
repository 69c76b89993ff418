-- ===== src/Asn/Long.antt =====
-- Asi::mult: the product of numbers of any sizes, from those that Asi::multInner makes.
use dgd.Prelude.{
  ℕ, zero, suc, ◌+◌, ◌-◌, List, ◌++◌, ltb, ◌==◌, if◌then◌else◌, length, take, drop, replicate,
}
use dgd.Asn.{add}
use dgd.Asn.Mult.{mult_inner}

-- `z.size = t1.size; z.add(t1);` on the words from `z.num` on
unfoldable pub add_low : List ℕ → List ℕ → List ℕ
add_low z t = (add (take (length t) z) t).0 ++ drop (length t) z

-- The loop of Asi::mult and what follows it, on the words from `z.num` on
unfoldable pub mult_loop : ℕ → List ℕ → List ℕ → List ℕ → List ℕ
mult_loop zero z a b = z
mult_loop (suc fuel) z a b =
    let longer = if ltb (length a) (length b) then b else a in
    let shorter = if ltb (length a) (length b) then a else b in
    let sz = length shorter in
    let last = add_low z (mult_inner longer shorter) in
    let next = add_low z (mult_inner (take sz longer) shorter) in
    let rest = mult_loop fuel (drop sz next) (drop sz longer) shorter in
    if length a == length b
    then last
    else if length longer - sz == 1
    then last
    else take sz next ++ rest

-- Asi::mult
unfoldable pub mult : List ℕ → List ℕ → List ℕ
mult x y = mult_loop (length x + length y) (replicate (length x + length y) 0) x y
