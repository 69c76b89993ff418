-- ===== src/Swap/Tests.antt =====
-- Runs of the swap device, and the theorems at concrete devices.
use dgd.Prelude.{ℕ, ◌≤◌, ◌≡◌, refl, List, [], ◌∷◌, Option, some, none, arith, ◌==◌, if◌then◌else◌}
use dgd.Swap.Device.{Device, init, unused, mapsize}
use dgd.Swap.Size.{Holds, mapsize_least}
use dgd.Swap.Cache.{writev, readv}
use dgd.Prelude.{replicate, ◌<◌}
use dgd.Hash.{hashchar}
use dgd.Swap.Compress.{
  compress, compress_from, decompress, code, flush, put_bytes, push_hit, push_miss, hash_next,
}
use dgd.Swap.Decoded.{decompress-compress}
use dgd.Swap.Shorter.{length-compress}

mapsize_least_example :
    (n : ℕ) × (mapsize 512 3000 ≡ some n) × Holds 512 3000 n × ((k : ℕ) → Holds 512 3000 k → n ≤ k)
mapsize_least_example = mapsize_least 512 3000 10 (omega arith) (omega arith) (omega arith)

-- A device with ten sectors, five of them allocated, of which 3 and 1 are free.
abbrev used : Device
used = record (init 10 4 (λ _. unused)) {
  nsectors = 5;
  nfree = 2;
  mfree = 3;
  map = λ i. if i == 3 then 1 else unused;
}

-- Data that is written over two sectors is read back.
written : Option (List ℕ)
written = elim (writev used (0 ∷ 2 ∷ []) (10 ∷ 11 ∷ 12 ∷ 13 ∷ 14 ∷ []) 1) [
  | none ↦ none
  | some d ↦ elim (readv d (0 ∷ 2 ∷ []) 4 2) [ none ↦ none | some (e, m) ↦ some m ]
]

written_back : written ≡ some (11 ∷ 12 ∷ 13 ∷ 14 ∷ [])
unfolding written writev readv
written_back = refl

-- Sixteen bytes that become seven: one that is not predicted, and fifteen that are.
abbrev data16 : List ℕ
data16 = 1 ∷ replicate 15 0

abbrev packed : List ℕ
packed = 0 ∷ 0 ∷ 0 ∷ 16 ∷ 3 ∷ 0 ∷ 0 ∷ []

compress_runs : compress data16 ≡ some packed
unfolding compress compress_from code flush put_bytes push_hit push_miss hash_next hashchar
compress_runs = refl

decompress-compress_example : decompress 17 packed ≡ some (data16, 16)
decompress-compress_example =
    decompress-compress data16 17 packed (omega arith) (omega arith) (omega arith) compress_runs

length-compress_example : 7 < 16
length-compress_example = length-compress data16 packed compress_runs
