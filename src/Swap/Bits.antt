-- ===== src/Swap/Bits.antt =====
-- Arithmetic on the bits that wait in a register of 16 bits.
use dgd.Prelude.{ℕ, zero, suc, ◌+◌, ◌-◌, ◌*◌, ◌/◌, ◌%◌, ◌^◌, ◌≤◌, ◌<◌, ◌≡◌, arith}
use dgd.Swap.Compress.{push_hit, push_miss}

-- A statement on the numbers up to 8.
upto_8 :
    (P : ℕ → Type 0) → P 0 → P 1 → P 2 → P 3 → P 4 → P 5 → P 6 → P 7 → P 8 → (b : ℕ) → b ≤ 8 → P b
upto_8 P p0 p1 p2 p3 p4 p5 p6 p7 p8 zero h = p0
upto_8 P p0 p1 p2 p3 p4 p5 p6 p7 p8 (suc zero) h = p1
upto_8 P p0 p1 p2 p3 p4 p5 p6 p7 p8 (suc (suc zero)) h = p2
upto_8 P p0 p1 p2 p3 p4 p5 p6 p7 p8 (suc (suc (suc zero))) h = p3
upto_8 P p0 p1 p2 p3 p4 p5 p6 p7 p8 (suc (suc (suc (suc zero)))) h = p4
upto_8 P p0 p1 p2 p3 p4 p5 p6 p7 p8 (suc (suc (suc (suc (suc zero))))) h = p5
upto_8 P p0 p1 p2 p3 p4 p5 p6 p7 p8 (suc (suc (suc (suc (suc (suc zero)))))) h = p6
upto_8 P p0 p1 p2 p3 p4 p5 p6 p7 p8 (suc (suc (suc (suc (suc (suc (suc zero))))))) h = p7
upto_8 P p0 p1 p2 p3 p4 p5 p6 p7 p8 (suc (suc (suc (suc (suc (suc (suc (suc zero)))))))) h = p8
upto_8 P p0 p1 p2 p3 p4 p5 p6 p7 p8 (suc (suc (suc (suc (suc (suc (suc (suc (suc b))))))))) h =
    absurd (omega arith)

abbrev pub waiting : ℕ → ℕ → ℕ
waiting buf b = buf / 2 ^ (16 - b)

pub hit_value :
    (b buf d : ℕ)
    → b ≤ 8
    → waiting (push_hit buf) (b + 1) + 2 ^ (b + 1) * d ≡ waiting buf b + 2 ^ b * (2 * d)
unfolding push_hit
hit_value b buf d h =
    upto_8 (λ b. waiting (push_hit buf) (b + 1) + 2 ^ (b + 1) * d ≡ waiting buf b + 2 ^ b * (2 * d))
      (omega arith) (omega arith) (omega arith) (omega arith) (omega arith) (omega arith)
      (omega arith) (omega arith) (omega arith) b h

pub miss_value :
    (b buf c d : ℕ)
    → b ≤ 8
    → b ≤ 7
    → buf < 65536
    → c < 256
    → waiting (push_miss buf c) (b + 9) + 2 ^ (b + 9) * d
      ≡ waiting buf b + 2 ^ b * (1 + 2 * c + 512 * d)
unfolding push_miss
miss_value b buf c d up l h k =
    upto_8
      (λ b.
        b ≤ 7
        → buf < 65536
        → c < 256
        → waiting (push_miss buf c) (b + 9) + 2 ^ (b + 9) * d
          ≡ waiting buf b + 2 ^ b * (1 + 2 * c + 512 * d))
      (λ l h k. omega arith) (λ l h k. omega arith) (λ l h k. omega arith) (λ l h k. omega arith)
      (λ l h k. omega arith) (λ l h k. omega arith) (λ l h k. omega arith) (λ l h k. omega arith)
      (λ l h k. omega arith) b up l h k

pub last_value :
    (b buf : ℕ)
    → b ≤ 8
    → b ≤ 7
    → buf < 65536
    → (waiting buf b + 255 * 2 ^ b) % 256 ≡ waiting buf b + 2 ^ b * (2 ^ (8 - b) - 1)
last_value b buf up l h =
    upto_8
      (λ b.
        b ≤ 7
        → buf < 65536
        → (waiting buf b + 255 * 2 ^ b) % 256 ≡ waiting buf b + 2 ^ b * (2 ^ (8 - b) - 1))
      (λ l h. omega arith) (λ l h. omega arith) (λ l h. omega arith) (λ l h. omega arith)
      (λ l h. omega arith) (λ l h. omega arith) (λ l h. omega arith) (λ l h. omega arith)
      (λ l h. omega arith) b up l h

pub byte_value :
    (b buf d : ℕ)
    → b ≤ 8
    → b ≤ 7
    → waiting buf (b + 8) % 256 + 256 * (waiting buf b + 2 ^ b * d)
      ≡ waiting buf (b + 8) + 2 ^ (b + 8) * d
byte_value b buf d up l =
    upto_8
      (λ b.
        b ≤ 7
        → waiting buf (b + 8) % 256 + 256 * (waiting buf b + 2 ^ b * d)
          ≡ waiting buf (b + 8) + 2 ^ (b + 8) * d)
      (λ l. omega arith) (λ l. omega arith) (λ l. omega arith) (λ l. omega arith) (λ l. omega arith)
      (λ l. omega arith) (λ l. omega arith) (λ l. omega arith) (λ l. omega arith) b up l

pub hit_bit :
    (b buf d v : ℕ)
    → b ≤ 8
    → 0 < b
    → buf < 2 ^ b
    → 2 * d ≡ buf + 2 ^ b * v
    → (buf % 2 ≡ 0) × (d ≡ buf / 2 + 2 ^ (b - 1) * v) × (buf / 2 < 2 ^ (b - 1))
hit_bit b buf d v up l h e =
    upto_8
      (λ b.
        0 < b
        → buf < 2 ^ b
        → 2 * d ≡ buf + 2 ^ b * v
        → (buf % 2 ≡ 0) × (d ≡ buf / 2 + 2 ^ (b - 1) * v) × (buf / 2 < 2 ^ (b - 1)))
      (λ l h e. omega arith) (λ l h e. omega arith) (λ l h e. omega arith) (λ l h e. omega arith)
      (λ l h e. omega arith) (λ l h e. omega arith) (λ l h e. omega arith) (λ l h e. omega arith)
      (λ l h e. omega arith) b up l h e

pub miss_bit :
    (b buf c d r v : ℕ)
    → b ≤ 8
    → 0 < b
    → buf < 2 ^ b
    → c < 256
    → r < 256
    → 1 + 2 * c + 512 * d ≡ buf + 2 ^ b * (r + 256 * v)
    → (buf % 2 ≡ 1)
      × ((buf + r * 2 ^ b) % 65536 / 2 % 256 ≡ c)
      × (d ≡ (buf + r * 2 ^ b) % 65536 / 512 + 2 ^ (b - 1) * v)
      × ((buf + r * 2 ^ b) % 65536 / 512 < 2 ^ (b - 1))
miss_bit b buf c d r v up l h k m e =
    upto_8
      (λ b.
        0 < b
        → buf < 2 ^ b
        → c < 256
        → r < 256
        → 1 + 2 * c + 512 * d ≡ buf + 2 ^ b * (r + 256 * v)
        → (buf % 2 ≡ 1)
          × ((buf + r * 2 ^ b) % 65536 / 2 % 256 ≡ c)
          × (d ≡ (buf + r * 2 ^ b) % 65536 / 512 + 2 ^ (b - 1) * v)
          × ((buf + r * 2 ^ b) % 65536 / 512 < 2 ^ (b - 1)))
      (λ l h k m e. omega arith) (λ l h k m e. omega arith) (λ l h k m e. omega arith)
      (λ l h k m e. omega arith) (λ l h k m e. omega arith) (λ l h k m e. omega arith)
      (λ l h k m e. omega arith) (λ l h k m e. omega arith) (λ l h k m e. omega arith) b up l h k m
      e

pub last_bits : (b d : ℕ) → b ≤ 8 → 0 < b → d + 1 ≡ 2 ^ b → d % 2 ≡ 1
last_bits b d up l e =
    upto_8 (λ b. 0 < b → d + 1 ≡ 2 ^ b → d % 2 ≡ 1) (λ l e. omega arith) (λ l e. omega arith)
      (λ l e. omega arith) (λ l e. omega arith) (λ l e. omega arith) (λ l e. omega arith)
      (λ l e. omega arith) (λ l e. omega arith) (λ l e. omega arith) b up l e
