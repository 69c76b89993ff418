-- ===== src/Ed/Lines/Laws.antt =====
-- That the lines that are added one at a time are all in the block.
use dgd.Prelude.{
  ℕ, ◌+◌, ◌≤◌, ◌<◌, ◌≡◌, refl, sym, ap, subst, ◌∙◌, List, [], ◌∷◌, ◌++◌, Option, none, some, arith,
  ltb, leb, Bool-cases, inl, inr, ◌⊎◌, length, length-append,
}
use mathlib.Core.List.{append_assoc, append-nil}
use dgd.Ed.{Line, Block, range, joined, depth, max_depth}
use dgd.Ed.Cat.{leaves, IsBlock, IsCat}
use dgd.Ed.TooLarge.{join_blocks_cases}
use dgd.Ed.Create.{WriteBuf, create}
use dgd.Ed.Create.Laws.{create_lem}
use dgd.Ed.Buffer.{Result, done, failed, too_large, join_blocks}
use dgd.Ed.Steps.{Holds, join_blocks_lem}
use dgd.Ed.Lines.{
  Lines, startblock, append_block, flush_line, flush_if, addblock, endblock, add_all, pointer_size,
}

leaves-pos : (b : Block) → 0 < leaves b
leaves-pos (range r) = omega arith
leaves-pos (joined f l n d u) = omega (arith, leaves-pos f)

pub depth-le-leaves : (b : Block) → IsBlock b → depth b ≤ leaves b
unfolding IsBlock
depth-le-leaves (range r) v = omega arith
depth-le-leaves (joined f l n d u) v =
    omega (arith, v.3, depth-le-leaves f v.0, depth-le-leaves l v.1, leaves-pos f, leaves-pos l)

abbrev leaves_of : Option Block → ℕ
leaves_of none = 0
leaves_of (some b) = leaves b

-- A result, or the error "Editor line tree too large", for `n` lines, which are then at
-- least as many as the greatest depth.
abbrev pub Outcome : {A : Type 0} → Result A → (A → Type 0) → ℕ → Type 0
Outcome {A} r P n = ((a : A) × (r ≡ done a) × P a) ⊎ ((r ≡ failed too_large) × (max_depth ≤ n))

join_blocks-Outcome :
    (f b : Block) (n : ℕ)
    → IsBlock f
    → IsBlock b
    → leaves f + leaves b ≤ n
    → Outcome (join_blocks f b) (IsCat f b) n
join_blocks-Outcome f b n v w h = elim (join_blocks_cases f b v w) [
  | inr (c, run, x) ↦ inl (c, run, x)
  | inl fail ↦ elim (Bool-cases (leb max_depth n)) [
    | inl large ↦ inr (fail, ground (arith, large))
    | inr small ↦
        let few : n < max_depth = ground (arith, small) in
        let (c, run, x) =
          join_blocks_lem f b v w (omega (arith, depth-le-leaves f v, h, few))
            (omega (arith, depth-le-leaves b w, h, few)) in
        absurd cc
  ]
]

append_block_lem :
    (o b : Option Block) (ys zs : List Line)
    → Holds o ys
    → Holds b zs
    → leaves_of o ≤ length ys
    → leaves_of b ≤ length zs
    → (0 < length zs) ⊎ (o ≡ none)
    → Outcome
        (append_block o b)
        (λ f. Holds f (ys ++ zs) × (leaves_of f ≤ length ys + length zs))
        (length ys + length zs)
unfolding append_block Holds
append_block_lem none b ys zs p q h k live = inl (b, refl, (rw p q, omega arith))
append_block_lem (some f) none ys zs p q h k (inl l) = absurd (omega (arith, l, ap length q))
append_block_lem (some f) none ys zs p q h k (inr l) = absurd cc
append_block_lem (some f) (some b) ys zs p q h k live =
    elim (join_blocks-Outcome f b (length ys + length zs) p.0 q.0 (omega (arith, h, k))) [
      | inl (c, run, x) ↦ inl (
        some c,
        rw (append_block, run) refl,
        ((x.valid, rw (x.text, p.1, q.1) refl), omega (arith, x.grown, h, k)),
      )
      | inr (fail, many) ↦ inr (rw (append_block, fail) refl, many)
    ]

pub create-none : (al : ℕ) (wb : WriteBuf) → create al wb [] ≡ (none, wb)
unfolding create
create-none al wb = refl

create-Holds :
    (al : ℕ) (wb : WriteBuf) (zs : List Line)
    → Holds (create al wb zs).0 zs × (leaves_of (create al wb zs).0 ≤ length zs)
unfolding Holds
create-Holds al wb [] = rw (create-none al wb) (refl, omega arith)
create-Holds al wb (t ∷ ts) =
    let (b, run, v, text, n) = create_lem al wb t ts in rw run ((v, text), omega (arith, n))

-- The bytes of the lines, each with the zero at its end.
abbrev bytes : List Line → ℕ
bytes [] = 0
bytes (t ∷ ts) = length t + 1 + bytes ts

bytes-append : (ys zs : List Line) → bytes (ys ++ zs) ≡ bytes ys + bytes zs
bytes-append [] zs = omega arith
bytes-append (t ∷ ys) zs = omega (arith, bytes-append ys zs)

-- The lines `ys` are in the block, and the lines `zs` wait.
record Keeps (s : Lines) (ys zs : List Line) : Type 0 where
  holds : Holds s.flines ys
  waits : s.pending ≡ zs
  sized : s.szlines ≡ bytes zs
  few : leaves_of s.flines ≤ length ys

flush_line_lem :
    (al : ℕ) (s : Lines) (ys zs : List Line)
    → Keeps s ys zs
    → (0 < length zs) ⊎ (s.flines ≡ none)
    → Outcome (flush_line al s) (λ s'. Keeps s' (ys ++ zs) []) (length ys + length zs)
unfolding flush_line
flush_line_lem al s ys zs v live =
    let (held, few) = create-Holds al s.wb zs in
    elim (append_block_lem s.flines (create al s.wb zs).0 ys zs v.holds held v.few few live) [
      | inl (f, run, (w, n)) ↦ inl (
        record { flines = f; pending = []; szlines = 0; wb = (create al s.wb zs).1 },
        rw (flush_line, v.waits, run) refl,
        record {
          holds = w;
          waits = refl;
          sized = refl;
          few = omega (arith, n, length-append ys zs);
        },
      )
      | inr (fail, many) ↦ inr (rw (flush_line, v.waits, fail) refl, many)
    ]

-- After a call of addblock, the last line waits.
record Added (ys zs : List Line) (t : Line) (s' : Lines) : Type 0 where
  flushed : List Line
  left : List Line
  keeps : Keeps s' flushed (left ++ t ∷ [])
  same : flushed ++ left ≡ ys ++ zs

addblock_lem :
    (al : ℕ) (t : Line) (s : Lines) (ys zs : List Line)
    → Keeps s ys zs
    → (0 < length zs) ⊎ (s.flines ≡ none)
    → Outcome (addblock al t s) (Added ys zs t) (length ys + length zs)
unfolding addblock flush_if
addblock_lem al t s ys zs v live =
    elim (Bool-cases (leb pointer_size (s.szlines + (length t + 1)))) [
      | inl full ↦ elim (flush_line_lem al s ys zs v live) [
        | inr (fail, many) ↦ inr (rw (addblock, full, flush_if, fail) refl, many)
        | inl (a, run, w) ↦ inl (
          record a { pending = a.pending ++ t ∷ []; szlines = a.szlines + (length t + 1) },
          rw (addblock, full, flush_if, run) refl,
          record {
            flushed = ys ++ zs;
            left = [];
            keeps = record {
              holds = w.holds;
              waits = ap (λ xs. xs ++ t ∷ []) w.waits;
              sized = omega (arith, w.sized);
              few = w.few;
            };
            same = append-nil (ys ++ zs);
          },
        )
      ]
      | inr room ↦ inl (
        record s { pending = s.pending ++ t ∷ []; szlines = s.szlines + (length t + 1) },
        rw (addblock, room, flush_if) refl,
        record {
          flushed = ys;
          left = zs;
          keeps = record {
            holds = v.holds;
            waits = ap (λ xs. xs ++ t ∷ []) v.waits;
            sized = omega (arith, v.sized, bytes-append zs (t ∷ []));
            few = v.few;
          };
          same = refl;
        },
      )
    ]

bytes_none : (zs : List Line) → bytes zs ≡ 0 → zs ≡ []
bytes_none [] e = refl
bytes_none (t ∷ ts) e = absurd (omega arith)

endblock_lem :
    (al : ℕ) (s : Lines) (ys zs : List Line)
    → Keeps s ys zs
    → (0 < length zs) ⊎ (s.flines ≡ none)
    → Outcome (endblock al s) (λ s'. Keeps s' (ys ++ zs) []) (length ys + length zs)
unfolding endblock flush_if
endblock_lem al s ys zs v live = elim (Bool-cases (ltb 0 s.szlines)) [
  | inl some_left ↦ elim (flush_line_lem al s ys zs v live) [
    | inl (a, run, w) ↦ inl (a, rw (endblock, some_left, flush_if, run) refl, w)
    | inr (fail, many) ↦ inr (rw (endblock, some_left, flush_if, fail) refl, many)
  ]
  | inr done_all ↦
      let nothing : zs ≡ [] = bytes_none zs (ground (arith, done_all, v.sized)) in
      inl (
        s,
        rw (endblock, done_all, flush_if) refl,
        record {
          holds = subst (Holds s.flines) (sym (ap (ys ++◌) nothing ∙ append-nil ys)) v.holds;
          waits = v.waits ∙ nothing;
          sized = v.sized ∙ ap bytes nothing;
          few = omega (arith, v.few, length-append ys zs);
        },
      )
]

add_all_lem :
    (al : ℕ) (ts : List Line) (s : Lines) (ys zs : List Line)
    → Keeps s ys zs
    → (0 < length zs) ⊎ (s.flines ≡ none)
    → Outcome
        (add_all al ts s)
        (λ s'. Keeps s' (ys ++ zs ++ ts) [])
        (length ys + length zs + length ts)
unfolding add_all
add_all_lem al [] s ys zs v live = elim (endblock_lem al s ys zs v live) [
  | inl (a, run, w) ↦ inl (a, run, subst (λ xs. Keeps a xs []) (sym (append-nil (ys ++ zs))) w)
  | inr (fail, many) ↦ inr (fail, omega (arith, many))
]
add_all_lem al (t ∷ ts) s ys zs v live = elim (addblock_lem al t s ys zs v live) [
  | inr (fail, many) ↦ inr (rw (add_all, fail) refl, omega (arith, many))
  | inl (a, run, w) ↦
      let ys' = w.flushed in
      let zs' = w.left in
      let count_lines : length ys' + length zs' ≡ length ys + length zs =
        omega (arith, length-append ys' zs', length-append ys zs, ap length w.same) in
      let more = length-append zs' (t ∷ []) in
      let all : ys' ++ (zs' ++ t ∷ []) ++ ts ≡ ys ++ zs ++ (t ∷ ts) =
        ap (λ xs. xs ++ ts) (sym (append_assoc ys' zs' (t ∷ [])) ∙ ap (λ xs. xs ++ t ∷ []) w.same)
        ∙ append_assoc (ys ++ zs) (t ∷ []) ts in
      elim (add_all_lem al ts a ys' (zs' ++ t ∷ []) w.keeps (inl (omega (arith, more)))) [
        | inl (b, run', x) ↦ inl (b, rw (add_all, run) run', subst (λ xs. Keeps b xs []) all x)
        | inr (fail, many) ↦ inr (rw (add_all, run) fail, omega (arith, many, count_lines, more))
      ]
]

-- The lines that are added between startblock and endblock are in the block, in their order, and
-- there is no block for no lines; or the result is the error "Editor line tree too large", which no
-- fewer lines than the greatest depth, 10000, can lead to.
pub add_all-Holds :
    (al : ℕ) (ts : List Line) (s : Lines)
    → Outcome (add_all al ts (startblock s)) (λ s'. Holds s'.flines ts) (length ts)
unfolding startblock Holds
add_all-Holds al ts s =
    elim (add_all_lem al ts (startblock s) [] []
      (record { holds = refl; waits = refl; sized = refl; few = omega arith }) (inr refl)) [
        | inl (a, run, v) ↦ inl (a, run, v.holds)
        | inr (fail, many) ↦ inr (fail, omega (arith, many))
      ]
