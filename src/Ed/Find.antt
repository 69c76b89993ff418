-- ===== src/Ed/Find.antt =====
-- That the search for a line finds its page.
use native.Mathlib.Nat.{mul-le-mul_left, div-add-mod', mul-suc}
use dgd.Prelude.{
  ltb-true, ltb-false, ℕ, zero, suc, ◌+◌, ◌-◌, ◌*◌, ◌/◌, ◌≤◌, ◌<◌, ◌≡◌, refl, subst, ◌∙◌, true,
  false, List, [], ◌∷◌, some, arith, ltb, leb, Bool-cases, inl, inr, length,
}
use dgd.Ed.{Page, Range}
use dgd.Ed.Cat.{not_above, before, first_place, IsNumbered, IsRange}
use dgd.Ed.Chain.{
  page_at, block_size, Search, guess_page, Step, found, again, step, find, find_line,
}

pub page_at-some : (ps : List Page) (i : ℕ) → i < length ps → (p : Page) × (page_at ps i ≡ some p)
page_at-some [] i h = absurd (omega arith)
page_at-some (p ∷ ps) zero h = (p, refl)
page_at-some (p ∷ ps) (suc i) h = page_at-some ps i (omega arith)

pub before-page_at :
    (ps : List Page) (i n : ℕ) (p : Page)
    → IsNumbered n ps
    → page_at ps i ≡ some p
    → (p.lindex ≡ n + before ps i)
      × (0 < length p.text)
      × (before ps (suc i) ≡ before ps i + length p.text)
before-page_at [] i n p v e = cc
before-page_at (q ∷ ps) zero n p v e =
    let same : q ≡ p = cc in
    subst (λ x. (x.lindex ≡ n + 0) × (0 < length x.text) × (length q.text + 0 ≡ 0 + length x.text))
      same (omega (arith, v.0), v.1, omega arith)
before-page_at (q ∷ ps) (suc i) n p v e =
    let (x, y, z) = before-page_at ps i (n + length q.text) p v.2 e in
    (omega (arith, x), y, omega (arith, z))

pub before_mono : (ps : List Page) (i j : ℕ) → i ≤ j → before ps i ≤ before ps j
before_mono ps zero j h = omega arith
before_mono [] (suc i) zero h = omega arith
before_mono [] (suc i) (suc j) h = omega arith
before_mono (p ∷ ps) (suc i) zero h = absurd (omega arith)
before_mono (p ∷ ps) (suc i) (suc j) h = omega (arith, before_mono ps i j (omega arith))

pub before-lt : (ps : List Page) (i j : ℕ) → before ps i < before ps j → i < j
before-lt ps i j h = ground (arith, before_mono ps j i)

page-lt : (q size n : ℕ) → 0 < n → q * suc size ≤ n * block_size → q * size / block_size < n
page-lt zero size n h k = omega arith
page-lt (suc q) size n h k = omega (arith, mul-suc (suc q) size)

guess_page-lt :
    (n lines size : ℕ) → 0 < n → size < lines → n * block_size / lines * size / block_size < n
guess_page-lt n lines size h k =
    let q = n * block_size / lines in
    let all : q * lines ≤ n * block_size = omega (arith, div-add-mod' (n * block_size) lines) in
    let some_of : q * suc size ≤ q * lines = mul-le-mul_left q k in page-lt q size n h (omega arith)

-- The line `there` of the chain stands between the pages `s.first` and `s.last`.
record Brackets (chain : List Page) (there mid : ℕ) (s : Search) : Type 0 where
  begins : s.offset ≡ before chain s.first
  target : s.offset + s.size ≡ there
  inside : s.size < s.lines
  low : s.first ≤ mid
  high : mid < s.last
  upto : there < before chain s.last
  in_chain : s.last ≤ length chain

-- What the search returns.
pub record IsPlace (chain : List Page) (there mid n : ℕ) : Type 0 where
  pub page : Page
  pub stands : page_at chain mid ≡ some page
  pub inside : n < length page.text
  pub counted : before chain mid + n ≡ there

next-Brackets :
    (chain : List Page) (there mid : ℕ) (s : Search)
    → s.offset ≡ before chain s.first
    → s.offset + s.size ≡ there
    → s.size < s.lines
    → there < before chain s.last
    → s.last ≤ length chain
    → Brackets chain there (guess_page s) s
unfolding guess_page
next-Brackets chain there mid s a b c d e =
    let room : s.first < s.last = before-lt chain s.first s.last (omega arith) in
    let near = guess_page-lt (s.last - s.first) s.lines s.size (omega arith) c in
    record {
      begins = a;
      target = b;
      inside = c;
      low = omega arith;
      high = omega (arith, near);
      upto = d;
      in_chain = e;
    }

data Outcome (chain : List Page) (there mid : ℕ) (s : Search) (x : Step) : Type 0 where
  stops : (n : ℕ) → x ≡ found n → IsPlace chain there mid n → Outcome chain there mid s x
  goes :
      (t : Search)
      → x ≡ again t
      → Brackets chain there (guess_page t) t
      → t.last - t.first < s.last - s.first
      → Outcome chain there mid s x

most_of : (a b : ℕ) → leb a b ≡ true → a ≤ b
most_of a b h = ground (arith, h)

less_of : (a b : ℕ) → leb a b ≡ false → b < a
less_of a b h = ground (arith, h)

step-Outcome :
    (chain : List Page) (there mid : ℕ) (s : Search) (p : Page)
    → IsNumbered 0 chain
    → page_at chain mid ≡ some p
    → Brackets chain there mid s
    → Outcome chain there mid s (step p mid s)
unfolding step
step-Outcome chain there mid s p v e b =
    let (index, some_line, after) = before-page_at chain mid 0 p v e in
    let monotone = before_mono chain s.first mid b.low in
    elim (Bool-cases (ltb s.size (p.lindex - s.offset))) [
      | inl l ↦
          rw (step, l)
            (let t = record s { last = mid; lines = p.lindex - s.offset } in
              let below : s.size < p.lindex - s.offset = ltb-true s.size (p.lindex - s.offset) l in
              goes t refl
                (next-Brackets chain there mid t b.begins b.target below
                  (omega (arith, index, below, b.target)) (omega (arith, b.in_chain, b.high)))
                (omega (arith, b.low, b.high)))
      | inr l ↦ elim (Bool-cases (leb (length p.text) (s.size - (p.lindex - s.offset)))) [
        | inl r ↦
            rw (step, l, r)
              (let gap = p.lindex - s.offset in
                let there' = p.lindex + length p.text in
                let t = record s {
                  first = suc mid;
                  lines = s.lines - (there' - s.offset);
                  size = s.size - gap - length p.text;
                  offset = there';
                } in
                let past = ltb-false s.size gap l in
                let enough = most_of (length p.text) (s.size - gap) r in
                goes t refl
                  (next-Brackets chain there mid t (omega (arith, index, after))
                    (omega (arith, b.target, past, enough, monotone, index, b.begins))
                    (omega (arith, b.inside, past, enough, monotone, index, b.begins)) b.upto
                    b.in_chain)
                  (omega (arith, b.low, b.high)))
        | inr r ↦
            rw (step, l, r)
              (stops (s.size - (p.lindex - s.offset)) refl (record {
                page = p;
                stands = e;
                inside = less_of (length p.text) (s.size - (p.lindex - s.offset)) r;
                counted = omega (
                  arith,
                  ltb-false s.size (p.lindex - s.offset) l,
                  b.target,
                  index,
                  monotone,
                  b.begins,
                );
              }))
      ]
    ]

find-IsPlace :
    (fuel : ℕ) (chain : List Page) (there mid : ℕ) (s : Search)
    → IsNumbered 0 chain
    → Brackets chain there mid s
    → s.last - s.first ≤ fuel
    → (page : ℕ) × (n : ℕ) × (find fuel chain mid s ≡ some (page, n)) × IsPlace chain there page n
unfolding find
find-IsPlace zero chain there mid s v b h = absurd (omega (arith, b.low, b.high))
find-IsPlace (suc fuel) chain there mid s v b h =
    let (p, e) = page_at-some chain mid (omega (arith, b.high, b.in_chain)) in
    elim (step-Outcome chain there mid s p v e b) [
      | stops n run x ↦ (mid, n, rw (find, e, run) refl, x)
      | goes t run c d ↦
          rw (find, e, run)
            (find-IsPlace fuel chain there (guess_page t) t v c (omega (arith, h, d)))
    ]

first_round :
    (p : Page) (mid : ℕ) (s : Search)
    → ltb s.size (p.lindex - s.offset) ≡ false
    → step p mid (record s { first = mid }) ≡ step p mid s
unfolding step
first_round p mid s e = rw (step, e) refl

first_find :
    (fuel : ℕ) (chain : List Page) (p : Page) (mid : ℕ) (s : Search)
    → page_at chain mid ≡ some p
    → ltb s.size (p.lindex - s.offset) ≡ false
    → find (suc fuel) chain mid s ≡ find (suc fuel) chain mid (record s { first = mid })
unfolding find
first_find fuel chain p mid s e h = rw (find, e, first_round p mid s h) refl

module _ (r : Range) (v : IsRange r) where
  open r use {chain, lfirst, llast}

  -- The search in a subrange finds the page of the line, where the line is in the subrange.
  pub find_line_lem :
      (size : ℕ)
      → size < r.lines
      → (page : ℕ) × (n : ℕ) × (find_line r size ≡ some (page, n))
        × IsPlace chain (first_place r + size) page n
  unfolding find_line
  find_line_lem size h =
      let (p, e) = page_at-some chain lfirst (omega (arith, v.ordered, v.in_chain)) in
      let (index, some_line, after) = before-page_at chain lfirst 0 p v.numbered e in
      let s : Search = record {
        first = 0;
        last = suc llast;
        lines = r.lines + r.index1;
        size = size + r.index1;
        offset = p.lindex;
      } in
      let t = record s { first = lfirst } in
      let same =
        first_find (llast - lfirst) chain p lfirst s e
          (not_above (size + r.index1) (p.lindex - p.lindex) (omega arith)) in
      let (page, n, run, x) =
        find-IsPlace (suc (llast - lfirst)) chain (first_place r + size) lfirst t v.numbered
          (record {
            begins = omega (arith, index);
            target = omega (arith, index);
            inside = omega arith;
            low = omega arith;
            high = omega (arith, v.ordered);
            upto = omega (arith, v.ends);
            in_chain = omega (arith, v.in_chain);
          })
          (omega arith) in
      (page, n, rw (find_line, e) (same ∙ run), x)
