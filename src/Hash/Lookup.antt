-- ===== src/Hash/Lookup.antt =====
-- What lookup finds, and where it leaves it.
use dgd.Prelude.{
  ℕ, ◌+◌, ◌≡◌, ◌≢◌, ◌⊎◌, refl, subst, Bool, true, false, List, [], ◌∷◌, none, some, arith,
  Bool-cases, ==_iff, ==_refl, ◌==◌, if◌then◌else◌, inl, inr, All, update, update_same, take,
}
use dgd.Hash.{Entry, Hashtab, same_bytes, is_named, slot, search_chain, lookup}

-- An entry has the name: the same string, or the same first `maxlen` bytes in a table of memory.
abbrev SameName : Bool → ℕ → List ℕ → List ℕ → Type 0
SameName true maxlen p q = take maxlen p ≡ take maxlen q
SameName false maxlen p q = p ≡ q

abbrev pub HasName : Hashtab → List ℕ → Entry → Type 0
HasName h name e = SameName h.mem h.maxlen e.name name

same_bytes-true : (p q : List ℕ) → same_bytes p q ≡ true → p ≡ q
same_bytes-true [] [] h = refl
same_bytes-true [] (d ∷ q) h = cc
same_bytes-true (c ∷ p) [] h = cc
same_bytes-true (c ∷ p) (d ∷ q) h = elim (Bool-cases (c == d)) [
  | inl e ↦
      let rest : same_bytes p q ≡ true = ground (arith, h, e) in
      rw ((==_iff c d).0 e, same_bytes-true p q rest) refl
  | inr e ↦ absurd (ground (arith, h, e))
]

same_bytes_refl : (p : List ℕ) → same_bytes p p ≡ true
same_bytes_refl [] = refl
same_bytes_refl (c ∷ p) = rw (==_refl c, same_bytes_refl p) refl

same_bytes-false : (p q : List ℕ) → same_bytes p q ≡ false → p ≢ q
same_bytes-false p q h = λ e.
    let yes : same_bytes p q ≡ true = subst (λ r. same_bytes p r ≡ true) e (same_bytes_refl p) in cc

is_named-true :
    (m : Bool) (maxlen : ℕ) (p q : List ℕ)
    → (if m then same_bytes (take maxlen p) (take maxlen q) else same_bytes p q) ≡ true
    → SameName m maxlen p q
is_named-true true maxlen p q h = same_bytes-true (take maxlen p) (take maxlen q) h
is_named-true false maxlen p q h = same_bytes-true p q h

is_named-false :
    (m : Bool) (maxlen : ℕ) (p q : List ℕ)
    → (if m then same_bytes (take maxlen p) (take maxlen q) else same_bytes p q) ≡ false
    → ¬ SameName m maxlen p q
is_named-false true maxlen p q h = same_bytes-false (take maxlen p) (take maxlen q) h
is_named-false false maxlen p q h = same_bytes-false p q h

none-HasName :
    (h : Hashtab) (name : List ℕ) (es : List Entry)
    → All (λ e. is_named h name e ≡ false) es
    → All (λ e. ¬ HasName h name e) es
none-HasName h name [] p = tt
none-HasName h name (e ∷ es) p =
    (is_named-false h.mem h.maxlen e.name name p.0, none-HasName h name es p.1)

abbrev pub total : (Entry → ℕ) → List Entry → ℕ
total f [] = 0
total f (e ∷ es) = f e + total f es

-- What the loop over the chain `es` finds.
abbrev Searched : (Entry → Bool) → List Entry → Type 0
Searched named es =
    ((search_chain named es ≡ none) × All (λ e. named e ≡ false) es)
    ⊎ ((e : Entry) × (rest : List Entry) × (search_chain named es ≡ some (e, e ∷ rest))
        × (named e ≡ true)
        × ((f : Entry → ℕ) → total f (e ∷ rest) ≡ total f es))

search_chain-Searched : (named : Entry → Bool) (es : List Entry) → Searched named es
unfolding search_chain
search_chain-Searched named [] = inl (refl, tt)
search_chain-Searched named (e ∷ es) = elim (Bool-cases (named e)) [
  | inl p ↦ inr (e, es, rw p refl, p, λ f. refl)
  | inr p ↦ elim (search_chain-Searched named es) [
    | inl (run, others) ↦ inl (rw (p, run) refl, (p, others))
    | inr (d, rest, run, q, same) ↦
        inr (d, e ∷ rest, rw (p, run) refl, q, λ f. omega (arith, same f))
  ]
]

-- A lookup with move either finds nothing, since no entry of the chain has the name, and changes
-- nothing; or it finds an entry with the name, puts it first in its chain, which keeps all its
-- entries, and the next lookup finds it again. In a table of memory, names are the same if their
-- first maxlen bytes are.
pub lookup_cases :
    (h : Hashtab) (name : List ℕ)
    → let es = h.table (slot h name) in
      ((lookup h name true ≡ (h, none)) × All (λ e. ¬ HasName h name e) es)
      ⊎ ((e : Entry) × (rest : List Entry) × (lookup h name true
            ≡ (record h { table = update h.table (slot h name) (e ∷ rest) }, some e))
          × HasName h name e
          × ((f : Entry → ℕ) → total f (e ∷ rest) ≡ total f es)
          × (lookup (record h { table = update h.table (slot h name) (e ∷ rest) }) name false
              ≡ (record h { table = update h.table (slot h name) (e ∷ rest) }, some e)))
unfolding lookup search_chain
lookup_cases h name = elim (search_chain-Searched (is_named h name) (h.table (slot h name))) [
  | inl (run, others) ↦
      inl (rw (lookup, run) refl, none-HasName h name (h.table (slot h name)) others)
  | inr (e, rest, run, named, same) ↦ inr (
    e,
    rest,
    rw (lookup, run) refl,
    is_named-true h.mem h.maxlen e.name name named,
    same,
    rw (lookup, update_same h.table (slot h name) (e ∷ rest), search_chain, named) refl,
  )
]
