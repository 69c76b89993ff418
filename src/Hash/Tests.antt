-- ===== src/Hash/Tests.antt =====
-- Lookups in a small table.
use dgd.Prelude.{ℕ, ◌≡◌, ◌⊎◌, refl, true, false, List, [], ◌∷◌, some, none, All, update}
use dgd.Hash.{Entry, Hashtab, create, hashstr, slot, search_chain, lookup}
use dgd.Hash.Lookup.{HasName, total, lookup_cases}

abbrev a_entry : Entry
a_entry = record { name = b'a' ∷ []; address = 1 }

abbrev b_entry : Entry
b_entry = record { name = b'b' ∷ []; address = 2 }

-- One chain with two entries
abbrev small : Hashtab
small = record (create 1 10 false) { table = λ i. a_entry ∷ (b_entry ∷ []) }

lookup_second :
    lookup small (b'b' ∷ []) true
    ≡ (record small { table = update small.table 0 (b_entry ∷ (a_entry ∷ [])) }, some b_entry)
unfolding lookup search_chain hashstr
lookup_second = refl

lookup_cases_example :
    let name : List ℕ = b'b' ∷ [] in
    let es = small.table (slot small name) in
    ((lookup small name true ≡ (small, none)) × All (λ e. ¬ HasName small name e) es)
    ⊎ ((e : Entry) × (rest : List Entry) × (lookup small name true
          ≡ (record small { table = update small.table (slot small name) (e ∷ rest) }, some e))
        × HasName small name e
        × ((f : Entry → ℕ) → total f (e ∷ rest) ≡ total f es)
        × (lookup
              (record small { table = update small.table (slot small name) (e ∷ rest) })
              name
              false
            ≡ (record small { table = update small.table (slot small name) (e ∷ rest) }, some e)))
lookup_cases_example = lookup_cases small (b'b' ∷ [])
