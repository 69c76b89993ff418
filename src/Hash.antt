-- ===== src/Hash.antt =====
-- src/hash.h and src/hash.cpp: hash tables with chains, and the hash functions.
-- A string is the list of its bytes up to the '\0'; an entry is known by its address.
pub mod Lookup
pub mod Bytes
mod Tests
use Prim.Native.Nat.{bit_xor}
use dgd.Prelude.{
  ℕ, zero, suc, ◌+◌, ◌*◌, ◌%◌, Bool, true, false, ◌&&◌, List, [], ◌∷◌, ◌++◌, Option, none, some,
  ◌==◌, if◌then◌else◌, update, take,
}

abbrev pub tab : List ℕ
tab =
    1 ∷ 87 ∷ 49 ∷ 12 ∷ 176 ∷ 178 ∷ 102 ∷ 166 ∷ 121 ∷ 193 ∷ 6 ∷ 84 ∷ 249 ∷ 230 ∷ 44 ∷ 163 ∷ 14 ∷ 197
    ∷ 213 ∷ 181 ∷ 161 ∷ 85 ∷ 218 ∷ 80 ∷ 64 ∷ 239 ∷ 24 ∷ 226 ∷ 236 ∷ 142 ∷ 38 ∷ 200 ∷ 110 ∷ 177 ∷ 104
    ∷ 103 ∷ 141 ∷ 253 ∷ 255 ∷ 50 ∷ 77 ∷ 101 ∷ 81 ∷ 18 ∷ 45 ∷ 96 ∷ 31 ∷ 222 ∷ 25 ∷ 107 ∷ 190 ∷ 70
    ∷ 86 ∷ 237 ∷ 240 ∷ 34 ∷ 72 ∷ 242 ∷ 20 ∷ 214 ∷ 244 ∷ 227 ∷ 149 ∷ 235 ∷ 97 ∷ 234 ∷ 57 ∷ 22 ∷ 60
    ∷ 250 ∷ 82 ∷ 175 ∷ 208 ∷ 5 ∷ 127 ∷ 199 ∷ 111 ∷ 62 ∷ 135 ∷ 248 ∷ 174 ∷ 169 ∷ 211 ∷ 58 ∷ 66 ∷ 154
    ∷ 106 ∷ 195 ∷ 245 ∷ 171 ∷ 17 ∷ 187 ∷ 182 ∷ 179 ∷ 0 ∷ 243 ∷ 132 ∷ 56 ∷ 148 ∷ 75 ∷ 128 ∷ 133 ∷ 158
    ∷ 100 ∷ 130 ∷ 126 ∷ 91 ∷ 13 ∷ 153 ∷ 246 ∷ 216 ∷ 219 ∷ 119 ∷ 68 ∷ 223 ∷ 78 ∷ 83 ∷ 88 ∷ 201 ∷ 99
    ∷ 122 ∷ 11 ∷ 92 ∷ 32 ∷ 136 ∷ 114 ∷ 52 ∷ 10 ∷ 138 ∷ 30 ∷ 48 ∷ 183 ∷ 156 ∷ 35 ∷ 61 ∷ 26 ∷ 143 ∷ 74
    ∷ 251 ∷ 94 ∷ 129 ∷ 162 ∷ 63 ∷ 152 ∷ 170 ∷ 7 ∷ 115 ∷ 167 ∷ 241 ∷ 206 ∷ 3 ∷ 150 ∷ 55 ∷ 59 ∷ 151
    ∷ 220 ∷ 90 ∷ 53 ∷ 23 ∷ 131 ∷ 125 ∷ 173 ∷ 15 ∷ 238 ∷ 79 ∷ 95 ∷ 89 ∷ 16 ∷ 105 ∷ 137 ∷ 225 ∷ 224
    ∷ 217 ∷ 160 ∷ 37 ∷ 123 ∷ 118 ∷ 73 ∷ 2 ∷ 157 ∷ 46 ∷ 116 ∷ 9 ∷ 145 ∷ 134 ∷ 228 ∷ 207 ∷ 212 ∷ 202
    ∷ 215 ∷ 69 ∷ 229 ∷ 27 ∷ 188 ∷ 67 ∷ 124 ∷ 168 ∷ 252 ∷ 42 ∷ 4 ∷ 29 ∷ 108 ∷ 21 ∷ 247 ∷ 19 ∷ 205
    ∷ 39 ∷ 203 ∷ 233 ∷ 40 ∷ 186 ∷ 147 ∷ 198 ∷ 192 ∷ 155 ∷ 33 ∷ 164 ∷ 191 ∷ 98 ∷ 204 ∷ 165 ∷ 180
    ∷ 117 ∷ 76 ∷ 140 ∷ 36 ∷ 210 ∷ 172 ∷ 41 ∷ 54 ∷ 159 ∷ 8 ∷ 185 ∷ 232 ∷ 113 ∷ 196 ∷ 231 ∷ 47 ∷ 146
    ∷ 120 ∷ 51 ∷ 65 ∷ 28 ∷ 144 ∷ 254 ∷ 221 ∷ 93 ∷ 189 ∷ 194 ∷ 139 ∷ 112 ∷ 43 ∷ 71 ∷ 109 ∷ 184 ∷ 209
    ∷ []

abbrev pub nth : List ℕ → ℕ → ℕ
nth [] i = 0
nth (x ∷ xs) zero = x
nth (x ∷ xs) (suc i) = nth xs i

-- HashImpl::hashchar
unfoldable pub hashchar : ℕ → ℕ
hashchar c = nth tab c

-- The loop of hashstr and of hashmem, over the bytes that count, with `h` and `l`.
unfoldable pub hash_from : List ℕ → ℕ → ℕ → ℕ
unfolding hashchar
hash_from [] h l = h * 256 + l
hash_from (c ∷ p) h l = hash_from p l (hashchar (bit_xor l c))

-- Hash::hashstr, on a string without '\0'
unfoldable pub hashstr : List ℕ → ℕ → ℕ
unfolding hash_from
hashstr str len = hash_from (take len str) 0 0

-- Hash::hashmem, on memory of at least `len` bytes
unfoldable pub hashmem : List ℕ → ℕ → ℕ
unfolding hash_from
hashmem mem len = hash_from (take len mem) 0 0

pub record Entry : Type 0 where
  pub name : List ℕ
  pub address : ℕ

-- A chain is the list of its entries, from the one in the table on.
pub record Hashtab : Type 0 where
  pub size : ℕ
  pub table : ℕ → List Entry
  pub maxlen : ℕ
  pub mem : Bool

-- Hashtab::Hashtab
abbrev pub create : ℕ → ℕ → Bool → Hashtab
create size maxlen mem = record { size = size; table = λ i. []; maxlen = maxlen; mem = mem }

abbrev pub same_bytes : List ℕ → List ℕ → Bool
same_bytes [] [] = true
same_bytes [] (d ∷ q) = false
same_bytes (c ∷ p) [] = false
same_bytes (c ∷ p) (d ∷ q) = c == d && same_bytes p q

-- `memcmp((*e)->name, name, maxlen) == 0`, or `strcmp((*e)->name, name) == 0`
abbrev pub is_named : Hashtab → List ℕ → Entry → Bool
is_named h name e =
    if h.mem then same_bytes (take h.maxlen e.name) (take h.maxlen name) else same_bytes e.name name

-- `HM->hashmem(name, maxlen) % size`, or the same with hashstr
abbrev pub slot : Hashtab → List ℕ → ℕ
slot h name = (if h.mem then hashmem name h.maxlen else hashstr name h.maxlen) % h.size

-- `next = (*e)->next; (*e)->next = *first; *first = *e; *e = next;`, one entry at a time: an entry that
-- the first one has passed
abbrev pub behind_first : Entry → List Entry → List Entry
behind_first e [] = e ∷ []
behind_first e (d ∷ ds) = d ∷ (e ∷ ds)

-- The loop over a chain: the entry that is found, and the chain that begins with it if it was moved.
unfoldable pub search_chain : (Entry → Bool) → List Entry → Option (Entry × List Entry)
search_chain named [] = none
search_chain named (e ∷ es) =
    let rest = search_chain named es in
    if named e
    then some (e, e ∷ es)
    else elim rest [ none ↦ none | some (d, ds) ↦ some (d, behind_first e ds) ]

-- Hashtab::lookup: the table, and the entry if there is one.
unfoldable pub lookup : Hashtab → List ℕ → Bool → Hashtab × Option Entry
unfolding search_chain
lookup h name move =
    let i = slot h name in
    elim (search_chain (is_named h name) (h.table i)) [
      | none ↦ (h, none)
      | some (e, chain) ↦
          ((if move then record h { table = update h.table i chain } else h), some e)
    ]
