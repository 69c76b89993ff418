-- ===== src/Path/Tests.antt =====
-- Runs of the path functions, and the theorems at concrete paths.
use dgd.Prelude.{ℕ, ◌-◌, ◌<◌, ◌≡◌, ◌⊎◌, ◌↔◌, refl, List, [], ◌∷◌, some, none, length, take, All}
use dgd.Path.{dot, stringsz, c_string, resolve, string, from}
use dgd.Path.Normal.{IsPart, canonical, components}
use dgd.Path.Walk.{resolve-canonical}
use dgd.Path.Laws.{NotZero, resolve_safe, string_cases}

-- "/a/./b//../c"
abbrev messy : List ℕ
messy = b'/' ∷ b'a' ∷ b'/' ∷ b'.' ∷ b'/' ∷ b'b' ∷ b'/' ∷ b'/' ∷ b'.' ∷ b'.' ∷ b'/' ∷ b'c' ∷ []

resolve-messy : resolve messy ≡ b'a' ∷ b'/' ∷ b'c' ∷ []
unfolding resolve
resolve-messy = refl

resolve_above : resolve (b'.' ∷ b'.' ∷ b'/' ∷ b'.' ∷ b'.' ∷ []) ≡ b'.' ∷ []
unfolding resolve
resolve_above = refl

string_zero : string (b'a' ∷ 0 ∷ b'b' ∷ []) 3 ≡ none
unfolding string
string_zero = refl

-- "lib/a.c" including "b.h"
abbrev base : List ℕ
base = b'l' ∷ b'i' ∷ b'b' ∷ b'/' ∷ b'a' ∷ b'.' ∷ b'c' ∷ []

abbrev header : List ℕ
header = b'b' ∷ b'.' ∷ b'h' ∷ []

from_lib : from base header ≡ b'l' ∷ b'i' ∷ b'b' ∷ b'/' ∷ b'b' ∷ b'.' ∷ b'h' ∷ []
unfolding from
from_lib = refl

resolve-canonical_example : resolve messy ≡ canonical (take (stringsz - 1) (c_string messy))
resolve-canonical_example = resolve-canonical messy

resolve_safe_example : (resolve messy ≡ dot ∷ []) ⊎ All IsPart (components [] (resolve messy))
resolve_safe_example = resolve_safe messy

string_cases_example :
    (string messy (length messy) ≡ some (b'a' ∷ b'/' ∷ b'c' ∷ []))
    ↔ ((length messy < stringsz) × All NotZero messy × (resolve messy ≡ b'a' ∷ b'/' ∷ b'c' ∷ []))
string_cases_example = string_cases messy (b'a' ∷ b'/' ∷ b'c' ∷ [])
