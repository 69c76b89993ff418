-- ===== src/Path/Normal.antt =====
-- The specification of path resolution: a path is a list of components, "" and "." are skipped, and
-- ".." removes the component before it.
use dgd.Prelude.{
  ℕ, ◌<◌, ◌≡◌, false, List, [], ◌∷◌, ◌++◌, reverse, ◌==◌, ◌&&◌, if◌then◌else◌, length, All,
}
use dgd.Path.{slash, dot}

pub data Kind : Type 0 where
  stay up down : Kind

abbrev pub classify : List ℕ → Kind
classify [] = stay
classify (a ∷ []) = if a == dot then stay else down
classify (a ∷ b ∷ []) = if b == dot && a == dot then up else down
classify (_ ∷ _ ∷ _ ∷ _) = down

abbrev pub tail : List (List ℕ) → List (List ℕ)
tail [] = []
tail (_ ∷ st) = st

-- One component, applied to the components so far, the last one first.
unfoldable pub push : List ℕ → List (List ℕ) → List (List ℕ)
push x st = elim (classify x) [ stay ↦ st | up ↦ tail st | down ↦ x ∷ st ]

unfoldable pub normalize : List (List ℕ) → List (List ℕ) → List (List ℕ)
normalize st [] = st
normalize st (x ∷ xs) = normalize (push x st) xs

-- A path cut at its slashes; `rc` is the component being read, its last byte first.
unfoldable pub components : List ℕ → List ℕ → List (List ℕ)
components rc [] = reverse rc ∷ []
components rc (c ∷ p) = if c == slash then reverse rc ∷ components [] p else components (c ∷ rc) p

-- The components with slashes between them.
unfoldable pub join : List (List ℕ) → List ℕ
join [] = []
join (x ∷ []) = x
join (x ∷ y ∷ xs) = x ++ slash ∷ join (y ∷ xs)

-- The text of a list of components; that of the empty list is ".".
unfoldable pub render : List (List ℕ) → List ℕ
unfolding join
render [] = dot ∷ []
render (x ∷ xs) = join (x ∷ xs)

-- The canonical form of a path.
unfoldable pub canonical : List ℕ → List ℕ
unfolding render normalize components
canonical p = render (reverse (normalize [] (components [] p)))

abbrev pub NotSlash : ℕ → Type 0
NotSlash c = (c == slash) ≡ false

-- A component that may stand in a canonical path: not empty, without a slash, neither "." nor "..".
pub record IsPart (x : List ℕ) : Type 0 where
  pub nonempty : 0 < length x
  pub plain : All NotSlash x
  pub proper : classify x ≡ down
