-- ===== src/Path/Laws.antt =====
-- What a resolved path looks like, and the other two entry points of class Path.
use Prim.Native.Nat.{max}
use mathlib.Core.List.{reverse-reverse, append-nil}
use dgd.Prelude.{
  ℕ, zero, suc, ◌+◌, ◌-◌, ◌<◌, ◌≤◌, ◌≡◌, refl, ap, ◌∙◌, true, false, List, [], ◌∷◌, ◌++◌, reverse,
  arith, ◌⊎◌, ◌↔◌, ◌==◌, Bool-cases, ==_iff, ltb, leb, length, All, All-append, All-reverse,
  length-append, length-take, take_all, take, inl, inr, some,
}
use dgd.Path.{slash, dot, c_string, resolve, string, from, is_absolute, stringsz}
use dgd.Path.Normal.{tail, push, normalize, components, render, canonical, IsPart}
use dgd.Path.Parts.{
  components-part, components-join, normalize-parts, canonical-All, canonical-length,
}
use dgd.Path.Walk.{canonical-parts, resolve-canonical}

abbrev pub NotZero : ℕ → Type 0
NotZero c = (c == 0) ≡ false

c_string-NotZero : (p : List ℕ) → All NotZero (c_string p)
unfolding c_string
c_string-NotZero [] = tt
c_string-NotZero (c ∷ p) = elim (Bool-cases (c == 0)) [
  | inl e ↦ rw e tt
  | inr e ↦ rw e (e, c_string-NotZero p)
]

c_string-text : (p : List ℕ) → All NotZero p → c_string p ≡ p
unfolding c_string
c_string-text [] h = refl
c_string-text (c ∷ p) h = rw (h.0, c_string-text p h.1)

take-All : (P : ℕ → Type 0) (n : ℕ) (p : List ℕ) → All P p → All P (take n p)
take-All P zero p h = tt
take-All P (suc n) [] h = h
take-All P (suc n) (c ∷ p) h = (h.0, take-All P n p h.1)

resolve-NotZero : (file : List ℕ) → All NotZero (resolve file)
resolve-NotZero file = rw (resolve-canonical file) (
    canonical-All NotZero refl refl (take (stringsz - 1) (c_string file))
      (take-All NotZero (stringsz - 1) (c_string file) (c_string-NotZero file)))

-- The resolved path, with its terminating '\0', fits in the buffer of STRINGSZ bytes that resolve
-- writes; and it is no longer than the path itself, unless that is empty.
resolve-length :
    (file : List ℕ)
    → (length (resolve file) < stringsz) × (length (resolve file) ≤ max 1 (length (c_string file)))
resolve-length file =
    let p = take (stringsz - 1) (c_string file) in
    let e = canonical-length p in
    let n = length-take (stringsz - 1) (c_string file) in
    rw (resolve-canonical file) (omega (arith, e, n), omega (arith, e, n))

render-components :
    (xs : List (List ℕ)) → All IsPart xs → (render xs ≡ dot ∷ []) ⊎ (components [] (render xs) ≡ xs)
unfolding render
render-components [] v = inl refl
render-components (x ∷ xs) v = inr (components-join x xs v)

-- A resolved path is "." or a list of proper components: no component of it is "", "." or "..",
-- so that it never leads out of the directory in which the server runs.
pub resolve_safe :
    (file : List ℕ) → (resolve file ≡ dot ∷ []) ⊎ All IsPart (components [] (resolve file))
unfolding canonical
resolve_safe file =
    let p = take (stringsz - 1) (c_string file) in
    let st = normalize [] (components [] p) in
    let parts = All-reverse IsPart st (canonical-parts p) in
    elim (render-components (reverse st) parts) [
      | inl e ↦ inl (resolve-canonical file ∙ e)
      | inr e ↦ inr (rw (resolve-canonical file, canonical, e) parts)
    ]

canonical-render : (xs : List (List ℕ)) → All IsPart xs → canonical (render xs) ≡ render xs
unfolding canonical render
canonical-render [] v = unfold normalize push components in refl
canonical-render (x ∷ xs) v = rw (
  components-join x xs v,
  normalize-parts [] (x ∷ xs) v,
  append-nil (reverse (x ∷ xs)),
  reverse-reverse (x ∷ xs),
)

-- Resolving a resolved path changes nothing.
resolve-resolve : (file : List ℕ) → resolve (resolve file) ≡ resolve file
unfolding canonical
resolve-resolve file =
    let p = take (stringsz - 1) (c_string file) in
    let st = normalize [] (components [] p) in
    let fits : length (resolve file) ≤ stringsz - 1 = omega (arith, resolve-length file) in
    rw
      (
        resolve-canonical (resolve file),
        c_string-text (resolve file) (resolve-NotZero file),
        take_all (stringsz - 1) (resolve file) fits,
        resolve-canonical file,
      )
      (canonical-render (reverse st) (All-reverse IsPart st (canonical-parts p)))

c_string-whole : (p : List ℕ) → length (c_string p) ≡ length p → All NotZero p
unfolding c_string
c_string-whole [] h = tt
c_string-whole (c ∷ p) h = elim (Bool-cases (c == 0)) [
  | inl e ↦ absurd (ground (arith, h, e))
  | inr e ↦ (e, c_string-whole p (ground (arith, h, e)))
]

string-some :
    (file path : List ℕ)
    → string file (length file) ≡ some path
    → (length file < stringsz) × All NotZero file × (resolve file ≡ path)
unfolding string
string-some file path h = elim (Bool-cases (leb stringsz (length file))) [
  | inl e ↦ absurd (ground (arith, h, e))
  | inr e ↦ elim (Bool-cases (length (c_string file) == length file)) [
    | inl same ↦
        (ground (arith, e), c_string-whole file ((==_iff _ _).0 same), ground (arith, h, e, same))
    | inr other ↦ absurd (ground (arith, h, e, other))
  ]
]

-- Path::string accepts exactly the names that fit in the buffer and have no '\0' inside, and resolves
-- them.
pub string_cases :
    (file path : List ℕ)
    → (string file (length file) ≡ some path)
      ↔ ((length file < stringsz) × All NotZero file × (resolve file ≡ path))
unfolding string
string_cases file path = (
  λ e. string-some file path e,
  λ h. ground (arith, h.0, h.2, ap length (c_string-text file h.1)),
)

components-split :
    (rc x p : List ℕ) → components rc (x ++ slash ∷ p) ≡ components rc x ++ components [] p
unfolding components
components-split rc [] p = refl
components-split rc (c ∷ x) p = elim (Bool-cases (c == slash)) [
  | inl e ↦ rw (e, components, components-split [] x p) refl
  | inr e ↦ rw (e, components) (components-split (c ∷ rc) x p)
]

normalize-append :
    (st xs ys : List (List ℕ)) → normalize st (xs ++ ys) ≡ normalize (normalize st xs) ys
unfolding normalize
normalize-append st [] ys = refl
normalize-append st (x ∷ xs) ys = normalize-append (push x st) xs ys

-- An include file with a relative name is looked up from the directory of the including file: the
-- components of that file without the last one, and then those of the name.
from_relative :
    (base file : List ℕ)
    → is_absolute file ≡ false
    → length (c_string base) + length (c_string file) < stringsz - 4
    → from base file
      ≡ render (
          reverse (
            normalize
              (tail (normalize [] (components [] (c_string base))))
              (components [] (c_string file))))
unfolding from canonical push
from_relative base file h k =
    let b = c_string base in
    let f = c_string file in
    let path = b ++ slash ∷ dot ∷ dot ∷ slash ∷ f in
    let fits : length path ≤ stringsz - 1 =
      omega (arith, length-append b (slash ∷ dot ∷ dot ∷ slash ∷ f)) in
    let text : All NotZero path =
      All-append NotZero b (slash ∷ dot ∷ dot ∷ slash ∷ f) (c_string-NotZero base)
        (refl, (refl, (refl, (refl, c_string-NotZero file)))) in
    let shorter : ltb (length b + length f) (stringsz - 4) ≡ true = ground arith in
    rw
      (
        h,
        shorter,
        take_all (stringsz - 1) path fits,
        resolve-canonical path,
        c_string-text path text,
        take_all (stringsz - 1) path fits,
        components-split [] b (dot ∷ dot ∷ slash ∷ f),
        components-part (dot ∷ dot ∷ []) f (refl, (refl, tt)),
        normalize-append [] (components [] b) ((dot ∷ dot ∷ []) ∷ components [] f),
      )
      refl
