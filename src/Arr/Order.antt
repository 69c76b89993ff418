-- ===== src/Arr/Order.antt =====
-- The order of values that std::qsort and search use.
use Prim.Native.Nat.{compare, Ordering}
use dgd.Prelude.{ℕ, ◌≡◌, ◌≢◌, arith, ◌==◌, leb, if◌then◌else◌, List, refl, sym, Bool, true, false}
use dgd.Str
use dgd.Str.Order.{cmp-lex, lex_below, lex_above, cmp_order}
use dgd.Arr.{
  Value, t_nil, t_int, t_float, t_string, t_object, t_lwobject, signed, float_cmp, cmp_same, cmp,
}

float_below :
    (v a b : Value)
    → float_cmp v b ≡ Ordering.gt
    → float_cmp a b ≢ Ordering.gt
    → float_cmp v a ≡ Ordering.gt
unfolding float_cmp
float_below v a b h k = ground arith

float_above :
    (v a b : Value)
    → float_cmp v a ≡ Ordering.lt
    → float_cmp a b ≢ Ordering.gt
    → float_cmp v b ≡ Ordering.lt
unfolding float_cmp
float_above v a b h k = ground arith

string_below :
    (s t u : List ℕ)
    → Str.cmp s u ≡ Ordering.gt
    → Str.cmp t u ≢ Ordering.gt
    → Str.cmp s t ≡ Ordering.gt
string_below s t u = rw (cmp-lex s t, cmp-lex t u, cmp-lex s u) (lex_below s t u)

string_above :
    (s t u : List ℕ)
    → Str.cmp s t ≡ Ordering.lt
    → Str.cmp t u ≢ Ordering.gt
    → Str.cmp s u ≡ Ordering.lt
string_above s t u = rw (cmp-lex s t, cmp-lex t u, cmp-lex s u) (lex_above s t u)

compare_below :
    (x y z : ℕ) → compare x z ≡ Ordering.gt → compare y z ≢ Ordering.gt → compare x y ≡ Ordering.gt
compare_below x y z h k = ground arith

compare_above :
    (x y z : ℕ) → compare x y ≡ Ordering.lt → compare y z ≢ Ordering.gt → compare x z ≡ Ordering.lt
compare_above x y z h k = ground arith

-- cmp_same by the type of both values
abbrev by_type : ℕ → Value → Value → Ordering
by_type t v w =
    if t == t_nil
    then Ordering.eq
    else if t == t_int
    then compare (signed v.number) (signed w.number)
    else if t == t_float
    then float_cmp v w
    else if t == t_string
    then Str.cmp v.string w.string
    else if t == t_object
    then compare v.oindex w.oindex
    else if leb t t_lwobject
    then compare v.tag w.tag
    else Ordering.eq

if_cases :
    (P : Ordering → Ordering → Ordering → Type 0) (b : Bool) (x x' y y' z z' : Ordering)
    → P x y z
    → P x' y' z'
    → P (if b then x else x') (if b then y else y') (if b then z else z')
if_cases P true x x' y y' z z' p q = p
if_cases P false x x' y y' z z' p q = q

abbrev Below : Ordering → Ordering → Ordering → Type 0
Below x y z = x ≡ Ordering.gt → y ≢ Ordering.gt → z ≡ Ordering.gt

abbrev Above : Ordering → Ordering → Ordering → Type 0
Above x y z = x ≡ Ordering.lt → y ≢ Ordering.gt → z ≡ Ordering.lt

by_type-Below : (t : ℕ) (v a b : Value) → Below (by_type t v b) (by_type t a b) (by_type t v a)
by_type-Below t v a b =
    if_cases Below (t == t_nil) _ _ _ _ _ _ (λ h k. cc)
      (if_cases Below (t == t_int) _ _ _ _ _ _
        (compare_below (signed v.number) (signed a.number) (signed b.number))
        (if_cases Below (t == t_float) _ _ _ _ _ _ (float_below v a b) (
          if_cases Below (t == t_string) _ _ _ _ _ _ (string_below v.string a.string b.string) (
            if_cases Below (t == t_object) _ _ _ _ _ _ (compare_below v.oindex a.oindex b.oindex) (
              if_cases Below (leb t t_lwobject) _ _ _ _ _ _ (compare_below v.tag a.tag b.tag)
                (λ h k. cc))))))

by_type-Above : (t : ℕ) (v a b : Value) → Above (by_type t v a) (by_type t a b) (by_type t v b)
by_type-Above t v a b =
    if_cases Above (t == t_nil) _ _ _ _ _ _ (λ h k. cc)
      (if_cases Above (t == t_int) _ _ _ _ _ _
        (compare_above (signed v.number) (signed a.number) (signed b.number))
        (if_cases Above (t == t_float) _ _ _ _ _ _ (float_above v a b) (
          if_cases Above (t == t_string) _ _ _ _ _ _ (string_above v.string a.string b.string) (
            if_cases Above (t == t_object) _ _ _ _ _ _ (compare_above v.oindex a.oindex b.oindex) (
              if_cases Above (leb t t_lwobject) _ _ _ _ _ _ (compare_above v.tag a.tag b.tag)
                (λ h k. cc))))))

-- cmp with the types, and the result for the same type, as arguments
abbrev with_types : ℕ → ℕ → Ordering → Ordering
with_types t u o = elim (compare t u) [
  | Ordering.lt ↦ Ordering.lt
  | Ordering.eq ↦ o
  | Ordering.gt ↦ Ordering.gt
]

with_types-Below :
    (t u w : ℕ) (x y z : Ordering)
    → (t ≡ u → u ≡ w → Below x y z)
    → Below (with_types t w x) (with_types u w y) (with_types t u z)
with_types-Below t u w x y z f h k = ground (arith, f, h, k)

with_types-Above :
    (t u w : ℕ) (x y z : Ordering)
    → (t ≡ u → u ≡ w → Above x y z)
    → Above (with_types t u x) (with_types u w y) (with_types t w z)
with_types-Above t u w x y z f h k = ground (arith, f, h, k)

-- A value that is greater than a second one is greater than any that is not greater than the second.
pub cmp_below :
    (v a b : Value) → cmp v b ≡ Ordering.gt → cmp a b ≢ Ordering.gt → cmp v a ≡ Ordering.gt
unfolding cmp cmp_same
cmp_below v a b =
    with_types-Below v.type a.type b.type _ _ _ (λ e f. rw (sym e) (by_type-Below v.type v a b))

-- A value that is less than a second one is less than any that the second is not greater than.
pub cmp_above :
    (v a b : Value) → cmp v a ≡ Ordering.lt → cmp a b ≢ Ordering.gt → cmp v b ≡ Ordering.lt
unfolding cmp cmp_same
cmp_above v a b =
    with_types-Above v.type a.type b.type _ _ _ (λ e f. rw (sym e) (by_type-Above v.type v a b))

compare_flip : (x y : ℕ) → compare x y ≡ Ordering.eq → compare y x ≡ Ordering.eq
compare_flip x y e = ground arith

string_flip : (s t : List ℕ) → Str.cmp s t ≡ Ordering.eq → Str.cmp t s ≡ Ordering.eq
string_flip s t e = (cmp_order t s).0.1 (sym ((cmp_order s t).0.0 e))

float_flip : (v w : Value) → float_cmp v w ≡ Ordering.eq → float_cmp w v ≡ Ordering.eq
unfolding float_cmp
float_flip v w e = ground arith

if_flip :
    (b : Bool) (x x' y y' : Ordering)
    → (x ≡ Ordering.eq → y ≡ Ordering.eq)
    → (x' ≡ Ordering.eq → y' ≡ Ordering.eq)
    → (if b then x else x') ≡ Ordering.eq
    → (if b then y else y') ≡ Ordering.eq
if_flip true x x' y y' p q = p
if_flip false x x' y y' p q = q

by_type_flip : (t : ℕ) (v w : Value) → by_type t v w ≡ Ordering.eq → by_type t w v ≡ Ordering.eq
by_type_flip t v w =
    if_flip (t == t_nil) _ _ _ _ (λ h. refl)
      (if_flip (t == t_int) _ _ _ _ (compare_flip (signed v.number) (signed w.number)) (
        if_flip (t == t_float) _ _ _ _ (float_flip v w) (
          if_flip (t == t_string) _ _ _ _ (string_flip v.string w.string) (
            if_flip (t == t_object) _ _ _ _ (compare_flip v.oindex w.oindex)
              (if_flip (leb t t_lwobject) _ _ _ _ (compare_flip v.tag w.tag) (λ h. refl))))))

with_types_flip :
    (t u : ℕ) (x y : Ordering)
    → (t ≡ u → x ≡ Ordering.eq → y ≡ Ordering.eq)
    → with_types t u x ≡ Ordering.eq
    → with_types u t y ≡ Ordering.eq
with_types_flip t u x y f h = ground (arith, f, h)

pub cmp_flip : (v w : Value) → cmp v w ≡ Ordering.eq → cmp w v ≡ Ordering.eq
unfolding cmp cmp_same
cmp_flip v w = with_types_flip v.type w.type _ _ (λ e. rw (sym e) (by_type_flip v.type v w))
