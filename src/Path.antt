-- ===== src/Path.antt =====
-- src/path.h, class Path: the paths that LPC code hands to the server, brought to canonical form.
-- A char array is the list of its bytes up to the terminating '\0'.

pub mod Normal
pub mod Walk
pub mod Parts
pub mod Laws
mod Tests
use dgd.Prelude.{
  ℕ, ◌+◌, ◌-◌, Bool, false, not, ◌&&◌, ◌||◌, List, [], ◌∷◌, ◌++◌, Option, none, some, reverse, ltb,
  leb, ◌==◌, if◌then◌else◌, length, take, drop,
}

abbrev pub slash : ℕ
slash = b'/'

abbrev pub dot : ℕ
dot = b'.'

abbrev pub stringsz : ℕ
stringsz = 256

-- What strlen and strncpy read of a region of memory: the bytes before the first '\0'.
pub c_string : List ℕ → List ℕ
c_string [] = []
c_string (c ∷ p) = if c == 0 then [] else c ∷ c_string p

-- The buffer behind the read position: buf[0 .. q), the last byte written first, and d - buf.
-- Since q never passes p, what is written there overwrites nothing that is still to be read.
pub record Cursor : Type 0 where
  pub out : List ℕ
  pub start : ℕ

-- `q - 1 == d && d[0] == '.'`
pub is_dot : List ℕ → ℕ → Bool
is_dot [] d = false
is_dot (a ∷ out) d = length out == d && a == dot

-- `q - 2 == d && d[0] == '.' && d[1] == '.'`
pub is_dot_dot : List ℕ → ℕ → Bool
is_dot_dot [] d = false
is_dot_dot (a ∷ []) d = false
is_dot_dot (a ∷ b ∷ out) d = length out == d && (b == dot && a == dot)

-- `q = d`
pub rewind : List ℕ → ℕ → List ℕ
rewind out d = drop (length out - d) out

-- `for (; q != buf && *--q != '/'; ) ;`
pub back : List ℕ → List ℕ
back [] = []
back (c ∷ out) = if c == slash then out else back out

-- `if (q != buf) { --q; for ... }`
pub parent : List ℕ → List ℕ
unfolding back
parent [] = []
parent (c ∷ out) = back out

-- `if (q != buf) { if (q[-1] == '/') --q; *q++ = *p; }`
pub put_separator : ℕ → List ℕ → List ℕ
put_separator c [] = []
put_separator c (a ∷ out) = if a == slash then c ∷ out else c ∷ a ∷ out

-- The branch taken at a directory separator, or at the final '\0'; `c` is `*p`.
pub separator : ℕ → Cursor → Cursor
unfolding is_dot is_dot_dot rewind parent put_separator
separator c s =
    let out = put_separator c (
      if is_dot s.out s.start
      then rewind s.out s.start
      else if is_dot_dot s.out s.start
      then parent (rewind s.out s.start)
      else s.out) in
    record { out = out; start = length out }

pub walk : List ℕ → Cursor → List ℕ
unfolding separator
walk [] s = (separator 0 s).out
walk (c ∷ p) s = walk p (if c == slash then separator c s else record s { out = c ∷ s.out })

-- "" -> "."; otherwise the last byte written is the '\0'
pub finish : List ℕ → List ℕ
finish [] = dot ∷ []
finish (_ ∷ out) = reverse out

pub resolve : List ℕ → List ℕ
unfolding c_string walk finish
resolve file = finish (walk (take (stringsz - 1) (c_string file)) (record { out = []; start = 0 }))

-- Path::string. `file` is the memory of `len` bytes that is followed by a '\0'.
pub string : List ℕ → ℕ → Option (List ℕ)
unfolding resolve
string file len =
    if leb stringsz len || not (length (c_string file) == len) then none else some (resolve file)

abbrev pub up_level : List ℕ
up_level = slash ∷ dot ∷ dot ∷ slash ∷ []

pub is_absolute : List ℕ → Bool
is_absolute [] = false
is_absolute (c ∷ file) = c == slash

-- Path::from
pub from : List ℕ → List ℕ → List ℕ
unfolding resolve is_absolute
from base file =
    if is_absolute file
    then resolve file
    else if ltb (length (c_string base) + length (c_string file)) (stringsz - 4)
    then resolve (take (stringsz - 1) (c_string base ++ (up_level ++ c_string file)))
    else resolve file
