-- ===== src/Path.antt =====
-- src/path.c: paths as lists of bytes without the terminator. A result that is written to a buffer
-- comes with the buffer's size, which has to hold the terminator too. `strdup` succeeds.
pub mod Equal
pub mod Parts
pub mod Names
pub mod Rounds
pub mod Split
mod Tests
use nano_fs.Prelude.{
  ℕ, zero, suc, ◌+◌, ◌-◌, Bool, true, false, not, ◌&&◌, Option, none, some, List, [], ◌∷◌, ◌++◌,
  Result, ok, err, FsError, fs_einval, leb, ◌==◌, if◌then◌else◌, length, take,
}
use nano_fs.Types.{max_filename}

abbrev pub Str : Type 0
Str = List ℕ

abbrev pub slash : ℕ
slash = 47

abbrev pub dot : ℕ
dot = 46

-- `strcmp(a, b) == 0`
pub str_eq : Str → Str → Bool
str_eq [] [] = true
str_eq [] (c ∷ b) = false
str_eq (c ∷ a) [] = false
str_eq (c ∷ a) (e ∷ b) = (c == e) && str_eq a b

pub skip_slashes : Str → Str
skip_slashes [] = []
skip_slashes (c ∷ p) = if c == slash then skip_slashes p else c ∷ p

-- `while (*p && *p != '/' && len < size - 1)`, with `room` bytes left, and what follows.
pub take_component : ℕ → Str → Str × Str
take_component zero p = ([], p)
take_component (suc room) [] = ([], [])
take_component (suc room) (c ∷ p) =
    let (name, rest) = take_component room p in if c == slash then ([], c ∷ p) else (c ∷ name, rest)

-- `none` is the return of 0.
non_empty : Str → Option Str
non_empty [] = none
non_empty (c ∷ name) = some (c ∷ name)

pub get_next_component : Str → Option Str × Str
unfolding non_empty
get_next_component path =
    let (name, rest) = take_component max_filename (skip_slashes path) in (non_empty name, rest)

-- `--count`
pub but_last : List Str → List Str
but_last [] = []
but_last (name ∷ []) = []
but_last (name ∷ other ∷ rest) = name ∷ but_last (other ∷ rest)

-- What `path_normalize` does with one component.
pub push : Str → List Str → Result FsError (List Str)
push name components =
    if str_eq name (dot ∷ [])
    then ok components
    else if str_eq name (dot ∷ dot ∷ [])
    then ok (but_last components)
    else if leb 256 (length components)
    then err fs_einval
    else ok (components ++ (name ∷ []))

-- The loop of `path_normalize`. Each round takes at least one byte of the path.
pub collect : ℕ → Str → List Str → Result FsError (List Str)
collect zero path components = ok components
collect (suc fuel) path components =
    let (next, rest) = get_next_component path in
    elim next [
      | none ↦ ok components
      | some name ↦ elim (push name components) [ ok c ↦ collect fuel rest c | err e ↦ err e ]
    ]

-- The components, behind what is written already.
pub emit : ℕ → List Str → Str → Result FsError Str
emit size [] out = ok out
emit size (name ∷ []) out =
    if leb size (length out + length name) then err fs_einval else ok (out ++ name)
emit size (name ∷ other ∷ rest) out =
    let all = emit size (other ∷ rest) (out ++ (name ++ (slash ∷ []))) in
    if leb size (length out + length name + 1) then err fs_einval else all

pub is_absolute : Str → Bool
is_absolute [] = false
is_absolute (c ∷ path) = c == slash

-- The output for the components in order.
pub print_components : ℕ → Bool → List Str → Result FsError Str
print_components size absolute [] =
    if leb size 1 then err fs_einval else ok (if absolute then slash ∷ [] else dot ∷ [])
print_components size absolute (name ∷ rest) =
    if absolute
    then (if leb size 1 then err fs_einval else emit size (name ∷ rest) (slash ∷ []))
    else emit size (name ∷ rest) []

pub path_normalize : Str → ℕ → Result FsError Str
path_normalize path size =
    if size == 0 then err fs_einval else elim (collect (length path + 1) path []) [
      | ok components ↦ print_components size (is_absolute path) components
      | err e ↦ err e
    ]

-- The path without the slashes at its end.
pub strip : Str → Str
strip [] = []
strip (c ∷ p) = elim (strip p) [ [] ↦ if c == slash then [] else c ∷ [] | d ∷ q ↦ c ∷ d ∷ q ]

-- What stands before and behind the last slash.
pub split_last : Str → Option (Str × Str)
split_last [] = none
split_last (c ∷ p) = elim (split_last p) [
  | some (dir, base) ↦ some (c ∷ dir, base)
  | none ↦ if c == slash then some ([], p) else none
]

-- The name, by the last slash, if there is one; at most MAX_FILENAME bytes of it.
pub base_in : Str → Option (Str × Str) → Str
base_in path none = take max_filename path
base_in path (some (dir, base)) = take max_filename base

pub base_of : Str → Str
unfolding base_in
base_of [] = slash ∷ []
base_of (c ∷ path) = base_in (c ∷ path) (split_last (c ∷ path))

pub path_basename : Str → Str
unfolding base_of
path_basename [] = dot ∷ []
path_basename (c ∷ path) = base_of (strip (c ∷ path))

-- A one-byte result, if the buffer holds it.
one_byte : ℕ → ℕ → Result FsError Str
one_byte size c = if leb 2 size then ok (c ∷ []) else err fs_einval

pub dir_in : ℕ → Option (Str × Str) → Result FsError Str
unfolding one_byte
dir_in size none = one_byte size dot
dir_in size (some ([], base)) = one_byte size slash
dir_in size (some (c ∷ dir, base)) =
    if leb size (length (c ∷ dir)) then err fs_einval else ok (c ∷ dir)

pub dir_of : ℕ → Str → Result FsError Str
unfolding one_byte dir_in
dir_of size [] = one_byte size slash
dir_of size (c ∷ path) = dir_in size (split_last (c ∷ path))

pub path_dirname : Str → ℕ → Result FsError Str
unfolding dir_of
path_dirname path size = if size == 0 then err fs_einval else dir_of size (strip path)
