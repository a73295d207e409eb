-- ===== src/Path/Tests.antt =====
-- `path.c` on "/a/./b//", in bytes.
use nano_fs.Prelude.{◌<◌, ◌≡◌, refl, arith, ok, err, fs_einval, [], ◌∷◌}
use nano_fs.Path.{
  Str, but_last, path_normalize, collect, emit, print_components, is_absolute, push, str_eq,
  get_next_component, take_component, skip_slashes, non_empty, path_dirname, path_basename, dir_of,
  strip, split_last, dir_in,
}
use nano_fs.Path.Names.{IsNormal, path_normalize-IsNormal}
use nano_fs.Path.Rounds.{collect_rounds}
use nano_fs.Path.Split.{Splits, path_dirname-Splits}

abbrev some_path : Str
some_path = 47 ∷ 97 ∷ 47 ∷ 46 ∷ 47 ∷ 98 ∷ 47 ∷ 47 ∷ []

normal : path_normalize some_path 16 ≡ ok (47 ∷ 97 ∷ 47 ∷ 98 ∷ [])
unfolding path_normalize collect emit print_components is_absolute push str_eq get_next_component
    take_component skip_slashes non_empty
normal = refl

-- In a buffer of four bytes the result has no room for the terminator.
too_long : path_normalize some_path 4 ≡ err fs_einval
unfolding path_normalize collect emit print_components is_absolute push str_eq get_next_component
    take_component skip_slashes non_empty
too_long = refl

dirname : path_dirname some_path 16 ≡ ok (47 ∷ 97 ∷ 47 ∷ 46 ∷ [])
unfolding path_dirname dir_of strip split_last dir_in
dirname = refl

-- "/a/../b"
abbrev up_path : Str
up_path = 47 ∷ 97 ∷ 47 ∷ 46 ∷ 46 ∷ 47 ∷ 98 ∷ []

up : path_normalize up_path 16 ≡ ok (47 ∷ 98 ∷ [])
unfolding path_normalize collect emit print_components is_absolute push str_eq get_next_component
    take_component skip_slashes non_empty but_last
up = refl

path_normalize-IsNormal_example : IsNormal up_path 16 (47 ∷ 98 ∷ [])
path_normalize-IsNormal_example = path_normalize-IsNormal up_path (47 ∷ 98 ∷ []) 16 up

collect_rounds_example : collect 9 some_path [] ≡ collect 20 some_path []
collect_rounds_example = collect_rounds 9 20 some_path [] (omega arith) (omega arith)

path_dirname-Splits_example :
    Splits some_path (47 ∷ 97 ∷ 47 ∷ 46 ∷ []) (path_basename some_path) × (4 < 16)
path_dirname-Splits_example = path_dirname-Splits some_path (47 ∷ 97 ∷ 47 ∷ 46 ∷ []) 16 dirname
