-- ===== src/Base/Paths.antt =====
-- `std::path::Path` on Unix, as the list of its components.
use mathlib.Core.Bool.{Bool, true, false, ◌&&◌}
use mathlib.Core.Option.{Option, none, some}
use mathlib.Core.List.{List, [], ◌∷◌, ◌++◌}
use Prim.Native.String.{String}
use text.Mathlib.Text.{◌==◌}

pub data Component : Type 0 where
  root_dir cur_dir parent_dir : Component
  normal : String → Component

abbrev pub FilePath : Type 0
FilePath = List Component

unfoldable pub component_beq : Component → Component → Bool
component_beq root_dir root_dir = true
component_beq cur_dir cur_dir = true
component_beq parent_dir parent_dir = true
component_beq (normal a) (normal b) = a == b
component_beq _ _ = false

-- `Path::file_name`: the last component, if it is a name.
unfoldable pub file_name : FilePath → Option String
file_name [] = none
file_name (normal name ∷ []) = some name
file_name (c ∷ []) = none
file_name (c ∷ d ∷ rest) = file_name (d ∷ rest)

-- `Path::is_absolute`
unfoldable pub is_absolute : FilePath → Bool
is_absolute (root_dir ∷ rest) = true
is_absolute _ = false

-- `Path::parent`: none at the root and at the empty path.
unfoldable pub parent : FilePath → Option FilePath
parent [] = none
parent (root_dir ∷ []) = none
parent (c ∷ []) = some []
parent (c ∷ d ∷ rest) = elim (parent (d ∷ rest)) [ none ↦ some (c ∷ []) | some up ↦ some (c ∷ up) ]

-- `Path::join` with a name.
unfoldable pub join : FilePath → String → FilePath
join path name = path ++ normal name ∷ []

-- `Path::starts_with`: whole components.
unfoldable pub starts_with : FilePath → FilePath → Bool
unfolding component_beq
starts_with path [] = true
starts_with [] (d ∷ base) = false
starts_with (c ∷ path) (d ∷ base) = component_beq c d && starts_with path base
