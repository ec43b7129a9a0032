-- ===== src/Examples/Files.antt =====
-- The theorems on the files of the workspace, for one that is replaced.
use zyguor_agent_execution_g.Base.{◌≡◌, refl, true, false, none, some, [], ◌∷◌, ok}
use zyguor_agent_execution_g.Base.Paths.{
  FilePath, root_dir, normal, join, parent, file_name, starts_with, is_absolute,
}
use zyguor_agent_execution_g.Files.Resolve.{Ambient, resolve_existing_path, resolve_write_target}
use zyguor_agent_execution_g.Files.Confined.{
  IsInside, resolve_existing_path-IsInside, resolve_write_target-IsInside,
}
use zyguor_agent_execution_g.Files.Access.{
  regular, Place, Calls, write_text_file, read_text_file, permissions_of,
}
use zyguor_agent_execution_g.Files.Written.{kept, IsAtomic, write_text_file-IsAtomic}
use zyguor_agent_execution_g.Files.Reread.{read_text_file-write_text_file}
use zyguor_agent_execution_g.Examples.Workspace.{codes}

-- No links, and every path is a file.
abbrev plain : Ambient
plain = record {
  canonicalize = λ path. ok path;
  symlink_metadata_is_ok = λ path. false;
  is_file = λ path. true;
}

abbrev top : FilePath
top = root_dir ∷ normal "w" ∷ []

abbrev note : FilePath
note = normal "note" ∷ []

abbrev in_top : FilePath
in_top = root_dir ∷ normal "w" ∷ normal "note" ∷ []

resolve_existing_path-IsInside_example : IsInside plain top in_top
unfolding resolve_existing_path is_absolute starts_with
resolve_existing_path-IsInside_example = resolve_existing_path-IsInside plain top note in_top refl

resolve_write_target-IsInside_example : IsInside plain top in_top
unfolding resolve_write_target is_absolute starts_with parent file_name join
resolve_write_target-IsInside_example = resolve_write_target-IsInside plain top note in_top refl

abbrev calm : Calls
calm = record {
  open_parent = none;
  inspect = none;
  inspect_again = none;
  create_error = none;
  created_permissions = 420;
  set_permissions_error = none;
  write_error = none;
  written = [];
  sync_error = none;
  rename_error = none;
  remove_error = none;
  open_error = none;
  read_error = none;
}

abbrev before : Place
before = record { target = some (regular (1 ∷ []) 384); temporary_file = none }

write_text_file-IsAtomic_example :
    IsAtomic true calm before.target
      (codes "hi")
      (kept true calm (permissions_of true calm before.target))
      (write_text_file true calm codes note "hi" before)
write_text_file-IsAtomic_example = write_text_file-IsAtomic true calm codes note "hi" before

read_text_file-write_text_file_example :
    read_text_file true calm
      (λ bytes. ok "hi")
      "not found"
      note
      (write_text_file true calm codes note "hi" before).1
    ≡ ok "hi"
unfolding write_text_file is_absolute parent file_name
read_text_file-write_text_file_example =
    read_text_file-write_text_file (λ bytes. ok "hi") "not found" calm (refl, refl, refl, refl) calm
      true codes note "hi" before refl refl refl
