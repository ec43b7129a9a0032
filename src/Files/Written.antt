-- ===== src/Files/Written.antt =====
-- `write_text_file` replaces the target whole, or not at all.
use zyguor_agent_execution_g.Base.{
  ℕ, String, ◌≡◌, refl, inl, inr, ◌⊎◌, Bool, true, false, not, Option, none, some, Option-cases,
  Result, ok, err, bind-ok, fail_if-ok, ok_or-ok, fail_if, ok_or, len, ltb,
}
use zyguor_agent_execution_g.Base.Paths.{FilePath, parent, file_name}
use zyguor_agent_execution_g.Workspace.{Bytes}
use zyguor_agent_execution_g.Files.{check_relative}
use zyguor_agent_execution_g.Files.Confined.{not-false}
use zyguor_agent_execution_g.Files.Access.{
  Target, regular, Place, Calls, revalidate_write_target, permissions_of, Wrote, replace_target,
  sync_temporary, write_temporary, keep_permissions, write_and_replace, remove_temporary,
  check_write, write_checked, write_text_file, max_write_bytes,
}

module _ (anchored : Bool) (calls : Calls) where
  -- The permissions that the written file is to have.
  abbrev pub kept : Option ℕ → ℕ
  kept none = calls.created_permissions
  kept (some permissions) = permissions

  -- An error leaves the target as it was; success leaves the whole content, and no temporary file.
  abbrev pub IsAtomic : (before : Option Target) → Bytes → ℕ → Wrote anchored calls → Type 0
  IsAtomic before contents permissions (result, place) =
      ((error : String) × (result ≡ err error) × (place.target ≡ before))
      ⊎ ((result ≡ ok tt)
          × (place.target ≡ some (regular contents permissions))
          × (place.temporary_file ≡ none))

  module _ (before : Option Target) (contents : Bytes) where
    replace_target-IsAtomic :
        (permissions : ℕ) (place : Place) (failure : Option String)
        → place.target ≡ before
        → IsAtomic before contents permissions
            (replace_target anchored calls contents permissions place failure)
    unfolding replace_target
    replace_target-IsAtomic permissions place (some error) h = inl (_, refl, h)
    replace_target-IsAtomic permissions place none h = inr (refl, refl, refl)

    sync_temporary-IsAtomic :
        (permissions : ℕ) (place : Place) (failure : Option String)
        → place.target ≡ before
        → IsAtomic before contents permissions
            (sync_temporary anchored calls contents permissions place failure)
    unfolding sync_temporary
    sync_temporary-IsAtomic permissions place (some error) h = inl (_, refl, h)
    sync_temporary-IsAtomic permissions place none h =
        replace_target-IsAtomic permissions place calls.rename_error h

    write_temporary-IsAtomic :
        (permissions : ℕ) (place : Place) (failure : Option String)
        → place.target ≡ before
        → IsAtomic before contents permissions
            (write_temporary anchored calls contents permissions place failure)
    unfolding write_temporary
    write_temporary-IsAtomic permissions place (some error) h = inl (_, refl, h)
    write_temporary-IsAtomic permissions place none h =
        sync_temporary-IsAtomic permissions _ calls.sync_error h

    keep_permissions-IsAtomic :
        (wanted : Option ℕ) (place : Place) (failure : Option String)
        → place.target ≡ before
        → IsAtomic before contents
            (kept wanted)
            (keep_permissions anchored calls contents wanted place failure)
    unfolding keep_permissions
    keep_permissions-IsAtomic none place failure h =
        write_temporary-IsAtomic calls.created_permissions place calls.write_error h
    keep_permissions-IsAtomic (some permissions) place (some error) h = inl (_, refl, h)
    keep_permissions-IsAtomic (some permissions) place none h =
        write_temporary-IsAtomic permissions place calls.write_error h

    write_and_replace-IsAtomic :
        (wanted : Option ℕ) (place : Place) (failure : Option String)
        → place.target ≡ before
        → IsAtomic before contents
            (kept wanted)
            (write_and_replace anchored calls contents wanted place failure)
    unfolding write_and_replace
    write_and_replace-IsAtomic wanted place (some error) h = inl (_, refl, h)
    write_and_replace-IsAtomic wanted place none h =
        keep_permissions-IsAtomic wanted _ calls.set_permissions_error h

    remove_temporary-IsAtomic :
        (permissions : ℕ) (wrote : Wrote anchored calls)
        → IsAtomic before contents permissions wrote
        → IsAtomic before contents permissions (remove_temporary anchored calls wrote)
    unfolding remove_temporary
    remove_temporary-IsAtomic permissions (ok u, place) (inl (error, e, h)) = cc
    remove_temporary-IsAtomic permissions (ok u, place) (inr done) = inr done
    remove_temporary-IsAtomic permissions (err error, place) (inr (e, h, t)) = cc
    remove_temporary-IsAtomic permissions (err error, place) (inl (error', e, h)) =
        elim (Option-cases calls.remove_error) [
          | inl p ↦ rw (p, remove_temporary) (inl (error, refl, h))
          | inr (remove_error, p) ↦ rw (p, remove_temporary) (inl (error, refl, h))
        ]

  write_checked-IsAtomic :
      (contents : Bytes) (place : Place) (checked : Result (Unit {0}) String)
      → IsAtomic place.target contents
          (kept (permissions_of anchored calls place.target))
          (write_checked anchored calls contents place checked)
  unfolding write_checked
  write_checked-IsAtomic contents place (err error) = inl (error, refl, refl)
  write_checked-IsAtomic contents place (ok u) =
      let wanted = permissions_of anchored calls place.target in
      remove_temporary-IsAtomic place.target contents (kept wanted)
        (write_and_replace anchored calls contents wanted place calls.create_error)
        (write_and_replace-IsAtomic place.target contents wanted place calls.create_error refl)

  -- Whatever system call of a write fails: on an error the requested path has what it had before,
  -- and on success it has the whole content, with the permissions it had before or else those of
  -- a new file, and the temporary file is gone.
  pub write_text_file-IsAtomic :
      (utf8 : String → Bytes) (path : FilePath) (content : String) (place : Place)
      → IsAtomic place.target
          (utf8 content)
          (kept (permissions_of anchored calls place.target))
          (write_text_file anchored calls utf8 path content place)
  unfolding write_text_file
  write_text_file-IsAtomic utf8 path content place =
      write_checked-IsAtomic (utf8 content) place (check_write anchored calls path content place)

  write_checked-ok :
      (contents : Bytes) (place : Place) (checked : Result (Unit {0}) String)
      → (write_checked anchored calls contents place checked).0 ≡ ok tt
      → checked ≡ ok tt
  unfolding write_checked
  write_checked-ok contents place (err error) h = cc
  write_checked-ok contents place (ok u) h = refl

  -- A write that succeeds was checked.
  pub write_text_file-checked :
      (utf8 : String → Bytes) (path : FilePath) (content : String) (place : Place)
      → (write_text_file anchored calls utf8 path content place).0 ≡ ok tt
      → (ltb max_write_bytes (len content) ≡ false)
        × (check_relative path ≡ ok tt)
        × (anchored ≡ true)
        × ((above : FilePath) × (parent path ≡ some above))
  unfolding write_text_file check_write revalidate_write_target
  write_text_file-checked utf8 path content place h =
      let checked =
        write_checked-ok (utf8 content) place (check_write anchored calls path content place) h in
      let (u, p, h1) = bind-ok (fail_if (ltb max_write_bytes (len content)) _) _ tt checked in
      let (u', q, h2) = bind-ok (check_relative path) _ tt h1 in
      let (name, r, h3) = bind-ok (ok_or (file_name path) _) _ tt h2 in
      let (u'', t, h4) = bind-ok (fail_if (not anchored) _) _ tt h3 in
      let (u3, v, h5) = bind-ok (revalidate_write_target anchored calls path place) _ tt h4 in
      let (u4, w, h6) = bind-ok (check_relative path) _ u3 v in
      let (above, x, h7) = bind-ok (ok_or (parent path) _) _ u3 h6 in
      (
        fail_if-ok (ltb max_write_bytes (len content)) _ u p,
        q,
        not-false anchored (fail_if-ok (not anchored) _ u'' t),
        (above, ok_or-ok (parent path) _ above x),
      )
