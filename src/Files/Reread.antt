-- ===== src/Files/Reread.antt =====
-- What was written is read back.
use zyguor_agent_execution_g.Base.{
  ℕ, String, ◌+◌, ◌≤◌, ◌≡◌, refl, sym, ◌∙◌, arith, inl, inr, Bool, true, false, none, some, [], ◌∷◌,
  Result, ok, err, if◌then◌else◌, len, ltb,
}
use zyguor_agent_execution_g.Base.Lists.{length, take, take-all}
use zyguor_agent_execution_g.Base.Paths.{FilePath, parent}
use zyguor_agent_execution_g.Workspace.{Bytes}
use zyguor_agent_execution_g.Files.{check_relative}
use zyguor_agent_execution_g.Files.Access.{
  regular, Place, Calls, called, read_target, read_text_file, write_text_file, max_read_bytes,
  is_empty_path,
}
use zyguor_agent_execution_g.Files.Written.{write_text_file-IsAtomic, write_text_file-checked}

-- The calls of a read, all of which succeed.
abbrev pub ReadsWell : Calls → Type 0
ReadsWell calls =
    (calls.open_parent ≡ none)
    × (calls.inspect ≡ none)
    × (calls.open_error ≡ none)
    × (calls.read_error ≡ none)

within : (most n : ℕ) → n ≤ most → ltb most n ≡ false
within most n h = ground (arith, h)

failed-ok : {error : String} → ◌≡◌ {A = Result (Unit {0}) String} (err error) (ok tt) → ⊥
failed-ok h = cc

bounded : (most n : ℕ) → ltb most n ≡ false → n ≤ most
bounded most n h = ground (arith, h)

module _ (from_utf8 : Bytes → Result String String) (not_found : String) (calls : Calls)
    (well : ReadsWell calls) where
  read_target-whole :
      (anchored : Bool) (contents : Bytes) (permissions : ℕ) (text : String)
      → length contents ≤ max_read_bytes
      → from_utf8 contents ≡ ok text
      → read_target anchored calls from_utf8 (regular contents permissions) ≡ ok text
  unfolding read_target
  read_target-whole anchored contents permissions text h e =
      let whole : take (max_read_bytes + 1) contents ≡ contents =
        take-all (max_read_bytes + 1) contents (omega (arith, h)) in
      let short : ltb max_read_bytes (length contents) ≡ false =
        within max_read_bytes (length contents) h in
      rw (read_target, well.2, well.3, whole, short, e) refl

  parent-opens :
      (above : FilePath)
      → (if is_empty_path above
          then ok tt
          else called "failed to validate read target parent: " calls.open_parent)
        ≡ ok tt
  parent-opens [] = refl
  parent-opens (c ∷ above) = rw (well.0) refl

  read_text_file-whole :
      (anchored : Bool) (path above : FilePath) (place : Place) (contents : Bytes) (permissions : ℕ)
      (text : String)
      → anchored ≡ true
      → check_relative path ≡ ok tt
      → parent path ≡ some above
      → place.target ≡ some (regular contents permissions)
      → length contents ≤ max_read_bytes
      → from_utf8 contents ≡ ok text
      → read_text_file anchored calls from_utf8 not_found path place ≡ ok text
  unfolding read_text_file
  read_text_file-whole anchored path above place contents permissions text a p q r h e =
      rw (read_text_file, a, p, q, parent-opens above, well.1, r)
        (read_target-whole anchored contents permissions text h e)

  -- Where UTF-8 is read back as it was written and its length is that of the string, a text that
  -- was written is what a later read of the path returns, when no system call of the read fails:
  -- every text that may be written may be read.
  pub read_text_file-write_text_file :
      (writing : Calls) (anchored : Bool) (utf8 : String → Bytes) (path : FilePath)
      (content : String) (place : Place)
      → from_utf8 (utf8 content) ≡ ok content
      → length (utf8 content) ≡ len content
      → (write_text_file anchored writing utf8 path content place).0 ≡ ok tt
      → read_text_file anchored calls from_utf8 not_found path
          (write_text_file anchored writing utf8 path content place).1
        ≡ ok content
  read_text_file-write_text_file writing anchored utf8 path content place e size h =
      let (small, relative, is_anchored, (above, up)) =
        write_text_file-checked anchored writing utf8 path content place h in
      let short : length (utf8 content) ≤ max_read_bytes =
        rw (size) (bounded max_read_bytes (len content) small) in
      elim (write_text_file-IsAtomic anchored writing utf8 path content place) [
        | inl (error, failed, unchanged) ↦ absurd (failed-ok (sym failed ∙ h))
        | inr (done, written, cleaned) ↦
            read_text_file-whole anchored path above
              (write_text_file anchored writing utf8 path content place).1 (utf8 content) _ content
              is_anchored relative up written short e
      ]
