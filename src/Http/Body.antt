-- ===== src/Http/Body.antt =====
-- The bounded readers: `read_bounded_body` of src/http_execution.rs, and `read_bounded` of
-- src/cargo_test.rs, which is the same loop under another error message.
pub mod Bounded
use zyguor_agent_execution_g.Base.{
  ℕ, ◌-◌, String, ◌<>◌, Bool, true, false, ◌||◌, List, [], ◌∷◌, ◌++◌, Result, ok, err, map_ok, ltb,
  min,
}
use zyguor_agent_execution_g.Base.Lists.{length, take}

-- What a reader answers, call by call: the bytes that a call put into the buffer, none of them at
-- the end of the input, or an error. A list that is used up is at its end too.
abbrev pub Reader : Type 0
Reader = List (Result (List ℕ) String)

-- One turn of the loop on the bytes read; `captured` and `truncated` are its variables.
unfoldable pub keep : ℕ → List ℕ → Bool → List ℕ → List ℕ × Bool
keep maximum_bytes captured truncated bytes =
    let remaining = maximum_bytes - length captured in
    let bytes_to_keep = min (length bytes) remaining in
    (captured ++ take bytes_to_keep bytes, truncated || ltb bytes_to_keep (length bytes))

-- `String::from_utf8_lossy` is a parameter.
abbrev pub as_text : (List ℕ → String) → List ℕ × Bool → String × Bool
as_text from_utf8_lossy (captured, truncated) = (from_utf8_lossy captured, truncated)

-- `failure` is the message that an error of the reader is put under.
module _ (failure : String) where
  unfoldable pub read_loop : ℕ → Reader → List ℕ → Bool → Result (List ℕ × Bool) String
  unfolding keep
  read_loop maximum_bytes [] captured truncated = ok (captured, truncated)
  read_loop maximum_bytes (err error ∷ reader) captured truncated = err (failure <> error)
  read_loop maximum_bytes (ok [] ∷ reader) captured truncated = ok (captured, truncated)
  read_loop maximum_bytes (ok (byte ∷ bytes) ∷ reader) captured truncated =
      let (captured', truncated') = keep maximum_bytes captured truncated (byte ∷ bytes) in
      read_loop maximum_bytes reader captured' truncated'

  unfoldable pub read_bounded : (List ℕ → String) → ℕ → Reader → Result (String × Bool) String
  read_bounded from_utf8_lossy maximum_bytes reader =
      map_ok (as_text from_utf8_lossy) (read_loop maximum_bytes reader [] false)

unfoldable pub read_bounded_body : (List ℕ → String) → Reader → ℕ → Result (String × Bool) String
read_bounded_body from_utf8_lossy reader maximum_bytes =
    read_bounded "failed to read HTTP response body: " from_utf8_lossy maximum_bytes reader

unfoldable pub read_process_output : (List ℕ → String) → Reader → ℕ → Result (String × Bool) String
read_process_output from_utf8_lossy reader maximum_bytes =
    read_bounded "failed to read process output: " from_utf8_lossy maximum_bytes reader
