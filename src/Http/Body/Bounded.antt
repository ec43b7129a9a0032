-- ===== src/Http/Body/Bounded.antt =====
-- The loop of a bounded reader against a description of its result by the whole input.
use zyguor_agent_execution_g.Base.{
  ℕ, zero, suc, ◌-◌, ◌+◌, ◌≤◌, String, ◌<>◌, ◌≡◌, refl, Bool, false, ◌||◌, List, [], ◌∷◌, ◌++◌,
  Result, ok, err, ltb, min, arith, map_ok, ap, ◌∙◌,
}
use mathlib.Core.List.{append_assoc, append-nil}
use zyguor_agent_execution_g.Base.Lists.{length, take, length-append, length-take, take-append}
use zyguor_agent_execution_g.Http.Body.{Reader, keep, read_loop, read_bounded, as_text}

module _ (failure : String) where
  -- All the bytes up to the end of the input, or the first error.
  unfoldable pub input : Reader → Result (List ℕ) String
  input [] = ok []
  input (err error ∷ reader) = err (failure <> error)
  input (ok [] ∷ reader) = ok []
  input (ok (byte ∷ bytes) ∷ reader) = map_ok (λ rest. (byte ∷ bytes) ++ rest) (input reader)

-- What is kept of the bytes, and whether some were dropped.
abbrev pub clip : ℕ → List ℕ → List ℕ × Bool
clip most bytes = (take most bytes, ltb most (length bytes))

-- The same in the middle of the loop.
abbrev clip_from : ℕ → List ℕ → Bool → List ℕ → List ℕ × Bool
clip_from most captured truncated rest = (
  captured ++ take (most - length captured) rest,
  truncated || ltb (most - length captured) (length rest),
)

min-suc-suc : (m n : ℕ) → min (suc m) (suc n) ≡ suc (min m n)
min-suc-suc m n = omega arith

take_none : (k : ℕ) (bytes : List ℕ) → k ≡ 0 → take k bytes ≡ []
take_none k bytes e = rw e

take-min : (n : ℕ) (bytes : List ℕ) → take (min (length bytes) n) bytes ≡ take n bytes
take-min zero bytes = take_none (min (length bytes) 0) bytes (omega arith)
take-min (suc n) [] = take_none (min 0 (suc n)) [] (omega arith)
take-min (suc n) (b ∷ bytes) = rw (min-suc-suc (length bytes) n, take-min n bytes)

abbrev kept_of : ℕ → List ℕ → List ℕ → List ℕ
kept_of most captured bytes = captured ++ take (min (length bytes) (most - length captured)) bytes

module _ (most : ℕ) (captured bytes rest : List ℕ) (h : length captured ≤ most) where
  abbrev kept : List ℕ
  kept = kept_of most captured bytes

  length-kept : length kept ≡ length captured + min (length bytes) (most - length captured)
  length-kept = omega (
    arith,
    length-append captured (take (min (length bytes) (most - length captured)) bytes),
    length-take (min (length bytes) (most - length captured)) bytes,
  )

  remaining : most - length kept ≡ most - length captured - length bytes
  remaining = omega (arith, length-kept)

  kept-rest :
      kept ++ take (most - length kept) rest
      ≡ captured ++ take (most - length captured) (bytes ++ rest)
  kept-rest =
      rw (remaining, take-min (most - length captured) bytes, take-append (most - length captured))
        (append_assoc captured _ _)

  dropped :
      (truncated : Bool)
      → ((truncated || ltb (min (length bytes) (most - length captured)) (length bytes))
          || ltb (most - length kept) (length rest))
        ≡ (truncated || ltb (most - length captured) (length (bytes ++ rest)))
  dropped truncated = ground (arith, remaining, length-append bytes rest)

  kept-le : length kept ≤ most
  kept-le = omega (arith, length-kept)

take-nil : (k : ℕ) → take {A = ℕ} k [] ≡ []
take-nil zero = refl
take-nil (suc k) = refl

-- At the end of the input.
clip_end :
    (most : ℕ) (captured : List ℕ) (truncated : Bool)
    → (captured, truncated) ≡ clip_from most captured truncated []
clip_end most captured truncated = rw (take-nil (most - length captured), append-nil) (ground arith)

-- One turn of the loop, before the rest of the input.
clip_turn :
    (most : ℕ) (captured : List ℕ) (truncated : Bool) (bytes : List ℕ)
    → length captured ≤ most
    → (r : Result (List ℕ) String)
    → map_ok
        (clip_from most
          (kept_of most captured bytes)
          (truncated || ltb (min (length bytes) (most - length captured)) (length bytes)))
        r
      ≡ map_ok (clip_from most captured truncated) (map_ok (λ rest. bytes ++ rest) r)
clip_turn most captured truncated bytes h (err error) = refl
clip_turn most captured truncated bytes h (ok rest) =
    cc (kept-rest most captured bytes rest h, dropped most captured bytes rest h truncated)

module _ (failure : String) where
  read_loop-input :
      (most : ℕ) (reader : Reader) (captured : List ℕ) (truncated : Bool)
      → length captured ≤ most
      → read_loop failure most reader captured truncated
        ≡ map_ok (clip_from most captured truncated) (input failure reader)
  unfolding read_loop input keep
  read_loop-input most [] captured truncated h = ap ok (clip_end most captured truncated)
  read_loop-input most (err error ∷ reader) captured truncated h = refl
  read_loop-input most (ok [] ∷ reader) captured truncated h =
      ap ok (clip_end most captured truncated)
  read_loop-input most (ok (byte ∷ bytes) ∷ reader) captured truncated h =
      read_loop-input most reader _ _ (kept-le most captured (byte ∷ bytes) [] h)
      ∙ clip_turn most captured truncated (byte ∷ bytes) h (input failure reader)

-- Whatever the chunks in which the input arrives, a bounded reader answers with the first `most`
-- bytes of the whole input and says whether there were more; it fails exactly when the reader
-- does, with the first error.
pub read_bounded_lem :
    (failure : String) (from_utf8_lossy : List ℕ → String) (most : ℕ) (reader : Reader)
    → read_bounded failure from_utf8_lossy most reader
      ≡ map_ok (λ bytes. as_text from_utf8_lossy (clip most bytes)) (input failure reader)
unfolding read_bounded
read_bounded_lem failure from_utf8_lossy most reader =
    ap (map_ok (as_text from_utf8_lossy))
      (read_loop-input failure most reader [] false (omega arith))
    ∙ finish (input failure reader)
  where
    from_start : (bytes : List ℕ) → clip_from most [] false bytes ≡ clip most bytes
    from_start bytes = ap (λ n. (take n bytes, ltb n (length bytes))) (omega arith)

    finish :
        (r : Result (List ℕ) String)
        → map_ok (as_text from_utf8_lossy) (map_ok (clip_from most [] false) r)
          ≡ map_ok (λ bytes. as_text from_utf8_lossy (clip most bytes)) r
    finish (ok bytes) = ap (λ c. ok (as_text from_utf8_lossy c)) (from_start bytes)
    finish (err e) = refl
