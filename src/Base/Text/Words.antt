-- ===== src/Base/Text/Words.antt =====
-- White space around a text is no part of its words.
use Prim.Native.String.{String, [], ◌∷◌}
use mathlib.Core.Path.{◌≡◌, refl}
use mathlib.Core.Logic.{inl, inr}
use mathlib.Core.Bool.{true}
use native.Mathlib.Omega.{arith}
use zyguor_agent_execution_g.Base.Tests.{Bool-cases}
use zyguor_agent_execution_g.Base.Text.{
  is_whitespace, is_empty, trim_start, trim_end, trim, push_word, words_from, split_whitespace,
}

empty_text : (s : String) → is_empty s ≡ true → s ≡ ""
unfolding is_empty
empty_text [] h = refl
empty_text (c ∷ s) h = ground (arith, h)

words_from-trim_end : (s : String) → words_from (trim_end s) ≡ words_from s
unfolding words_from trim_end push_word
words_from-trim_end [] = refl
words_from-trim_end (c ∷ s) =
    let same = words_from-trim_end s in
    elim (Bool-cases (is_whitespace c)) [
      | inr p ↦ elim (Bool-cases (is_empty (trim_end s))) [
        | inl q ↦ rw (p, q) (rw (p, same) refl)
        | inr q ↦ rw (p, q) (rw (p, same) refl)
      ]
      | inl p ↦ elim (Bool-cases (is_empty (trim_end s))) [
        | inl q ↦ rw (p, q, ← same, empty_text (trim_end s) q) refl
        | inr q ↦ rw (p, q) (rw (p, same) refl)
      ]
    ]

split-trim_start : (s : String) → split_whitespace (trim_start s) ≡ split_whitespace s
unfolding split_whitespace trim_start words_from
split-trim_start [] = refl
split-trim_start (c ∷ s) = elim (Bool-cases (is_whitespace c)) [
  | inl p ↦ rw (p) (split-trim_start s)
  | inr p ↦ rw (p) (rw (p) refl)
]

pub split_whitespace-trim : (s : String) → split_whitespace (trim s) ≡ split_whitespace s
unfolding split_whitespace trim
split_whitespace-trim s = rw (words_from-trim_end (trim_start s)) (split-trim_start s)
