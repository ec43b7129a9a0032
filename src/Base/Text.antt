-- ===== src/Base/Text.antt =====
-- The methods of `str` and of `to_string` on integers that the gateway calls.
pub mod Words
use Prim.Native.Nat.{ℕ, zero, suc, ◌-◌, ◌/◌, ◌%◌}
use Prim.Native.Char.{Char, code}
use Prim.Native.String.{String, [], ◌∷◌, ◌++◌, char_at}
use mathlib.Core.Path.{◌≡◌, refl}
use mathlib.Core.Bool.{Bool, true, false, ◌&&◌, ◌||◌}
use mathlib.Core.List.{List}
use text.Mathlib.Text.{◌==◌}
use zyguor_agent_execution_g.Base.Tests.{ltb, leb, nat_beq, if◌then◌else◌}

-- `char::is_whitespace`: the Unicode property White_Space.
unfoldable pub is_whitespace : Char → Bool
is_whitespace c =
    let n = code c in
    (leb 9 n && leb n 13)
    || nat_beq n 0x20
    || nat_beq n 0x85
    || nat_beq n 0xa0
    || nat_beq n 0x1680
    || (leb 0x2000 n && leb n 0x200a)
    || nat_beq n 0x2028
    || nat_beq n 0x2029
    || nat_beq n 0x202f
    || nat_beq n 0x205f
    || nat_beq n 0x3000

unfoldable pub is_empty : String → Bool
is_empty [] = true
is_empty (c ∷ s) = false

unfoldable trim_start : String → String
trim_start [] = []
trim_start (c ∷ s) = let rest = trim_start s in if is_whitespace c then rest else c ∷ s

unfoldable trim_end : String → String
trim_end [] = []
trim_end (c ∷ s) =
    let rest = trim_end s in if is_empty rest && is_whitespace c then [] else c ∷ rest

-- `str::trim`
unfoldable pub trim : String → String
unfolding trim_start trim_end is_whitespace is_empty
trim s = trim_end (trim_start s)

lower : Char → Char
lower c =
    if leb b'A' (code c) && leb (code c) b'Z'
    then char_at "abcdefghijklmnopqrstuvwxyz" (code c - b'A')
    else c

-- `str::to_ascii_lowercase`
unfoldable pub to_ascii_lowercase : String → String
unfolding lower
to_ascii_lowercase [] = []
to_ascii_lowercase (c ∷ s) = lower c ∷ to_ascii_lowercase s

-- `str::eq_ignore_ascii_case`
unfoldable pub eq_ignore_ascii_case : String → String → Bool
unfolding to_ascii_lowercase
eq_ignore_ascii_case s t = to_ascii_lowercase s == to_ascii_lowercase t

-- A word is put in front of the words that follow it, unless it is empty.
unfoldable push_word : String → List String → List String
push_word [] words = words
push_word (c ∷ s) words = List.◌∷◌ (c ∷ s) words

-- The word that is being read, and the words after it.
unfoldable words_from : String → String × List String
unfolding push_word
words_from [] = ([], List.[])
words_from (c ∷ s) =
    let (word, words) = words_from s in
    if is_whitespace c then ([], push_word word words) else (c ∷ word, words)

-- `str::split_whitespace`
unfoldable pub split_whitespace : String → List String
unfolding words_from push_word
split_whitespace s = let (word, words) = words_from s in push_word word words

-- Whether `CString::new` refuses the bytes of the text.
unfoldable pub has_nul : String → Bool
has_nul [] = false
has_nul (c ∷ s) = nat_beq (code c) 0 || has_nul s

-- Fuel counts the digits left, and a number has fewer digits than its value plus one.
decimal : ℕ → ℕ → String
decimal zero n = []
decimal (suc fuel) n =
    let front = decimal fuel (n / 10) in
    let digit = char_at "0123456789" (n % 10) ∷ [] in if ltb n 10 then digit else front ++ digit

-- `Display` of an unsigned integer.
unfoldable pub to_string : ℕ → String
unfolding decimal
to_string n = decimal (suc n) n

trims : trim "  a b " ≡ "a b"
unfolding trim
trims = refl

lowers : to_ascii_lowercase "Run_CARGO" ≡ "run_cargo"
unfolding to_ascii_lowercase
lowers = refl

splits : split_whitespace " APPROVE  x y" ≡ List.◌∷◌ "APPROVE" (List.◌∷◌ "x" (List.◌∷◌ "y" List.[]))
unfolding split_whitespace is_whitespace
splits = refl

prints : to_string 1048576 ≡ "1048576"
unfolding to_string
prints = refl
