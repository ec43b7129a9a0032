-- ===== src/Workspace/Order.antt =====
-- The order of `Path`: the components one by one, each by its bytes, which for UTF-8 is by code
-- points.
use zyguor_agent_execution_g.Base.{
  String, ◌≡◌, refl, Bool, true, false, ◌&&◌, ◌||◌, [], ◌∷◌, ltb, nat_beq, if◌then◌else◌, ◌==◌,
  string_eq, arith,
}
use Prim.Native.Char.{code}
use Prim.Native.String as Text
use text.Mathlib.TextEquality.{eq_iff, Char-path}
use zyguor_agent_execution_g.Workspace.{RelativePath}

unfoldable pub text_leb : String → String → Bool
text_leb Text.[] t = true
text_leb (Text.◌∷◌ c s) Text.[] = false
text_leb (Text.◌∷◌ c s) (Text.◌∷◌ d t) =
    ltb (code c) (code d) || (nat_beq (code c) (code d) && text_leb s t)

unfoldable pub path_leb : RelativePath → RelativePath → Bool
unfolding text_leb
path_leb [] q = true
path_leb (a ∷ p) [] = false
path_leb (a ∷ p) (b ∷ q) = let rest = path_leb p q in if a == b then rest else text_leb a b

text_leb-total : (s t : String) → text_leb s t ≡ false → text_leb t s ≡ true
unfolding text_leb
text_leb-total Text.[] t h = cc
text_leb-total (Text.◌∷◌ c s) Text.[] h = refl
text_leb-total (Text.◌∷◌ c s) (Text.◌∷◌ d t) h = ground (arith, h, text_leb-total s t)

text_leb-transitive :
    (s t u : String) → text_leb s t ≡ true → text_leb t u ≡ true → text_leb s u ≡ true
unfolding text_leb
text_leb-transitive Text.[] t u h k = refl
text_leb-transitive (Text.◌∷◌ c s) Text.[] u h k = cc
text_leb-transitive (Text.◌∷◌ c s) (Text.◌∷◌ d t) Text.[] h k = cc
text_leb-transitive (Text.◌∷◌ c s) (Text.◌∷◌ d t) (Text.◌∷◌ e u) h k =
    ground (arith, h, k, text_leb-transitive s t u)

text_leb-antisymmetric : (s t : String) → text_leb s t ≡ true → text_leb t s ≡ true → s ≡ t
unfolding text_leb
text_leb-antisymmetric Text.[] Text.[] h k = refl
text_leb-antisymmetric Text.[] (Text.◌∷◌ d t) h k = cc
text_leb-antisymmetric (Text.◌∷◌ c s) Text.[] h k = cc
text_leb-antisymmetric (Text.◌∷◌ c s) (Text.◌∷◌ d t) h k =
    let heads : c ≡ d = Char-path c d (ground (arith, h, k)) in
    let tails : s ≡ t = text_leb-antisymmetric s t (ground (arith, h, k)) (ground (arith, h, k)) in
    rw (heads, tails) refl

pub path_leb-total : (p q : RelativePath) → path_leb p q ≡ false → path_leb q p ≡ true
unfolding path_leb
path_leb-total [] q h = cc
path_leb-total (a ∷ p) [] h = refl
path_leb-total (a ∷ p) (b ∷ q) h =
    ground (arith, h, path_leb-total p q, text_leb-total a b, eq_iff a b, eq_iff b a)

pub path_leb-transitive :
    (p q r : RelativePath) → path_leb p q ≡ true → path_leb q r ≡ true → path_leb p r ≡ true
unfolding path_leb
path_leb-transitive [] q r h k = refl
path_leb-transitive (a ∷ p) [] r h k = cc
path_leb-transitive (a ∷ p) (b ∷ q) [] h k = cc
path_leb-transitive (a ∷ p) (b ∷ q) (c ∷ r) h k = ground (
  arith,
  h,
  k,
  path_leb-transitive p q r,
  text_leb-transitive a b c,
  text_leb-antisymmetric a b,
  text_leb-antisymmetric b c,
  eq_iff a b,
  eq_iff b c,
  eq_iff a c,
)

pub path_leb-antisymmetric :
    (p q : RelativePath) → path_leb p q ≡ true → path_leb q p ≡ true → p ≡ q
unfolding path_leb
path_leb-antisymmetric [] [] h k = refl
path_leb-antisymmetric [] (b ∷ q) h k = cc
path_leb-antisymmetric (a ∷ p) [] h k = cc
path_leb-antisymmetric (a ∷ p) (b ∷ q) h k =
    let heads : a ≡ b = ground (arith, h, k, eq_iff a b, eq_iff b a, text_leb-antisymmetric a b) in
    let tails : p ≡ q =
      path_leb-antisymmetric p q (ground (arith, h, heads, eq_iff a b, eq_iff b a))
        (ground (arith, k, heads, eq_iff a b, eq_iff b a)) in
    rw (heads, tails) refl
