-- ===== src/Base/Sorting.antt =====
-- `sort_by`: the stable sort of a list, and that it forgets the order in which the list came.
use mathlib.Core.Path.{◌≡◌, refl, ap, ◌∙◌}
use mathlib.Core.Logic.{◌⊎◌, inl, inr}
use mathlib.Core.Bool.{Bool, true, false}
use mathlib.Core.List.{List, [], ◌∷◌, ◌++◌}
use native.Mathlib.Omega.{arith}
use zyguor_agent_execution_g.Base.Tests.{if◌then◌else◌}

module _ {A : Type 0} where
  -- One list lists the items of the other, in any order.
  pub data Reorders : List A → List A → Type 0 where
    same : (xs : List A) → Reorders xs xs
    under : (x : A) {xs ys : List A} → Reorders xs ys → Reorders (x ∷ xs) (x ∷ ys)
    swap : (x y : A) (xs : List A) → Reorders (x ∷ y ∷ xs) (y ∷ x ∷ xs)
    chain : {xs ys zs : List A} → Reorders xs ys → Reorders ys zs → Reorders xs zs

  abbrev pub Among : A → List A → Type 0
  Among x [] = ⊥
  Among x (y ∷ ys) = (y ≡ x) ⊎ Among x ys

  Reorders-append_left :
      (xs : List A) {us vs : List A} → Reorders us vs → Reorders (xs ++ us) (xs ++ vs)
  Reorders-append_left [] k = k
  Reorders-append_left (x ∷ xs) k = under x (Reorders-append_left xs k)

  pub Reorders-append :
      {xs ys us vs : List A} → Reorders xs ys → Reorders us vs → Reorders (xs ++ us) (ys ++ vs)
  Reorders-append (same xs) k = Reorders-append_left xs k
  Reorders-append (under x h) k = under x (Reorders-append h k)
  Reorders-append (swap x y xs) k =
      chain (under x (under y (Reorders-append_left xs k))) (swap x y _)
  Reorders-append {us = us} (chain h i) k =
      chain (Reorders-append h (same us)) (Reorders-append i k)

  -- An item moves over a list.
  Reorders-middle : (x : A) (xs ys : List A) → Reorders (x ∷ (xs ++ ys)) (xs ++ (x ∷ ys))
  Reorders-middle x [] ys = same _
  Reorders-middle x (z ∷ xs) ys = chain (swap x z (xs ++ ys)) (under z (Reorders-middle x xs ys))

  pub Reorders-blocks : (xs ys zs : List A) → Reorders (xs ++ (ys ++ zs)) (ys ++ (xs ++ zs))
  Reorders-blocks [] ys zs = same _
  Reorders-blocks (x ∷ xs) ys zs =
      chain (under x (Reorders-blocks xs ys zs)) (Reorders-middle x ys (xs ++ zs))

  Among-Reorders : {xs ys : List A} → Reorders xs ys → (x : A) → Among x ys → Among x xs
  Among-Reorders (same xs) x i = i
  Among-Reorders (under y h) x (inl e) = inl e
  Among-Reorders (under y h) x (inr i) = inr (Among-Reorders h x i)
  Among-Reorders (swap y z xs) x (inl e) = inr (inl e)
  Among-Reorders (swap y z xs) x (inr (inl e)) = inl e
  Among-Reorders (swap y z xs) x (inr (inr i)) = inr (inr i)
  Among-Reorders (chain h k) x i = Among-Reorders h x (Among-Reorders k x i)

  module _ (le : A → A → Bool) where
    unfoldable pub insert_by : A → List A → List A
    insert_by x [] = x ∷ []
    insert_by x (y ∷ ys) = let rest = insert_by x ys in if le x y then x ∷ y ∷ ys else y ∷ rest

    unfoldable pub sort_by : List A → List A
    unfolding insert_by
    sort_by [] = []
    sort_by (x ∷ xs) = insert_by x (sort_by xs)

    -- A total preorder.
    pub record IsOrder : Type 0 where
      pub total : (x y : A) → le x y ≡ false → le y x ≡ true
      pub transitive : (x y z : A) → le x y ≡ true → le y z ≡ true → le x z ≡ true

    -- Items that are not told apart by the order are the same.
    abbrev pub IsUnambiguous : List A → Type 0
    IsUnambiguous xs = (x y : A) → Among x xs → Among y xs → le x y ≡ true → le y x ≡ true → x ≡ y

    module _ (order : IsOrder) where
      insert_by_comm :
          (x y : A) (l : List A)
          → (le x y ≡ true → le y x ≡ true → x ≡ y)
          → insert_by x (insert_by y l) ≡ insert_by y (insert_by x l)
      unfolding insert_by
      insert_by_comm x y [] h = ground (arith, h, order.total x y, order.total y x)
      insert_by_comm x y (z ∷ l) h = ground (
        arith,
        h,
        order.total x y,
        order.total y x,
        order.total x z,
        order.total y z,
        order.transitive x y z,
        order.transitive y x z,
        insert_by_comm x y l h,
      )

      pub sort_by-Reorders :
          {xs ys : List A} → Reorders xs ys → IsUnambiguous xs → sort_by xs ≡ sort_by ys
      unfolding sort_by
      sort_by-Reorders (same xs) u = refl
      sort_by-Reorders (under x h) u =
          ap (insert_by x) (sort_by-Reorders h (λ y z i k. u y z (inr i) (inr k)))
      sort_by-Reorders (swap x y xs) u =
          insert_by_comm x y (sort_by xs) (u x y (inl refl) (inr (inl refl)))
      sort_by-Reorders (chain h k) u =
          sort_by-Reorders h u
          ∙ sort_by-Reorders k (λ y z i j. u y z (Among-Reorders h y i) (Among-Reorders h z j))
