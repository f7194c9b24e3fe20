-- ===== src/Base/Lists.antt =====
-- Membership, uniqueness by a key, slices, and Python's stable `sorted`.
use Prim.Native.Nat.{ℕ, zero, suc, ◌+◌}
use mathlib.Core.Path.{◌≡◌, refl, sym, ap, subst, ◌∙◌}
use mathlib.Core.Logic.{◌⊎◌, inl, inr}
use mathlib.Core.Bool.{Bool, true, false, ◌||◌}
use mathlib.Core.List.{List, [], ◌∷◌, ◌++◌}
use native.Mathlib.Omega.{arith}
use ai_video_clip_processing.Base.Tests.{if◌then◌else◌, Bool-cases, length, any, select, All}

module _ {A : Type 0} where
  -- `x` stands in the list, and where
  abbrev pub In : A → List A → Type 0
  In x [] = ⊥
  In x (y ∷ ys) = (x ≡ y) ⊎ In x ys

  -- what every element has
  pub All-at : (P : A → Type 0) (x : A) (xs : List A) → All P xs → In x xs → P x
  All-at P x [] h k = elim k [ ]
  All-at P x (y ∷ ys) h (inl e) = subst P (sym e) h.0
  All-at P x (y ∷ ys) h (inr k) = All-at P x ys h.1 k

  -- `xs[:n]`
  abbrev pub take : ℕ → List A → List A
  take zero xs = []
  take (suc n) [] = []
  take (suc n) (x ∷ xs) = x ∷ take n xs

  pub In-take : (n : ℕ) (x : A) (xs : List A) → In x (take n xs) → In x xs
  In-take zero x xs h = elim h [ ]
  In-take (suc n) x [] h = h
  In-take (suc n) x (y ∷ ys) (inl e) = inl e
  In-take (suc n) x (y ∷ ys) (inr h) = inr (In-take n x ys h)

  pub In-select : (test : A → Bool) (x : A) (xs : List A) → In x (select test xs) → In x xs
  In-select test x [] h = h
  In-select test x (y ∷ ys) h = ground (arith, In-select test x ys)

  pub select-test : (test : A → Bool) (x : A) (xs : List A) → In x (select test xs) → test x ≡ true
  select-test test x [] h = elim h [ ]
  select-test test x (y ∷ ys) h = ground (arith, select-test test x ys)

  pub any-In :
      (test : A → Bool) (x : A) (xs : List A) → In x xs → test x ≡ true → any test xs ≡ true
  any-In test x [] h t = elim h [ ]
  any-In test x (y ∷ ys) h t = ground (arith, any-In test x ys)

  pub any-append :
      (test : A → Bool) (xs ys : List A) → any test (xs ++ ys) ≡ any test xs || any test ys
  any-append test [] ys = refl
  any-append test (x ∷ xs) ys = ground (arith, any-append test xs ys)

  pub length-append : (xs ys : List A) → length (xs ++ ys) ≡ length xs + length ys
  length-append [] ys = omega arith
  length-append (x ∷ xs) ys = omega (arith, length-append xs ys)

  pub All-implied : (P Q : A → Type 0) (xs : List A) → ((x : A) → P x → Q x) → All P xs → All Q xs
  All-implied P Q [] f p = tt
  All-implied P Q (x ∷ xs) f p = (f x p.0, All-implied P Q xs f p.1)

  pub All-append : (P : A → Type 0) (xs ys : List A) → All P xs → All P ys → All P (xs ++ ys)
  All-append P [] ys h k = k
  All-append P (x ∷ xs) ys h k = (h.0, All-append P xs ys h.1 k)

  -- Insertion before the first element that is not smaller: equal elements keep their order.
  unfoldable pub insert_by : (A → A → Bool) → A → List A → List A
  insert_by le x [] = x ∷ []
  insert_by le x (y ∷ ys) = if le x y then x ∷ y ∷ ys else y ∷ insert_by le x ys

  -- `sorted(xs, key=...)`, with `le x y` for `key(x) <= key(y)`
  unfoldable pub sorted : (A → A → Bool) → List A → List A
  unfolding insert_by
  sorted le [] = []
  sorted le (x ∷ xs) = insert_by le x (sorted le xs)

  In-insert_by :
      (le : A → A → Bool) (x y : A) (ys : List A) → In x (insert_by le y ys) → (x ≡ y) ⊎ In x ys
  unfolding insert_by
  In-insert_by le x y [] h = h
  In-insert_by le x y (z ∷ zs) h = ground (arith, In-insert_by le x y zs)

  pub In-sorted : (le : A → A → Bool) (x : A) (xs : List A) → In x (sorted le xs) → In x xs
  unfolding sorted
  In-sorted le x [] h = h
  In-sorted le x (y ∷ ys) h = ground (arith, In-insert_by le x y (sorted le ys), In-sorted le x ys)

  In-of_insert_by :
      (le : A → A → Bool) (x y : A) (ys : List A) → (x ≡ y) ⊎ In x ys → In x (insert_by le y ys)
  unfolding insert_by
  In-of_insert_by le x y [] h = h
  In-of_insert_by le x y (z ∷ zs) (inl e) = ground (arith, In-of_insert_by le x y zs (inl e))
  In-of_insert_by le x y (z ∷ zs) (inr (inl e)) = ground arith
  In-of_insert_by le x y (z ∷ zs) (inr (inr k)) = ground (arith, In-of_insert_by le x y zs (inr k))

  pub In-of_sorted : (le : A → A → Bool) (x : A) (xs : List A) → In x xs → In x (sorted le xs)
  unfolding sorted
  In-of_sorted le x [] h = h
  In-of_sorted le x (y ∷ ys) (inl e) = In-of_insert_by le x y (sorted le ys) (inl e)
  In-of_sorted le x (y ∷ ys) (inr k) =
      In-of_insert_by le x y (sorted le ys) (inr (In-of_sorted le x ys k))

  pub In-of_select :
      (test : A → Bool) (x : A) (xs : List A) → In x xs → test x ≡ true → In x (select test xs)
  In-of_select test x [] h t = h
  In-of_select test x (y ∷ ys) (inl e) t = rw (← e, t) (inl refl)
  In-of_select test x (y ∷ ys) (inr k) t = ground (arith, In-of_select test x ys k t)

  length-insert_by :
      (le : A → A → Bool) (x : A) (xs : List A) → length (insert_by le x xs) ≡ suc (length xs)
  unfolding insert_by
  length-insert_by le x [] = refl
  length-insert_by le x (y ∷ ys) = ground (arith, length-insert_by le x ys)

  pub length-sorted : (le : A → A → Bool) (xs : List A) → length (sorted le xs) ≡ length xs
  unfolding sorted
  length-sorted le [] = refl
  length-sorted le (x ∷ xs) = length-insert_by le x (sorted le xs) ∙ ap suc (length-sorted le xs)

  -- how many elements pass, which no reordering changes
  abbrev pub count_if : (A → Bool) → List A → ℕ
  count_if test xs = length (select test xs)

  count_if-insert_by :
      (le : A → A → Bool) (test : A → Bool) (x : A) (xs : List A)
      → count_if test (insert_by le x xs) ≡ count_if test (x ∷ xs)
  unfolding insert_by
  count_if-insert_by le test x [] = refl
  count_if-insert_by le test x (y ∷ ys) = ground (arith, count_if-insert_by le test x ys)

  pub count_if-sorted :
      (le : A → A → Bool) (test : A → Bool) (xs : List A)
      → count_if test (sorted le xs) ≡ count_if test xs
  unfolding sorted
  count_if-sorted le test [] = refl
  count_if-sorted le test (x ∷ xs) =
      ground (arith, count_if-insert_by le test x (sorted le xs), count_if-sorted le test xs)

  -- neighbours in order, and so, by transitivity, all pairs
  abbrev pub Ascending : (A → A → Bool) → List A → Type 0
  Ascending le [] = Unit
  Ascending le (x ∷ xs) = All (λ y. le x y ≡ true) xs × Ascending le xs

module _ {A : Type 0} (le : A → A → Bool) (total : (x y : A) → le x y ≡ false → le y x ≡ true)
    (transitive : (x y z : A) → le x y ≡ true → le y z ≡ true → le x z ≡ true) where
  All-above :
      (x y : A) (ys : List A)
      → le x y ≡ true
      → All (λ z. le y z ≡ true) ys
      → All (λ z. le x z ≡ true) ys
  All-above x y [] h k = k
  All-above x y (z ∷ zs) h k = (transitive x y z h k.0, All-above x y zs h k.1)

  All-insert_by :
      (x y : A) (ys : List A)
      → le x y ≡ true
      → All (λ z. le x z ≡ true) ys
      → All (λ z. le x z ≡ true) (insert_by le y ys)
  unfolding insert_by
  All-insert_by x y [] h k = (h, tt)
  All-insert_by x y (z ∷ zs) h k = elim (Bool-cases (le y z)) [
    | inl e ↦ rw e (h, (k.0, k.1))
    | inr e ↦ rw e (k.0, All-insert_by x y zs h k.1)
  ]

  insert_by-Ascending : (x : A) (xs : List A) → Ascending le xs → Ascending le (insert_by le x xs)
  unfolding insert_by
  insert_by-Ascending x [] h = (tt, tt)
  insert_by-Ascending x (y ∷ ys) h = elim (Bool-cases (le x y)) [
    | inl e ↦ rw e ((e, All-above x y ys e h.0), h)
    | inr e ↦ rw e (All-insert_by y x ys (total x y e) h.0, insert_by-Ascending x ys h.1)
  ]

  -- `sorted` sorts, for a total order.
  pub sorted-Ascending : (xs : List A) → Ascending le (sorted le xs)
  unfolding sorted
  sorted-Ascending [] = tt
  sorted-Ascending (x ∷ xs) = insert_by-Ascending x (sorted le xs) (sorted-Ascending xs)
