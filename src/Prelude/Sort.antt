-- ===== src/Prelude/Sort.antt =====
-- `[...xs].sort((a, b) => key(b) - key(a))`, which is stable: descending, and where the keys are equal
-- or one of them is no number in the order of the list.
use mathlib.Core.Path.{◌≡◌}
use mathlib.Core.Logic.{inl, inr}
use mathlib.Core.Bool.{Bool, true, false}
use mathlib.Core.List.{List, [], ◌∷◌, Perm}
use mathlib.Core.List.Perm
use ctxlite.Prelude.Tests.{if◌then◌else◌, if-either, Bool-cases}
use ctxlite.Prelude.Lists.{All}

module _ {A D : Type 0} (lt : D → D → Bool) (key : A → D) where
  unfoldable pub insert_descending : A → List A → List A
  insert_descending x [] = x ∷ []
  insert_descending x (y ∷ ys) =
      let behind = y ∷ insert_descending x ys in if lt (key x) (key y) then behind else x ∷ y ∷ ys

  unfoldable pub sort_descending : List A → List A
  unfolding insert_descending
  sort_descending [] = []
  sort_descending (x ∷ xs) = insert_descending x (sort_descending xs)

  insert_descending-perm : (x : A) (ys : List A) → Perm (insert_descending x ys) (x ∷ ys)
  unfolding insert_descending
  insert_descending-perm x [] = Perm.rfl
  insert_descending-perm x (y ∷ ys) = elim (Bool-cases (lt (key x) (key y))) [
    | inl e ↦ rw e (Perm.trans (Perm.cons y (insert_descending-perm x ys)) (Perm.swap x y ys))
    | inr e ↦ rw e Perm.rfl
  ]

  pub sort_descending-perm : (xs : List A) → Perm (sort_descending xs) xs
  unfolding sort_descending
  sort_descending-perm [] = Perm.rfl
  sort_descending-perm (x ∷ xs) =
      Perm.trans (insert_descending-perm x (sort_descending xs))
        (Perm.cons x (sort_descending-perm xs))

  -- Nothing is greater than what stands in front of it.
  abbrev pub IsDescending : List A → Type 0
  IsDescending [] = Unit
  IsDescending (x ∷ xs) = All (λ y. lt (key x) (key y) ≡ false) xs × IsDescending xs

  module _ (asym : (a b : D) → lt a b ≡ true → lt b a ≡ false)
      (trans : (a b c : D) → lt a b ≡ false → lt b c ≡ false → lt a c ≡ false) where
    All-insert :
        (a : D) (x : A) (ys : List A)
        → lt a (key x) ≡ false
        → All (λ y. lt a (key y) ≡ false) ys
        → All (λ y. lt a (key y) ≡ false) (insert_descending x ys)
    unfolding insert_descending
    All-insert a x [] h t = (h, tt)
    All-insert a x (y ∷ ys) h (p, ps) =
        if-either (All (λ z. lt a (key z) ≡ false)) (lt (key x) (key y)) _ _
          (λ e. (p, All-insert a x ys h ps)) (λ e. (h, (p, ps)))

    All-trans :
        (a b : D) (ys : List A)
        → lt a b ≡ false
        → All (λ y. lt b (key y) ≡ false) ys
        → All (λ y. lt a (key y) ≡ false) ys
    All-trans a b [] h t = tt
    All-trans a b (y ∷ ys) h (p, ps) = (trans a b (key y) h p, All-trans a b ys h ps)

    insert_descending-IsDescending :
        (x : A) (ys : List A) → IsDescending ys → IsDescending (insert_descending x ys)
    unfolding insert_descending
    insert_descending-IsDescending x [] t = (tt, tt)
    insert_descending-IsDescending x (y ∷ ys) (h, d) =
        if-either IsDescending (lt (key x) (key y)) _ _
          (λ e. (
            All-insert (key y) x ys (asym (key x) (key y) e) h,
            insert_descending-IsDescending x ys d,
          ))
          (λ e. ((e, All-trans (key x) (key y) ys e h), (h, d)))

    pub sort_descending-IsDescending : (xs : List A) → IsDescending (sort_descending xs)
    unfolding sort_descending
    sort_descending-IsDescending [] = tt
    sort_descending-IsDescending (x ∷ xs) =
        insert_descending-IsDescending x (sort_descending xs) (sort_descending-IsDescending xs)
