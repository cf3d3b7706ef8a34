-- ===== src/Context/ArgsKey/Order.antt =====
-- About the order of a tool call's arguments and its key (context-prune.ts).
use ctxlite.Prelude.{
  ◌≡◌, refl, ap, sym, ◌∙◌, true, false, ◌⊎◌, inl, inr, List, [], ◌∷◌, ◌++◌, arith, Text, text_eq,
  some,
}
use ctxlite.Json.{obj, of_fields, Fields, fields}
use ctxlite.Json.Stringify.{stringify}
use ctxlite.Context.ArgsKey.{
  Entry, text_lt, insert, sort, by_key, assign_all, key_of_entries, stable_args_key, tool_key,
}

text_lt_trans : (s t u : Text) → text_lt s t ≡ true → text_lt t u ≡ true → text_lt s u ≡ true
unfolding text_lt
text_lt_trans s t [] h k = cc
text_lt_trans [] t (d ∷ u) h k = refl
text_lt_trans (c ∷ s) [] (e ∷ u) h k = cc
text_lt_trans (c ∷ s) (d ∷ t) (e ∷ u) h k = ground (arith, text_lt_trans s t u)

text_lt_asymm : (s t : Text) → text_lt s t ≡ true → text_lt t s ≡ false
unfolding text_lt
text_lt_asymm s [] h = cc
text_lt_asymm [] (d ∷ t) h = refl
text_lt_asymm (c ∷ s) (d ∷ t) h = ground (arith, text_lt_asymm s t)

text_lt_total : (s t : Text) → text_eq s t ≡ false → (text_lt s t ≡ true) ⊎ (text_lt t s ≡ true)
unfolding text_lt text_eq
text_lt_total [] [] h = cc
text_lt_total [] (d ∷ t) h = inl refl
text_lt_total (c ∷ s) [] h = inr refl
text_lt_total (c ∷ s) (d ∷ t) h = ground (arith, text_lt_total s t)

insert_comm_of_lt :
    (x y : Entry) (l : List Entry)
    → text_lt x.0 y.0 ≡ true
    → insert by_key x (insert by_key y l) ≡ insert by_key y (insert by_key x l)
unfolding insert by_key
insert_comm_of_lt x y [] h = ground (arith, text_lt_asymm x.0 y.0)
insert_comm_of_lt x y (z ∷ l) h =
    ground (arith, text_lt_asymm x.0 y.0, text_lt_trans x.0 y.0 z.0, insert_comm_of_lt x y l)

insert_comm :
    (x y : Entry) (l : List Entry)
    → text_eq x.0 y.0 ≡ false
    → insert by_key x (insert by_key y l) ≡ insert by_key y (insert by_key x l)
insert_comm x y l h = elim (text_lt_total x.0 y.0 h) [
  | inl lt ↦ insert_comm_of_lt x y l lt
  | inr gt ↦ sym (insert_comm_of_lt y x l gt)
]

-- The second list holds the entries of the first in another order; neighbours that change places
-- have different keys.
pub data Reordered : List Entry → List Entry → Type 0 where
  done : Reordered [] []
  keep : (x : Entry) {xs ys : List Entry} → Reordered xs ys → Reordered (x ∷ xs) (x ∷ ys)
  exchange :
      (x y : Entry) (xs : List Entry)
      → text_eq x.0 y.0 ≡ false
      → Reordered (x ∷ y ∷ xs) (y ∷ x ∷ xs)
  both : {xs ys zs : List Entry} → Reordered xs ys → Reordered ys zs → Reordered xs zs

sort-Reordered : {xs ys : List Entry} → Reordered xs ys → sort by_key xs ≡ sort by_key ys
unfolding sort
sort-Reordered done = refl
sort-Reordered (keep x r) = ap (insert by_key x) (sort-Reordered r)
sort-Reordered (exchange x y xs h) = insert_comm x y (sort by_key xs) h
sort-Reordered (both r s) = sort-Reordered r ∙ sort-Reordered s

-- Two calls of one tool whose arguments are the same properties in another order have the same key.
pub tool_key-Reordered :
    (tool : Text) (fs gs : Fields)
    → Reordered (fields fs) (fields gs)
    → tool_key tool (some (obj fs)) ≡ tool_key tool (some (obj gs))
unfolding tool_key stable_args_key key_of_entries
tool_key-Reordered tool fs gs r =
    ap (λ (es : List Entry). tool ++ b':' ∷ stringify (obj (of_fields (assign_all es))))
      (sort-Reordered r)
