-- ===== src/Context/ArgsKey.antt =====
-- `stableArgsKey` and `toolKey`: the text that stands for a tool call (context-prune.ts).
pub mod Order
use ctxlite.Prelude.{
  ℕ, zero, suc, ◌+◌, ◌-◌, ◌*◌, ◌<◌, Bool, true, false, ◌&&◌, ◌||◌, not, Option, none, some, List,
  [], ◌∷◌, ◌++◌, map, Text, str, text_eq, leb, ltb, ◌==◌, if◌then◌else◌, filter_by, all, print_nat,
  length,
}
use ctxlite.Json.{Json, null, bool, num, string, arr, obj, items, fields, of_fields}
use ctxlite.Json.Stringify.{stringify}

abbrev pub Entry : Type 0
Entry = Text × Json

-- the order of `sort()` on strings: by code units
unfoldable pub text_lt : Text → Text → Bool
text_lt s [] = false
text_lt [] (d ∷ t) = true
text_lt (c ∷ s) (d ∷ t) = ltb c d || c == d && text_lt s t

module _ (before : Entry → Entry → Bool) where
  -- a stable insertion: behind everything that is not larger
  unfoldable pub insert : Entry → List Entry → List Entry
  insert x [] = x ∷ []
  insert x (y ∷ ys) = if before x y then x ∷ y ∷ ys else y ∷ insert x ys

  unfoldable pub sort : List Entry → List Entry
  unfolding insert
  sort [] = []
  sort (x ∷ xs) = insert x (sort xs)

-- The value of a text of digits.
value_from : ℕ → Text → ℕ
value_from n [] = n
value_from n (c ∷ s) = value_from (n * 10 + (c - b'0')) s

is_digit : ℕ → Bool
is_digit c = leb b'0' c && leb c b'9'

no_leading_zero : Text → Bool
no_leading_zero [] = false
no_leading_zero (c ∷ []) = true
no_leading_zero (c ∷ d ∷ s) = not (c == b'0')

-- An array index: an integer below 2^32 - 1 in its canonical decimal form. An object lists such keys
-- first, in numeric order.
unfoldable pub is_index : Text → Bool
unfolding value_from is_digit no_leading_zero
is_index k = no_leading_zero k && all is_digit k && ltb (value_from 0 k) 4294967295

unfoldable pub by_key : Entry → Entry → Bool
by_key x y = text_lt x.0 y.0

unfoldable pub by_index : Entry → Entry → Bool
unfolding value_from
by_index x y = ltb (value_from 0 x.0) (value_from 0 y.0)

-- The properties of `{}` after `acc[key] = value` for each entry: array indices first. An
-- assignment to `__proto__` makes no property.
unfoldable pub assign_all : List Entry → List Entry
unfolding sort is_index by_index
assign_all entries =
    let own = filter_by (λ e. not (text_eq e.0 (str "__proto__"))) entries in
    sort by_index (filter_by (λ e. is_index e.0) own) ++ filter_by (λ e. not (is_index e.0)) own

-- `Object.keys(input)` of an array are its indices
index_entries : ℕ → List Json → List Entry
index_entries i [] = []
index_entries i (v ∷ vs) = (print_nat i, v) ∷ index_entries (i + 1) vs

unfoldable pub key_of_entries : List Entry → Text
unfolding assign_all sort by_key
key_of_entries entries = stringify (obj (of_fields (assign_all (sort by_key entries))))

-- `none` is `undefined`
unfoldable pub stable_args_key : Option Json → Text
unfolding key_of_entries index_entries
stable_args_key none = []
stable_args_key (some null) = []
stable_args_key (some (bool true)) = str "true"
stable_args_key (some (bool false)) = str "false"
stable_args_key (some (num n)) = n
stable_args_key (some (string s)) = s
stable_args_key (some (arr vs)) = key_of_entries (index_entries 0 (items vs))
stable_args_key (some (obj fs)) = key_of_entries (fields fs)

unfoldable pub tool_key : Text → Option Json → Text
tool_key tool input = tool ++ b':' ∷ stable_args_key input
