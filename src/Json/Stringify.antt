-- ===== src/Json/Stringify.antt =====
-- `JSON.stringify(value)`.
use ctxlite.Prelude.{
  ℕ, ◌+◌, ◌-◌, ◌/◌, ◌%◌, Bool, true, false, ◌&&◌, ◌||◌, [], ◌∷◌, ◌++◌, Text, str, leb, ltb, ◌==◌,
  if◌then◌else◌,
}
use ctxlite.Json.{Json, null, bool, num, string, arr, obj, Items, nil, item, Fields, end, field}

hex_digit : ℕ → ℕ
hex_digit d = if ltb d 10 then b'0' + d else b'a' + (d - 10)

unicode_escape : ℕ → Text
unfolding hex_digit
unicode_escape c =
    str "\\u"
    ++ (hex_digit (c / 4096)
        ∷ hex_digit (c / 256 % 16)
        ∷ hex_digit (c / 16 % 16)
        ∷ hex_digit (c % 16)
        ∷ [])

is_high : ℕ → Bool
is_high c = leb 55296 c && leb c 56319

is_low : ℕ → Bool
is_low c = leb 56320 c && leb c 57343

-- one unit that is no part of a surrogate pair
quote_unit : ℕ → Text
unfolding unicode_escape is_high is_low
quote_unit c =
    if c == 34
    then 92 ∷ 34 ∷ []
    else if c == 92
    then 92 ∷ 92 ∷ []
    else if c == 8
    then str "\\b"
    else if c == 9
    then str "\\t"
    else if c == 10
    then str "\\n"
    else if c == 12
    then str "\\f"
    else if c == 13
    then str "\\r"
    else if ltb c 32 || is_high c || is_low c
    then unicode_escape c
    else c ∷ []

quote_units : Text → Text
unfolding quote_unit
quote_units [] = []
quote_units (c ∷ []) = quote_unit c
quote_units (c ∷ d ∷ s) =
    let pair = c ∷ d ∷ quote_units s in
    let single = quote_unit c ++ quote_units (d ∷ s) in
    if is_high c && is_low d then pair else single

unfoldable pub quote : Text → Text
unfolding quote_units
quote s = 34 ∷ (quote_units s ++ 34 ∷ [])

unfoldable mutual
  unfolding quote

  pub stringify : Json → Text
  stringify null = str "null"
  stringify (bool true) = str "true"
  stringify (bool false) = str "false"
  stringify (num n) = n
  stringify (string s) = quote s
  stringify (arr nil) = str "[]"
  stringify (arr (item v vs)) = b'[' ∷ (stringify v ++ stringify_items vs)
  stringify (obj end) = str "{}"
  stringify (obj (field k v fs)) = b'{' ∷ (quote k ++ b':' ∷ (stringify v ++ stringify_fields fs))

  pub stringify_items : Items → Text
  stringify_items nil = b']' ∷ []
  stringify_items (item v vs) = b',' ∷ (stringify v ++ stringify_items vs)

  pub stringify_fields : Fields → Text
  stringify_fields end = b'}' ∷ []
  stringify_fields (field k v fs) = b',' ∷ (quote k ++ b':' ∷ (stringify v ++ stringify_fields fs))
