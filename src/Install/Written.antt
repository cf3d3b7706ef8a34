-- ===== src/Install/Written.antt =====
-- About reading a configuration that has been written (install/merge.ts).
use ctxlite.Prelude.{
  ◌≡◌, refl, ap, true, Option, some, List, [], ◌∷◌, ◌++◌, map, arith, Text, str, text_eq_refl, Dict,
  dict_get, dict_set, get-set, any,
}
use ctxlite.Json.{Json, string, items, of_items, fields, of_fields}
use ctxlite.Precall.Paths.{as_string}
use ctxlite.Install.Merge.{
  Change, as_object, as_array, to_object, to_array, texts_json, strings_of, open_code_plugin,
  plugins_of, has_plugin,
}

fields-of_fields : (d : Dict Json) → fields (of_fields d) ≡ d
fields-of_fields [] = refl
fields-of_fields ((k, v) ∷ d) = ap (λ (m : Dict Json). (k, v) ∷ m) (fields-of_fields d)

items-of_items : (vs : List Json) → items (of_items vs) ≡ vs
items-of_items [] = refl
items-of_items (v ∷ vs) = ap (λ (ws : List Json). v ∷ ws) (items-of_items vs)

pub as_object-to_object : (d : Dict Json) → as_object (some (to_object d)) ≡ some d
unfolding as_object to_object
as_object-to_object d = ap (λ (m : Dict Json). some m) (fields-of_fields d)

pub as_array-to_array : (vs : List Json) → as_array (some (to_array vs)) ≡ some vs
unfolding as_array to_array
as_array-to_array vs = ap (λ (ws : List Json). some ws) (items-of_items vs)

pub get-set-same : (k : Text) (v : Json) (m : Dict Json) → dict_get k (dict_set k v m) ≡ some v
get-set-same k v m = rw (get-set k k v m, text_eq_refl k) refl

pub strings_of-map : (ts : List Text) → strings_of (map (λ t. string t) ts) ≡ ts
unfolding strings_of as_string
strings_of-map [] = refl
strings_of-map (t ∷ ts) = ap (λ (us : List Text). t ∷ us) (strings_of-map ts)

pub plugins_of-set :
    (ts : List Text) (m : Dict Json) → plugins_of (dict_set (str "plugin") (texts_json ts) m) ≡ ts
unfolding texts_json
plugins_of-set ts m =
    rw
      (
        get-set-same (str "plugin") (to_array (map (λ t. string t) ts)) m,
        as_array-to_array (map (λ t. string t) ts),
      )
      (strings_of-map ts)

pub has_plugin-append : (ts : List Text) → has_plugin (ts ++ open_code_plugin ∷ []) ≡ true
unfolding has_plugin any
has_plugin-append [] = ground (arith, text_eq_refl open_code_plugin)
has_plugin-append (t ∷ ts) = ground (arith, has_plugin-append ts)

-- The configuration that a change has written.
abbrev pub written_json : Change → Option Json
written_json c = some (to_object c.next)
