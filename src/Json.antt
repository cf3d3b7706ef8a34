-- ===== src/Json.antt =====
-- JSON values, and `JSON.stringify` without indentation: the language's own functions, as far as
-- the program calls them.
pub mod Stringify
use ctxlite.Prelude.{ℕ, Bool, true, false, Option, none, some, List, [], ◌∷◌, Text}

mutual
  pub data Json : Type 0 where
    null : Json
    bool : Bool → Json
    -- a number, by the text that `String` gives for it
    num : Text → Json
    string : Text → Json
    arr : Items → Json
    obj : Fields → Json

  pub data Items : Type 0 where
    nil : Items
    item : Json → Items → Items

  -- the properties of an object, in the order of `Object.keys`
  pub data Fields : Type 0 where
    end : Fields
    field : Text → Json → Fields → Fields

abbrev pub items : Items → List Json
items nil = []
items (item v vs) = v ∷ items vs

abbrev pub of_items : List Json → Items
of_items [] = nil
of_items (v ∷ vs) = item v (of_items vs)

abbrev pub fields : Fields → List (Text × Json)
fields end = []
fields (field k v fs) = (k, v) ∷ fields fs

abbrev pub of_fields : List (Text × Json) → Fields
of_fields [] = end
of_fields ((k, v) ∷ fs) = field k v (of_fields fs)
