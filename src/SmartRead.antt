-- ===== src/SmartRead.antt =====
-- packages/core/src/smart-read.ts: which files smart_read serves. The syntax trees are those of the
-- tree-sitter library.
use ctxlite.Prelude.{
  ℕ, ◌*◌, Bool, true, false, ◌||◌, Option, none, some, List, [], ◌∷◌, map, Text, str, text_eq, leb,
  if◌then◌else◌, split_on, lower_unit,
}
use ctxlite.Host.{Host}

pub data GrammarName : Type 0 where
  typescript tsx javascript : GrammarName

-- `path.split(".").pop()?.toLowerCase() ?? ""`
unfoldable pub last_of : List Text → Text
last_of [] = []
last_of (x ∷ []) = x
last_of (x ∷ y ∷ xs) = last_of (y ∷ xs)

unfoldable pub extension_of : Text → Text
unfolding last_of
extension_of path = map lower_unit (last_of (split_on b'.' path))

unfoldable pub grammar_for_extension : Text → Option GrammarName
grammar_for_extension ext =
    if text_eq ext (str "ts") || text_eq ext (str "mts") || text_eq ext (str "cts")
    then some typescript
    else if text_eq ext (str "tsx")
    then some tsx
    else if text_eq ext (str "js")
        || text_eq ext (str "jsx")
        || text_eq ext (str "mjs")
        || text_eq ext (str "cjs")
    then some javascript
    else none

unfoldable pub grammar_for_path : Text → Option GrammarName
grammar_for_path path = grammar_for_extension (extension_of path)

abbrev is_some : Option GrammarName → Bool
is_some none = false
is_some (some g) = true

unfoldable pub supports_symbols : Text → Bool
supports_symbols path = is_some (grammar_for_path path)

abbrev pub smart_read_eligible_threshold_tokens : ℕ
smart_read_eligible_threshold_tokens = 2000

-- `size / 4 >= SMART_READ_ELIGIBLE_THRESHOLD_TOKENS`: a division by 4 is exact.
abbrev large : Option ℕ → Bool
large none = false
large (some size) = leb (4 * smart_read_eligible_threshold_tokens) size

unfoldable pub is_eligible_for_smart_read : Host → Text → Bool
is_eligible_for_smart_read host path =
    if supports_symbols path then large (host.size_of path) else false
