-- ===== src/Opencode.antt =====
-- packages/opencode/src: the plugin's state (precall-state.ts) and its hooks, which call the core.
pub mod Hooks
pub mod Pending
pub mod Engaged
pub mod Runs
pub mod Events
pub mod Display
mod Tests
use ctxlite.Prelude.{
  ℕ, zero, suc, ◌+◌, ◌-◌, ◌*◌, ◌/◌, ◌%◌, ◌≤◌, ◌<◌, min, max, String, ◌≡◌, refl, sym, ap, ap₂, ◌∙◌,
  ◌≢◌, ◌↔◌, ◌⊎◌, inl, inr, Bool, true, false, ◌&&◌, ◌||◌, not, Option, none, some, List, [], ◌∷◌,
  ◌++◌, map, append_assoc, append-nil, map-append, arith, Text, str, text_eq, text_eq_iff,
  text_eq_refl, length, length-append, join, Dict, dict_get, dict_set, dict_delete, get-set,
  get-delete, or_else, slice, take, drop, filter_by, any, all, All, trim_end, starts_with,
  ends_with, includes, ltb, leb, ◌==◌, if◌then◌else◌, Option-cases, Bool-cases, print_nat,
  round_seven_tenths, lines_of, unlines, lower_unit, length-take, length-drop, take-append-drop,
}
use ctxlite.Stats.{Store}

pub record PrecallPending : Type 0 where
  pub estimated_tokens_saved : ℕ
  pub label : Option Text

-- What the plugin's process keeps: the two maps of precall-state.ts and the store.
pub record Plugin : Type 0 where
  pub pending : Dict PrecallPending
  pub engaged_paths : Dict (List Text)
  pub store : Store

-- `${sessionID}:${callID}`
unfoldable pub key : Text → Text → Text
key session_id call_id = session_id ++ (str ":" ++ call_id)

unfoldable pub mark_precall_pending : Text → Text → PrecallPending → Plugin → Plugin
mark_precall_pending session_id call_id entry p = record p {
  pending = dict_set (key session_id call_id) entry p.pending;
}

abbrev take_entry : Option PrecallPending → Text → Plugin → Option PrecallPending × Plugin
take_entry none k p = (none, p)
take_entry (some entry) k p = (some entry, record p { pending = dict_delete k p.pending })

unfoldable pub take_precall_pending : Text → Text → Plugin → Option PrecallPending × Plugin
take_precall_pending session_id call_id p =
    take_entry (dict_get (key session_id call_id) p.pending) (key session_id call_id) p

abbrev pub set_of : Option (List Text) → List Text
set_of none = []
set_of (some paths) = paths

unfoldable pub has_path : Text → List Text → Bool
has_path path paths = any (λ p. text_eq p path) paths

-- `set.add(path)`
unfoldable pub add_path : Text → List Text → List Text
add_path path paths = if has_path path paths then paths else paths ++ path ∷ []

unfoldable pub mark_path_engaged : Text → Text → Plugin → Plugin
mark_path_engaged session_id path p = record p {
  engaged_paths =
      dict_set session_id (add_path path (set_of (dict_get session_id p.engaged_paths)))
        p.engaged_paths;
}

unfoldable pub has_path_engagement : Text → Text → Plugin → Bool
has_path_engagement session_id path p = has_path path (set_of (dict_get session_id p.engaged_paths))
