-- ===== src/Context/Sweep.antt =====
-- The messages of a request, and the shape of both loops of context-prune.ts: a pass over the tool
-- parts that replaces some outputs in place and adds up what it did.
pub mod Totals
pub mod Pointwise
use ctxlite.Prelude.{
  ℕ, ◌+◌, Bool, false, ◌&&◌, Option, none, some, List, [], ◌∷◌, Text, str, text_eq, ℤ, pos, ◌+ℤ◌,
}
use ctxlite.Json.{Json}

pub record ToolState : Type 0 where
  pub status : Text
  pub input : Option Json
  pub output : Option Text

-- `kind` is the field `type`
pub record Part : Type 0 where
  pub kind : Text
  pub call_id : Option Text
  pub tool : Option Text
  pub state : Option ToolState

pub record Message : Type 0 where
  pub parts : List Part

abbrev status_is_completed : Option ToolState → Bool
status_is_completed none = false
status_is_completed (some s) = text_eq s.status (str "completed")

-- `part.type !== "tool" || part.state?.status !== "completed"` is its negation
unfoldable pub is_completed : Part → Bool
is_completed part = text_eq part.kind (str "tool") && status_is_completed part.state

-- The output, where it is a text that is not empty.
abbrev output_of_state : Option ToolState → Option Text
output_of_state none = none
output_of_state (some s) = elim s.output [
  | none ↦ none
  | some text ↦ elim text [ [] ↦ none | c ∷ t ↦ some (c ∷ t) ]
]

unfoldable pub output_of : Part → Option Text
output_of part = output_of_state part.state

abbrev input_of_state : Option ToolState → Option Json
input_of_state none = none
input_of_state (some s) = s.input

unfoldable pub input_of : Part → Option Json
input_of part = input_of_state part.state

-- `part.state.output = text`
abbrev write_state : Option ToolState → Text → Option ToolState
write_state none text = none
write_state (some s) text = some (record s { output = some text })

unfoldable pub write_output : Part → Text → Part
write_output part text = record part { state = write_state part.state text }

-- What one round replaces an output by, and what it adds to the counts.
pub record Rewrite : Type 0 where
  pub output : Text
  pub tokens_in : ℕ
  pub tokens_out : ℕ
  pub tokens_saved : ℤ

-- `ContextPruneResult` and `ContextCapResult`; `count` is `prunedCount` or `cappedCount`
pub record Counts : Type 0 where
  pub tokens_in : ℕ
  pub tokens_out : ℕ
  pub tokens_saved : ℤ
  pub count : ℕ

abbrev pub zero_counts : Counts
zero_counts = record { tokens_in = 0; tokens_out = 0; tokens_saved = pos 0; count = 0 }

unfoldable pub add_rewrite : Counts → Rewrite → Counts
add_rewrite t r = record {
  tokens_in = t.tokens_in + r.tokens_in;
  tokens_out = t.tokens_out + r.tokens_out;
  tokens_saved = t.tokens_saved +ℤ r.tokens_saved;
  count = t.count + 1;
}

-- One round of the loop over parts; `none` is `continue`.
abbrev apply_rewrite : Option Rewrite → Part → Counts → Part × Counts
apply_rewrite none part t = (part, t)
apply_rewrite (some r) part t = (write_output part r.output, add_rewrite t r)

module _ (rewrite : Part → Option Rewrite) where
  unfoldable pub sweep_parts : List Part → Counts → List Part × Counts
  sweep_parts [] t = ([], t)
  sweep_parts (p ∷ ps) t =
      let (p', t') = apply_rewrite (rewrite p) p t in
      let (ps', t'') = sweep_parts ps t' in (p' ∷ ps', t'')

  unfoldable pub sweep : List Message → Counts → List Message × Counts
  unfolding sweep_parts
  sweep [] t = ([], t)
  sweep (m ∷ ms) t =
      let (parts', t') = sweep_parts m.parts t in
      let (ms', t'') = sweep ms t' in (record m { parts = parts' } ∷ ms', t'')
