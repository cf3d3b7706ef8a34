-- ===== src/Precall/Bash.antt =====
-- `optimizeBashCommand`: each segment of a command is rewritten in place (tool-precall.ts).
pub mod Quieted
pub mod Pieces
pub mod Counts
use ctxlite.Prelude.{
  ℕ, ◌+◌, ◌-◌, Bool, true, false, ◌||◌, Option, none, some, List, [], ◌∷◌, ◌++◌, Text, str, text_eq,
  if◌then◌else◌, slice, drop, trim, join, Dict,
}
use ctxlite.Json.{Json, string}
use ctxlite.Precall.Skeleton.{strip_embedded_text}
use ctxlite.Precall.Split.{Segment, split_top_level}
use ctxlite.Precall.Rules.{SegmentMatch, match_quiet_pattern}

pub record PrecallResult : Type 0 where
  pub args : Dict Json
  pub modified : Bool
  pub blocked : Bool
  pub block_reason : Option Text
  pub estimated_tokens_saved : ℕ
  pub label : Option Text

-- `PRECALL_ESTIMATES[label] ?? PRECALL_ESTIMATES.generic_quiet ?? 300`
unfoldable pub precall_estimate : Text → ℕ
precall_estimate label =
    if text_eq label (str "npm_test")
    then 800
    else if text_eq label (str "docker_logs")
    then 700
    else if text_eq label (str "cargo_test")
        || text_eq label (str "vitest_run")
        || text_eq label (str "jest_test")
    then 600
    else if text_eq label (str "dotnet")
        || text_eq label (str "pytest")
        || text_eq label (str "maven")
        || text_eq label (str "gradle")
    then 500
    else if text_eq label (str "npm_build")
        || text_eq label (str "cargo_build")
        || text_eq label (str "vite_build")
        || text_eq label (str "eslint_lint")
    then 400
    else if text_eq label (str "curl")
    then 200
    else 300

-- The variables of the loop.
pub record Progress : Type 0 where
  pub rebuilt : Text
  pub cursor : ℕ
  pub total_saved : ℕ
  pub labels : List Text

abbrev pub nothing_done : Progress
nothing_done = record { rebuilt = []; cursor = 0; total_saved = 0; labels = [] }

unfoldable pub rewrite_segment : Text → Segment → Option SegmentMatch → Progress → Progress
rewrite_segment command seg none p = record p {
  rebuilt = (p.rebuilt ++ slice p.cursor seg.start command) ++ slice seg.start seg.end command;
  cursor = seg.end;
}
rewrite_segment command seg (some m) p = record {
  rebuilt = (p.rebuilt ++ slice p.cursor seg.start command) ++ m.command;
  cursor = seg.end;
  total_saved = p.total_saved + precall_estimate m.label;
  labels = p.labels ++ m.label ∷ [];
}

module _ (command skeleton : Text) where
  unfoldable pub rewrite_segments : List Segment → Progress → Progress
  rewrite_segments [] p = p
  rewrite_segments (seg ∷ segs) p = rewrite_segments segs (
      rewrite_segment command seg
        (match_quiet_pattern (slice seg.start seg.end skeleton) (slice seg.start seg.end command))
        p)

unfoldable pub untouched : Dict Json → PrecallResult
untouched args = record {
  args = args;
  modified = false;
  blocked = false;
  block_reason = none;
  estimated_tokens_saved = 0;
  label = none;
}

abbrev finish : Text → Progress → PrecallResult
finish command p = elim p.labels [
  | [] ↦ untouched ((str "command", string command) ∷ [])
  | l ∷ ls ↦ record {
    args = (str "command", string (p.rebuilt ++ drop p.cursor command)) ∷ [];
    modified = true;
    blocked = false;
    block_reason = none;
    estimated_tokens_saved = p.total_saved;
    label = some (join (str ",") p.labels);
  }
]

unfoldable pub optimize_bash_command : Text → PrecallResult
unfolding untouched
optimize_bash_command command =
    let skeleton = strip_embedded_text command in
    elim (trim command) [
      | [] ↦ untouched ((str "command", string command) ∷ [])
      | c ∷ t ↦
          finish command (rewrite_segments command skeleton (split_top_level skeleton) nothing_done)
    ]
