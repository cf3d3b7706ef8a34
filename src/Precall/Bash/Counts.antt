-- ===== src/Precall/Bash/Counts.antt =====
-- What the result of `optimizeBashCommand` says beside the arguments (tool-precall.ts).
use ctxlite.Prelude.{
  ℕ, ◌*◌, ◌≤◌, ◌<◌, ◌≡◌, refl, true, false, Option, none, some, List, [], ◌∷◌, arith, Text, str,
  length, length-append, join, slice, trim,
}
use ctxlite.Json.{string}
use ctxlite.Precall.Split.{Segment, split_top_level}
use ctxlite.Precall.Skeleton.{strip_embedded_text}
use ctxlite.Precall.Rules.{SegmentMatch, match_quiet_pattern}
use ctxlite.Precall.Bash.{
  PrecallResult, Progress, nothing_done, rewrite_segment, rewrite_segments, untouched, finish,
  precall_estimate, optimize_bash_command,
}

-- The result does not stop the call; it keeps the command, saves nothing and has no label, or it
-- saves at least 200 tokens for each of the labels that it joins.
pub record IsAccounted (command : Text) (r : PrecallResult) : Type 0 where
  pub not_blocked : (r.blocked ≡ false) × (r.block_reason ≡ none)
  pub kept :
      r.modified ≡ false
      → (r.args ≡ (str "command", string command) ∷ [])
        × (r.estimated_tokens_saved ≡ 0)
        × (r.label ≡ none)
  pub saved :
      r.modified ≡ true
      → (labels : List Text) × (0 < length labels)
        × (200 * length labels ≤ r.estimated_tokens_saved)
        × (r.label ≡ some (join (str ",") labels))

precall_estimate-lower : (label : Text) → 200 ≤ precall_estimate label
unfolding precall_estimate
precall_estimate-lower label = ground arith

rewrite_segment-saved :
    (command : Text) (seg : Segment) (o : Option SegmentMatch) (p : Progress)
    → 200 * length p.labels ≤ p.total_saved
    → 200 * length (rewrite_segment command seg o p).labels
      ≤ (rewrite_segment command seg o p).total_saved
unfolding rewrite_segment
rewrite_segment-saved command seg none p h = h
rewrite_segment-saved command seg (some m) p h =
    omega (arith, precall_estimate-lower m.label, length-append p.labels (m.label ∷ []))

rewrite_segments-saved :
    (command skeleton : Text) (segs : List Segment) (p : Progress)
    → 200 * length p.labels ≤ p.total_saved
    → 200 * length (rewrite_segments command skeleton segs p).labels
      ≤ (rewrite_segments command skeleton segs p).total_saved
unfolding rewrite_segments
rewrite_segments-saved command skeleton [] p h = h
rewrite_segments-saved command skeleton (seg ∷ segs) p h =
    let m =
      match_quiet_pattern (slice seg.start seg.end skeleton) (slice seg.start seg.end command) in
    rewrite_segments-saved command skeleton segs (rewrite_segment command seg m p)
      (rewrite_segment-saved command seg m p h)

untouched-IsAccounted :
    (command : Text) → IsAccounted command (untouched ((str "command", string command) ∷ []))
unfolding untouched
untouched-IsAccounted command = record {
  not_blocked = (refl, refl);
  kept = λ h. (refl, refl, refl);
  saved = λ h. cc;
}

finish-IsAccounted :
    (command : Text) (rebuilt : Text) (cursor total : ℕ) (labels : List Text)
    → 200 * length labels ≤ total
    → IsAccounted command (
        finish command
          (record { rebuilt = rebuilt; cursor = cursor; total_saved = total; labels = labels }))
finish-IsAccounted command rebuilt cursor total [] h = untouched-IsAccounted command
finish-IsAccounted command rebuilt cursor total (l ∷ ls) h = record {
  not_blocked = (refl, refl);
  kept = λ e. cc;
  saved = λ e. (l ∷ ls, omega arith, h, refl);
}

-- Whatever the command, the call is not blocked; a result that is not modified has the command, no
-- saving and no label, and a modified one joins at least one label and saves at least 200 tokens for
-- each.
pub optimize_bash_command-IsAccounted :
    (command : Text) → IsAccounted command (optimize_bash_command command)
unfolding optimize_bash_command
optimize_bash_command-IsAccounted command =
    let skeleton = strip_embedded_text command in
    let segs = split_top_level skeleton in
    let p = rewrite_segments command skeleton segs nothing_done in
    elim (trim command)
      as (λ t. IsAccounted command (elim t [
        | [] ↦ untouched ((str "command", string command) ∷ [])
        | c ∷ t' ↦ finish command p
      ])) [
        | [] ↦ untouched-IsAccounted command
        | c ∷ t ↦
            finish-IsAccounted command p.rebuilt p.cursor p.total_saved p.labels
              (rewrite_segments-saved command skeleton segs nothing_done (omega arith))
      ]
