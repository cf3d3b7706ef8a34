-- ===== src/Precall/Bash/Pieces.antt =====
-- About where a rewritten command differs from the old one (tool-precall.ts).
use mathlib.Core.Path.{◌≡⟨◌⟩◌, ◌∎}
use ctxlite.Prelude.{
  ℕ, ◌≤◌, ◌≡◌, refl, sym, ap, ◌∙◌, ◌⊎◌, inl, inr, Option, none, some, List, [], ◌∷◌, ◌++◌,
  append_assoc, append-nil, arith, Text, str, slice, drop, Option-cases, slice-append-drop,
}
use ctxlite.Json.{Json, string}
use ctxlite.Precall.Skeleton.{strip_embedded_text}
use ctxlite.Precall.Split.{Segment, split_top_level}
use ctxlite.Precall.Split.Tiles.{Tiles, split_top_level-Tiles}
use ctxlite.Precall.Rules.{SegmentMatch, quiet_rules, match_quiet_pattern}
use ctxlite.Precall.Bash.{
  Progress, nothing_done, rewrite_segment, rewrite_segments, untouched, finish,
  optimize_bash_command,
}
use ctxlite.Prelude.{ap₂, length}
use mathlib.Core.Path.{subst}
use ctxlite.Prelude.{◌≢◌, trim, Dict}
use ctxlite.Precall.Bash.Quieted.{Piece, IsQuieted, replacement_of, first_rule-IsQuieted}

unfoldable pub before : List Piece → Text
before [] = []
before (p ∷ ps) = (p.gap ++ p.segment) ++ before ps

unfoldable pub after : List Piece → Text
after [] = []
after (p ∷ ps) = (p.gap ++ p.replacement) ++ after ps

append_cons-nonempty : (ls : List Text) (l : Text) → ls ++ l ∷ [] ≢ []
append_cons-nonempty [] l e = cc e
append_cons-nonempty (k ∷ ls) l e = cc e

module _ (command skeleton : Text) where
  found : Segment → Option SegmentMatch
  found seg =
      match_quiet_pattern (slice seg.start seg.end skeleton) (slice seg.start seg.end command)

  piece : ℕ → Segment → Piece
  unfolding found
  piece cursor seg = record {
    gap = slice cursor seg.start command;
    segment = slice seg.start seg.end command;
    replacement = replacement_of (found seg) (slice seg.start seg.end command);
  }

  pieces : ℕ → List Segment → List Piece
  pieces cursor [] = []
  pieces cursor (seg ∷ segs) = piece cursor seg ∷ pieces seg.end segs

  -- The pieces are those of the segments, behind the place that is reached: the gap before the
  -- segment, the segment, and what the rules make of it.
  unfoldable pub AreQuieted : ℕ → List Piece → List Segment → Type 0
  AreQuieted cursor [] [] = Unit
  AreQuieted cursor [] (seg ∷ segs) = ⊥
  AreQuieted cursor (p ∷ ps) [] = ⊥
  AreQuieted cursor (p ∷ ps) (seg ∷ segs) =
      (p.gap ≡ slice cursor seg.start command)
      × (p.segment ≡ slice seg.start seg.end command)
      × IsQuieted quiet_rules (slice seg.start seg.end skeleton) p
      × AreQuieted seg.end ps segs

  pieces-AreQuieted :
      (cursor : ℕ) (segs : List Segment) → AreQuieted cursor (pieces cursor segs) segs
  unfolding pieces piece found AreQuieted match_quiet_pattern
  pieces-AreQuieted cursor [] = tt
  pieces-AreQuieted cursor (seg ∷ segs) = (
    refl,
    refl,
    first_rule-IsQuieted quiet_rules (slice seg.start seg.end skeleton)
        (slice cursor seg.start command) (slice seg.start seg.end command),
    pieces-AreQuieted seg.end segs,
  )

  rewrite_segment-rebuilt :
      (seg : Segment) (p : Progress)
      → (rewrite_segment command seg (found seg) p).rebuilt
        ≡ p.rebuilt ++ ((piece p.cursor seg).gap ++ (piece p.cursor seg).replacement)
  unfolding piece rewrite_segment
  rewrite_segment-rebuilt seg p = elim (Option-cases (found seg)) [
    | inl e ↦ rw e (
        append_assoc p.rebuilt (slice p.cursor seg.start command) (slice seg.start seg.end command))
    | inr (m, e) ↦ rw e (append_assoc p.rebuilt (slice p.cursor seg.start command) m.command)
  ]

  cursor-rewrite_segment :
      (seg : Segment) (o : Option SegmentMatch) (p : Progress)
      → (rewrite_segment command seg o p).cursor ≡ seg.end
  unfolding rewrite_segment
  cursor-rewrite_segment seg none p = refl
  cursor-rewrite_segment seg (some m) p = refl

  last_end : ℕ → List Segment → ℕ
  last_end cursor [] = cursor
  last_end cursor (seg ∷ segs) = last_end seg.end segs

  rewrite_segments-rebuilt :
      (segs : List Segment) (p : Progress)
      → (rewrite_segments command skeleton segs p).rebuilt
        ≡ p.rebuilt ++ after (pieces p.cursor segs)
  unfolding rewrite_segments pieces after found
  rewrite_segments-rebuilt [] p = sym (append-nil p.rebuilt)
  rewrite_segments-rebuilt (seg ∷ segs) p =
      let q = rewrite_segment command seg (found seg) p in
      let own = (piece p.cursor seg).gap ++ (piece p.cursor seg).replacement in
      (rewrite_segments command skeleton segs q).rebuilt
      ≡⟨ rewrite_segments-rebuilt segs q ⟩ q.rebuilt ++ after (pieces q.cursor segs)
      ≡⟨ cc (rewrite_segment-rebuilt seg p, cursor-rewrite_segment seg (found seg) p) ⟩
        (p.rebuilt ++ own) ++ after (pieces seg.end segs)
      ≡⟨ append_assoc p.rebuilt own (after (pieces seg.end segs)) ⟩
        p.rebuilt ++ (own ++ after (pieces seg.end segs)) ∎

  cursor-rewrite_segments :
      (segs : List Segment) (p : Progress)
      → (rewrite_segments command skeleton segs p).cursor ≡ last_end p.cursor segs
  unfolding rewrite_segments last_end found
  cursor-rewrite_segments [] p = refl
  cursor-rewrite_segments (seg ∷ segs) p =
      cursor-rewrite_segments segs (rewrite_segment command seg (found seg) p)
      ∙ ap (λ (n : ℕ). last_end n segs) (cursor-rewrite_segment seg (found seg) p)

  rewrite_segment-labels :
      (seg : Segment) (o : Option SegmentMatch) (p : Progress)
      → (rewrite_segment command seg o p).labels ≡ []
      → (o ≡ none) × (p.labels ≡ [])
  unfolding rewrite_segment
  rewrite_segment-labels seg none p h = (refl, h)
  rewrite_segment-labels seg (some m) p h = absurd (append_cons-nonempty p.labels m.label h)

  rewrite_segments-labels :
      (segs : List Segment) (p : Progress)
      → (rewrite_segments command skeleton segs p).labels ≡ []
      → (p.labels ≡ []) × (after (pieces p.cursor segs) ≡ before (pieces p.cursor segs))
  unfolding rewrite_segments pieces after before found piece
  rewrite_segments-labels [] p h = (h, refl)
  rewrite_segments-labels (seg ∷ segs) p h =
      let q = rewrite_segment command seg (found seg) p in
      let (later, same) = rewrite_segments-labels segs q h in
      let (no_match, earlier) = rewrite_segment-labels seg (found seg) p later in
      let kept : after (pieces seg.end segs) ≡ before (pieces seg.end segs) =
        subst (λ (n : ℕ). after (pieces n segs) ≡ before (pieces n segs))
          (cursor-rewrite_segment seg (found seg) p) same in
      (earlier, rw (no_match, kept) refl)

  -- One piece in front of what makes up the rest of the command.
  piece-append :
      (cursor : ℕ) (seg : Segment) (rest end : Text)
      → cursor ≤ seg.start
      → seg.start ≤ seg.end
      → rest ++ end ≡ drop seg.end command
      → (((piece cursor seg).gap ++ (piece cursor seg).segment) ++ rest) ++ end
        ≡ drop cursor command
  unfolding piece
  piece-append cursor seg rest end h k e =
      let gap = slice cursor seg.start command in
      let text = slice seg.start seg.end command in
      ((gap ++ text) ++ rest) ++ end
      ≡⟨ append_assoc (gap ++ text) rest end ⟩ (gap ++ text) ++ (rest ++ end)
      ≡⟨ append_assoc gap text (rest ++ end) ⟩ gap ++ (text ++ (rest ++ end))
      ≡⟨ ap (λ (t : Text). gap ++ (text ++ t)) e ⟩ gap ++ (text ++ drop seg.end command)
      ≡⟨ ap (λ (t : Text). gap ++ t) (slice-append-drop seg.start seg.end command k) ⟩
        gap ++ drop seg.start command
      ≡⟨ slice-append-drop cursor seg.start command h ⟩ drop cursor command ∎

  before-pieces :
      (start high cursor : ℕ) (segs : List Segment)
      → cursor ≤ start
      → Tiles start high segs
      → before (pieces cursor segs) ++ drop (last_end cursor segs) command ≡ drop cursor command
  unfolding before pieces last_end
  before-pieces start high cursor [] h t = absurd t
  before-pieces start high cursor (seg ∷ []) h (s, e, l) =
      piece-append cursor seg [] (drop seg.end command) (omega arith) (omega arith) refl
  before-pieces start high cursor (seg ∷ next ∷ segs) h (s, e, lt, le, t) =
      piece-append cursor seg (before (pieces seg.end (next ∷ segs)))
        (drop (last_end seg.end (next ∷ segs)) command) (omega arith) (omega arith)
        (before-pieces next.start high seg.end (next ∷ segs) (omega arith) t)

-- The argument that holds the command.
abbrev pub with_command : Text → List (Text × Json)
with_command text = (str "command", string text) ∷ []

-- The loop's variables at its end.
abbrev looped : Text → Progress
looped command =
    rewrite_segments command (strip_embedded_text command)
      (split_top_level (strip_embedded_text command)) nothing_done

-- What becomes of a command: a blank one is kept; any other one is made up of the gaps and segments
-- of its skeleton and an end, and the segments are replaced as the rules say.
abbrev pub IsRewritten : Text → Dict Json → Type 0
IsRewritten command args =
    ((trim command ≡ []) × (args ≡ with_command command))
    ⊎ ((ps : List Piece) × (rest : Text) × (command ≡ before ps ++ rest)
        × (args ≡ with_command (after ps ++ rest))
        × AreQuieted command (strip_embedded_text command) 0 ps
            (split_top_level (strip_embedded_text command)))

module _ (command : Text) where
  abbrev own_pieces : List Piece
  own_pieces =
      pieces command (strip_embedded_text command) 0 (split_top_level (strip_embedded_text command))

  abbrev own_rest : Text
  own_rest =
      drop
        (last_end command (strip_embedded_text command) 0
          (split_top_level (strip_embedded_text command)))
        command

  before-own_pieces : before own_pieces ++ own_rest ≡ command
  before-own_pieces =
      let skeleton = strip_embedded_text command in
      before-pieces command skeleton 0 (length skeleton) 0 (split_top_level skeleton) (omega arith)
        (split_top_level-Tiles skeleton)

  after-own_pieces :
      (looped command).rebuilt ++ drop (looped command).cursor command
      ≡ after own_pieces ++ own_rest
  after-own_pieces =
      let skeleton = strip_embedded_text command in
      let segs = split_top_level skeleton in
      ap₂ (λ (t u : Text). t ++ u) (rewrite_segments-rebuilt command skeleton segs nothing_done)
        (ap (λ (n : ℕ). drop n command)
          (cursor-rewrite_segments command skeleton segs nothing_done))

  finish-own_pieces :
      (ls : List Text)
      → (looped command).labels ≡ ls
      → (finish command (looped command)).args ≡ with_command (after own_pieces ++ own_rest)
  unfolding untouched
  finish-own_pieces [] e =
      let skeleton = strip_embedded_text command in
      let (none_before, same) =
        rewrite_segments-labels command skeleton (split_top_level skeleton) nothing_done e in
      let whole : after own_pieces ++ own_rest ≡ command =
        ap (λ t. t ++ own_rest) same ∙ before-own_pieces in
      rw (e, whole) refl
  finish-own_pieces (l ∷ ls) e = rw e (ap with_command after-own_pieces)

optimize-IsRewritten :
    (command t : Text) → trim command ≡ t → IsRewritten command (optimize_bash_command command).args
unfolding optimize_bash_command untouched
optimize-IsRewritten command [] e = inl (e, rw (optimize_bash_command, e) refl)
optimize-IsRewritten command (c ∷ t) e = inr (
  own_pieces command,
  own_rest command,
  sym (before-own_pieces command),
  rw (optimize_bash_command, e) (finish-own_pieces command (looped command).labels refl),
  pieces-AreQuieted command (strip_embedded_text command) 0
      (split_top_level (strip_embedded_text command)),
)

-- A blank command is kept. Any other command is made up of the gaps and the segments of its
-- skeleton and an end, and the result of the same gaps and end with each segment replaced as the
-- ladder of rules says: the first rule whose expression is found in the part of the skeleton that
-- belongs to the segment, and whose flags in the way the segment has none of, puts its flag in
-- place of the trailing white space of the segment, or keeps the segment where it says the flag
-- already; where no rule applies, the segment is kept unit for unit.
pub optimize_bash_command_in_place :
    (command : Text) → IsRewritten command (optimize_bash_command command).args
optimize_bash_command_in_place command = optimize-IsRewritten command (trim command) refl
