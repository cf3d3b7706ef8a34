-- ===== src/DiffRead/Laws.antt =====
-- What a read of a diff gives (diff-read.ts).
use ctxlite.Prelude.{
  ℕ, suc, ◌+◌, ◌-◌, ◌≤◌, ◌<◌, ◌≡◌, refl, sym, ap, ◌∙◌, ◌⊎◌, inl, inr, ◌&&◌, List, [], ◌∷◌, ◌++◌,
  map, append_assoc, append-nil, arith, Text, length, length-map, join, take, ltb, if◌then◌else◌,
  Bool-cases, lines_of,
}
use ctxlite.Tokens.{estimate_tokens}
use ctxlite.DiffRead.{
  DiffHunk, block_of, omitted_note, Progress, include_blocks, DiffReadResult, read, heading,
  read_hunks,
}
use ctxlite.Prelude.{newline}

-- The estimates of the blocks, added up.
unfoldable pub tokens_of : List Text → ℕ
tokens_of [] = 0
tokens_of (b ∷ bs) = estimate_tokens b + tokens_of bs

-- The note on the hunks that are left out, if there are any.
unfoldable pub note_after : ℕ → ℕ → ℕ → List Text
note_after included total budget =
    if ltb included total then omitted_note (total - included) budget ∷ [] else []

-- The loop has included the first blocks of those that were left, and stopped at one that passes the
-- budget, if at all.
record IsIncluded (total budget : ℕ) (left : List Text) (p r : Progress) : Type 0 where
  count : ℕ
  bounded : count ≤ length left
  at_least_one : (0 < p.hunks_included) ⊎ ((0 < count) ⊎ (left ≡ []))
  included : r.hunks_included ≡ p.hunks_included + count
  blocks : r.blocks ≡ p.blocks ++ (take count left ++ note_after r.hunks_included total budget)
  within :
      (p.hunks_included + count ≤ 1)
      ⊎ ((count ≡ 0) ⊎ (p.tokens_out + tokens_of (take count left) ≤ budget))

note-none : (n budget : ℕ) → note_after n n budget ≡ []
unfolding note_after
note-none n budget = ground arith

note-some :
    (n total budget : ℕ)
    → n < total
    → note_after n total budget ≡ omitted_note (total - n) budget ∷ []
unfolding note_after
note-some n total budget h = ground arith

-- One more block.
add-IsIncluded :
    (total budget : ℕ) (block : Text) (left : List Text) (p r : Progress)
    → (p.tokens_out + estimate_tokens block ≤ budget) ⊎ (p.hunks_included ≡ 0)
    → IsIncluded total budget left
        (record {
          blocks = p.blocks ++ block ∷ [];
          tokens_out = p.tokens_out + estimate_tokens block;
          hunks_included = p.hunks_included + 1;
        })
        r
    → IsIncluded total budget (block ∷ left) p r
unfolding tokens_of
add-IsIncluded total budget block left p r c s = record {
  count = suc s.count;
  bounded = omega (arith, s.bounded);
  at_least_one = inr (inl (omega arith));
  included = omega (arith, s.included);
  blocks =
      s.blocks
      ∙ append_assoc p.blocks (block ∷ [])
          (take s.count left ++ note_after r.hunks_included total budget);
  within = ground (arith, c, s.within);
}

include_blocks-IsIncluded :
    (total budget : ℕ) (left : List Text) (p : Progress)
    → p.hunks_included + length left ≡ total
    → IsIncluded total budget left p (include_blocks total budget left p)
unfolding include_blocks tokens_of
include_blocks-IsIncluded total budget [] p h = record {
  count = 0;
  bounded = omega arith;
  at_least_one = inr (inr refl);
  included = omega arith;
  blocks =
      let e : p.hunks_included ≡ total = omega (arith, h) in
      rw (e, note-none total budget) (sym (append-nil p.blocks));
  within = inr (inl refl);
}
include_blocks-IsIncluded total budget (block ∷ left) p h =
    let q : Progress = record {
      blocks = p.blocks ++ block ∷ [];
      tokens_out = p.tokens_out + estimate_tokens block;
      hunks_included = p.hunks_included + 1;
    } in
    let rest = include_blocks-IsIncluded total budget left q (omega (arith, h)) in
    elim (Bool-cases
      (ltb budget (p.tokens_out + estimate_tokens block) && ltb 0 p.hunks_included)) [
        | inl e ↦
            let some_included : 0 < p.hunks_included = ground (arith, e) in
            rw e (record {
              count = 0;
              bounded = omega arith;
              at_least_one = inl some_included;
              included = omega arith;
              blocks =
                  ap (λ (t : List Text). p.blocks ++ t)
                    (sym (note-some p.hunks_included total budget (omega (arith, h))));
              within = inr (inl refl);
            })
        | inr e ↦ rw e (
            add-IsIncluded total budget block left p (include_blocks total budget left q)
              (ground (arith, e)) rest)
      ]

-- For a diff with at least one hunk and a file that is there, a read never fails: it includes the first
-- hunks of the diff, at least one, whose blocks follow the heading in their order, with a note on the
-- number of the others where there are any; and if it includes more than one, the estimates of the
-- heading and of these blocks are within the budget.
pub read_hunks-reads :
    (path : Text) (context budget : ℕ) (content : Text) (hunk : DiffHunk) (hunks : List DiffHunk)
    → let all_hunks = hunk ∷ hunks in
      let blocks = map (block_of context (lines_of content)) all_hunks in
      (n : ℕ) × (r : DiffReadResult) × (read_hunks path context budget content all_hunks ≡ read r)
      × (0 < n)
      × (n ≤ length all_hunks)
      × (r.hunks_included ≡ n)
      × (r.output
          ≡ join
              (newline ∷ newline ∷ [])
              (heading path ∷ take n blocks ++ note_after n (length all_hunks) budget))
      × ((n ≡ 1) ⊎ (estimate_tokens (heading path) + tokens_of (take n blocks) ≤ budget))
unfolding read_hunks
read_hunks-reads path context budget content hunk hunks =
    let all_hunks = hunk ∷ hunks in
    let blocks = map (block_of context (lines_of content)) all_hunks in
    let first : Progress = record {
      blocks = heading path ∷ [];
      tokens_out = estimate_tokens (heading path);
      hunks_included = 0;
    } in
    let p = include_blocks (length all_hunks) budget blocks first in
    let same : length blocks ≡ length all_hunks =
      length-map all_hunks (block_of context (lines_of content)) in
    let s =
      include_blocks-IsIncluded (length all_hunks) budget blocks first (omega (arith, same)) in
    let some_blocks : 0 < s.count = elim s.at_least_one [
      | inl h ↦ absurd (omega (arith, h))
      | inr (inl h) ↦ h
      | inr (inr h) ↦ absurd (cc h)
    ] in
    let counted : p.hunks_included ≡ s.count = omega (arith, s.included) in
    let output = join (newline ∷ newline ∷ []) p.blocks in
    let result : DiffReadResult = record {
      output = output;
      tokens_in = estimate_tokens content;
      tokens_out = estimate_tokens output;
      tokens_saved = estimate_tokens content - estimate_tokens output;
      hunks_included = p.hunks_included;
    } in
    (
      s.count,
      result,
      ground (arith, counted, some_blocks),
      some_blocks,
      omega (arith, s.bounded, same),
      counted,
      ap (λ (bs : List Text). join (newline ∷ newline ∷ []) bs)
          (s.blocks
            ∙ ap
                (λ (n : ℕ).
                  heading path ∷ (take s.count blocks ++ note_after n (length all_hunks) budget))
                counted),
      ground (arith, s.within, some_blocks),
    )
