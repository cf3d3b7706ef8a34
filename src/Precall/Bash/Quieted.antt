-- ===== src/Precall/Bash/Quieted.antt =====
-- About what the rules make of one segment (tool-precall.ts).
use ctxlite.Prelude.{◌≡◌}
use ctxlite.Prelude.{
  refl, sym, ◌⊎◌, inl, inr, List, [], ◌∷◌, ◌++◌, arith, Text, str, Bool, true, false, ◌&&◌, ◌||◌,
  not, Option, none, some, trim_end, ends_with, includes, text_eq, text_eq_iff, Bool-cases,
}
use ctxlite.Precall.Rules.{Rule, SegmentMatch, append_flag, has_flag, first_rule, apply_rule}

-- The text between two segments, a segment, and what stands for it afterwards.
pub record Piece : Type 0 where
  pub gap : Text
  pub segment : Text
  pub replacement : Text

-- A rule applies to a segment: its expression is found in the segment's part of the skeleton, and the
-- segment has none of the flags that are in its way.
abbrev pub applies : Text → Text → Rule → Bool
applies own segment r = r.pattern own && not (has_flag segment r.unless)

abbrev pub says_flag : Text → Text → Bool
says_flag segment flag =
    ends_with (trim_end segment) flag || includes (trim_end segment) (flag ++ str " ")

-- What stands for a segment to which the rule applies: the segment where it says the flag at its end
-- or before a blank; otherwise the segment with the flag in place of its trailing white space.
abbrev pub IsFlagged : Rule → Piece → Type 0
IsFlagged r p =
    ((says_flag p.segment r.flag ≡ true) × (p.replacement ≡ p.segment))
    ⊎ ((says_flag p.segment r.flag ≡ false)
        × (p.replacement ≡ trim_end p.segment ++ (str " " ++ r.flag)))

-- No rule applies and the segment is kept, or it is flagged for the first of them that applies.
unfoldable pub IsQuieted : List Rule → Text → Piece → Type 0
IsQuieted [] own p = p.replacement ≡ p.segment
IsQuieted (r ∷ rules) own p =
    ((applies own p.segment r ≡ true) × IsFlagged r p)
    ⊎ ((applies own p.segment r ≡ false) × IsQuieted rules own p)

abbrev pub replacement_of : Option SegmentMatch → Text → Text
replacement_of none segment = segment
replacement_of (some m) segment = m.command

replacement-append_flag :
    (r : Rule) (segment : Text)
    → replacement_of (apply_rule (some r) segment) segment ≡ append_flag segment r.flag
unfolding apply_rule
replacement-append_flag r segment =
    elim (Bool-cases (text_eq (append_flag segment r.flag) segment)) [
      | inl e ↦
          let same : append_flag segment r.flag ≡ segment =
            ground (arith, text_eq_iff (append_flag segment r.flag) segment) in
          rw e (sym same)
      | inr e ↦ rw e refl
    ]

append_flag-cases :
    (segment flag : Text)
    → ((says_flag segment flag ≡ true) × (append_flag segment flag ≡ segment))
      ⊎ ((says_flag segment flag ≡ false)
          × (append_flag segment flag ≡ trim_end segment ++ (str " " ++ flag)))
unfolding append_flag
append_flag-cases segment flag = elim (Bool-cases (says_flag segment flag)) [
  | inl e ↦ inl (e, rw e refl)
  | inr e ↦ inr (e, rw e refl)
]

pub first_rule-IsQuieted :
    (rules : List Rule) (own gap segment : Text)
    → IsQuieted rules own (record {
      gap = gap;
      segment = segment;
      replacement = replacement_of (apply_rule (first_rule rules own segment) segment) segment;
    })
unfolding first_rule IsQuieted
first_rule-IsQuieted [] own gap segment = unfold apply_rule in refl
first_rule-IsQuieted (r ∷ rules) own gap segment =
    let rest = first_rule-IsQuieted rules own gap segment in
    elim (Bool-cases (applies own segment r)) [
      | inl e ↦
          inl (e, rw (e, replacement-append_flag r segment) (append_flag-cases segment r.flag))
      | inr e ↦ inr (e, rw e rest)
    ]
