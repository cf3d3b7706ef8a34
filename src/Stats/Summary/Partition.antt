-- ===== src/Stats/Summary/Partition.antt =====
-- About the groups of a summary (stats.ts).
use ctxlite.Prelude.{
  ℕ, ◌+◌, ◌*◌, ◌≤◌, ◌≡◌, refl, Bool, true, false, ◌&&◌, ◌||◌, not, List, [], ◌∷◌, arith, Text,
  filter_by, if◌then◌else◌,
}
use ctxlite.Stats.{
  Source, trim, concise, compress, prune, precall, compact, smart_read, diff_read, log_summary,
  code_search, cache, session, other, same_source, Row,
}
use ctxlite.Stats.Summary.{
  sum_case, saved, is_of, is_legacy_trim, not_session, select, summary_with_filter,
}

-- The rows that no entry of the summary names: those of the cache, and rows of an unknown source that
-- have trimmed nothing.
unfoldable pub is_unnamed : Row → Bool
is_unnamed r = same_source r.source cache || same_source r.source (other []) && not r.trimmed

abbrev counted : Bool → ℕ → ℕ
counted b n = if b then n else 0

-- The saving of a row of this source goes to exactly one sum; that of a session to none.
source-partition :
    (s : Source) (trimmed : Bool) (n : ℕ)
    → counted (not (same_source s session) && true) n
      ≡ counted (not (same_source s session) && same_source s trim) n
        + counted (same_source s (other []) && trimmed) n
        + counted (not (same_source s session) && same_source s concise) n
        + counted (not (same_source s session) && same_source s compress) n
        + counted (not (same_source s session) && same_source s prune) n
        + counted (not (same_source s session) && same_source s precall) n
        + counted (not (same_source s session) && same_source s compact) n
        + counted (not (same_source s session) && same_source s smart_read) n
        + counted (not (same_source s session) && same_source s diff_read) n
        + counted (not (same_source s session) && same_source s log_summary) n
        + counted (not (same_source s session) && same_source s code_search) n
        + counted (same_source s cache || same_source s (other []) && not trimmed) n
source-partition trim b n = omega arith
source-partition concise b n = omega arith
source-partition compress b n = omega arith
source-partition prune b n = omega arith
source-partition precall b n = omega arith
source-partition compact b n = omega arith
source-partition smart_read b n = omega arith
source-partition diff_read b n = omega arith
source-partition log_summary b n = omega arith
source-partition code_search b n = omega arith
source-partition cache b n = omega arith
source-partition session b n = omega arith
source-partition (other t) true n = omega arith
source-partition (other t) false n = omega arith

sum_case-filter_by :
    (q p : Row → Bool) (f : Row → ℕ) (rows : List Row)
    → sum_case p f (filter_by q rows) ≡ sum_case (λ r. q r && p r) f rows
unfolding sum_case filter_by
sum_case-filter_by q p f [] = refl
sum_case-filter_by q p f (r ∷ rows) = ground (arith, sum_case-filter_by q p f rows)

sum_case-cons :
    (p : Row → Bool) (f : Row → ℕ) (r : Row) (rows : List Row)
    → sum_case p f (r ∷ rows) ≡ counted (p r) (f r) + sum_case p f rows
unfolding sum_case
sum_case-cons p f r rows = ground arith

-- the sum over the rows of a source, those of sessions left out
unfoldable pub sum_of : Source → List Row → ℕ
sum_of s rows = sum_case (λ r. not_session r && is_of s r) saved rows

rows-partition :
    (rows : List Row)
    → sum_case (λ r. not_session r && true) saved rows
      ≡ sum_of trim rows
        + sum_case is_legacy_trim saved rows
        + sum_of concise rows
        + sum_of compress rows
        + sum_of prune rows
        + sum_of precall rows
        + sum_of compact rows
        + sum_of smart_read rows
        + sum_of diff_read rows
        + sum_of log_summary rows
        + sum_of code_search rows
        + sum_case is_unnamed saved rows
unfolding sum_of is_unnamed
rows-partition [] = unfold sum_case in refl
rows-partition (r ∷ rows) =
    let cons = λ (p : Row → Bool). sum_case-cons p saved r rows in
    omega (
      arith,
      rows-partition rows,
      source-partition r.source r.trimmed r.tokens_saved,
      cons (λ r. not_session r && true),
      cons (λ r. not_session r && is_of trim r),
      cons is_legacy_trim,
      cons (λ r. not_session r && is_of concise r),
      cons (λ r. not_session r && is_of compress r),
      cons (λ r. not_session r && is_of prune r),
      cons (λ r. not_session r && is_of precall r),
      cons (λ r. not_session r && is_of compact r),
      cons (λ r. not_session r && is_of smart_read r),
      cons (λ r. not_session r && is_of diff_read r),
      cons (λ r. not_session r && is_of log_summary r),
      cons (λ r. not_session r && is_of code_search r),
      cons is_unnamed,
    )

-- In every summary, whatever the filter, each saving is counted once: the saving of all rows but those
-- of sessions is the sum of the ten savings of the summary and of the rows that it does not name.
pub summary-partition :
    (filter : Row → Bool) (label : Text) (table : List Row)
    → let s = summary_with_filter filter label table in
      s.tokens_saved
      ≡ s.trim_tokens_saved
        + s.conciseness_tokens_saved
        + s.compress_tokens_saved
        + s.prune_tokens_saved
        + s.precall_tokens_saved
        + s.compact_tokens_saved
        + s.smart_read_tokens_saved
        + s.diff_read_tokens_saved
        + s.log_summary_tokens_saved
        + s.code_search_tokens_saved
        + sum_case is_unnamed saved (select filter table)
unfolding summary_with_filter sum_of
summary-partition filter label table =
    let rows = select filter table in
    let filtered = λ (p : Row → Bool). sum_case-filter_by not_session p saved rows in
    omega (
      arith,
      rows-partition rows,
      filtered (λ r. true),
      filtered (is_of trim),
      filtered (is_of concise),
      filtered (is_of compress),
      filtered (is_of prune),
      filtered (is_of precall),
      filtered (is_of compact),
      filtered (is_of smart_read),
      filtered (is_of diff_read),
      filtered (is_of log_summary),
      filtered (is_of code_search),
    )

-- The subtractions of a summary are exact: the realtime saving and that of trimming are all that was
-- saved, and the tokens before are the realtime saving and the tokens of the sessions, so that the
-- percentage is at most 100.
pub summary-percent :
    (filter : Row → Bool) (label : Text) (table : List Row)
    → let s = summary_with_filter filter label table in
      (s.realtime_tokens_saved + s.trim_tokens_saved ≡ s.tokens_saved)
      × (s.tokens_before ≡ s.realtime_tokens_saved + s.session_tokens_used)
      × (s.savings_percent.numerator ≤ 100 * s.savings_percent.denominator)
summary-percent filter label table =
    let h = summary-partition filter label table in unfold summary_with_filter in ground (arith, h)
