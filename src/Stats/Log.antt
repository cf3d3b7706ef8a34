-- ===== src/Stats/Log.antt =====
-- About what logging does to the table of savings (stats.ts).
use ctxlite.Prelude.{
  ◌+◌, ◌<◌, ◌≡◌, refl, inl, inr, Bool, true, false, ◌&&◌, ◌||◌, not, Option, some, List, [], ◌∷◌,
  ◌++◌, arith, Text, str, text_eq, text_eq_iff, text_eq_refl, any, All, All-append, leb, ◌==◌,
  if◌then◌else◌, Bool-cases,
}
use ctxlite.Stats.{
  Row, RequestLog, Moment, Store, run_with_retry, has_id, insert_or_ignore, row_of, write, log,
  log_shared,
}
use ctxlite.Stats.Loggers.{
  OptimizationLog, given_id, log_optimization_savings, SessionUsage, usage_request,
  log_session_usage,
}

-- Each of the first three attempts throws.
abbrev pub all_throw : Moment → Bool
all_throw m = m.throws 0 && (m.throws 1 && m.throws 2)

-- The store after a call of `log`: the row is written as soon as one of three attempts succeeds, and
-- otherwise the table is as it was and the failure is counted.
pub log-cases :
    (m : Moment) (entry : RequestLog) (id : Option Text) (s : Store)
    → log m entry id s ≡ (
        if all_throw m
        then record s { log_failure_count = s.log_failure_count + 1 }
        else record s { rows = insert_or_ignore (row_of m entry id) s.rows })
unfolding log run_with_retry write
log-cases m entry id s = ground arith

has_id-append :
    (id : Text) (row : Row) (rows : List Row)
    → has_id id (rows ++ row ∷ []) ≡ has_id id rows || text_eq row.id id
unfolding has_id any
has_id-append id row [] = ground arith
has_id-append id row (r ∷ rows) = ground (arith, has_id-append id row rows)

-- A row that is there is not written again.
insert-insert :
    (a b : Row) (rows : List Row)
    → a.id ≡ b.id
    → insert_or_ignore b (insert_or_ignore a rows) ≡ insert_or_ignore a rows
unfolding insert_or_ignore
insert-insert a b rows e = ground (arith, has_id-append a.id a rows, text_eq_refl a.id)

-- Every id stands in one row only.
unfoldable pub has_unique_ids : List Row → Bool
has_unique_ids [] = true
has_unique_ids (r ∷ rows) = not (has_id r.id rows) && has_unique_ids rows

unique_append :
    (row : Row) (rows : List Row)
    → has_id row.id rows ≡ false
    → has_unique_ids rows ≡ true
    → has_unique_ids (rows ++ row ∷ []) ≡ true
unfolding has_unique_ids has_id any
unique_append row [] h u = refl
unique_append row (r ∷ rows) h u = ground (
  arith,
  has_id-append r.id row rows,
  text_eq_iff r.id row.id,
  text_eq_iff row.id r.id,
  unique_append row rows,
)

insert_unique :
    (row : Row) (rows : List Row)
    → has_unique_ids rows ≡ true
    → has_unique_ids (insert_or_ignore row rows) ≡ true
unfolding insert_or_ignore
insert_unique row rows u = elim (Bool-cases (has_id row.id rows)) [
  | inl e ↦ rw e u
  | inr e ↦ rw e (unique_append row rows e u)
]

-- Logging keeps the key of the table: if every id stands in one row only, this holds after a call of
-- `log`, whatever throws.
pub log_unique :
    (m : Moment) (entry : RequestLog) (id : Option Text) (s : Store)
    → has_unique_ids s.rows ≡ true
    → has_unique_ids (log m entry id s).rows ≡ true
log_unique m entry id s u =
    rw (log-cases m entry id s) (ground (arith, insert_unique (row_of m entry id) s.rows))

-- The table after one of the loggers has passed an entry on.
rows-log_shared :
    (m : Moment) (entry : RequestLog) (id : Option Text) (s : Store)
    → (log_shared m entry id s).rows ≡ (
        if m.opens && not (all_throw m)
        then insert_or_ignore (row_of m entry id) s.rows
        else s.rows)
unfolding log_shared
rows-log_shared m entry id s = ground (arith, log-cases m entry id s)

log_shared-twice :
    (m n : Moment) (a b : RequestLog) (id : Text) (s : Store)
    → m.opens && not (all_throw m) ≡ true
    → (log_shared n b (some id) (log_shared m a (some id) s)).rows
      ≡ (log_shared m a (some id) s).rows
unfolding row_of
log_shared-twice m n a b id s h =
    let t = log_shared m a (some id) s in
    ground (
      arith,
      rows-log_shared m a (some id) s,
      rows-log_shared n b (some id) t,
      insert-insert (row_of m a (some id)) (row_of n b (some id)) s.rows refl,
    )

-- An event that comes twice is logged once: after a call of logSessionUsage whose counts are not
-- both 0 and that has not failed, a second one for the same message leaves the table as it is,
-- whatever its counts and its moment.
pub log_session_usage-twice :
    (m n : Moment) (a b : SessionUsage) (s : Store)
    → a.message_id ≡ b.message_id
    → m.opens && not (all_throw m) ≡ true
    → (a.input_tokens == 0 && a.output_tokens == 0) ≡ false
    → (log_session_usage n b (log_session_usage m a s)).rows ≡ (log_session_usage m a s).rows
unfolding log_session_usage
log_session_usage-twice m n a b s e h k =
    rw (e, k)
      (ground (
        arith,
        log_shared-twice m n (usage_request a) (usage_request b) (str "session-" ++ b.message_id) s
            h,
      ))

-- A saving is the difference of the two counts of its row, and it is not 0.
pub record IsSaving (r : Row) : Type 0 where
  pub difference : r.tokens_saved + r.tokens_out ≡ r.tokens_in
  pub positive : 0 < r.tokens_saved

insert-All :
    (P : Row → Type 0) (row : Row) (rows : List Row)
    → P row
    → All P rows
    → All P (insert_or_ignore row rows)
unfolding insert_or_ignore
insert-All P row rows p a = elim (Bool-cases (has_id row.id rows)) [
  | inl e ↦ rw e a
  | inr e ↦ rw e (All-append P rows (row ∷ []) a (p, tt))
]

-- The table of a plugin: unique ids, and savings only.
pub record IsTable (rows : List Row) : Type 0 where
  pub unique : has_unique_ids rows ≡ true
  pub savings : All IsSaving rows

insert-IsTable :
    (row : Row) (rows : List Row)
    → IsSaving row
    → IsTable rows
    → IsTable (insert_or_ignore row rows)
insert-IsTable row rows h t = record {
  unique = insert_unique row rows t.unique;
  savings = insert-All IsSaving row rows h t.savings;
}

log_shared-IsTable :
    (m : Moment) (entry : RequestLog) (id : Option Text) (s : Store)
    → IsSaving (row_of m entry id)
    → IsTable s.rows
    → IsTable (log_shared m entry id s).rows
log_shared-IsTable m entry id s h t = elim (Bool-cases (m.opens && not (all_throw m))) [
  | inl e ↦ rw (rows-log_shared m entry id s, e) (insert-IsTable (row_of m entry id) s.rows h t)
  | inr e ↦ rw (rows-log_shared m entry id s, e) t
]

-- Logging an optimization keeps the table, whatever the counts of the entry.
pub log_optimization_savings-IsTable :
    (m : Moment) (entry : OptimizationLog) (s : Store)
    → IsTable s.rows
    → IsTable (log_optimization_savings m entry s).rows
unfolding log_optimization_savings row_of
log_optimization_savings-IsTable m entry s t =
    elim (Bool-cases (leb entry.tokens_in entry.tokens_out)) [
      | inl e ↦ rw e t
      | inr e ↦
          let less : entry.tokens_out < entry.tokens_in = ground arith in
          rw e (
            log_shared-IsTable m _ (given_id entry.id) s
              (record { difference = omega arith; positive = omega arith }) t)
    ]
