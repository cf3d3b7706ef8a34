-- ===== src/Opencode/Events.antt =====
-- The handler of events that logs a turn and tells of its savings (stats-events.ts).
use ctxlite.Prelude.{
  ℕ, ◌+◌, ◌-◌, ◌<◌, ◌≡◌, refl, sym, ap, inl, inr, Bool, false, ◌&&◌, not, Option, none, some, arith,
  Text, str, text_eq, text_eq_refl, Dict, dict_get, dict_set, get-set, leb, if◌then◌else◌,
  Bool-cases,
}
use ctxlite.Stats.{Moment, Store}
use ctxlite.Stats.Loggers.{log_conciseness_savings, log_session_usage}
use ctxlite.Stats.Summary.{summary_for_session}
use ctxlite.Prelude.{◌≤◌, ◌⊎◌}
use ctxlite.Prelude.{true}

-- An event, with the properties of its message.
pub record Event : Type 0 where
  pub type : Text
  pub role : Text
  pub completed : Bool
  pub id : Text
  pub provider_id : Text
  pub session_id : Text
  pub input : ℕ
  pub output : ℕ
  pub reasoning : ℕ

-- `lastTotalBySession` and the table
pub record Tracker : Type 0 where
  pub last_totals : Dict ℕ
  pub store : Store

-- the two numbers of a toast; the second is in the new title too
pub record Toast : Type 0 where
  pub delta : ℕ
  pub total : ℕ

unfoldable pub is_completed_turn : Event → Bool
is_completed_turn e =
    text_eq e.type (str "message.updated") && (text_eq e.role (str "assistant") && e.completed)

unfoldable pub log_turn : Moment → Moment → Event → Store → Store
log_turn m n e s =
    log_session_usage n
      (record {
        message_id = e.id;
        input_tokens = e.input;
        output_tokens = e.output + e.reasoning;
        host = some (str "opencode");
        session_id = some e.session_id;
      })
      (log_conciseness_savings m
        (record {
          message_id = e.id;
          provider_id = e.provider_id;
          input_tokens = e.input;
          output_tokens = e.output;
          reasoning_tokens = e.reasoning;
          host = some (str "opencode");
          session_id = some e.session_id;
        })
        s)

unfoldable pub total_saved : Text → Store → ℕ
total_saved session s = (summary_for_session (str "opencode") session s.rows).tokens_saved

-- A first total is the baseline; a later one is told if it has grown.
unfoldable pub toast_of : Option ℕ → ℕ → Option Toast
toast_of none total = none
toast_of (some last) total =
    if leb total last then none else some (record { delta = total - last; total = total })

unfoldable pub report_turn : Event → Tracker → Option Toast × Tracker
report_turn e t =
    let total = total_saved e.session_id t.store in
    (
      toast_of (dict_get e.session_id t.last_totals) total,
      record t { last_totals = dict_set e.session_id total t.last_totals },
    )

-- The moments are those of the two writes and of the read, which throws where the store cannot be
-- opened.
unfoldable pub on_event : Moment → Moment → Moment → Bool → Event → Tracker → Option Toast × Tracker
on_event m n r has_client e t =
    let logged = record t { store = log_turn m n e t.store } in
    if not (is_completed_turn e)
    then (none, t)
    else if has_client && r.opens
    then report_turn e logged
    else (none, logged)

-- What becomes of the toast for a total, by the session's last one: the first total is the baseline, and
-- a later one is told exactly where it is greater, with the difference.
abbrev pub IsTold : Option ℕ → ℕ → Option Toast → Type 0
IsTold none total toast = toast ≡ none
IsTold (some last) total toast =
    ((total ≤ last) × (toast ≡ none))
    ⊎ ((delta : ℕ) × (last + delta ≡ total)
        × (0 < delta)
        × (toast ≡ some (record { delta = delta; total = total })))

-- What an event does where its turn is looked at: the session's last total is that of the table from now
-- on, the last totals of other sessions stay as they are, and the toast is that of the two totals.
pub record IsReported (e : Event) (t : Tracker) (toast : Option Toast) (u : Tracker) : Type 0 where
  pub others :
      (session : Text)
      → text_eq e.session_id session ≡ false
      → dict_get session u.last_totals ≡ dict_get session t.last_totals
  pub last : dict_get e.session_id u.last_totals ≡ some (total_saved e.session_id u.store)
  pub told : IsTold (dict_get e.session_id t.last_totals) (total_saved e.session_id u.store) toast

-- The turn of an event is looked at: it is complete, there is a client, and the table opens.
abbrev pub is_looked_at : Moment → Bool → Event → Bool
is_looked_at r has_client e =
    (text_eq e.type (str "message.updated") && (text_eq e.role (str "assistant") && e.completed))
    && (has_client && r.opens)

-- An event whose turn is not looked at tells nothing and keeps all last totals.
abbrev pub IsTracked : Moment → Bool → Event → Tracker → Option Toast → Tracker → Type 0
IsTracked r has_client e t toast u =
    ((is_looked_at r has_client e ≡ false) × (toast ≡ none) × (u.last_totals ≡ t.last_totals))
    ⊎ ((is_looked_at r has_client e ≡ true) × IsReported e t toast u)

toast_of-IsTold : (o : Option ℕ) (total : ℕ) → IsTold o total (toast_of o total)
unfolding toast_of
toast_of-IsTold none total = refl
toast_of-IsTold (some last) total = elim (Bool-cases (leb total last)) [
  | inl e ↦ inl (ground arith, rw e refl)
  | inr e ↦ inr (total - last, ground arith, ground arith, rw e refl)
]

report_turn-IsReported :
    (e : Event) (t s : Tracker)
    → s.last_totals ≡ t.last_totals
    → let (toast, u) = report_turn e s in IsReported e t toast u
unfolding report_turn
report_turn-IsReported e t s h =
    let total = total_saved e.session_id s.store in
    record {
      others = λ session d.
          rw (get-set e.session_id session total s.last_totals, d)
            (ap (λ (m : Dict ℕ). dict_get session m) h);
      last =
          rw (get-set e.session_id e.session_id total s.last_totals, text_eq_refl e.session_id)
            refl;
      told =
          rw (ap (λ (m : Dict ℕ). dict_get e.session_id m) (sym h))
            (toast_of-IsTold (dict_get e.session_id s.last_totals) total);
    }

-- An event whose turn is not complete, or that comes without a client or with a table that does not
-- open, tells nothing and keeps the last totals of all sessions. Any other event makes the total of
-- the table the last one of its session, keeps those of the other sessions, and tells exactly where
-- there was a last total and it was smaller: the toast has the difference of the two, which is more
-- than 0, and the new total.
pub on_event-IsReported :
    (m n r : Moment) (has_client : Bool) (e : Event) (t : Tracker)
    → let (toast, u) = on_event m n r has_client e t in IsTracked r has_client e t toast u
unfolding on_event is_completed_turn
on_event-IsReported m n r has_client e t =
    let logged : Tracker = record t { store = log_turn m n e t.store } in
    elim (Bool-cases (is_completed_turn e)) [
      | inr a ↦ rw a (inl (refl, refl, refl))
      | inl a ↦ elim (Bool-cases (has_client && r.opens)) [
        | inl b ↦ rw (a, b) (inr (refl, report_turn-IsReported e t logged refl))
        | inr b ↦ rw (a, b) (inl (refl, refl, refl))
      ]
    ]
