-- ===== src/Quarantines/Rows.antt =====
-- The rows of src/botster/hubQuarantines.ts, each a machine of its own.
use botster_web.Common.{
  ℕ, ◌≡◌, Bool, true, false, not, ◌&&◌, ◌||◌, Option, none, some, List, [], ◌∷◌, ◌==◌, nat_eq,
  string_eq, if◌then◌else◌, String, arith, Option-cases, inl, inr,
}
use botster_web.Common.Maps.{lookup, lookup-insert, lookup-delete}
use botster_web.Quarantines.{
  ResolveOutcome, pending, refreshing, refused, resolved_stale, failed, RowOutcome, RowOutcomes,
  is_pending, is_refreshing, replace_outcome, start_quarantine_resolve, settle_quarantine_result,
  settle_quarantine_refresh,
}

-- What happens to the rows: a Resolve starts, its result or its status refresh arrives.
pub data RowEvent : Type 0 where
  started : (key operation_id : String) (quarantined_at_ms : Option ℕ) → RowEvent
  answered : (key operation_id : String) (outcome : ResolveOutcome) → RowEvent
  refreshed : (key operation_id : String) (outcome : Option ResolveOutcome) → RowEvent

unfoldable pub row_event : RowEvent → RowOutcomes → RowOutcomes
row_event (started key operation_id at_ms) rows =
    start_quarantine_resolve rows key operation_id at_ms
row_event (answered key operation_id outcome) rows =
    settle_quarantine_result rows key operation_id outcome
row_event (refreshed key operation_id outcome) rows =
    settle_quarantine_refresh rows key operation_id outcome

unfoldable pub row_history : List RowEvent → RowOutcomes → RowOutcomes
row_history [] rows = rows
row_history (e ∷ es) rows = row_history es (row_event e rows)

-- One row alone: it belongs to the operation that started it last, waits for its answer or, confirmed,
-- for its refresh, and is then settled.
pub data Row : Type 0 where
  clear : Row
  awaiting : (operation_id : String) (at_ms : Option ℕ) (confirmed : Bool) → Row
  settled : (operation_id : String) (at_ms : Option ℕ) (outcome : ResolveOutcome) → Row

unfoldable pub row_with : String → Option ℕ → Option ResolveOutcome → Row
row_with operation_id at_ms none = clear
row_with operation_id at_ms (some pending) = awaiting operation_id at_ms false
row_with operation_id at_ms (some refreshing) = awaiting operation_id at_ms true
row_with operation_id at_ms (some (refused message)) = settled operation_id at_ms (refused message)
row_with operation_id at_ms (some (resolved_stale message)) =
    settled operation_id at_ms (resolved_stale message)
row_with operation_id at_ms (some (failed message)) = settled operation_id at_ms (failed message)

unfoldable pub view_row : Option RowOutcome → Row
view_row none = clear
view_row (some row) = row_with row.operation_id row.quarantined_at_ms (some row.outcome)

-- The machine of the row `mine`.
unfoldable pub row_step : String → RowEvent → Row → Row
row_step mine (started key operation_id at_ms) row =
    if key == mine then awaiting operation_id at_ms false else row
row_step mine (answered key operation_id outcome) clear = clear
row_step mine (answered key operation_id outcome) (settled owner at_ms last) =
    settled owner at_ms last
row_step mine (answered key operation_id outcome) (awaiting owner at_ms confirmed) =
    if (key == mine) && (owner == operation_id) && not confirmed
    then row_with owner at_ms (some outcome)
    else awaiting owner at_ms confirmed
row_step mine (refreshed key operation_id outcome) clear = clear
row_step mine (refreshed key operation_id outcome) (settled owner at_ms last) =
    settled owner at_ms last
row_step mine (refreshed key operation_id outcome) (awaiting owner at_ms confirmed) =
    if (key == mine) && (owner == operation_id)
    then row_with owner at_ms outcome
    else awaiting owner at_ms confirmed

unfoldable pub row_steps : String → List RowEvent → Row → Row
row_steps mine [] row = row
row_steps mine (e ∷ es) row = row_steps mine es (row_step mine e row)

-- What an answer and a refresh do to the entry of their key.
unfoldable pub result_of : String → ResolveOutcome → Option RowOutcome → Option RowOutcome
result_of operation_id outcome none = none
result_of operation_id outcome (some entry) =
    if not (entry.operation_id == operation_id) || not (is_pending entry.outcome)
    then some entry
    else some (record entry { outcome = outcome })

unfoldable pub refresh_of : String → Option ResolveOutcome → Option RowOutcome → Option RowOutcome
refresh_of operation_id outcome none = none
refresh_of operation_id outcome (some entry) =
    if not (entry.operation_id == operation_id)
      || (not (is_pending entry.outcome) && not (is_refreshing entry.outcome))
    then some entry
    else elim outcome [ none ↦ none | some o ↦ some (record entry { outcome = o }) ]

pub lookup-result :
    (mine key operation_id : String) (outcome : ResolveOutcome) (rows : RowOutcomes)
    → lookup mine (settle_quarantine_result rows key operation_id outcome)
      ≡ (if key == mine then result_of operation_id outcome (lookup key rows) else lookup mine rows)
unfolding settle_quarantine_result result_of replace_outcome
lookup-result mine key operation_id outcome rows = elim (Option-cases (lookup key rows)) [
  | inl missing ↦
      rw (settle_quarantine_result, missing) (ground (arith, missing, string_eq.beq_iff key mine))
  | inr (entry, found) ↦
      rw (settle_quarantine_result, found)
        (ground (
          arith,
          found,
          string_eq.beq_iff key mine,
          lookup-insert key mine (record entry { outcome = outcome }) rows,
        ))
]

pub lookup-refresh :
    (mine key operation_id : String) (outcome : Option ResolveOutcome) (rows : RowOutcomes)
    → lookup mine (settle_quarantine_refresh rows key operation_id outcome) ≡ (
        if key == mine then refresh_of operation_id outcome (lookup key rows) else lookup mine rows)
unfolding settle_quarantine_refresh refresh_of replace_outcome
lookup-refresh mine key operation_id none rows = elim (Option-cases (lookup key rows)) [
  | inl missing ↦
      rw (settle_quarantine_refresh, missing) (ground (arith, missing, string_eq.beq_iff key mine))
  | inr (entry, found) ↦
      rw (settle_quarantine_refresh, found)
        (ground (arith, found, string_eq.beq_iff key mine, lookup-delete key mine rows))
]
lookup-refresh mine key operation_id (some o) rows = elim (Option-cases (lookup key rows)) [
  | inl missing ↦
      rw (settle_quarantine_refresh, missing) (ground (arith, missing, string_eq.beq_iff key mine))
  | inr (entry, found) ↦
      rw (settle_quarantine_refresh, found)
        (ground (
          arith,
          found,
          string_eq.beq_iff key mine,
          lookup-insert key mine (record entry { outcome = o }) rows,
        ))
]
