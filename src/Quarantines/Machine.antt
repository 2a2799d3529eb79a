-- ===== src/Quarantines/Machine.antt =====
-- The rows of src/botster/hubQuarantines.ts follow their machines, and late answers do nothing.
use botster_web.Common.{
  ℕ, ◌≡◌, refl, sym, ap, ◌∙◌, false, Option, none, some, List, [], ◌∷◌, ◌==◌, nat_eq, string_eq,
  String, arith, Bool-cases, inl, inr, eq_self,
}
use botster_web.Common.Maps.{lookup, insert, lookup-insert}
use botster_web.Quarantines.{
  ResolveOutcome, pending, refreshing, refused, resolved_stale, failed, RowOutcome, RowOutcomes,
  is_pending, is_refreshing, start_quarantine_resolve, settle_quarantine_result,
  settle_quarantine_refresh,
}
use botster_web.Quarantines.Rows.{
  RowEvent, started, answered, refreshed, row_event, row_history, Row, clear, awaiting, settled,
  row_with, view_row, row_step, row_steps, result_of, refresh_of, lookup-result, lookup-refresh,
}

module _ (mine : String) where
  view-result :
      (operation_id : String) (o : ResolveOutcome) (owner : String) (at_ms : Option ℕ)
      (last : ResolveOutcome)
      → view_row (
          result_of operation_id o
            (some (record { outcome = last; operation_id = owner; quarantined_at_ms = at_ms })))
        ≡ row_step mine (answered mine operation_id o) (row_with owner at_ms (some last))
  unfolding result_of view_row row_with row_step is_pending
  view-result operation_id o owner at_ms pending = rw (eq_self mine) (ground arith)
  view-result operation_id o owner at_ms refreshing = rw (eq_self mine) (ground arith)
  view-result operation_id o owner at_ms (refused message) = ground arith
  view-result operation_id o owner at_ms (resolved_stale message) = ground arith
  view-result operation_id o owner at_ms (failed message) = ground arith

  view-refresh :
      (operation_id : String) (o : Option ResolveOutcome) (owner : String) (at_ms : Option ℕ)
      (last : ResolveOutcome)
      → view_row (
          refresh_of operation_id o
            (some (record { outcome = last; operation_id = owner; quarantined_at_ms = at_ms })))
        ≡ row_step mine (refreshed mine operation_id o) (row_with owner at_ms (some last))
  unfolding refresh_of view_row row_with row_step is_pending is_refreshing
  view-refresh operation_id none owner at_ms pending = rw (eq_self mine) (ground arith)
  view-refresh operation_id (some o) owner at_ms pending = rw (eq_self mine) (ground arith)
  view-refresh operation_id none owner at_ms refreshing = rw (eq_self mine) (ground arith)
  view-refresh operation_id (some o) owner at_ms refreshing = rw (eq_self mine) (ground arith)
  view-refresh operation_id o owner at_ms (refused message) = ground arith
  view-refresh operation_id o owner at_ms (resolved_stale message) = ground arith
  view-refresh operation_id o owner at_ms (failed message) = ground arith

  view-result-row :
      (operation_id : String) (o : ResolveOutcome) (row : Option RowOutcome)
      → view_row (result_of operation_id o row)
        ≡ row_step mine (answered mine operation_id o) (view_row row)
  unfolding view_row
  view-result-row operation_id o none = unfold result_of row_step in refl
  view-result-row operation_id o (some row) =
      view-result operation_id o row.operation_id row.quarantined_at_ms row.outcome

  view-refresh-row :
      (operation_id : String) (o : Option ResolveOutcome) (row : Option RowOutcome)
      → view_row (refresh_of operation_id o row)
        ≡ row_step mine (refreshed mine operation_id o) (view_row row)
  unfolding view_row
  view-refresh-row operation_id o none = unfold refresh_of row_step in refl
  view-refresh-row operation_id o (some row) =
      view-refresh operation_id o row.operation_id row.quarantined_at_ms row.outcome

  -- An event of another row.
  row_step-other-answered :
      (key operation_id : String) (o : ResolveOutcome) (row : Row)
      → (key == mine) ≡ false
      → row_step mine (answered key operation_id o) row ≡ row
  unfolding row_step
  row_step-other-answered key operation_id o clear differs = refl
  row_step-other-answered key operation_id o (awaiting owner at_ms confirmed) differs =
      rw differs refl
  row_step-other-answered key operation_id o (settled owner at_ms last) differs = refl

  row_step-other-refreshed :
      (key operation_id : String) (o : Option ResolveOutcome) (row : Row)
      → (key == mine) ≡ false
      → row_step mine (refreshed key operation_id o) row ≡ row
  unfolding row_step
  row_step-other-refreshed key operation_id o clear differs = refl
  row_step-other-refreshed key operation_id o (awaiting owner at_ms confirmed) differs =
      rw differs refl
  row_step-other-refreshed key operation_id o (settled owner at_ms last) differs = refl

  row_event-step :
      (e : RowEvent) (rows : RowOutcomes)
      → view_row (lookup mine (row_event e rows)) ≡ row_step mine e (view_row (lookup mine rows))
  unfolding row_event start_quarantine_resolve row_step view_row row_with
  row_event-step (started key operation_id at_ms) rows =
      let begun : RowOutcome = record {
        outcome = pending;
        operation_id = operation_id;
        quarantined_at_ms = at_ms;
      } in
      elim (Bool-cases (key == mine)) [
        | inl same ↦
            let here : lookup mine (insert key begun rows) ≡ some begun =
              lookup-insert key mine begun rows ∙ rw same refl in
            rw same (ap view_row here)
        | inr differs ↦
            let there : lookup mine (insert key begun rows) ≡ lookup mine rows =
              lookup-insert key mine begun rows ∙ rw differs refl in
            rw differs (ap view_row there)
      ]
  row_event-step (answered key operation_id o) rows = elim (Bool-cases (key == mine)) [
    | inl same ↦
        let is_mine : key ≡ mine = (string_eq.beq_iff key mine).0 same in
        let here : lookup mine (settle_quarantine_result rows key operation_id o)
            ≡ result_of operation_id o (lookup key rows) =
          lookup-result mine key operation_id o rows ∙ rw same refl in
        ap view_row here ∙ rw is_mine (view-result-row operation_id o (lookup mine rows))
    | inr differs ↦
        let there : lookup mine (settle_quarantine_result rows key operation_id o)
            ≡ lookup mine rows =
          lookup-result mine key operation_id o rows ∙ rw differs refl in
        ap view_row there
        ∙ sym (row_step-other-answered key operation_id o (view_row (lookup mine rows)) differs)
  ]
  row_event-step (refreshed key operation_id o) rows = elim (Bool-cases (key == mine)) [
    | inl same ↦
        let is_mine : key ≡ mine = (string_eq.beq_iff key mine).0 same in
        let here : lookup mine (settle_quarantine_refresh rows key operation_id o)
            ≡ refresh_of operation_id o (lookup key rows) =
          lookup-refresh mine key operation_id o rows ∙ rw same refl in
        ap view_row here ∙ rw is_mine (view-refresh-row operation_id o (lookup mine rows))
    | inr differs ↦
        let there : lookup mine (settle_quarantine_refresh rows key operation_id o)
            ≡ lookup mine rows =
          lookup-refresh mine key operation_id o rows ∙ rw differs refl in
        ap view_row there
        ∙ sym (row_step-other-refreshed key operation_id o (view_row (lookup mine rows)) differs)
  ]

  -- After any events on any rows, each row is what its own machine makes of them from what it was.
  pub row_history-steps :
      (es : List RowEvent) (rows : RowOutcomes)
      → view_row (lookup mine (row_history es rows))
        ≡ row_steps mine es (view_row (lookup mine rows))
  unfolding row_history row_steps
  row_history-steps [] rows = refl
  row_history-steps (e ∷ es) rows =
      row_history-steps es (row_event e rows) ∙ ap (row_steps mine es) (row_event-step e rows)
