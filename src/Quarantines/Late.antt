-- ===== src/Quarantines/Late.antt =====
-- Answers of other operations to a row of src/botster/hubQuarantines.ts.
use botster_web.Common.{
  ℕ, ◌≡◌, refl, sym, ap, ◌∙◌, Bool, true, false, not, ◌&&◌, Option, none, some, List, [], ◌∷◌, ◌==◌,
  nat_eq, string_eq, String, filter, All, arith, Bool-cases, inl, inr, eq_self, if_split,
}
use botster_web.Common.Maps.{lookup, insert, lookup-insert}
use botster_web.Quarantines.{
  ResolveOutcome, pending, refreshing, refused, resolved_stale, failed, RowOutcome, RowOutcomes,
  start_quarantine_resolve,
}
use botster_web.Quarantines.Rows.{
  RowEvent, started, answered, refreshed, row_history, Row, clear, awaiting, settled, row_with,
  view_row, row_step, row_steps,
}
use botster_web.Quarantines.Machine.{row_history-steps}

module _ (mine : String) where
  -- The rows that a Resolve of an operation leaves: its own, or none.
  unfoldable pub is_owned : String → Row → Bool
  is_owned operation_id clear = true
  is_owned operation_id (awaiting owner at_ms confirmed) = owner == operation_id
  is_owned operation_id (settled owner at_ms last) = owner == operation_id

  -- The event starts no Resolve of this row.
  unfoldable pub starts_nothing : RowEvent → Bool
  starts_nothing (started key operation_id at_ms) = not (key == mine)
  starts_nothing (answered key operation_id o) = true
  starts_nothing (refreshed key operation_id o) = true

  -- The event is of this operation.
  unfoldable pub is_of : String → RowEvent → Bool
  is_of operation_id (started key other at_ms) = other == operation_id
  is_of operation_id (answered key other o) = other == operation_id
  is_of operation_id (refreshed key other o) = other == operation_id

  row_with-IsOwned :
      (operation_id owner : String) (at_ms : Option ℕ) (o : Option ResolveOutcome)
      → (owner == operation_id) ≡ true
      → is_owned operation_id (row_with owner at_ms o) ≡ true
  unfolding row_with is_owned
  row_with-IsOwned operation_id owner at_ms none owned = refl
  row_with-IsOwned operation_id owner at_ms (some pending) owned = owned
  row_with-IsOwned operation_id owner at_ms (some refreshing) owned = owned
  row_with-IsOwned operation_id owner at_ms (some (refused message)) owned = owned
  row_with-IsOwned operation_id owner at_ms (some (resolved_stale message)) owned = owned
  row_with-IsOwned operation_id owner at_ms (some (failed message)) owned = owned

  row_step-IsOwned :
      (operation_id : String) (e : RowEvent) (row : Row)
      → starts_nothing e ≡ true
      → is_owned operation_id row ≡ true
      → is_owned operation_id (row_step mine e row) ≡ true
  unfolding row_step starts_nothing is_owned
  row_step-IsOwned operation_id (started key other at_ms) row quiet owned =
      let elsewhere : (key == mine) ≡ false = ground (arith, quiet) in rw elsewhere owned
  row_step-IsOwned operation_id (answered key other o) clear quiet owned = owned
  row_step-IsOwned operation_id (answered key other o) (settled owner at_ms last) quiet owned =
      owned
  row_step-IsOwned operation_id (answered key other o) (awaiting owner at_ms confirmed) quiet
        owned =
      if_split (λ row. is_owned operation_id row ≡ true)
        ((key == mine) && (owner == other) && not confirmed)
        (λ takes. row_with-IsOwned operation_id owner at_ms (some o) owned) (λ late. owned)
  row_step-IsOwned operation_id (refreshed key other o) clear quiet owned = owned
  row_step-IsOwned operation_id (refreshed key other o) (settled owner at_ms last) quiet owned =
      owned
  row_step-IsOwned operation_id (refreshed key other o) (awaiting owner at_ms confirmed) quiet
        owned =
      if_split (λ row. is_owned operation_id row ≡ true) ((key == mine) && (owner == other))
        (λ takes. row_with-IsOwned operation_id owner at_ms o owned) (λ late. owned)

  row_step-late :
      (operation_id : String) (e : RowEvent) (row : Row)
      → starts_nothing e ≡ true
      → is_owned operation_id row ≡ true
      → is_of operation_id e ≡ false
      → row_step mine e row ≡ row
  unfolding row_step starts_nothing is_owned is_of
  row_step-late operation_id (started key other at_ms) row quiet owned late =
      let elsewhere : (key == mine) ≡ false = ground (arith, quiet) in rw elsewhere refl
  row_step-late operation_id (answered key other o) clear quiet owned late = refl
  row_step-late operation_id (answered key other o) (settled owner at_ms last) quiet owned late =
      refl
  row_step-late operation_id (answered key other o) (awaiting owner at_ms confirmed) quiet owned
        late =
      let differs : (owner == other) ≡ false = ground (
        arith,
        owned,
        late,
        string_eq.beq_iff owner operation_id,
        string_eq.beq_iff owner other,
        string_eq.beq_iff other operation_id,
      ) in
      rw differs (ground arith)
  row_step-late operation_id (refreshed key other o) clear quiet owned late = refl
  row_step-late operation_id (refreshed key other o) (settled owner at_ms last) quiet owned late =
      refl
  row_step-late operation_id (refreshed key other o) (awaiting owner at_ms confirmed) quiet owned
        late =
      let differs : (owner == other) ≡ false = ground (
        arith,
        owned,
        late,
        string_eq.beq_iff owner operation_id,
        string_eq.beq_iff owner other,
        string_eq.beq_iff other operation_id,
      ) in
      rw differs (ground arith)

  row_steps-late :
      (operation_id : String) (es : List RowEvent) (row : Row)
      → All (λ e. starts_nothing e ≡ true) es
      → is_owned operation_id row ≡ true
      → row_steps mine es row ≡ row_steps mine (filter (is_of operation_id) es) row
  unfolding row_steps filter
  row_steps-late operation_id [] row quiet owned = refl
  row_steps-late operation_id (e ∷ es) row quiet owned =
      let next = row_step-IsOwned operation_id e row quiet.0 owned in
      let rest = row_steps-late operation_id es (row_step mine e row) quiet.1 next in
      elim (Bool-cases (is_of operation_id e)) [
        | inl ours ↦ rw ours rest
        | inr late ↦ rw late (
            rest
            ∙ ap (row_steps mine (filter (is_of operation_id) es))
                (row_step-late operation_id e row quiet.0 owned late))
      ]

  started-IsOwned :
      (operation_id : String) (at_ms : Option ℕ) (rows : RowOutcomes)
      → is_owned operation_id
          (view_row (lookup mine (start_quarantine_resolve rows mine operation_id at_ms)))
        ≡ true
  unfolding start_quarantine_resolve view_row row_with is_owned
  started-IsOwned operation_id at_ms rows =
      let begun : RowOutcome = record {
        outcome = pending;
        operation_id = operation_id;
        quarantined_at_ms = at_ms;
      } in
      let here : lookup mine (insert mine begun rows) ≡ some begun =
        lookup-insert mine mine begun rows ∙ rw (eq_self mine) refl in
      ap (λ r. is_owned operation_id (view_row r)) here ∙ eq_self operation_id

  -- Once a Resolve of an operation starts on a row, and until another starts there, answers and
  -- refreshes of other operations, and whatever happens on other rows, leave the row as it would be
  -- without them.
  pub start_quarantine_resolve-late :
      (operation_id : String) (at_ms : Option ℕ) (es : List RowEvent) (rows : RowOutcomes)
      → All (λ e. starts_nothing e ≡ true) es
      → view_row
          (lookup mine (row_history es (start_quarantine_resolve rows mine operation_id at_ms)))
        ≡ view_row (
            lookup mine (
              row_history
                (filter (is_of operation_id) es)
                (start_quarantine_resolve rows mine operation_id at_ms)))
  start_quarantine_resolve-late operation_id at_ms es rows quiet =
      let begun = start_quarantine_resolve rows mine operation_id at_ms in
      row_history-steps mine es begun
      ∙ row_steps-late operation_id es _ quiet (started-IsOwned operation_id at_ms rows)
      ∙ sym (row_history-steps mine (filter (is_of operation_id) es) begun)
