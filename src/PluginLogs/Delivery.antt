-- ===== src/PluginLogs/Delivery.antt =====
-- A page delivered twice, and a page of another log (src/botster/pluginLogs.ts).
use botster_web.Common.{
  ◌≢◌, ◌⊎◌, ◌+◌, ◌≤◌, ◌≡◌, refl, true, false, none, some, [], ltb, arith, All-imp, filter-none,
  All-filter, opt_beq, opt_beq_iff, string_eq, Bool-cases, inl, inr, ap, ◌∙◌,
}
use mathlib.Core.List.{append-nil}
use botster_web.PluginLogs.View.{
  PluginLogs, PluginLogView, PluginLogRead, sort_by_seq, last_seq, view_from_page, fresh_records,
  extend_view, apply_plugin_log_page,
}
use botster_web.PluginLogs.Sorting.{AllBelow, AllBelow-trans, All-sort_by_seq_back}
use botster_web.PluginLogs.Invariant.{fresh_records-facts}

module _ {C : Type 0} where
  -- After a page every record of it lies at or below the cursor.
  extend_view-read_all :
      (view : PluginLogView C) (logs : PluginLogs C)
      → AllBelow (extend_view view logs).cursor logs.records
  unfolding extend_view fresh_records
  extend_view-read_all view logs =
      let below = (fresh_records-facts view logs).2 in
      let cursor' = (extend_view view logs).cursor in
      All-filter (λ r. r.seq ≤ cursor') (λ r. ltb view.cursor r.seq) logs.records
        (λ r old. ground arith)
        (All-sort_by_seq_back (λ r. r.seq ≤ cursor') _
          (AllBelow-trans (last_seq (fresh_records view logs) view.cursor) cursor' _ (omega arith)
            below))

  fresh_records-again :
      (view : PluginLogView C) (logs : PluginLogs C)
      → fresh_records (extend_view view logs) logs ≡ []
  unfolding fresh_records sort_by_seq
  fresh_records-again view logs = rw (
      filter-none (λ r. ltb (extend_view view logs).cursor r.seq) logs.records
        (All-imp (λ r h. ground arith) logs.records (extend_view-read_all view logs)))

  extend_view-nothing :
      (view : PluginLogView C) (logs : PluginLogs C)
      → fresh_records view logs ≡ []
      → logs.first_available_seq ≤ view.cursor + 1
      → view.restarted ≡ false
      → extend_view view logs ≡ view
  unfolding extend_view last_seq
  extend_view-nothing view logs none_fresh seen settled = ground (arith, append-nil view.records)

  -- A page that extends the view, delivered a second time, changes nothing more: no record is shown
  -- twice, no gap is reported twice, and the cursor stays.
  pub extend_view-again :
      (view : PluginLogView C) (logs : PluginLogs C)
      → extend_view (extend_view view logs) logs ≡ extend_view view logs
  extend_view-again view logs =
      extend_view-nothing (extend_view view logs) logs (fresh_records-again view logs)
        (unfold extend_view in omega arith) (unfold extend_view in refl)

  apply_plugin_log_page-extends :
      (view : PluginLogView C) (logs : PluginLogs C) (read : PluginLogRead)
      → read.reset ≡ false
      → view.loaded ≡ true
      → opt_beq logs.log_id view.log_id ≡ true
      → apply_plugin_log_page view logs read ≡ (extend_view view logs, none)
  unfolding apply_plugin_log_page
  apply_plugin_log_page-extends view logs read plain loaded same = ground arith

  -- For every answer to a read that is no reset read: if the view is loaded and holds the page's log
  -- id, applying the page twice is applying it once, and no read follows. If it is loaded and holds
  -- another, the view is kept whole and the one read that follows is a reset read from 0; the answer
  -- to that read replaces the view and asks for nothing more, whatever log it is of.
  pub apply_plugin_log_page-delivery :
      (view : PluginLogView C) (logs answer : PluginLogs C) (read : PluginLogRead)
      → read.reset ≡ false
      → view.loaded ≡ true
      → ((logs.log_id ≡ view.log_id)
          × (apply_plugin_log_page (apply_plugin_log_page view logs read).0 logs read
              ≡ ((apply_plugin_log_page view logs read).0, none)))
        ⊎ ((logs.log_id ≢ view.log_id)
            × (apply_plugin_log_page view logs read
                ≡ (view, some (record { after_seq = 0; reset = true })))
            × (apply_plugin_log_page view answer (record { after_seq = 0; reset = true })
                ≡ (view_from_page answer true, none)))
  unfolding apply_plugin_log_page
  apply_plugin_log_page-delivery view logs answer read plain loaded =
      elim (Bool-cases (opt_beq logs.log_id view.log_id)) [
        | inl same ↦ inl (
          (opt_beq_iff _ _).0 same,
          applied_twice (apply_plugin_log_page-extends view logs read plain loaded same) same,
        )
        | inr differs ↦ inr ((λ e. cc ((opt_beq_iff _ _).1 e)), ground arith, ground arith)
      ]
    where
      applied_twice :
          apply_plugin_log_page view logs read ≡ (extend_view view logs, none)
          → opt_beq logs.log_id view.log_id ≡ true
          → apply_plugin_log_page (apply_plugin_log_page view logs read).0 logs read
            ≡ ((apply_plugin_log_page view logs read).0, none)
      applied_twice once same = rw once (
          apply_plugin_log_page-extends (extend_view view logs) logs read plain
            (unfold extend_view in loaded) (unfold extend_view in same)
          ∙ ap (λ v. (v, none)) (extend_view-again view logs))
