-- ===== src/PluginLogs/Invariant.antt =====
-- What holds of a plugin log view after any page (src/botster/pluginLogs.ts).
use botster_web.Common.{
  ℕ, ◌+◌, ◌-◌, ◌≤◌, Bool, false, List, [], ◌∷◌, ltb, filter, All, arith, max, Bool-cases, inl, inr,
  All-append, All-imp, filter_sound, string_eq,
}
use botster_web.PluginLogs.View.{
  PluginLogRecord, PluginLogs, SeqRange, PluginLogView, PluginLogRead, empty_plugin_log_view,
  sort_by_seq, last_seq, view_from_page, fresh_records, extend_view, apply_plugin_log_page,
}
use botster_web.PluginLogs.Sorting.{
  IsAscending, AllBelow, AllAbove, AllBelow-trans, All-sort_by_seq, sort_by_seq-IsAscending,
  last_seq-bound, IsAscending-append,
}

-- A range that is not empty and lies at or below `cursor`.
abbrev pub IsPast : ℕ → SeqRange → Type 0
IsPast cursor g = (g.from_seq ≤ g.to_seq) × (g.to_seq ≤ cursor)

module _ {C : Type 0} where
  -- Records ascend and lie at or below the cursor, and so do the ranges reported as evicted, none
  -- of which is empty.
  pub record IsConsistent (view : PluginLogView C) : Type 0 where
    pub ascending : IsAscending view.records
    pub read : AllBelow view.cursor view.records
    pub gaps : All (IsPast view.cursor) view.evicted

  AllAbove-zero : (rs : List (PluginLogRecord C)) → AllAbove 0 rs
  AllAbove-zero [] = tt
  AllAbove-zero (r ∷ rs) = (omega arith, AllAbove-zero rs)

  view_from_page-IsConsistent :
      (logs : PluginLogs C) (restarted : Bool) → IsConsistent (view_from_page logs restarted)
  unfolding view_from_page
  view_from_page-IsConsistent logs restarted =
      let rs = sort_by_seq logs.records in
      let sorted = sort_by_seq-IsAscending logs.records in
      let (below, grows) = last_seq-bound rs 0 sorted (AllAbove-zero rs) in
      record {
        ascending = sorted;
        read = AllBelow-trans (last_seq rs 0) _ rs (omega arith) below;
        gaps = elim (Bool-cases (ltb 1 logs.first_available_seq)) [
          | inl e ↦ rw e ((ground (arith, e), omega arith), tt)
          | inr e ↦ rw e tt
        ];
      }

  -- The records that a page adds ascend and lie above the cursor and up to their last.
  pub fresh_records-facts :
      (view : PluginLogView C) (logs : PluginLogs C)
      → let fresh = fresh_records view logs in
        IsAscending fresh
        × AllAbove (view.cursor + 1) fresh
        × AllBelow (last_seq fresh view.cursor) fresh
        × (view.cursor ≤ last_seq fresh view.cursor)
  unfolding fresh_records
  fresh_records-facts view logs =
      let unread = λ (r : PluginLogRecord C). ltb view.cursor r.seq in
      let kept = filter unread logs.records in
      let ascending = sort_by_seq-IsAscending kept in
      let above =
        All-sort_by_seq (λ r. view.cursor + 1 ≤ r.seq) kept
          (All-imp (λ r e. ground (arith, e)) kept (filter_sound unread logs.records)) in
      let (below, grows) =
        last_seq-bound (sort_by_seq kept) view.cursor ascending
          (All-imp (λ r k. omega arith) (sort_by_seq kept) above) in
      (ascending, above, below, grows)

  extend_view-IsConsistent :
      (view : PluginLogView C) (logs : PluginLogs C)
      → IsConsistent view
      → IsConsistent (extend_view view logs)
  unfolding extend_view
  extend_view-IsConsistent view logs h =
      let fresh = fresh_records view logs in
      let (ascending, above, below, grows) = fresh_records-facts view logs in
      let cursor' =
        max (max (last_seq fresh view.cursor) (logs.first_available_seq - 1)) view.cursor in
      let older : All (IsPast cursor') view.evicted =
        All-imp (λ g k. (k.0, omega arith)) view.evicted h.gaps in
      record {
        ascending =
            IsAscending-append view.cursor view.records fresh h.ascending ascending h.read
              (All-imp (λ r k. omega arith) fresh above);
        read =
            All-append (λ r. r.seq ≤ cursor') view.records fresh
              (AllBelow-trans view.cursor _ view.records (omega arith) h.read)
              (AllBelow-trans (last_seq fresh view.cursor) _ fresh (omega arith) below);
        gaps = elim (Bool-cases (ltb (view.cursor + 1) logs.first_available_seq)) [
          | inl e ↦ rw e (
              All-append (IsPast cursor') view.evicted _ older
                ((ground (arith, e), omega arith), tt))
          | inr e ↦ rw e older
        ];
      }

  -- One page, whatever its log and whatever was asked for.
  pub apply-IsConsistent :
      (view : PluginLogView C) (logs : PluginLogs C) (read : PluginLogRead)
      → IsConsistent view
      → IsConsistent (apply_plugin_log_page view logs read).0
  unfolding apply_plugin_log_page
  apply-IsConsistent view logs read h = ground (
    arith,
    h,
    view_from_page-IsConsistent logs view.loaded,
    view_from_page-IsConsistent logs false,
    extend_view-IsConsistent view logs h,
  )

  -- The view after a history of pages, each with the read that it answers.
  abbrev pub view_after : PluginLogView C → List (PluginLogs C × PluginLogRead) → PluginLogView C
  view_after view [] = view
  view_after view ((logs, read) ∷ pages) = view_after (apply_plugin_log_page view logs read).0 pages

  view_after-IsConsistent :
      (view : PluginLogView C) (pages : List (PluginLogs C × PluginLogRead))
      → IsConsistent view
      → IsConsistent (view_after view pages)
  view_after-IsConsistent view [] h = h
  view_after-IsConsistent view ((logs, read) ∷ pages) h =
      view_after-IsConsistent (apply_plugin_log_page view logs read).0 pages
        (apply-IsConsistent view logs read h)

  -- Whatever pages the Hub answers, in any order, of any log and in any record order: the records
  -- that the view shows ascend by seq and lie at or below its cursor, and so do the ranges it shows
  -- as evicted, none of which is empty.
  pub history-IsConsistent :
      (pages : List (PluginLogs C × PluginLogRead))
      → IsConsistent (view_after empty_plugin_log_view pages)
  unfolding empty_plugin_log_view
  history-IsConsistent pages =
      view_after-IsConsistent empty_plugin_log_view pages
        (record { ascending = tt; read = tt; gaps = tt })
