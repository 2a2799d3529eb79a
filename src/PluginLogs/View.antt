-- ===== src/PluginLogs/View.antt =====
-- `pluginLogPage`, `nextPluginLogRead` and `applyPluginLogPage` of src/botster/pluginLogs.ts.
use botster_web.Common.{
  ℕ, ◌+◌, ◌-◌, max, String, Bool, true, false, not, Option, none, some, List, [], ◌∷◌, ◌++◌, map,
  ltb, leb, if◌then◌else◌, get_or, opt_beq, string_eq, filter,
}

-- A record of the Hub's log book; `content` stands for its level, message and time.
pub record PluginLogRecord (C : Type 0) : Type 0 where
  pub seq : ℕ
  pub dropped_before : ℕ
  pub content : C

pub record PluginLogs (C : Type 0) : Type 0 where
  pub package_name : String
  pub log_id : Option String
  pub records : List (PluginLogRecord C)
  pub next_seq : ℕ
  pub first_available_seq : ℕ

pub record SeqRange : Type 0 where
  pub from_seq : ℕ
  pub to_seq : ℕ

pub record RateLimited : Type 0 where
  pub before_seq : ℕ
  pub count : ℕ

pub record PluginLogPage (C : Type 0) : Type 0 where
  pub package_name : String
  pub records : List (PluginLogRecord C)
  pub next_seq : ℕ
  pub evicted : Option SeqRange
  pub rate_limited : List RateLimited

pub record PluginLogView (C : Type 0) : Type 0 where
  pub loaded : Bool
  pub log_id : Option String
  pub cursor : ℕ
  pub records : List (PluginLogRecord C)
  pub evicted : List SeqRange
  pub restarted : Bool

pub record PluginLogRead : Type 0 where
  pub after_seq : ℕ
  pub reset : Bool

pub data ReadKind : Type 0 where
  open_all newer : ReadKind

module _ {C : Type 0} where
  unfoldable pub plugin_log_page : PluginLogs C → Option ℕ → PluginLogPage C
  plugin_log_page logs after_seq =
      let first_unread = get_or after_seq 0 + 1 in
      record {
        package_name = logs.package_name;
        records = logs.records;
        next_seq = logs.next_seq;
        evicted =
            if ltb first_unread logs.first_available_seq
            then some (record { from_seq = first_unread; to_seq = logs.first_available_seq - 1 })
            else none;
        rate_limited =
            map (λ r. record { before_seq = r.seq; count = r.dropped_before })
              (filter (λ r. ltb 0 r.dropped_before) logs.records);
      }

  unfoldable pub empty_plugin_log_view : PluginLogView C
  empty_plugin_log_view = record {
    loaded = false;
    log_id = none;
    cursor = 0;
    records = [];
    evicted = [];
    restarted = false;
  }

  unfoldable pub next_plugin_log_read : PluginLogView C → ReadKind → PluginLogRead
  next_plugin_log_read view open_all = record { after_seq = 0; reset = false }
  next_plugin_log_read view newer =
      if not view.loaded
      then record { after_seq = 0; reset = false }
      else record { after_seq = view.cursor; reset = false }

  -- The stable sort by `seq`: an earlier record goes before a later one of the same seq.
  unfoldable pub insert_by_seq :
      PluginLogRecord C → List (PluginLogRecord C) → List (PluginLogRecord C)
  insert_by_seq r [] = r ∷ []
  insert_by_seq r (q ∷ qs) = if leb r.seq q.seq then r ∷ q ∷ qs else q ∷ insert_by_seq r qs

  unfoldable pub sort_by_seq : List (PluginLogRecord C) → List (PluginLogRecord C)
  sort_by_seq [] = []
  sort_by_seq (r ∷ rs) = insert_by_seq r (sort_by_seq rs)

  -- `records.at(-1)?.seq ?? otherwise`
  unfoldable pub last_seq : List (PluginLogRecord C) → ℕ → ℕ
  last_seq [] otherwise = otherwise
  last_seq (r ∷ rs) otherwise = last_seq rs r.seq

  unfoldable pub view_from_page : PluginLogs C → Bool → PluginLogView C
  view_from_page logs restarted =
      let records = sort_by_seq logs.records in
      record {
        loaded = true;
        log_id = logs.log_id;
        cursor = max (last_seq records 0) (logs.first_available_seq - 1);
        records = records;
        evicted =
            if ltb 1 logs.first_available_seq
            then record { from_seq = 1; to_seq = logs.first_available_seq - 1 } ∷ []
            else [];
        restarted = restarted;
      }

  -- The records of a page that the view has not read, in order.
  unfoldable pub fresh_records : PluginLogView C → PluginLogs C → List (PluginLogRecord C)
  fresh_records view logs = sort_by_seq (filter (λ r. ltb view.cursor r.seq) logs.records)

  unfoldable pub extend_view : PluginLogView C → PluginLogs C → PluginLogView C
  extend_view view logs =
      let fresh = fresh_records view logs in
      record view {
        cursor = max (max (last_seq fresh view.cursor) (logs.first_available_seq - 1)) view.cursor;
        records = view.records ++ fresh;
        evicted =
            if ltb (view.cursor + 1) logs.first_available_seq
            then view.evicted
              ++ record { from_seq = view.cursor + 1; to_seq = logs.first_available_seq - 1 } ∷ []
            else view.evicted;
        restarted = false;
      }

  -- The new view, and the read to make next, if any.
  unfoldable pub apply_plugin_log_page :
      PluginLogView C → PluginLogs C → PluginLogRead → PluginLogView C × Option PluginLogRead
  apply_plugin_log_page view logs read =
      if read.reset
      then (view_from_page logs view.loaded, none)
      else if not view.loaded
      then (view_from_page logs false, none)
      else if not (opt_beq logs.log_id view.log_id)
      then (view, some (record { after_seq = 0; reset = true }))
      else (extend_view view logs, none)
