-- ===== src/Tests/Stores.antt =====
-- The theorems on entities and plugin logs at concrete inputs.
use botster_web.Common.{
  ℕ, ◌≡◌, ◌≢◌, ◌⊎◌, refl, String, true, false, some, none, [], ◌∷◌, arith, string_eq,
}
use botster_web.Entities.Store.{
  EntityRecord, EntityFrame, entity_snapshot, entity_patch, EntityStore, apply, get, apply_all,
  empty_store,
}
use botster_web.Entities.View.{seen_after, get-apply}
use botster_web.Entities.Ordering.{late_delta_ignored}
use botster_web.Entities.Keys.{HoldsOwnIds, history-HoldsOwnIds}
use botster_web.PluginLogs.View.{
  PluginLogs, PluginLogView, PluginLogRead, empty_plugin_log_view, extend_view, view_from_page,
  apply_plugin_log_page,
}
use botster_web.PluginLogs.Invariant.{IsConsistent, view_after, history-IsConsistent}
use botster_web.PluginLogs.Delivery.{extend_view-again, apply_plugin_log_page-delivery}

abbrev session : EntityRecord ℕ
session = record { id = "s1"; props = ("title", 1) ∷ [] }

abbrev renamed : EntityFrame ℕ
renamed =
    entity_patch (record { family = "session"; id = "s1" })
      (some (record { id = "s1"; props = ("title", 2) ∷ [] })) (some 4)

abbrev snapshot : EntityFrame ℕ
snapshot = entity_snapshot "session" (session ∷ []) (some 9)

abbrev seeded : EntityStore ℕ
seeded = apply empty_store snapshot

get-apply_example :
    get (apply seeded renamed) "session" "s1" ≡ seen_after seeded renamed "session" "s1"
get-apply_example = get-apply seeded renamed "session" "s1"

late_delta_ignored_example : apply (apply empty_store snapshot) renamed ≡ apply empty_store snapshot
late_delta_ignored_example =
    late_delta_ignored empty_store snapshot renamed "session" 9 4 (refl, refl) (refl, refl)
      (omega arith)

history-HoldsOwnIds_example : HoldsOwnIds (apply_all empty_store (snapshot ∷ renamed ∷ []))
history-HoldsOwnIds_example = history-HoldsOwnIds (snapshot ∷ renamed ∷ [])

abbrev page : PluginLogs String
page = record {
  package_name = "notes";
  log_id = some "log-1";
  records =
      record { seq = 7; dropped_before = 0; content = "later" }
      ∷ record { seq = 5; dropped_before = 2; content = "sooner" }
      ∷ [];
  next_seq = 8;
  first_available_seq = 5;
}

abbrev foreign : PluginLogs String
foreign = record page { log_id = some "log-2" }

abbrev first_read : PluginLogRead
first_read = record { after_seq = 0; reset = false }

abbrev loaded_view : PluginLogView String
loaded_view = record {
  loaded = true;
  log_id = some "log-1";
  cursor = 3;
  records = [];
  evicted = [];
  restarted = false;
}

history-IsConsistent_example :
    IsConsistent
      (view_after empty_plugin_log_view ((page, first_read) ∷ (foreign, first_read) ∷ []))
history-IsConsistent_example =
    history-IsConsistent ((page, first_read) ∷ (foreign, first_read) ∷ [])

extend_view-again_example :
    extend_view (extend_view loaded_view page) page ≡ extend_view loaded_view page
extend_view-again_example = extend_view-again loaded_view page

apply_plugin_log_page-delivery_example :
    ((foreign.log_id ≡ loaded_view.log_id)
      × (apply_plugin_log_page
            (apply_plugin_log_page loaded_view foreign first_read).0
            foreign
            first_read
          ≡ ((apply_plugin_log_page loaded_view foreign first_read).0, none)))
    ⊎ ((foreign.log_id ≢ loaded_view.log_id)
        × (apply_plugin_log_page loaded_view foreign first_read
            ≡ (loaded_view, some (record { after_seq = 0; reset = true })))
        × (apply_plugin_log_page loaded_view page (record { after_seq = 0; reset = true })
            ≡ (view_from_page page true, none)))
apply_plugin_log_page-delivery_example =
    apply_plugin_log_page-delivery loaded_view foreign page first_read refl refl
