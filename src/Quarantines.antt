-- ===== src/Quarantines.antt =====
-- src/botster/hubQuarantines.ts: the quarantines that the Hub reports, and the feedback of each row's
-- Resolve.
pub mod Rows
pub mod Machine
pub mod Late
pub mod Actions
use botster_web.Common.{
  ℕ, ◌+◌, Bool, true, false, not, ◌&&◌, ◌||◌, Option, none, some, List, [], ◌∷◌, ◌==◌, nat_eq,
  string_eq, if◌then◌else◌, opt_beq, String,
}
use botster_web.Common.Maps.{lookup, insert, delete}
use Prim.Native.String.{◌++◌ as append}

-- An entry of the Hub's status: `none` where a field is missing or of another type. An entry that is no
-- object has no kind.
pub record StatusEntry : Type 0 where
  pub kind : Option String
  pub package_name : Option String
  pub root : Option String
  pub quarantined_at_ms : Option ℕ

pub data QuarantineTarget : Type 0 where
  package_target repository_target : String → QuarantineTarget

pub record Quarantine : Type 0 where
  pub target : QuarantineTarget
  pub quarantined_at_ms : Option ℕ

-- `typeof value === "string" && value.length > 0`
unfoldable pub named : Option String → Option String
named none = none
named (some text) = if text == "" then none else some text

-- The quarantine that an entry is, by the test of the filter.
unfoldable pub listed_target : StatusEntry → Option QuarantineTarget
listed_target entry =
    if opt_beq entry.kind (some "package")
    then elim (named entry.package_name) [ none ↦ none | some name ↦ some (package_target name) ]
    else if opt_beq entry.kind (some "repository_session_types")
    then elim (named entry.root) [ none ↦ none | some path ↦ some (repository_target path) ]
    else none

-- A status without a list of quarantines has none.
unfoldable pub hub_quarantines : Option (List StatusEntry) → List Quarantine
hub_quarantines none = []
hub_quarantines (some []) = []
hub_quarantines (some (entry ∷ entries)) =
    let rest = hub_quarantines (some entries) in
    elim (listed_target entry) [
      | none ↦ rest
      | some target ↦ record { target = target; quarantined_at_ms = entry.quarantined_at_ms } ∷ rest
    ]

unfoldable pub quarantine_target_key : QuarantineTarget → String
quarantine_target_key (package_target name) = append "package:" name
quarantine_target_key (repository_target root) = append "repository_session_types:" root

unfoldable pub quarantine_key : Quarantine → String
quarantine_key quarantine = quarantine_target_key quarantine.target

pub data ResolveOutcome : Type 0 where
  pending refreshing : ResolveOutcome
  refused resolved_stale failed : String → ResolveOutcome

pub record RowOutcome : Type 0 where
  pub outcome : ResolveOutcome
  pub operation_id : String
  pub quarantined_at_ms : Option ℕ

abbrev pub RowOutcomes : Type 0
RowOutcomes = List (String × RowOutcome)

unfoldable pub is_pending : ResolveOutcome → Bool
is_pending pending = true
is_pending refreshing = false
is_pending (refused message) = false
is_pending (resolved_stale message) = false
is_pending (failed message) = false

unfoldable pub is_refreshing : ResolveOutcome → Bool
is_refreshing pending = false
is_refreshing refreshing = true
is_refreshing (refused message) = false
is_refreshing (resolved_stale message) = false
is_refreshing (failed message) = false

unfoldable pub replace_outcome :
    RowOutcomes → String → RowOutcome → Option ResolveOutcome → RowOutcomes
replace_outcome current key entry none = delete key current
replace_outcome current key entry (some outcome) =
    insert key (record entry { outcome = outcome }) current

unfoldable pub start_quarantine_resolve : RowOutcomes → String → String → Option ℕ → RowOutcomes
start_quarantine_resolve current key operation_id quarantined_at_ms =
    insert key
      (record {
        outcome = pending;
        operation_id = operation_id;
        quarantined_at_ms = quarantined_at_ms;
      })
      current

unfoldable pub settle_quarantine_result :
    RowOutcomes → String → String → ResolveOutcome → RowOutcomes
settle_quarantine_result current key operation_id outcome = elim (lookup key current) [
  | none ↦ current
  | some entry ↦
      if not (entry.operation_id == operation_id) || not (is_pending entry.outcome)
      then current
      else replace_outcome current key entry (some outcome)
]

unfoldable pub settle_quarantine_refresh :
    RowOutcomes → String → String → Option ResolveOutcome → RowOutcomes
settle_quarantine_refresh current key operation_id outcome = elim (lookup key current) [
  | none ↦ current
  | some entry ↦
      if not (entry.operation_id == operation_id)
        || (not (is_pending entry.outcome) && not (is_refreshing entry.outcome))
      then current
      else replace_outcome current key entry outcome
]

-- An outcome of an earlier listing does not apply.
unfoldable pub quarantine_row_outcome : Quarantine → RowOutcomes → Option ResolveOutcome
quarantine_row_outcome quarantine outcomes = elim (lookup (quarantine_key quarantine) outcomes) [
  | none ↦ none
  | some row ↦
      if opt_beq row.quarantined_at_ms quarantine.quarantined_at_ms then some row.outcome else none
]
