-- ===== src/Quarantines/Actions.antt =====
-- The Resolve action of src/botster/hubQuarantines.ts and what is read back from it.
use botster_web.Common.{
  not, ◌&&◌, if◌then◌else◌, ℕ, ◌≡◌, Option, none, some, ◌==◌, string_eq, opt_beq, String,
}
use botster_web.Quarantines.{QuarantineTarget, package_target, repository_target, Quarantine, named}

abbrev pub resolve_quarantine_action_id : String
resolve_quarantine_action_id = "botster.hub.resolve_quarantine"

-- A value of a parameter: the JSON of an action may hold anything.
pub data ParamValue : Type 0 where
  number : ℕ → ParamValue
  no_number : ParamValue

abbrev pub param_of : Option ℕ → Option ParamValue
param_of none = none
param_of (some n) = some (number n)

-- An action's parameters, as far as they are read here: the fields of `target`, the listing's time and
-- the operation.
pub record ResolveAction : Type 0 where
  pub id : String
  pub label : String
  pub kind : Option String
  pub package_name : Option String
  pub root : Option String
  pub quarantined_at_ms : Option ParamValue
  pub operation_id : Option String

unfoldable pub resolve_quarantine_action : Quarantine → ResolveAction
resolve_quarantine_action quarantine = elim quarantine.target [
  | package_target name ↦ record {
    id = resolve_quarantine_action_id;
    label = "Resolve";
    kind = some "package";
    package_name = some name;
    root = none;
    quarantined_at_ms = param_of quarantine.quarantined_at_ms;
    operation_id = none;
  }
  | repository_target root ↦ record {
    id = resolve_quarantine_action_id;
    label = "Resolve";
    kind = some "repository_session_types";
    package_name = none;
    root = some root;
    quarantined_at_ms = param_of quarantine.quarantined_at_ms;
    operation_id = none;
  }
]

unfoldable pub quarantine_operation_id_from_action : ResolveAction → Option String
quarantine_operation_id_from_action action = named action.operation_id

unfoldable pub quarantined_at_ms_from_action : ResolveAction → Option ℕ
quarantined_at_ms_from_action action = elim action.quarantined_at_ms [
  | none ↦ none
  | some value ↦ elim value [ number n ↦ some n | no_number ↦ none ]
]

-- The second test of `quarantineTargetFromAction`.
unfoldable pub repository_target_from_action : ResolveAction → Option QuarantineTarget
repository_target_from_action action = elim action.root [
  | none ↦ none
  | some path ↦
      if opt_beq action.kind (some "repository_session_types") && not (path == "")
      then some (repository_target path)
      else none
]

unfoldable pub quarantine_target_from_action : ResolveAction → Option QuarantineTarget
quarantine_target_from_action action = elim action.package_name [
  | none ↦ repository_target_from_action action
  | some name ↦
      if opt_beq action.kind (some "package") && not (name == "")
      then some (package_target name)
      else repository_target_from_action action
]

abbrev pub IsReadBack : Quarantine → Type 0
IsReadBack q =
    (quarantine_target_from_action (resolve_quarantine_action q) ≡ some q.target)
    × (quarantined_at_ms_from_action (resolve_quarantine_action q) ≡ q.quarantined_at_ms)
