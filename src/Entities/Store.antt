-- ===== src/Entities/Store.antt =====
-- `InMemoryEntityFrameStore` of src/botster/entities.ts: records by family and id, and the sequence
-- of each family. Pulls are not modelled.
use botster_web.Common.{
  ℕ, String, Bool, false, Option, none, some, List, [], ◌∷◌, ltb, string_eq, if◌then◌else◌, get_or,
}
use botster_web.Common.Maps.{lookup, insert, delete, merge}

pub record EntityRecord (V : Type 0) : Type 0 where
  pub id : String
  pub props : List (String × V)

pub record FrameKey : Type 0 where
  pub family : String
  pub id : String

-- A delta's record may be missing, and so may any sequence.
pub data EntityFrame (V : Type 0) : Type 0 where
  entity_snapshot : String → List (EntityRecord V) → Option ℕ → EntityFrame V
  entity_upsert entity_patch entity_remove :
      FrameKey → Option (EntityRecord V) → Option ℕ → EntityFrame V

abbrev pub Family : Type 0 → Type 0
Family V = List (String × EntityRecord V)

pub record EntityStore (V : Type 0) : Type 0 where
  pub records : List (String × Family V)
  pub family_sequences : List (String × ℕ)

module _ {V : Type 0} where
  unfoldable pub empty_store : EntityStore V
  empty_store = record { records = []; family_sequences = [] }

  -- The loop of a snapshot: a later record replaces an earlier one of the same id.
  unfoldable pub index_records : Family V → List (EntityRecord V) → Family V
  index_records held [] = held
  index_records held (r ∷ rs) = index_records (insert r.id r held) rs

  -- `isStaleDelta`
  unfoldable pub is_stale_delta : EntityStore V → String → Option ℕ → Bool
  is_stale_delta store family none = false
  is_stale_delta store family (some sequence) = elim (lookup family store.family_sequences) [
    | none ↦ false
    | some current ↦ ltb sequence current
  ]

  -- `recordSequence`: the sequence of a family only grows.
  unfoldable pub record_sequence : EntityStore V → String → Option ℕ → EntityStore V
  record_sequence store family none = store
  record_sequence store family (some sequence) =
      let advanced : EntityStore V = record store {
        family_sequences = insert family sequence store.family_sequences;
      } in
      elim (lookup family store.family_sequences) [
        | none ↦ advanced
        | some current ↦ if ltb current sequence then advanced else store
      ]

  -- `family(name)`: the family, made empty where it is missing.
  unfoldable pub family_of : EntityStore V → String → Family V
  family_of store name = get_or (lookup name store.records) []

  abbrev pub with_family : EntityStore V → String → Family V → EntityStore V
  with_family store name held = record store { records = insert name held store.records }

  -- `mergeEntityRecord`: a patch of a missing record is the record itself.
  unfoldable pub merge_entity_record : Option (EntityRecord V) → EntityRecord V → EntityRecord V
  merge_entity_record none patch = patch
  merge_entity_record (some existing) patch = record {
    id = patch.id;
    props = merge existing.props patch.props;
  }

  unfoldable pub apply_remove : EntityStore V → FrameKey → Option ℕ → EntityStore V
  apply_remove store key sequence =
      if is_stale_delta store key.family sequence
      then store
      else record_sequence
          (with_family store key.family (delete key.id (family_of store key.family))) key.family
          sequence

  -- An upsert or a patch; `combine` makes the new record from the held one.
  unfoldable pub apply_write :
      (Option (EntityRecord V) → EntityRecord V → EntityRecord V)
      → EntityStore V
      → FrameKey
      → Option (EntityRecord V)
      → Option ℕ
      → EntityStore V
  apply_write combine store key given sequence =
      let held = family_of store key.family in
      let missing = with_family store key.family held in
      if is_stale_delta store key.family sequence then store else elim given [
        | none ↦ missing
        | some r ↦
            record_sequence
              (with_family store key.family
                (insert key.id (combine (lookup key.id held) (record r { id = key.id })) held))
              key.family sequence
      ]

  abbrev pub replace_record : Option (EntityRecord V) → EntityRecord V → EntityRecord V
  replace_record held r = r

  unfoldable pub apply : EntityStore V → EntityFrame V → EntityStore V
  apply store (entity_snapshot family records none) =
      with_family store family (index_records [] records)
  apply store (entity_snapshot family records (some sequence)) =
      record (with_family store family (index_records [] records)) {
        family_sequences = insert family sequence store.family_sequences;
      }
  apply store (entity_remove key given sequence) = apply_remove store key sequence
  apply store (entity_upsert key given sequence) =
      apply_write replace_record store key given sequence
  apply store (entity_patch key given sequence) =
      apply_write merge_entity_record store key given sequence

  -- `get(family, id)`
  unfoldable pub get : EntityStore V → String → String → Option (EntityRecord V)
  get store family id = lookup id (family_of store family)

  abbrev record_values : Family V → List (EntityRecord V)
  record_values [] = []
  record_values ((id, r) ∷ held) = r ∷ record_values held

  -- `list(family)`, in the order of the map
  unfoldable pub list : EntityStore V → String → List (EntityRecord V)
  list store family = record_values (family_of store family)

  -- `createInMemoryEntityFrameStore(frames)`
  unfoldable pub apply_all : EntityStore V → List (EntityFrame V) → EntityStore V
  apply_all store [] = store
  apply_all store (frame ∷ frames) = apply_all (apply store frame) frames
