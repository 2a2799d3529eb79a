-- ===== src/Entities/View.antt =====
-- What a reader of the store of src/botster/entities.ts sees after a frame, whatever the maps hold.
use botster_web.Common.{
  ℕ, ◌≡◌, refl, String, Option, none, some, List, [], ◌∷◌, ◌==◌, string_eq, if◌then◌else◌, or_else,
  arith, not, ◌&&◌,
}
use text.Mathlib.TextEquality.{eq_iff}
use botster_web.Common.Maps.{lookup, insert, delete, lookup-insert, lookup-delete}
use botster_web.Entities.Store.{
  EntityRecord, FrameKey, EntityFrame, entity_snapshot, entity_upsert, entity_patch, entity_remove,
  Family, EntityStore, index_records, is_stale_delta, record_sequence, family_of, with_family,
  merge_entity_record, apply_remove, apply_write, replace_record, apply, get,
}

module _ {V : Type 0} where
  get_lem :
      (store : EntityStore V) (family id : String)
      → get store family id ≡ lookup id (family_of store family)
  unfolding get
  get_lem store family id = refl

  lookup-family :
      (store : EntityStore V) (name other : String) (held : Family V) (id : String)
      → get (with_family store name held) other id
        ≡ (if name == other then lookup id held else get store other id)
  unfolding get family_of
  lookup-family store name other held id =
      ground (arith, lookup-insert name other held store.records)

  get-record_sequence :
      (store : EntityStore V) (family : String) (sequence : Option ℕ) (other id : String)
      → get (record_sequence store family sequence) other id ≡ get store other id
  unfolding get family_of record_sequence
  get-record_sequence store family sequence other id = ground arith

  -- The last record of a list with the given id.
  abbrev pub last_with : String → List (EntityRecord V) → Option (EntityRecord V)
  last_with id [] = none
  last_with id (r ∷ rs) =
      let later = last_with id rs in or_else later (if r.id == id then some r else none)

  lookup-index_records :
      (id : String) (held : Family V) (rs : List (EntityRecord V))
      → lookup id (index_records held rs) ≡ or_else (last_with id rs) (lookup id held)
  unfolding index_records
  lookup-index_records id held [] = refl
  lookup-index_records id held (r ∷ rs) =
      ground (arith, lookup-index_records id (insert r.id r held) rs, lookup-insert r.id id r held)

  snapshot_value :
      (store : EntityStore V) (sequences : List (String × ℕ)) (name family id : String)
      (rs : List (EntityRecord V))
      → get
          (record (with_family store name (index_records [] rs)) { family_sequences = sequences })
          family
          id
        ≡ (if name == family then last_with id rs else get store family id)
  unfolding get family_of lookup
  snapshot_value store sequences name family id rs = ground (
    arith,
    lookup-insert name family (index_records [] rs) store.records,
    lookup-index_records id [] rs,
  )

  -- What a reader finds at `family` and `id` once a frame is applied.
  abbrev pub seen_after : EntityStore V → EntityFrame V → String → String → Option (EntityRecord V)
  seen_after store (entity_snapshot name records sequence) family id =
      if name == family then last_with id records else get store family id
  seen_after store (entity_remove key given sequence) family id =
      if not (is_stale_delta store key.family sequence) && (key.family == family) && (key.id == id)
      then none
      else get store family id
  seen_after store (entity_upsert key none sequence) family id = get store family id
  seen_after store (entity_upsert key (some r) sequence) family id =
      if not (is_stale_delta store key.family sequence) && (key.family == family) && (key.id == id)
      then some (record r { id = key.id })
      else get store family id
  seen_after store (entity_patch key none sequence) family id = get store family id
  seen_after store (entity_patch key (some r) sequence) family id =
      if not (is_stale_delta store key.family sequence) && (key.family == family) && (key.id == id)
      then some (merge_entity_record (get store family id) (record r { id = key.id }))
      else get store family id

  get-apply_write :
      (combine : Option (EntityRecord V) → EntityRecord V → EntityRecord V) (store : EntityStore V)
      (key : FrameKey) (r : EntityRecord V) (sequence : Option ℕ) (family id : String)
      → get (apply_write combine store key (some r) sequence) family id ≡ (
          if not (is_stale_delta store key.family sequence)
            && (key.family == family)
            && (key.id == id)
          then some (combine (get store family id) (record r { id = key.id }))
          else get store family id)
  unfolding apply_write
  get-apply_write combine store key r sequence family id =
      let held = family_of store key.family in
      let written = combine (lookup key.id held) (record r { id = key.id }) in
      let stored = with_family store key.family (insert key.id written held) in
      ground (
        arith,
        get-record_sequence stored key.family sequence family id,
        lookup-family store key.family family (insert key.id written held) id,
        lookup-insert key.id id written held,
        get_lem store key.family id,
        get_lem store family id,
        eq_iff key.family family,
        eq_iff key.id id,
      )

  get-apply_remove :
      (store : EntityStore V) (key : FrameKey) (sequence : Option ℕ) (family id : String)
      → get (apply_remove store key sequence) family id ≡ (
          if not (is_stale_delta store key.family sequence)
            && (key.family == family)
            && (key.id == id)
          then none
          else get store family id)
  unfolding apply_remove
  get-apply_remove store key sequence family id =
      let left = delete key.id (family_of store key.family) in
      ground (
        arith,
        get-record_sequence (with_family store key.family left) key.family sequence family id,
        lookup-family store key.family family left id,
        lookup-delete key.id id (family_of store key.family),
        get_lem store key.family id,
        get_lem store family id,
        eq_iff key.family family,
        eq_iff key.id id,
      )

  get-apply_write-none :
      (combine : Option (EntityRecord V) → EntityRecord V → EntityRecord V) (store : EntityStore V)
      (key : FrameKey) (sequence : Option ℕ) (family id : String)
      → get (apply_write combine store key none sequence) family id ≡ get store family id
  unfolding apply_write
  get-apply_write-none combine store key sequence family id = ground (
    arith,
    lookup-family store key.family family (family_of store key.family) id,
    get_lem store key.family id,
    get_lem store family id,
    eq_iff key.family family,
  )

  -- Whatever the frame, a reader finds afterwards what `seen_after` says: a snapshot replaces its
  -- family by its records, the last one of an id; a delta that is not stale changes the one record
  -- that it names; every other record of every family is as it was.
  pub get-apply :
      (store : EntityStore V) (frame : EntityFrame V) (family id : String)
      → get (apply store frame) family id ≡ seen_after store frame family id
  unfolding apply
  get-apply store (entity_snapshot name rs none) family id =
      snapshot_value store store.family_sequences name family id rs
  get-apply store (entity_snapshot name rs (some n)) family id =
      snapshot_value store (insert name n store.family_sequences) name family id rs
  get-apply store (entity_remove key given sequence) family id =
      get-apply_remove store key sequence family id
  get-apply store (entity_upsert key none sequence) family id =
      get-apply_write-none replace_record store key sequence family id
  get-apply store (entity_upsert key (some r) sequence) family id =
      get-apply_write replace_record store key r sequence family id
  get-apply store (entity_patch key none sequence) family id =
      get-apply_write-none merge_entity_record store key sequence family id
  get-apply store (entity_patch key (some r) sequence) family id =
      get-apply_write merge_entity_record store key r sequence family id
