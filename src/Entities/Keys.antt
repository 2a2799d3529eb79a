-- ===== src/Entities/Keys.antt =====
-- Every record of the store of src/botster/entities.ts is held under its own id.
use botster_web.Common.{◌≡◌, String, Option, none, some, List, [], ◌∷◌, string_eq, arith}
use text.Mathlib.TextEquality.{eq_iff}
use botster_web.Entities.Store.{
  EntityRecord, EntityFrame, entity_snapshot, entity_upsert, entity_patch, entity_remove,
  EntityStore, merge_entity_record, apply, get, apply_all, empty_store, family_of,
}
use botster_web.Common.Maps.{lookup}
use botster_web.Entities.View.{last_with, seen_after, get-apply}

module _ {V : Type 0} where
  abbrev pub HoldsOwnIds : EntityStore V → Type 0
  HoldsOwnIds store =
      (family id : String) (r : EntityRecord V) → get store family id ≡ some r → r.id ≡ id

  last_with-id :
      (id : String) (rs : List (EntityRecord V)) (r : EntityRecord V)
      → last_with id rs ≡ some r
      → r.id ≡ id
  last_with-id id [] r h = ground arith
  last_with-id id (q ∷ rs) r h = ground (arith, last_with-id id rs r, eq_iff q.id id)

  merge_entity_record-id :
      (held : Option (EntityRecord V)) (patch : EntityRecord V)
      → (merge_entity_record held patch).id ≡ patch.id
  unfolding merge_entity_record
  merge_entity_record-id held patch = ground arith

  seen_after-id :
      (store : EntityStore V) (frame : EntityFrame V) (family id : String) (r : EntityRecord V)
      → HoldsOwnIds store
      → seen_after store frame family id ≡ some r
      → r.id ≡ id
  seen_after-id store (entity_snapshot name rs sequence) family id r held h =
      ground (arith, last_with-id id rs r, held family id r)
  seen_after-id store (entity_remove key given sequence) family id r held h =
      ground (arith, held family id r)
  seen_after-id store (entity_upsert key none sequence) family id r held h = held family id r h
  seen_after-id store (entity_upsert key (some q) sequence) family id r held h =
      ground (arith, held family id r, eq_iff key.id id)
  seen_after-id store (entity_patch key none sequence) family id r held h = held family id r h
  seen_after-id store (entity_patch key (some q) sequence) family id r held h = ground (
    arith,
    held family id r,
    eq_iff key.id id,
    merge_entity_record-id (get store family id) (record q { id = key.id }),
  )

  pub apply-HoldsOwnIds :
      (store : EntityStore V) (frame : EntityFrame V)
      → HoldsOwnIds store
      → HoldsOwnIds (apply store frame)
  apply-HoldsOwnIds store frame held family id r h =
      seen_after-id store frame family id r held (rw (get-apply store frame family id) at h)

  apply_all-HoldsOwnIds :
      (store : EntityStore V) (frames : List (EntityFrame V))
      → HoldsOwnIds store
      → HoldsOwnIds (apply_all store frames)
  unfolding apply_all
  apply_all-HoldsOwnIds store [] held = held
  apply_all-HoldsOwnIds store (frame ∷ frames) held =
      apply_all-HoldsOwnIds (apply store frame) frames (apply-HoldsOwnIds store frame held)

  -- Whatever frames a new store is given, every record found at `family` and `id` has that id.
  pub history-HoldsOwnIds :
      (frames : List (EntityFrame V)) → HoldsOwnIds (apply_all empty_store frames)
  unfolding empty_store get family_of lookup
  history-HoldsOwnIds frames =
      apply_all-HoldsOwnIds empty_store frames (λ family id r h. ground arith)
