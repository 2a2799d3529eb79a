-- ===== src/Entities/Ordering.antt =====
-- Frames out of order: the family sequences of the store of src/botster/entities.ts.
use botster_web.Common.{
  ℕ, ◌≤◌, ◌<◌, ◌≡◌, String, true, Option, none, some, List, [], ltb, string_eq, arith, Option-cases,
  inl, inr, Bool-cases,
}
use text.Mathlib.TextEquality.{eq_iff}
use botster_web.Common.Maps.{lookup, insert, lookup-insert}
use botster_web.Entities.Store.{
  EntityRecord, FrameKey, EntityFrame, entity_snapshot, entity_upsert, entity_patch, entity_remove,
  Family, EntityStore, index_records, is_stale_delta, record_sequence, merge_entity_record,
  apply_remove, apply_write, replace_record, apply,
}

module _ {V : Type 0} where
  -- The sequence that the store holds for a family.
  abbrev pub sequence_of : EntityStore V → String → Option ℕ
  sequence_of store family = lookup family store.family_sequences

  -- The frame carries the sequence `n` for `family` and is not dropped for a missing record.
  abbrev pub Carries : EntityFrame V → String → ℕ → Type 0
  Carries (entity_snapshot name rs sequence) family n = (name ≡ family) × (sequence ≡ some n)
  Carries (entity_remove key given sequence) family n = (key.family ≡ family) × (sequence ≡ some n)
  Carries (entity_upsert key none sequence) family n = ⊥
  Carries (entity_upsert key (some r) sequence) family n =
      (key.family ≡ family) × (sequence ≡ some n)
  Carries (entity_patch key none sequence) family n = ⊥
  Carries (entity_patch key (some r) sequence) family n =
      (key.family ≡ family) × (sequence ≡ some n)

  -- A delta of `family` with the sequence `n`.
  abbrev pub IsDelta : EntityFrame V → String → ℕ → Type 0
  IsDelta (entity_snapshot name rs sequence) family n = ⊥
  IsDelta (entity_remove key given sequence) family n = (key.family ≡ family) × (sequence ≡ some n)
  IsDelta (entity_upsert key given sequence) family n = (key.family ≡ family) × (sequence ≡ some n)
  IsDelta (entity_patch key given sequence) family n = (key.family ≡ family) × (sequence ≡ some n)

  -- The store has reached the sequence `n` of a family.
  abbrev pub HasReached : EntityStore V → String → ℕ → Type 0
  HasReached store family n = (c : ℕ) × (sequence_of store family ≡ some c) × (n ≤ c)

  HasReached-insert :
      (records : List (String × Family V)) (sequences : List (String × ℕ)) (family : String) (n : ℕ)
      → HasReached
          (record { records = records; family_sequences = insert family n sequences })
          family
          n
  HasReached-insert records sequences family n = (
    n,
    ground (arith, lookup-insert family family n sequences, eq_iff family family),
    omega arith,
  )

  HasReached-record_sequence :
      (store : EntityStore V) (family : String) (n : ℕ)
      → HasReached (record_sequence store family (some n)) family n
  unfolding record_sequence
  HasReached-record_sequence store family n =
      elim (Option-cases (lookup family store.family_sequences)) [
        | inl new ↦
            rw (new, record_sequence)
              (HasReached-insert store.records store.family_sequences family n)
        | inr (c, held) ↦ elim (Bool-cases (ltb c n)) [
          | inl older ↦
              rw (held, older, record_sequence)
                (HasReached-insert store.records store.family_sequences family n)
          | inr reached ↦ rw (held, reached, record_sequence) (c, held, ground arith)
        ]
      ]

  HasReached-stale :
      (store : EntityStore V) (family : String) (n : ℕ)
      → is_stale_delta store family (some n) ≡ true
      → HasReached store family n
  unfolding is_stale_delta
  HasReached-stale store family n stale =
      elim (Option-cases (lookup family store.family_sequences)) [
        | inl new ↦ absurd (ground (arith, new))
        | inr (c, held) ↦ (c, held, ground (arith, held))
      ]

  stale_of_HasReached :
      (store : EntityStore V) (family : String) (n m : ℕ)
      → HasReached store family n
      → m < n
      → is_stale_delta store family (some m) ≡ true
  unfolding is_stale_delta
  stale_of_HasReached store family n m (c, held, h) k = ground arith

  HasReached-write :
      (combine : Option (EntityRecord V) → EntityRecord V → EntityRecord V) (store : EntityStore V)
      (key : FrameKey) (r : EntityRecord V) (n : ℕ)
      → HasReached (apply_write combine store key (some r) (some n)) key.family n
  unfolding apply_write
  HasReached-write combine store key r n =
      elim (Bool-cases (is_stale_delta store key.family (some n))) [
        | inl s ↦ rw (s, apply_write) (HasReached-stale store key.family n s)
        | inr fresh ↦ rw (fresh, apply_write) (HasReached-record_sequence _ key.family n)
      ]

  HasReached-remove :
      (store : EntityStore V) (key : FrameKey) (n : ℕ)
      → HasReached (apply_remove store key (some n)) key.family n
  unfolding apply_remove
  HasReached-remove store key n = elim (Bool-cases (is_stale_delta store key.family (some n))) [
    | inl s ↦ rw (s, apply_remove) (HasReached-stale store key.family n s)
    | inr fresh ↦ rw (fresh, apply_remove) (HasReached-record_sequence _ key.family n)
  ]

  HasReached-apply :
      (store : EntityStore V) (frame : EntityFrame V) (family : String) (n : ℕ)
      → Carries frame family n
      → HasReached (apply store frame) family n
  unfolding apply
  HasReached-apply store (entity_snapshot name rs sequence) family n (same, e) =
      rw (e, ← same)
        (HasReached-insert (insert name (index_records [] rs) store.records) store.family_sequences
          name n)
  HasReached-apply store (entity_remove key given sequence) family n (same, e) =
      rw (e, ← same) (HasReached-remove store key n)
  HasReached-apply store (entity_upsert key none sequence) family n h = absurd h
  HasReached-apply store (entity_upsert key (some r) sequence) family n (same, e) =
      rw (e, ← same) (HasReached-write replace_record store key r n)
  HasReached-apply store (entity_patch key none sequence) family n h = absurd h
  HasReached-apply store (entity_patch key (some r) sequence) family n (same, e) =
      rw (e, ← same) (HasReached-write merge_entity_record store key r n)

  apply-stale :
      (store : EntityStore V) (frame : EntityFrame V) (family : String) (n : ℕ)
      → IsDelta frame family n
      → is_stale_delta store family (some n) ≡ true
      → apply store frame ≡ store
  unfolding apply apply_remove apply_write
  apply-stale store (entity_snapshot name rs sequence) family n h s = absurd h
  apply-stale store (entity_remove key given sequence) family n (same, e) s = rw (e, same, s)
  apply-stale store (entity_upsert key given sequence) family n (same, e) s = rw (e, same, s)
  apply-stale store (entity_patch key given sequence) family n (same, e) s = rw (e, same, s)

  -- Once a snapshot or an applied delta carried a sequence, a delta of the same family with a lower
  -- one changes nothing: a late frame cannot undo a newer one. This holds from every store.
  pub late_delta_ignored :
      (store : EntityStore V) (newer late : EntityFrame V) (family : String) (n m : ℕ)
      → Carries newer family n
      → IsDelta late family m
      → m < n
      → apply (apply store newer) late ≡ apply store newer
  late_delta_ignored store newer late family n m carried delta lower =
      apply-stale (apply store newer) late family m delta (
        stale_of_HasReached (apply store newer) family n m
          (HasReached-apply store newer family n carried) lower)
