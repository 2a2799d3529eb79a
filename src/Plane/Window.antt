-- ===== src/Plane/Window.antt =====
-- The in-flight window of src/botster/hubTerminalDataPlane.ts: what holds of the map of operations
-- in flight and the bytes counted for it.
use botster_web.Common.{
  ℕ, suc, ◌+◌, ◌-◌, ◌≤◌, ◌<◌, ◌≡◌, refl, true, none, some, List, [], ◌∷◌, length, ◌==◌, nat_eq,
  arith, Bool-cases, inl, inr, All, ap, nat_beq_iff,
}
use mathlib.Core.Path.{subst}
use botster_web.Common.Maps.{
  lookup, insert, delete, HasDistinctKeys, insert-fresh-distinct, delete-distinct, delete-missing,
}
use botster_web.Plane.State.{QueuedInput, InflightInput}

abbrev pub sum_bodies : List QueuedInput → ℕ
sum_bodies [] = 0
sum_bodies (entry ∷ rest) = entry.operation.body_bytes + sum_bodies rest

abbrev pub sum_retained : List (ℕ × InflightInput) → ℕ
sum_retained [] = 0
sum_retained ((id, x) ∷ rest) = x.retained_bytes + sum_retained rest

-- The bytes of a paste that may still be confirmed are its payload bytes.
abbrev pub IsPasteSized : QueuedInput → Type 0
IsPasteSized entry = elim entry.paste_data [
  | none ↦ Unit {0}
  | some bytes ↦ entry.operation.body_bytes ≡ length bytes
]

-- An operation is held under its own id, which is below the next one, on the current attachment.
abbrev pub IsHeld : ℕ → ℕ → ℕ × InflightInput → Type 0
IsHeld next generation (id, x) =
    (x.operation_id ≡ id)
    × (id < next)
    × (x.generation ≡ generation)
    × (x.retained_bytes ≡ x.entry.operation.body_bytes)
    × IsPasteSized x.entry

pub record IsWindow (next generation : ℕ) (held : List (ℕ × InflightInput)) (bytes : ℕ)
    : Type 0 where
  pub sum : sum_retained held ≡ bytes
  pub bound : length held ≤ 32
  pub each : All (IsHeld next generation) held
  pub distinct : HasDistinctKeys held

insert-fresh :
    (id : ℕ) (x : InflightInput) (m : List (ℕ × InflightInput))
    → lookup id m ≡ none
    → (sum_retained (insert id x m) ≡ sum_retained m + x.retained_bytes)
      × (length (insert id x m) ≡ suc (length m))
unfolding insert lookup
insert-fresh id x [] h = (omega arith, refl)
insert-fresh id x ((j, y) ∷ m) h = elim (Bool-cases (j == id)) [
  | inl same ↦ absurd (ground (arith, same))
  | inr differs ↦
      let (s, l) = insert-fresh id x m (ground (arith, differs)) in
      rw differs (omega (arith, s), omega (arith, l))
]

-- An id that is not below the next one is not held.
pub lookup-next :
    (next generation id : ℕ) (m : List (ℕ × InflightInput))
    → All (IsHeld next generation) m
    → next ≤ id
    → lookup id m ≡ none
unfolding lookup
lookup-next next generation id [] h k = refl
lookup-next next generation id ((j, y) ∷ m) h k =
    ground (arith, lookup-next next generation id m h.1 k, h.0)

each-insert :
    (next generation id : ℕ) (x : InflightInput) (m : List (ℕ × InflightInput))
    → All (IsHeld next generation) m
    → IsHeld next generation (id, x)
    → All (IsHeld next generation) (insert id x m)
unfolding insert
each-insert next generation id x [] h k = (k, tt)
each-insert next generation id x ((j, y) ∷ m) h k = elim (Bool-cases (j == id)) [
  | inl same ↦ rw same (k, h.1)
  | inr differs ↦ rw differs (h.0, each-insert next generation id x m h.1 k)
]

each-later :
    (next later generation : ℕ) (m : List (ℕ × InflightInput))
    → next ≤ later
    → All (IsHeld next generation) m
    → All (IsHeld later generation) m
each-later next later generation [] h k = tt
each-later next later generation ((j, y) ∷ m) h k =
    ((k.0.0, omega (arith, k.0.1), k.0.2, k.0.3, k.0.4), each-later next later generation m h k.1)

each-delete :
    (next generation id : ℕ) (m : List (ℕ × InflightInput))
    → All (IsHeld next generation) m
    → All (IsHeld next generation) (delete id m)
unfolding delete
each-delete next generation id [] h = tt
each-delete next generation id ((j, y) ∷ m) h = elim (Bool-cases (j == id)) [
  | inl same ↦ rw same (each-delete next generation id m h.1)
  | inr differs ↦ rw differs (h.0, each-delete next generation id m h.1)
]

lookup-hit :
    (id j : ℕ) (x y : InflightInput) (m : List (ℕ × InflightInput))
    → (j == id) ≡ true
    → lookup id ((j, y) ∷ m) ≡ some x
    → (j ≡ id) × (y ≡ x)
unfolding lookup
lookup-hit id j x y m same h =
    (omega (arith, (nat_beq_iff j id).0 same), cc (rw (same, lookup) at h))

delete-held :
    (id : ℕ) (x : InflightInput) (m : List (ℕ × InflightInput))
    → HasDistinctKeys m
    → lookup id m ≡ some x
    → (sum_retained m ≡ sum_retained (delete id m) + x.retained_bytes)
      × (length m ≡ suc (length (delete id m)))
unfolding delete lookup
delete-held id x [] d h = absurd (ground arith)
delete-held id x ((j, y) ∷ m) d h = elim (Bool-cases (j == id)) [
  | inl same ↦
      let (here, found) = lookup-hit id j x y m same h in
      let gone = delete-missing id m (rw here at (d.0)) in
      rw (same, gone) (omega (arith, ap (λ (z : InflightInput). z.retained_bytes) found), refl)
  | inr differs ↦
      let (s, l) = delete-held id x m d.1 (ground (arith, differs)) in
      rw differs (omega (arith, s), omega (arith, l))
]

pub lookup-IsHeld :
    (next generation id : ℕ) (x : InflightInput) (m : List (ℕ × InflightInput))
    → All (IsHeld next generation) m
    → lookup id m ≡ some x
    → IsHeld next generation (id, x)
unfolding lookup
lookup-IsHeld next generation id x [] h k = absurd (ground arith)
lookup-IsHeld next generation id x ((j, y) ∷ m) h k = elim (Bool-cases (j == id)) [
  | inl same ↦
      let (here, found) = lookup-hit id j x y m same k in
      subst (IsHeld next generation) (λ i. (here i, found i)) h.0
  | inr differs ↦ lookup-IsHeld next generation id x m h.1 (ground (arith, differs))
]

-- The next id enters the window.
pub IsWindow-insert :
    {next generation : ℕ} {m : List (ℕ × InflightInput)} {bytes : ℕ} (x : InflightInput)
    → IsWindow next generation m bytes
    → length m < 32
    → IsHeld (next + 1) generation (next, x)
    → IsWindow (next + 1) generation (insert next x m) (bytes + x.retained_bytes)
IsWindow-insert {next} {generation} {m} x w room fits =
    let (s, l) = insert-fresh next x m (lookup-next next generation next m w.each (omega arith)) in
    record {
      sum = omega (arith, s, w.sum);
      bound = omega (arith, l, w.bound);
      each =
          each-insert (next + 1) generation next x m
            (each-later next (next + 1) generation m (omega arith) w.each) fits;
      distinct = insert-fresh-distinct next x m w.distinct;
    }

-- A held operation leaves it.
pub IsWindow-delete :
    {next generation : ℕ} {m : List (ℕ × InflightInput)} {bytes : ℕ} (id : ℕ) (x : InflightInput)
    → IsWindow next generation m bytes
    → lookup id m ≡ some x
    → IsWindow next generation (delete id m) (bytes - x.retained_bytes) × (x.retained_bytes ≤ bytes)
IsWindow-delete {next} {generation} {m} id x w held =
    let (s, l) = delete-held id x m w.distinct held in
    (
      record {
        sum = omega (arith, s, w.sum);
        bound = omega (arith, l, w.bound);
        each = each-delete next generation id m w.each;
        distinct = delete-distinct id m w.distinct;
      },
      omega (arith, s, w.sum),
    )
