-- ===== src/Daemon/Assembly/Sums.antt =====
-- Sums over the assemblies and completed ids of src/botster/webrtcDaemonClient.ts.
use botster_web.Common.{
  ℕ, suc, ◌+◌, ◌-◌, ◌≤◌, ◌<◌, ◌≡◌, refl, ap, true, none, some, List, [], ◌∷◌, ◌++◌, leb, ◌==◌,
  nat_eq, string_eq, length, arith, String, Bool-cases, inl, inr,
}
use mathlib.Core.Path.{subst}
use botster_web.Common.Maps.{lookup, insert, delete, HasDistinctKeys, delete-missing}
use botster_web.Daemon.Assembly.{ResponseAssembly, has_id, maximum_completed_message_ids}
use botster_web.Daemon.Assembly.Handler.{completed_bytes, evict_completed}

abbrev pub retained_total : List (String × ResponseAssembly) → ℕ
retained_total [] = 0
retained_total ((id, a) ∷ m) = a.retained_bytes + retained_total m

abbrev pub AllKept : (ResponseAssembly → Type 0) → List (String × ResponseAssembly) → Type 0
AllKept P [] = Unit
AllKept P ((id, a) ∷ m) = P a × AllKept P m

pub insert-fresh :
    (id : String) (a : ResponseAssembly) (m : List (String × ResponseAssembly))
    → lookup id m ≡ none
    → (retained_total (insert id a m) ≡ retained_total m + a.retained_bytes)
      × (length (insert id a m) ≡ suc (length m))
unfolding insert lookup
insert-fresh id a [] h = (omega arith, refl)
insert-fresh id a ((j, b) ∷ m) h = elim (Bool-cases (j == id)) [
  | inl same ↦ absurd (ground (arith, same))
  | inr differs ↦
      let (total, size) = insert-fresh id a m (ground (arith, h, differs)) in
      rw differs (omega (arith, total), omega (arith, size))
]

pub insert-known :
    (id : String) (a old : ResponseAssembly) (m : List (String × ResponseAssembly))
    → lookup id m ≡ some old
    → (retained_total (insert id a m) + old.retained_bytes ≡ retained_total m + a.retained_bytes)
      × (length (insert id a m) ≡ length m)
unfolding insert lookup
insert-known id a old [] h = absurd (cc (h))
insert-known id a old ((j, b) ∷ m) h = elim (Bool-cases (j == id)) [
  | inl same ↦
      let mine : b ≡ old = cc (h, same) in
      rw same (omega (arith, ap (λ (r : ResponseAssembly). r.retained_bytes) mine), refl)
  | inr differs ↦
      let (total, size) = insert-known id a old m (ground (arith, h, differs)) in
      rw differs (omega (arith, total), omega (arith, size))
]

pub delete-known :
    (id : String) (a : ResponseAssembly) (m : List (String × ResponseAssembly))
    → HasDistinctKeys m
    → lookup id m ≡ some a
    → (retained_total (delete id m) + a.retained_bytes ≡ retained_total m)
      × (length (delete id m) ≤ length m)
unfolding delete lookup
delete-known id a [] distinct h = absurd (cc (h))
delete-known id a ((j, b) ∷ m) distinct h = elim (Bool-cases (j == id)) [
  | inl same ↦
      let mine : b ≡ a = cc (h, same) in
      let gone : delete id m ≡ m =
        delete-missing id m (rw ((string_eq.beq_iff j id).0 same) at distinct.0) in
      rw same
        (rw gone (omega (arith, ap (λ (r : ResponseAssembly). r.retained_bytes) mine), omega arith))
  | inr differs ↦
      let (total, size) = delete-known id a m distinct.1 (ground (arith, h, differs)) in
      rw differs (omega (arith, total), omega (arith, size))
]

pub AllKept-insert :
    (P : ResponseAssembly → Type 0) (id : String) (a : ResponseAssembly)
    (m : List (String × ResponseAssembly))
    → P a
    → AllKept P m
    → AllKept P (insert id a m)
unfolding insert
AllKept-insert P id a [] mine others = (mine, tt)
AllKept-insert P id a ((j, b) ∷ m) mine others = elim (Bool-cases (j == id)) [
  | inl same ↦ rw same (mine, others.1)
  | inr differs ↦ rw differs (others.0, AllKept-insert P id a m mine others.1)
]

pub AllKept-delete :
    (P : ResponseAssembly → Type 0) (id : String) (m : List (String × ResponseAssembly))
    → AllKept P m
    → AllKept P (delete id m)
unfolding delete
AllKept-delete P id [] others = tt
AllKept-delete P id ((j, b) ∷ m) others = elim (Bool-cases (j == id)) [
  | inl same ↦ rw same (AllKept-delete P id m others.1)
  | inr differs ↦ rw differs (others.0, AllKept-delete P id m others.1)
]

pub AllKept-lookup :
    (P : ResponseAssembly → Type 0) (id : String) (a : ResponseAssembly)
    (m : List (String × ResponseAssembly))
    → lookup id m ≡ some a
    → AllKept P m
    → P a
unfolding lookup
AllKept-lookup P id a [] h others = absurd (cc (h))
AllKept-lookup P id a ((j, b) ∷ m) h others = elim (Bool-cases (j == id)) [
  | inl same ↦ let mine : b ≡ a = cc (h, same) in subst P mine others.0
  | inr differs ↦ AllKept-lookup P id a m (ground (arith, h, differs)) others.1
]

module _ (utf8_byte_length : String → ℕ) where
  abbrev pub completed_total : List String → ℕ
  completed_total [] = 0
  completed_total (id ∷ ids) = completed_bytes utf8_byte_length id + completed_total ids

  pub completed_total-append :
      (ids others : List String)
      → completed_total (ids ++ others) ≡ completed_total ids + completed_total others
  completed_total-append [] others = omega arith
  completed_total-append (id ∷ ids) others = omega (arith, completed_total-append ids others)

  -- What eviction leaves: fewer than 64 ids, of those there were, and the bytes of the others gone.
  pub evict_completed-facts :
      (ids : List String) (aggregate others : ℕ)
      → aggregate ≡ others + completed_total ids
      → let (kept, left) = evict_completed utf8_byte_length ids aggregate in
        (left ≡ others + completed_total kept)
        × (length kept < maximum_completed_message_ids)
        × (left ≤ aggregate)
        × ((id : String) → has_id id kept ≡ true → has_id id ids ≡ true)
  unfolding evict_completed has_id
  evict_completed-facts [] aggregate others h = (h, omega arith, omega arith, λ id mine. mine)
  evict_completed-facts (id ∷ ids) aggregate others h =
      elim (Bool-cases (leb maximum_completed_message_ids (suc (length ids)))) [
        | inl full ↦
            let left = aggregate - completed_bytes utf8_byte_length id in
            let (exact, few, less, known) =
              evict_completed-facts ids left others (omega (arith, h)) in
            rw full
              (exact, few, omega (arith, less), λ other mine. ground (arith, known other mine))
        | inr room ↦ rw room (h, ground (arith, room), omega arith, λ other mine. mine)
      ]
