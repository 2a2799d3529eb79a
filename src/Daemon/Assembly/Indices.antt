-- ===== src/Daemon/Assembly/Indices.antt =====
-- The chunks of a delivery by their indices, for src/botster/webrtcDaemonClient.ts.
use botster_web.Common.{
  ℕ, zero, suc, ◌+◌, ◌<◌, ◌≡◌, refl, Bool, true, false, ◌||◌, none, some, List, [], ◌∷◌, ◌++◌, ◌==◌,
  nat_eq, nat_beq_iff, if◌then◌else◌, length, arith, String,
}
use botster_web.Common.Maps.{lookup, insert}
use Prim.Native.String.{◌++◌ as append}
use botster_web.Daemon.Assembly.Handler.{envelope_json}

unfoldable pub has_index : ℕ → List ℕ → Bool
has_index i [] = false
has_index i (j ∷ js) = j == i || has_index i js

abbrev pub IsDistinct : List ℕ → Type 0
IsDistinct [] = Unit
IsDistinct (i ∷ is) = (has_index i is ≡ false) × IsDistinct is

-- Each index below `n`, once.
pub record IsComplete (order : List ℕ) (n : ℕ) : Type 0 where
  pub distinct : IsDistinct order
  pub covers : (i : ℕ) → i < n → has_index i order ≡ true
  pub count : length order ≡ n

has_index-append :
    (i : ℕ) (is js : List ℕ) → has_index i (is ++ js) ≡ (has_index i is || has_index i js)
unfolding has_index
has_index-append i [] js = refl
has_index-append i (k ∷ is) js = ground (arith, has_index-append i is js)

pub distinct-fresh :
    (done : List ℕ) (i : ℕ) (rest : List ℕ)
    → IsDistinct (done ++ i ∷ rest)
    → has_index i done ≡ false
unfolding has_index
distinct-fresh [] i rest h = refl
distinct-fresh (d ∷ done) i rest h = ground (
  arith,
  h.0,
  has_index-append d done (i ∷ rest),
  nat_beq_iff i d,
  nat_beq_iff d i,
  distinct-fresh done i rest h.1,
)

module _ (payload : ℕ → String) where
  -- The map of these chunks, first to last.
  abbrev pub pieces : List ℕ → List (ℕ × String)
  pieces [] = []
  pieces (i ∷ is) = (i, payload i) ∷ pieces is

  -- The payloads `index`, `index + 1`, ... behind `acc`.
  abbrev pub joined : String → ℕ → ℕ → String
  joined acc index zero = acc
  joined acc index (suc left) = joined (append acc (payload index)) (suc index) left

  pub lookup-pieces :
      (i : ℕ) (is : List ℕ)
      → lookup i (pieces is) ≡ (if has_index i is then some (payload i) else none)
  unfolding lookup has_index
  lookup-pieces i [] = refl
  lookup-pieces i (j ∷ js) = ground (arith, nat_beq_iff j i, lookup-pieces i js)

  pub insert-pieces :
      (i : ℕ) (is : List ℕ)
      → has_index i is ≡ false
      → insert i (payload i) (pieces is) ≡ pieces (is ++ i ∷ [])
  unfolding insert has_index
  insert-pieces i [] h = refl
  insert-pieces i (j ∷ js) h = ground (arith, h, insert-pieces i js)

  pub length-pieces : (is : List ℕ) → length (pieces is) ≡ length is
  length-pieces [] = refl
  length-pieces (i ∷ is) = omega (arith, length-pieces is)

  pub envelope_json-pieces :
      (acc : String) (index left : ℕ) (order : List ℕ)
      → ((i : ℕ) → i < index + left → has_index i order ≡ true)
      → envelope_json acc index left (pieces order) ≡ joined acc index left
  unfolding envelope_json
  envelope_json-pieces acc index zero order covers = refl
  envelope_json-pieces acc index (suc left) order covers =
      let here = lookup-pieces index order in
      rw here (
        rw (covers index (omega arith)) (
          envelope_json-pieces (append acc (payload index)) (suc index) left order
            (λ i below. covers i (omega (arith, below)))))

  module _ (utf8_byte_length : String → ℕ) where
    abbrev pub payload_bytes : List ℕ → ℕ
    payload_bytes [] = 0
    payload_bytes (i ∷ is) = utf8_byte_length (payload i) + payload_bytes is

    pub payload_bytes-append :
        (is js : List ℕ) → payload_bytes (is ++ js) ≡ payload_bytes is + payload_bytes js
    payload_bytes-append [] js = omega arith
    payload_bytes-append (i ∷ is) js = omega (arith, payload_bytes-append is js)
