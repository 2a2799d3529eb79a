-- ===== src/Wire/Error.antt =====
-- The errors that src/botster/generated/terminal-protocol.ts throws, and the monad of its codecs.
use botster_web.Common.{ℕ, Bool, true, false}

-- What `PayloadTooLarge kind=...` names: a text, or the number of a frame kind.
pub data PayloadKind : Type 0 where
  raw_bytes paste_begin : PayloadKind
  frame_kind : ℕ → PayloadKind

pub data WireError : Type 0 where
  truncated_header invalid_detail invalid_utf8 invalid_operation_id empty_paste : WireError
  wrong_scheme_version unknown_kind unknown_value body_too_large : ℕ → WireError
  body_length_mismatch body_length : ℕ → ℕ → WireError
  payload_too_large : PayloadKind → ℕ → ℕ → WireError

pub data Result {ℓ} (A : Type ℓ) : Type ℓ where
  ok : A → Result A
  err : WireError → Result A

infixl 5 ◌>>=◌ ◌>>◌
abbrev pub ◌>>=◌ {ℓ κ} : {A : Type ℓ} {B : Type κ} → Result A → (A → Result B) → Result B
ok value >>= next = next value
err thrown >>= next = err thrown

abbrev pub ◌>>◌ {ℓ} : {B : Type ℓ} → Result (Unit {0}) → Result B → Result B
first >> later = first >>= λ nothing. later

-- `if (test) throw e`
abbrev pub throw_if : Bool → WireError → Result (Unit {0})
throw_if true e = err e
throw_if false e = ok tt
