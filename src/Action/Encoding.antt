-- ===== src/Action/Encoding.antt =====
-- action.rs, the encodings of `Action` and `SignedAction`, and the check of a signature. The
-- encodings of `u64`, of keys, of signatures and of the bodies are those of fedimint: they are
-- arguments, and so are the hash of bitcoin and the verification of secp256k1.
pub mod RoundTrip
use stabilitypool.Base.{ℕ, Bool, List, [], ◌⊎◌, inl, inr, Exec, ok, panic, encoding_failed}
use stabilitypool.Base.Results.{◌>>=◌}
use stabilitypool.Base.U64
use stabilitypool.Action.Types.{Action}
use stabilitypool.Action.Proposed.{SignedAction}

-- The number of bytes and the writer after them, or the error of the writer.
abbrev pub Encoder : (Error Writer A : Type 0) → Type 0
Encoder Error Writer A = A → Writer → Error ⊎ (ℕ × Writer)

abbrev pub Decoder : (Error Reader A : Type 0) → Type 0
Decoder Error Reader A = Reader → Error ⊎ (A × Reader)

module _ {Error Writer T : Type 0} where
  unfoldable pub encode_action :
      (u64 key : Encoder Error Writer ℕ) (body : Encoder Error Writer T)
      → Encoder Error Writer (Action T)
  encode_action u64 key body a w = do
    (n1, w1) ← u64 a.epoch_id w
    (n2, w2) ← u64 a.sequence w1
    (n3, w3) ← key a.account_id w2
    (n4, w4) ← body a.body w3
    inr (U64.add (U64.add (U64.add (U64.add 0 n1) n2) n3) n4, w4)

  unfoldable pub encode_signed_action :
      {Signature : Type 0} (action : Encoder Error Writer (Action T))
      (signature : Encoder Error Writer Signature)
      → Encoder Error Writer (SignedAction Signature T)
  encode_signed_action action signature sa w = do
    (n1, w1) ← action sa.action w
    (n2, w2) ← signature sa.signature w1
    inr (U64.add (U64.add 0 n1) n2, w2)

module _ {Error Reader T : Type 0} where
  unfoldable pub decode_action :
      (u64 key : Decoder Error Reader ℕ) (body : Decoder Error Reader T)
      → Decoder Error Reader (Action T)
  decode_action u64 key body r = do
    (epoch_id, r1) ← u64 r
    (sequence, r2) ← u64 r1
    (account_id, r3) ← key r2
    (b, r4) ← body r3
    inr (record { epoch_id = epoch_id; sequence = sequence; account_id = account_id; body = b }, r4)

  unfoldable pub decode_signed_action :
      {Signature : Type 0} (action : Decoder Error Reader (Action T))
      (signature : Decoder Error Reader Signature)
      → Decoder Error Reader (SignedAction Signature T)
  decode_signed_action action signature r = do
    (a, r1) ← action r
    (s, r2) ← signature r1
    inr (record { action = a; signature = s }, r2)

-- `consensus_encode_to_vec().expect(..)`: the bytes that the encoder writes to an empty vector.
unfoldable pub encode_to_vec : {Error A : Type 0} → Encoder Error (List ℕ) A → A → Exec (List ℕ)
encode_to_vec encode a = elim (encode a []) [
  | inl e ↦ panic encoding_failed
  | inr (n, bytes) ↦ ok bytes
]

module _ {Error Signature Hash T : Type 0} (encode : Encoder Error (List ℕ) (Action T))
    (sha256 : List ℕ → Hash) (verify_schnorr : Signature → Hash → ℕ → Bool) where
  -- Whether `SignedAction::verify_signature` gives no error.
  unfoldable pub verify_signature : SignedAction Signature T → Exec Bool
  unfolding encode_to_vec
  verify_signature sa = elim (encode_to_vec encode sa.action) [
    | panic e ↦ panic e
    | ok b ↦ ok (verify_schnorr sa.signature (sha256 b) sa.action.account_id)
  ]
