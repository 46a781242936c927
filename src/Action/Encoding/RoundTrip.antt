-- ===== src/Action/Encoding/RoundTrip.antt =====
-- What is written of a signed action is read back (action.rs).
use stabilitypool.Base.{
  ℕ, ◌+◌, ◌^◌, ◌<◌, ◌≡◌, refl, ap, ◌↔◌, inr, Bool, List, [], ◌++◌, length, length-append, ok, arith,
}
use mathlib.Core.List.{append_assoc}
use stabilitypool.Base.U64
use stabilitypool.Action.Types.{Action}
use stabilitypool.Action.Proposed.{SignedAction}
use stabilitypool.Action.Encoding.{
  Encoder, Decoder, encode_action, encode_signed_action, decode_action, decode_signed_action,
  encode_to_vec, verify_signature,
}

-- An encoder that appends the bytes of a value and a decoder that takes them off again, for the
-- values that the type of the source has.
pub record Codec (Error A : Type 0) : Type 1 where
  pub encode : Encoder Error (List ℕ) A
  pub decode : Decoder Error (List ℕ) A
  pub bytes : A → List ℕ
  pub IsValue : A → Type 0
  pub encode-eq :
      (a : A) (w : List ℕ) → IsValue a → encode a w ≡ inr (length (bytes a), w ++ bytes a)
  pub decode-eq : (a : A) (rest : List ℕ) → IsValue a → decode (bytes a ++ rest) ≡ inr (a, rest)

module _ {Error T : Type 0} (u64 key : Codec Error ℕ) (body : Codec Error T) where
  abbrev pub action_bytes : Action T → List ℕ
  action_bytes a =
      u64.bytes a.epoch_id
      ++ (u64.bytes a.sequence ++ (key.bytes a.account_id ++ body.bytes a.body))

  -- The fields have values of their types, and the lengths fit into `usize`.
  pub record IsAction (a : Action T) : Type 0 where
    pub epoch_id : u64.IsValue a.epoch_id
    pub sequence : u64.IsValue a.sequence
    pub account_id : key.IsValue a.account_id
    pub body_value : body.IsValue a.body
    pub fits : length (action_bytes a) < 2 ^ 64

  encode_action_lem :
      (a : Action T) (w : List ℕ)
      → IsAction a
      → encode_action u64.encode key.encode body.encode a w
        ≡ inr (length (action_bytes a), w ++ action_bytes a)
  unfolding encode_action
  encode_action_lem a w h =
      let b1 = u64.bytes a.epoch_id in
      let b2 = u64.bytes a.sequence in
      let b3 = key.bytes a.account_id in
      let b4 = body.bytes a.body in
      let lengths : length (action_bytes a) ≡ length b1 + (length b2 + (length b3 + length b4)) =
        omega (
          arith,
          length-append b1 (b2 ++ (b3 ++ b4)),
          length-append b2 (b3 ++ b4),
          length-append b3 b4,
        ) in
      let counted : U64.add (U64.add (U64.add (U64.add 0 (length b1)) (length b2)) (length b3))
            (length b4)
          ≡ length (action_bytes a) =
        unfold U64.add in omega (arith, lengths, h.fits) in
      rw (u64.encode-eq a.epoch_id w h.epoch_id) (
        rw (u64.encode-eq a.sequence (w ++ b1) h.sequence) (
          rw (key.encode-eq a.account_id ((w ++ b1) ++ b2) h.account_id) (
            rw (body.encode-eq a.body (((w ++ b1) ++ b2) ++ b3) h.body_value) (
              rw counted
                (ap (λ (v : List ℕ). inr (length (action_bytes a), v)) (simp append_assoc))))))

  decode_action_lem :
      (a : Action T) (rest : List ℕ)
      → IsAction a
      → decode_action u64.decode key.decode body.decode (action_bytes a ++ rest) ≡ inr (a, rest)
  unfolding decode_action
  decode_action_lem a rest h =
      let b2 = u64.bytes a.sequence in
      let b3 = key.bytes a.account_id in
      let b4 = body.bytes a.body in
      rw (append_assoc (u64.bytes a.epoch_id) (b2 ++ (b3 ++ b4)) rest) (
        rw (u64.decode-eq a.epoch_id ((b2 ++ (b3 ++ b4)) ++ rest) h.epoch_id) (
          rw (append_assoc b2 (b3 ++ b4) rest) (
            rw (u64.decode-eq a.sequence ((b3 ++ b4) ++ rest) h.sequence) (
              rw (append_assoc b3 b4 rest) (
                rw (key.decode-eq a.account_id (b4 ++ rest) h.account_id)
                  (rw (body.decode-eq a.body rest h.body_value) refl))))))

  module _ {Signature : Type 0} (signature : Codec Error Signature) where
    abbrev pub signed_action_bytes : SignedAction Signature T → List ℕ
    signed_action_bytes sa = action_bytes sa.action ++ signature.bytes sa.signature

    -- Where the encodings of the parts append bytes that their decodings take off again, and the
    -- length fits into `usize`, the encoding of a signed action appends bytes to whatever was
    -- written before and returns their number, and its decoding takes exactly these bytes off,
    -- whatever follows, and gives the signed action back.
    pub decode-encode_signed_action :
        (sa : SignedAction Signature T)
        → IsAction sa.action
        → signature.IsValue sa.signature
        → length (signed_action_bytes sa) < 2 ^ 64
        → (bytes : List ℕ) × ((w : List ℕ)
            → encode_signed_action
                (encode_action u64.encode key.encode body.encode)
                signature.encode
                sa
                w
              ≡ inr (length bytes, w ++ bytes))
          × ((rest : List ℕ)
              → decode_signed_action
                  (decode_action u64.decode key.decode body.decode)
                  signature.decode
                  (bytes ++ rest)
                ≡ inr (sa, rest))
    unfolding encode_signed_action decode_signed_action
    decode-encode_signed_action sa h valid fits =
        let a = action_bytes sa.action in
        let s = signature.bytes sa.signature in
        let counted : U64.add (U64.add 0 (length a)) (length s) ≡ length (a ++ s) =
          unfold U64.add in omega (arith, length-append a s, fits) in
        (
          a ++ s,
          λ w. rw (encode_action_lem sa.action w h) (
              rw (signature.encode-eq sa.signature (w ++ a) valid)
                (rw counted (ap (λ (v : List ℕ). inr (length (a ++ s), v)) (append_assoc w a s)))),
          λ rest. rw (append_assoc a s rest) (
              rw (decode_action_lem sa.action (s ++ rest) h)
                (rw (signature.decode-eq sa.signature rest valid) refl)),
        )

  encode_to_vec_lem :
      (a : Action T)
      → IsAction a
      → encode_to_vec (encode_action u64.encode key.encode body.encode) a ≡ ok (action_bytes a)
  unfolding encode_to_vec
  encode_to_vec_lem a h = rw (encode_to_vec, encode_action_lem a [] h) refl

  -- Where the encodings of the parts append bytes that their decodings take off again, the check of
  -- a signature does not panic. It is the verification of the signature by the key of the account
  -- over the hash of the bytes of the action, and another action has these bytes only if it is the same.
  pub verify_signature_lem :
      {Signature Hash : Type 0} (sha256 : List ℕ → Hash)
      (verify_schnorr : Signature → Hash → ℕ → Bool) (sa : SignedAction Signature T)
      → (b : Action T) → IsAction sa.action
      → IsAction b
      → (verify_signature (encode_action u64.encode key.encode body.encode) sha256 verify_schnorr sa
          ≡ ok (verify_schnorr sa.signature (sha256 (action_bytes sa.action)) sa.action.account_id))
        × ((action_bytes b ≡ action_bytes sa.action) ↔ (b ≡ sa.action))
  unfolding verify_signature
  verify_signature_lem sha256 verify_schnorr sa b h other = (
    rw (verify_signature, encode_to_vec_lem sa.action h) refl,
    (
      λ same.
          let read = decode_action_lem b [] other in
          let read' = decode_action_lem sa.action [] h in cc (read, read', same),
      λ e. ap action_bytes e,
    ),
  )
