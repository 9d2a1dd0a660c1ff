-- ===== src/Net/Security/Envelope.antt =====
-- The envelope of src/net/security.cpp: what is wrapped is unwrapped and verified.
use gameserver_hide.Base.{
  ℕ, ◌<◌, ◌≡◌, refl, ap, ◌∙◌, true, some, [], ◌∷◌, ◌++◌, Text, length, length-append,
  take-append_left, drop-append_left, arith,
}
use mathlib.Core.List.{append-nil}
use gameserver_hide.Net.Wire.{write_u32, write_u64, read_span, shift_out, pure, u32_mod, u64_mod}
use gameserver_hide.Net.Wire.Reads.{
  At-start, Parses, Parses-bind, Parses-pure, Parses-u32, Parses-u64,
}
use gameserver_hide.Net.Security.{
  SecurityHeader, compute_signature, same_bytes, verify_signature, wrap_secure_payload,
  read_security_header, unwrap_secure_payload,
}

abbrev pub header_of : ℕ → ℕ → Text → Text → SecurityHeader
header_of seq nonce key payload = record {
  seq = seq;
  nonce = nonce;
  signature = compute_signature key seq nonce payload;
}

Parses-span : (w : Text) → Parses (read_span (length w)) w w
unfolding read_span
Parses-span w = record {
  at = λ payload offset rest h.
      ground
        (arith, h.total, h.here, length-append w rest, take-append_left (length w) w rest refl);
}

same_bytes_refl : (w : Text) → same_bytes w w ≡ true
unfolding same_bytes
same_bytes_refl [] = refl
same_bytes_refl (b ∷ w) = ground (arith, same_bytes_refl w)

length-shift_out_8 : (a b : ℕ) → length (shift_out 8 a ++ shift_out 8 b) ≡ 16
unfolding shift_out
length-shift_out_8 a b = refl

length-compute_signature :
    (key : Text) (seq nonce : ℕ) (payload : Text)
    → length (compute_signature key seq nonce payload) ≡ 16
unfolding compute_signature
length-compute_signature key seq nonce payload = length-shift_out_8 _ _

abbrev header_bytes : ℕ → ℕ → Text → Text
header_bytes seq nonce signature = write_u32 seq ++ (write_u64 nonce ++ signature)

Parses-security_header :
    (seq nonce : ℕ) (signature : Text)
    → seq < u32_mod
    → nonce < u64_mod
    → length signature ≡ 16
    → Parses read_security_header
        (header_bytes seq nonce signature)
        (record { seq = seq; nonce = nonce; signature = signature })
unfolding read_security_header
Parses-security_header seq nonce signature s n e =
    let span : Parses (read_span 16) signature signature = rw e at (Parses-span signature) in
    let parsed : Parses read_security_header
        (write_u32 seq ++ (write_u64 nonce ++ (signature ++ [])))
        (record { seq = seq; nonce = nonce; signature = signature }) =
      Parses-bind _ (Parses-u32 seq s) (
        Parses-bind _ (Parses-u64 nonce n) (
          Parses-bind {B = SecurityHeader}
            (λ sig. pure (record { seq = seq; nonce = nonce; signature = sig })) span
            (Parses-pure _))) in
    rw append-nil at parsed

-- What wrapSecurePayload writes for a 32-bit sequence number and a 64-bit nonce, unwrapSecurePayload takes
-- apart into the same header and payload, and the signature verifies under the same key.
pub unwrap-wrap_secure_payload :
    (seq nonce : ℕ) (key payload : Text)
    → seq < u32_mod
    → nonce < u64_mod
    → (unwrap_secure_payload (wrap_secure_payload seq nonce key payload)
        ≡ some (header_of seq nonce key payload, payload))
      × (verify_signature key (header_of seq nonce key payload) payload ≡ true)
unfolding unwrap_secure_payload wrap_secure_payload verify_signature
unwrap-wrap_secure_payload seq nonce key payload s n =
    let signature = compute_signature key seq nonce payload in
    let w = header_bytes seq nonce signature in
    let p =
      Parses-security_header seq nonce signature s n
        (length-compute_signature key seq nonce payload) in
    let h = header_of seq nonce key payload in
    let e : read_security_header (w ++ payload) 0 ≡ some (h, length w) =
      p.at (w ++ payload) 0 payload (At-start (w ++ payload))
      ∙ ap (λ o. some (h, o)) (omega arith) in
    (
      rw (e, unwrap_secure_payload)
          (ap (λ rest. some (h, rest)) (drop-append_left (length w) w payload refl)),
      same_bytes_refl signature,
    )
