-- ===== src/Net/Security.antt =====
-- src/net/security.h and security.cpp. A hash is 64 bits wide. readU32, readU64, writeU32, writeU64 and
-- toBytes of that file do what the readers and writers of protocol.cpp do.
pub mod Envelope
use gameserver_hide.Base.{
  ℕ, zero, suc, ◌+◌, ◌*◌, ◌/◌, ◌%◌, ◌^◌, Bool, true, false, Option, none, some, List, [], ◌∷◌, ◌++◌,
  Text, drop, ◌==◌, if◌then◌else◌,
}
use gameserver_hide.Net.Wire.{
  Reader, ◌>>=◌, pure, read_u32, read_u64, read_span, write_u32, write_u64, shift_out, u64_mod,
}

pub record SecurityHeader : Type 0 where
  pub seq : ℕ
  pub nonce : ℕ
  pub signature : Text

-- a ^ b on that many low bits
unfoldable pub xor_bits : ℕ → ℕ → ℕ → ℕ
xor_bits zero a b = 0
xor_bits (suc width) a b = (a + b) % 2 + 2 * xor_bits width (a / 2) (b / 2)

abbrev pub fnv_offset : ℕ
fnv_offset = 14695981039346656037

abbrev pub fnv_prime : ℕ
fnv_prime = 1099511628211

unfoldable pub fnv1a_update : ℕ → Text → ℕ
unfolding xor_bits
fnv1a_update hash [] = hash
fnv1a_update hash (byte ∷ data') = fnv1a_update (xor_bits 64 hash byte * fnv_prime % u64_mod) data'

unfoldable pub compute_signature : Text → ℕ → ℕ → Text → Text
unfolding xor_bits fnv1a_update
compute_signature key seq nonce payload =
    let seq_bytes = shift_out 4 seq in
    let nonce_bytes = shift_out 8 nonce in
    let keyed = fnv1a_update fnv_offset key in
    let hash1 = fnv1a_update (fnv1a_update (fnv1a_update keyed seq_bytes) nonce_bytes) payload in
    let keyed' = fnv1a_update (xor_bits 64 fnv_offset 11400714819323198485) key in
    let hash2 = fnv1a_update (fnv1a_update (fnv1a_update keyed' nonce_bytes) seq_bytes) payload in
    shift_out 8 hash1 ++ shift_out 8 hash2

-- std::array's ==
unfoldable pub same_bytes : Text → Text → Bool
same_bytes [] [] = true
same_bytes [] (y ∷ ys) = false
same_bytes (x ∷ xs) [] = false
same_bytes (x ∷ xs) (y ∷ ys) = let rest = same_bytes xs ys in if x == y then rest else false

unfoldable pub verify_signature : Text → SecurityHeader → Text → Bool
unfolding same_bytes compute_signature
verify_signature key header payload =
    same_bytes (compute_signature key header.seq header.nonce payload) header.signature

unfoldable pub wrap_secure_payload : ℕ → ℕ → Text → Text → Text
unfolding compute_signature
wrap_secure_payload seq nonce key payload =
    (write_u32 seq ++ (write_u64 nonce ++ compute_signature key seq nonce payload)) ++ payload

-- The reads of unwrapSecurePayload up to the signature.
unfoldable pub read_security_header : Reader SecurityHeader
read_security_header = do
  seq ← read_u32
  nonce ← read_u64
  signature ← read_span 16
  pure (record { seq = seq; nonce = nonce; signature = signature })

unfoldable pub unwrap_secure_payload : Text → Option (SecurityHeader × Text)
unfolding read_security_header
unwrap_secure_payload payload = elim (read_security_header payload 0) [
  | none ↦ none
  | some (header, offset) ↦ some (header, drop offset payload)
]
