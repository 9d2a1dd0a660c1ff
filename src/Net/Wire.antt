-- ===== src/Net/Wire.antt =====
-- The readers and writers of src/net/protocol.cpp, lines 10-83. A reader takes the payload and the
-- offset, which the code holds in a variable, and returns the value with the offset behind it;
-- `none` is a returned `false`. A byte is a number below 256. On bytes of disjoint positions the
-- code's `|` is a sum.
pub mod Reads
pub mod Stable
pub mod Exact
pub mod Rules
use gameserver_hide.Base.{
  ℕ, zero, suc, ◌+◌, ◌*◌, ◌/◌, ◌%◌, ◌^◌, ◌<◌, ◌≤◌, All, min, ◌≡◌, Bool, true, false, not, Option,
  none, some, List, [], ◌∷◌, ◌++◌, Text, length, take, drop, get_or, ltb, ◌==◌, if◌then◌else◌,
}

-- Every element is a `std::uint8_t`.
abbrev pub IsByte : ℕ → Type 0
IsByte b = b < 256

abbrev pub u16_mod : ℕ
u16_mod = 2 ^ 16

abbrev pub u32_mod : ℕ
u32_mod = 2 ^ 32

abbrev pub u64_mod : ℕ
u64_mod = 2 ^ 64

-- numeric_limits<uint16_t>::max()
abbrev pub u16_max : ℕ
u16_max = 65535

abbrev pub Reader {ℓ} : Type ℓ → Type ℓ
Reader A = Text → ℕ → Option (A × ℕ)

infixl 5 ◌>>=◌ ◌>>◌
unfoldable pub ◌>>=◌ {ℓ κ} : {A : Type ℓ} {B : Type κ} → Reader A → (A → Reader B) → Reader B
◌>>=◌ m f payload offset = elim (m payload offset) [
  | none ↦ none
  | some (a, offset') ↦ f a payload offset'
]

abbrev pub ◌>>◌ {ℓ κ} : {A : Type ℓ} {B : Type κ} → Reader A → Reader B → Reader B
m >> k = m >>= λ _. k

unfoldable pub pure {ℓ} : {A : Type ℓ} → A → Reader A
pure a payload offset = some (a, offset)

abbrev at_byte : Text → ℕ → ℕ
at_byte payload i = get_or payload i 0

-- if (payload.empty()) return false; flag = payload[offset++] != 0
unfoldable pub read_flag : Reader Bool
read_flag payload offset =
    if ltb (length payload) (offset + 1)
    then none
    else some (not (at_byte payload offset == 0), offset + 1)

unfoldable pub read_u16 : Reader ℕ
read_u16 payload offset =
    if ltb (length payload) (offset + 2)
    then none
    else some (at_byte payload offset * 2 ^ 8 + at_byte payload (offset + 1), offset + 2)

unfoldable pub read_u32 : Reader ℕ
read_u32 payload offset =
    if ltb (length payload) (offset + 4)
    then none
    else some (
      at_byte payload offset * 2 ^ 24
          + at_byte payload (offset + 1) * 2 ^ 16
          + at_byte payload (offset + 2) * 2 ^ 8
          + at_byte payload (offset + 3),
      offset + 4,
    )

-- for (int i = 0; i < 8; ++i) out = (out << 8) | payload[offset + i], by the rounds left.
unfoldable pub shift_in : ℕ → Text → ℕ → ℕ → ℕ
shift_in zero payload offset out = out
shift_in (suc n) payload offset out =
    shift_in n payload (offset + 1) (out * 2 ^ 8 % u64_mod + at_byte payload offset)

unfoldable pub read_u64 : Reader ℕ
unfolding shift_in
read_u64 payload offset =
    if ltb (length payload) (offset + 8)
    then none
    else some (shift_in 8 payload offset 0, offset + 8)

unfoldable pub write_flag : Bool → Text
write_flag b = (if b then 1 else 0) ∷ []

unfoldable pub write_u16 : ℕ → Text
write_u16 v = v / 2 ^ 8 % 256 ∷ v % 256 ∷ []

unfoldable pub write_u32 : ℕ → Text
write_u32 v = v / 2 ^ 24 % 256 ∷ v / 2 ^ 16 % 256 ∷ v / 2 ^ 8 % 256 ∷ v % 256 ∷ []

-- for (int shift = 56; shift >= 0; shift -= 8), by the rounds left.
unfoldable pub shift_out : ℕ → ℕ → Text
shift_out zero v = []
shift_out (suc n) v = v / 256 ^ n % 256 ∷ shift_out n v

unfoldable pub write_u64 : ℕ → Text
unfolding shift_out
write_u64 v = shift_out 8 v

-- The part of read_string behind its length.
unfoldable pub read_span : ℕ → Reader Text
read_span size payload offset =
    if ltb (length payload) (offset + size)
    then none
    else some (take size (drop offset payload), offset + size)

unfoldable pub read_string : Reader Text
read_string = do size ← read_u16; read_span size

unfoldable pub write_string : Text → Text
write_string value =
    let size = min (length value) u16_max in write_u16 (size % u16_mod) ++ take size value

-- for (std::uint16_t i = 0; i < count; ++i), by the rounds left.
unfoldable pub read_times {ℓ} : {A : Type ℓ} → Reader A → ℕ → Reader (List A)
read_times item zero = pure []
read_times item (suc n) = do x ← item; xs ← read_times item n; pure (x ∷ xs)

unfoldable pub write_each {ℓ} : {A : Type ℓ} → (A → Text) → List A → Text
write_each item [] = []
write_each item (x ∷ xs) = item x ++ write_each item xs

-- The frame that read_string_list and read_reward_items share.
unfoldable pub read_list {ℓ} : {A : Type ℓ} → Reader A → Reader (List A)
unfolding read_times
read_list item = do count ← read_u16; read_times item count

-- The frame that write_string_list and write_reward_items share.
unfoldable pub write_list {ℓ} : {A : Type ℓ} → (A → Text) → List A → Text
unfolding write_each
write_list item values =
    let size = min (length values) u16_max in
    write_u16 (size % u16_mod) ++ write_each item (take size values)

unfoldable pub read_string_list : Reader (List Text)
read_string_list = read_list read_string

unfoldable pub write_string_list : List Text → Text
write_string_list = write_list write_string

-- The successive appends of an encoder to an empty `out`.
abbrev pub emit : List Text → Text
emit [] = []
emit (w ∷ ws) = w ++ emit ws

-- Up to 65535 texts of up to 65535 bytes.
abbrev pub IsTextList : List Text → Type 0
IsTextList xs = (length xs ≤ u16_max) × All (λ x. length x ≤ u16_max) xs

-- return offset == payload.size(), behind all the reads of a decoder from offset 0
unfoldable pub decode {ℓ} : {A : Type ℓ} → Reader A → Text → Option A
decode r payload = elim (r payload 0) [
  | none ↦ none
  | some (a, offset) ↦ if offset == length payload then some a else none
]
