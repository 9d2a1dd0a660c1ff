-- ===== src/Net/Auth.antt =====
-- src/net/auth.h and auth.cpp. The draws of the random generator, numbers from 0 to 255, are the
-- parameter `draw` on the generator's state; seconds are counted in clock ticks.
pub mod Validity
use gameserver_hide.Base.{
  ℕ, zero, suc, ◌+◌, ◌/◌, ◌%◌, Option, none, some, [], ◌∷◌, Text, ltb, leb, if◌then◌else◌,
}
use gameserver_hide.Base.TextMap.{TextMap, find_text, put_text, erase_text}

pub record TokenRecord : Type 0 where
  pub user_id : Text
  pub expires_at : ℕ

pub record TokenService : Type 0 where
  pub tokens : TextMap TokenRecord
  pub ttl : ℕ

abbrev pub init : ℕ → TokenService
init ttl = record { tokens = []; ttl = ttl }

-- An upper case hexadecimal digit.
unfoldable pub hex_digit : ℕ → ℕ
hex_digit n = if ltb n 10 then 48 + n else 55 + n

-- The loop of generateToken, with the rounds that are left.
unfoldable pub hex_of_draws {ℓ} : {R : Type ℓ} → (R → R × ℕ) → ℕ → R → R × Text
unfolding hex_digit
hex_of_draws draw zero rng = (rng, [])
hex_of_draws draw (suc rounds) rng =
    let (rng', value) = draw rng in
    let (rng'', rest) = hex_of_draws draw rounds rng' in
    (rng'', hex_digit (value / 16) ∷ hex_digit (value % 16) ∷ rest)

unfoldable pub generate_token {ℓ} : {R : Type ℓ} → (R → R × ℕ) → R → R × Text
unfolding hex_of_draws
generate_token draw rng = hex_of_draws draw 16 rng

-- What issueToken keeps of a generated token.
unfoldable pub issue_token : Text → Text → ℕ → TokenService → TokenService
issue_token token user_id now s = record s {
  tokens = put_text token (record { user_id = user_id; expires_at = now + s.ttl }) s.tokens;
}

unfoldable pub validate_token : Text → ℕ → TokenService → TokenService × Option Text
validate_token token now s = elim (find_text token s.tokens) [
  | none ↦ (s, none)
  | some entry ↦
      if leb entry.expires_at now
      then (record s { tokens = erase_text token s.tokens }, none)
      else (s, some entry.user_id)
]
