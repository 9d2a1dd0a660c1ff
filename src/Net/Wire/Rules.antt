-- ===== src/Net/Wire/Rules.antt =====
-- The rules by which a sequence of reads of src/net/protocol.cpp is checked.
use gameserver_hide.Base.{List, Text, length, ◌≤◌}
use gameserver_hide.Net.Wire.{
  IsTextList, read_string, read_string_list, write_string, write_string_list, u16_max,
}
use gameserver_hide.Net.Wire.Reads.{
  Parses, Parses-pure, Parses-bind, Parses-flag, Parses-u16, Parses-u32, Parses-u64, Parses-string,
  Parses-list,
}
use gameserver_hide.Net.Wire.Stable.{
  IsStable, IsStable-pure, IsStable-bind, IsStable-flag, IsStable-u16, IsStable-u32, IsStable-u64,
  IsStable-string, IsStable-list,
}

pub Parses-string_list :
    (xs : List Text) → IsTextList xs → Parses read_string_list (write_string_list xs) xs
unfolding read_string_list write_string_list
Parses-string_list xs h =
    Parses-list read_string write_string (λ x. length x ≤ u16_max) Parses-string xs h.0 h.1

pub IsStable-string_list : IsStable read_string_list
unfolding read_string_list
IsStable-string_list = IsStable-list read_string IsStable-string

pub ruleset parse_rules = (
  Parses-pure, Parses-bind, Parses-flag, Parses-u16, Parses-u32, Parses-u64, Parses-string,
  Parses-string_list,
)

pub ruleset stable_rules = (
  IsStable-pure, IsStable-bind, IsStable-flag, IsStable-u16, IsStable-u32, IsStable-u64,
  IsStable-string, IsStable-string_list,
)
