-- ===== src/Ledger/Identifiers.antt =====
-- src/ledgergate/ledger/identifiers.py
use ledgergate.Base.{ℕ, Bool, not, [], ◌∷◌, any, ◌==◌, ltb, length, nat_eq, list_eq}
use ledgergate.Text.{Text, strip}
use ledgergate.Errors.{
  Result, ok, ◌>>◌, raise_if, invalid_identifier, empty_value, padded, multi_line, too_long,
}

abbrev pub max_identifier_length : ℕ
max_identifier_length = 256

-- `LINE_BREAKS`
abbrev pub line_breaks : Text
line_breaks = 0x0d ∷ 0x0a ∷ 0x0b ∷ 0x0c ∷ 0x1c ∷ 0x1d ∷ 0x1e ∷ 0x85 ∷ 0x2028 ∷ 0x2029 ∷ 0x00 ∷ []

unfoldable pub is_line_break : ℕ → Bool
is_line_break c = any (λ b. c == b) line_breaks

-- The type test is the type. A value is a `str` here.
unfoldable pub require_identifier : Text → Text → Result Text
unfolding is_line_break
require_identifier value what = do
  raise_if (value == []) (invalid_identifier what empty_value)
  raise_if (not (value == strip value)) (invalid_identifier what padded)
  raise_if (any is_line_break value) (invalid_identifier what multi_line)
  raise_if (ltb max_identifier_length (length value)) (invalid_identifier what too_long)
  ok value
