-- ===== src/Ledger/Conversion.antt =====
-- src/ledgergate/ledger/fx.py: a priced conversion and the postings that move it.
use ledgergate.Base.{
  ℕ, Bool, not, List, [], ◌∷◌, ◌++◌, ◌==◌, nat_eq, list_eq, if◌then◌else◌, length,
}
use ledgergate.Text.{Text, text}
use ledgergate.Text.Decimal.{decimal}
use ledgergate.Int.{ℤ}
use ledgergate.Errors.{Result, ok, ◌>>=◌, ◌>>◌, raise_if, invalid_amount, below_minor_unit}
use ledgergate.Ledger.Currency.{Currency, currency_eq}
use ledgergate.Ledger.Fraction.{Fraction}
use ledgergate.Ledger.Money.{Money, is_positive, show_money}
use ledgergate.Ledger.Rounding.{RoundingMode, convert}
use ledgergate.Ledger.Accounts.{debit, credit}
use ledgergate.Ledger.Postings.{Posting, make_posting, EntryDraft, make_draft, distinct_from}
use ledgergate.Text.Integer.{show_int}

pub record Conversion : Type 0 where
  pub origin : Money
  pub destination : Money
  pub rate_numerator : ℤ
  pub rate_denominator : ℕ

-- `conversion.rate`
unfoldable pub show_rate : Conversion → Text
unfolding show_int decimal
show_rate c = show_int c.rate_numerator ++ (text "/" ++ decimal c.rate_denominator)

-- The arguments of `conversion_entry` after the rates.
pub record Legs : Type 0 where
  pub source_account : Text
  pub destination_account : Text
  pub source_clearing : Text
  pub destination_clearing : Text

-- `legs`
abbrev pub leg_ids : Money → Currency → Legs → List Text
leg_ids money to legs =
    if money.currency == to
    then legs.source_account ∷ legs.destination_account ∷ []
    else legs.source_account ∷ legs.source_clearing ∷ legs.destination_clearing
      ∷ legs.destination_account ∷ []

-- `len(set(legs)) != len(legs)`
unfoldable pub has_alias : List Text → Bool
unfolding distinct_from
has_alias ids = not (length (distinct_from [] ids) == length ids)

-- `description or f"convert ..."`
unfoldable pub label_of : Text → Conversion → Text
unfolding show_money show_rate
label_of description c =
    if length description == 0
    then text "convert "
      ++ (show_money c.origin
          ++ (text " to " ++ (show_money c.destination ++ (text " @ " ++ show_rate c))))
    else description

-- `fx_rate=priced.rate`
abbrev pub rate_tags : Conversion → List (Text × Text)
rate_tags c = (text "fx_rate", show_rate c) ∷ []

-- The two postings of a transfer.
unfoldable pub transfer_legs : Money → Legs → Result (List Posting)
unfolding make_posting
transfer_legs money legs = do
  out ← make_posting legs.source_account credit money
  into ← make_posting legs.destination_account debit money
  ok (out ∷ into ∷ [])

-- The four postings through clearing.
unfoldable pub clearing_legs : Conversion → Legs → Result (List Posting)
unfolding make_posting
clearing_legs priced legs = do
  out ← make_posting legs.source_account credit priced.origin
  held ← make_posting legs.source_clearing debit priced.origin
  given ← make_posting legs.destination_clearing credit priced.destination
  into ← make_posting legs.destination_account debit priced.destination
  ok (out ∷ held ∷ given ∷ into ∷ [])

-- The postings once the conversion is priced.
unfoldable pub conversion_legs : Money → Currency → Conversion → Legs → Result (List Posting)
unfolding transfer_legs clearing_legs is_positive
conversion_legs money to priced legs =
    if money.currency == to
    then transfer_legs money legs
    else raise_if (not (is_positive priced.destination)) (invalid_amount below_minor_unit)
      >> clearing_legs priced legs

-- The conversion at a rate.
unfoldable pub priced_at : Money → Currency → RoundingMode → Fraction → Result Conversion
unfolding convert
priced_at money to mode rate = do
  destination ← convert money rate to mode
  ok (record {
    origin = money;
    destination = destination;
    rate_numerator = rate.numerator;
    rate_denominator = rate.denominator;
  })

-- The draft once the conversion is priced.
unfoldable pub conversion_draft : Money → Currency → Legs → Text → Conversion → Result EntryDraft
unfolding conversion_legs make_draft label_of
conversion_draft money to legs description priced = do
  postings ← conversion_legs money to priced legs
  make_draft postings (label_of description priced) (rate_tags priced)
