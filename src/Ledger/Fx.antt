-- ===== src/Ledger/Fx.antt =====
-- src/ledgergate/ledger/fx.py: `price` and `conversion_entry`, which ask a source of rates once. The
-- source may raise and keeps a state of its own.
use ledgergate.Base.{◌==◌, not, if◌then◌else◌}
use ledgergate.Text.{Text}
use ledgergate.Errors.{raise_if, invalid_amount, amount_not_positive, aliased_legs}
use ledgergate.Exec.{Exec, pure, lift, ◌>>=◌, ◌>>◌}
use ledgergate.Ledger.Currency.{Currency, currency_eq}
use ledgergate.Ledger.Fraction.{Fraction}
use ledgergate.Ledger.Money.{Money, is_positive}
use ledgergate.Ledger.Rounding.{RoundingMode}
use ledgergate.Ledger.Postings.{EntryDraft}
use ledgergate.Ledger.Sources.{one_rate}
use ledgergate.Ledger.Conversion.{Conversion, Legs, leg_ids, has_alias, priced_at, conversion_draft}

module _ {W : Type 0} (rates : Currency → Currency → Exec W Fraction) where
  -- `price(money, to, rates, rounding)`
  unfoldable pub price : Money → Currency → RoundingMode → Exec W Conversion
  unfolding priced_at
  price money to mode = do
    rate ← if money.currency == to then pure one_rate else rates money.currency to
    lift (priced_at money to mode rate)

  -- `conversion_entry(money, to, rates, ...)`
  unfoldable pub conversion_entry :
      Money → Currency → Legs → RoundingMode → Text → Exec W EntryDraft
  unfolding price is_positive has_alias conversion_draft
  conversion_entry money to legs mode description = do
    lift (raise_if (not (is_positive money)) (invalid_amount amount_not_positive))
    lift (raise_if (has_alias (leg_ids money to legs)) (invalid_amount aliased_legs))
    priced ← price money to mode
    lift (conversion_draft money to legs description priced)
