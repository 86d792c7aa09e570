-- ===== src/Ledger/Currency.antt =====
-- src/ledgergate/ledger/money.py: `Currency`, the bundled currencies, `Money` and its arithmetic.
use ledgergate.Base.{
  ℕ, ◌^◌, Bool, false, not, ◌&&◌, [], ◌∷◌, leb, Eq, nat_eq, list_eq, ℕ_discrete, list_dec,
}
use ledgergate.Text.{Text, text}
use ledgergate.Int.{ℤ, pos, leb_ℤ, pos_part, int_eq}
use ledgergate.Dict.{Dict, lookup}
use ledgergate.Errors.{
  Result, ok, ◌>>◌, raise_if, or_raise, invalid_amount, bad_code, bad_exponent, unknown_currency,
}

pub record Currency : Type 0 where
  pub code : Text
  pub exponent : ℕ

unfoldable pub currency_dec : Discrete Currency
unfolding list_dec
currency_dec a b = elim (list_dec ℕ_discrete a.code b.code) [
  | yes p ↦ elim (ℕ_discrete a.exponent b.exponent) [ yes q ↦ yes (cc) | no q ↦ no (λ r. q (cc)) ]
  | no p ↦ no (λ r. p (cc))
]

instance abbrev pub currency_eq : Eq Currency
currency_eq = record { dec = currency_dec }

-- `_CODE.fullmatch`: three letters from A to Z.
unfoldable pub is_code : Text → Bool
is_code (a ∷ b ∷ c ∷ []) =
    leb b'A' a && leb a b'Z' && leb b'A' b && leb b b'Z' && leb b'A' c && leb c b'Z'
is_code _ = false

-- `Currency(code, exponent)`
unfoldable pub make_currency : Text → ℤ → Result Currency
unfolding is_code
make_currency code exponent = do
  raise_if (not (is_code code)) (invalid_amount bad_code)
  raise_if (not (leb_ℤ (pos 0) exponent && leb_ℤ exponent (pos 6))) (invalid_amount bad_exponent)
  ok (record { code = code; exponent = pos_part exponent })

-- `Currency.unit`
unfoldable pub unit : Currency → ℕ
unit c = 10 ^ c.exponent

abbrev pub usd : Currency
usd = record { code = text "USD"; exponent = 2 }

abbrev pub eur : Currency
eur = record { code = text "EUR"; exponent = 2 }

abbrev pub gbp : Currency
gbp = record { code = text "GBP"; exponent = 2 }

abbrev pub jpy : Currency
jpy = record { code = text "JPY"; exponent = 0 }

abbrev pub inr_currency : Currency
inr_currency = record { code = text "INR"; exponent = 2 }

abbrev pub chf : Currency
chf = record { code = text "CHF"; exponent = 2 }

abbrev pub kwd : Currency
kwd = record { code = text "KWD"; exponent = 3 }

-- `CURRENCIES`
unfoldable pub currencies : Dict Text Currency
currencies =
    (usd.code, usd)
    ∷ (eur.code, eur)
    ∷ (gbp.code, gbp)
    ∷ (jpy.code, jpy)
    ∷ (inr_currency.code, inr_currency)
    ∷ (chf.code, chf)
    ∷ (kwd.code, kwd)
    ∷ []

-- `currency(code)`
unfoldable pub find_currency : Text → Result Currency
unfolding currencies
find_currency code = or_raise (lookup code currencies) (invalid_amount unknown_currency)
