-- ===== src/Codec/Samples.antt =====
-- A registry, and a draft that the codec admits, for the tests.
use ledgergate.Base.{refl, [], ◌∷◌, nat_eq, list_eq, list_dec, ℕ_discrete}
use ledgergate.Text.{text}
use ledgergate.Dict.{lookup}
use ledgergate.Ledger.Currency.{usd}
use ledgergate.Ledger.Money.{is_positive}
use ledgergate.Ledger.Samples.{sale, sale_made}
use ledgergate.Codec.Draft.{Registry}
use ledgergate.Codec.RoundTrip.{IsEncodable}

abbrev pub registry : Registry
registry = (text "USD", usd) ∷ []

pub sale-IsEncodable : IsEncodable registry sale
unfolding ℕ_discrete list_dec is_positive lookup
sale-IsEncodable = record {
  constructed = sale_made;
  coded = ((refl, refl), ((refl, refl), tt));
  few = refl;
  brief = refl;
  few_tags = refl;
  brief_tags = refl;
}
