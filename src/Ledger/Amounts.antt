-- ===== src/Ledger/Amounts.antt =====
-- Runs of parsing, and the theorems on money, effects, conversions and history, at small inputs.
use ledgergate.Ledger.Parsing.{parse}
use ledgergate.Base.{
  ltb, Option, none, if◌then◌else◌, ◌-◌, ◌≢◌, ℕ, ◌+◌, ◌≡◌, refl, true, false, some, List, [], ◌∷◌,
  ◌++◌, arith, length, ◌==◌, ℕ_discrete, nat_eq, list_eq,
}
use ledgergate.Text.{text}
use ledgergate.Int.{pos, negsuc, ◌+ℤ◌}
use ledgergate.Dict.{lookup, get_or}
use ledgergate.Errors.{ok}
use ledgergate.Exec.{Exec}
use ledgergate.Ledger.Currency.{currency_eq, Currency, usd, eur, currency_dec}
use ledgergate.Ledger.Money.{Money, total, is_positive}
use ledgergate.Ledger.Fraction.{Fraction}
use ledgergate.Ledger.Allocation.{allocate, split}
use ledgergate.Ledger.AllocationLaws.{allocate_conserves, split_conserves}
use ledgergate.Ledger.Rounding.{half_even, floor, round_fraction, convert}
use ledgergate.Ledger.RoundingLaws.{
  IsNearest, IsFloor, round_fraction-IsNearest, round_fraction-IsFloor,
}
use ledgergate.Ledger.Sources.{SequentialIds, sequential_id}
use ledgergate.Ledger.SourcesLaws.{drawn, sequential_id_once}
use ledgergate.Ledger.Postings.{is_bad_tag, EntryDraft, flipped, reversed}
use ledgergate.Ledger.Balance.{IsDraft}
use ledgergate.Ledger.Encoding.{Entry}
use ledgergate.Ledger.Conversion.{Legs}
use ledgergate.Ledger.Fx.{conversion_entry}
use ledgergate.Ledger.FxLaws.{through_clearing, conversion_entry_lem}
use ledgergate.Ledger.Commands.{Applied, reverse, command_fingerprint}
use ledgergate.Ledger.State.{execute, entry_request, with_entry, new_entry}
use ledgergate.Ledger.Books.{moved_of}
use ledgergate.Ledger.History.{entries_extend, reverse_restores}
use ledgergate.Ledger.Samples.{
  platform, effects, accounts, chart_made, after_sale, sold, running, dollars, refund_of_sale, noon,
  after_open, after_cancel, cancels,
}

allocate_conserves_example :
    (parts : List Money) × (allocate (dollars 100) (pos 1 ∷ pos 1 ∷ pos 1 ∷ []) ≡ ok parts)
    × (length parts ≡ 3)
    × (total parts usd ≡ ok (dollars 100))
allocate_conserves_example =
    allocate_conserves (dollars 100) (pos 1 ∷ pos 1 ∷ pos 1 ∷ []) (refl, omega arith)

thirds :
    allocate (dollars 100) (pos 1 ∷ pos 1 ∷ pos 1 ∷ [])
    ≡ ok (dollars 34 ∷ dollars 33 ∷ dollars 33 ∷ [])
unfolding allocate ℕ_discrete
thirds = refl

split_conserves_example :
    (parts : List Money) × (split (dollars 100) (pos 7) ≡ ok parts)
    × (length parts ≡ 7)
    × (total parts usd ≡ ok (dollars 100))
split_conserves_example = split_conserves (dollars 100) 7 (omega arith)

abbrev minus_two_and_a_half : Fraction
minus_two_and_a_half = record { numerator = negsuc 4; denominator = 2 }

rounds_to_even : round_fraction minus_two_and_a_half half_even ≡ negsuc 1
unfolding round_fraction ℕ_discrete ◌+ℤ◌
rounds_to_even = refl

round_fraction-IsNearest_example :
    IsNearest (round_fraction minus_two_and_a_half half_even) minus_two_and_a_half
round_fraction-IsNearest_example =
    round_fraction-IsNearest minus_two_and_a_half half_even (omega arith) refl

round_fraction-IsFloor_example :
    IsFloor (round_fraction minus_two_and_a_half floor) minus_two_and_a_half
round_fraction-IsFloor_example = round_fraction-IsFloor minus_two_and_a_half (omega arith)

abbrev ids : SequentialIds
ids = record { prefix = text "e"; counter = 1; width = 6 }

sequential_id_once_example : (sequential_id (drawn 0 ids)).0 ≢ (sequential_id (drawn 12 ids)).0
sequential_id_once_example = sequential_id_once ids 0 12 (omega arith)

abbrev legs : Legs
legs = record {
  source_account = text "a";
  destination_account = text "b";
  source_clearing = text "x";
  destination_clearing = text "y";
}

-- 0.92 euros to the dollar.
abbrev rate : Fraction
rate = record { numerator = pos 23; denominator = 25 }

abbrev rates : Currency → Currency → Exec ℕ Fraction
rates base quote n = (ok rate, n + 1)

abbrev euros : Money
euros = record { amount = pos 92; currency = eur }

abbrev converted : EntryDraft
converted = record {
  postings = through_clearing legs (dollars 100) euros;
  description = text "d";
  tags = (text "fx_rate", text "23/25") ∷ [];
}

conversion_returns :
    conversion_entry rates (dollars 100) eur legs half_even (text "d") 4 ≡ (ok converted, 5)
unfolding running conversion_entry is_bad_tag
conversion_returns = refl

two_currencies : ((dollars 100).currency == eur) ≡ false
unfolding currency_dec ℕ_discrete
two_currencies = refl

conversion_entry_lem_example :
    (r : Fraction) × (arrives : Money) × (rates usd eur 4 ≡ (ok r, 5))
    × (convert (dollars 100) r eur half_even ≡ ok arrives)
    × IsDraft converted
    × (converted.postings ≡ through_clearing legs (dollars 100) arrives)
    × (is_positive arrives ≡ true)
conversion_entry_lem_example =
    conversion_entry_lem rates (dollars 100) eur legs half_even (text "d") 4 5 two_currencies
      conversion_returns

entries_extend_example :
    (new : List Entry) × (after_cancel.ledger.entries ≡ after_open.ledger.entries ++ new)
entries_extend_example = entries_extend platform effects cancels

abbrev after_reverse : Applied
after_reverse =
    with_entry platform after_sale.ledger
      (entry_request (text "r")
        (command_fingerprint platform (reverse (text "r") (text "e0") (text "back"))) refund_of_sale
        (some (text "e0")))
      ((text "cash", pos 0) ∷ (text "sales", pos 0) ∷ [])
      (new_entry platform after_sale.ledger
        (entry_request (text "r")
          (command_fingerprint platform (reverse (text "r") (text "e0") (text "back")))
          refund_of_sale (some (text "e0")))
        (text "e1") noon)

reverse_returns :
    execute platform effects after_sale.ledger (reverse (text "r") (text "e0") (text "back")) 1
    ≡ (ok after_reverse, 2)
unfolding running flipped reversed
reverse_returns = refl

reverse_restores_example :
    (o : Entry) × (lookup (text "e0") after_sale.ledger.by_id ≡ some o)
    × (get_or (text "cash") (pos 0) after_reverse.ledger.balances
          +ℤ moved_of (text "cash") o.draft.postings
        ≡ get_or (text "cash") (pos 0) after_sale.ledger.balances)
unfolding with_entry
reverse_restores_example =
    reverse_restores platform effects accounts (text "r") (text "e0") (text "back") 1 2
      (text "cash") chart_made sold reverse_returns refl

abbrev ascii_digit : ℕ → Option ℕ
ascii_digit c = if ltb c 48 then none else if ltb 57 c then none else some (c - 48)

parses :
    parse ascii_digit (text " -19.9 ") usd ≡ ok (record { amount = negsuc 1989; currency = usd })
unfolding parse ℕ_discrete
parses = refl
