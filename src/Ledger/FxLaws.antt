-- ===== src/Ledger/FxLaws.antt =====
-- src/ledgergate/ledger/fx.py: what a conversion entry moves.
use ledgergate.Base.{◌≡◌, sym, ap, ◌∙◌, true, false, not, List, [], ◌∷◌, arith, ◌==◌}
use ledgergate.Text.{Text}
use ledgergate.Errors.{Result, ok, raise_if, raise_if-ok, >>=-eq-ok, ok-injective}
use ledgergate.Exec
use ledgergate.Exec.{Exec, lift, lift-eq-ok}
use ledgergate.Ledger.Currency.{Currency, currency_eq}
use ledgergate.Ledger.Money.{Money, is_positive}
use ledgergate.Ledger.Fraction.{Fraction}
use ledgergate.Ledger.Rounding.{RoundingMode, convert}
use ledgergate.Ledger.Accounts.{Side, debit, credit}
use ledgergate.Ledger.Postings.{Posting, make_posting, EntryDraft}
use ledgergate.Ledger.Balance.{IsDraft, make_draft-IsDraft}
use ledgergate.Ledger.Conversion.{
  Conversion, Legs, leg_ids, has_alias, clearing_legs, conversion_legs, conversion_draft, priced_at,
}
use ledgergate.Ledger.Fx.{price, conversion_entry}

abbrev pub leg : Text → Side → Money → Posting
leg id side money = record { account_id = id; side = side; money = money }

-- The four legs: the origin leaves the source account for clearing, and the destination leaves
-- clearing for the destination account.
abbrev pub through_clearing : Legs → Money → Money → List Posting
through_clearing legs origin destination =
    leg legs.source_account credit origin
    ∷ leg legs.source_clearing debit origin
    ∷ leg legs.destination_clearing credit destination
    ∷ leg legs.destination_account debit destination
    ∷ []

make_posting-eq :
    (id : Text) (side : Side) (money : Money) {p : Posting}
    → make_posting id side money ≡ ok p
    → p ≡ leg id side money
unfolding make_posting
make_posting-eq id side money h =
    let (_, _, made) = >>=-eq-ok (raise_if (not (is_positive money)) _) _ h in
    sym (ok-injective made)

clearing_legs-eq :
    (c : Conversion) (legs : Legs) {ps : List Posting}
    → clearing_legs c legs ≡ ok ps
    → ps ≡ through_clearing legs c.origin c.destination
unfolding clearing_legs
clearing_legs-eq c legs h =
    let (p, e1, h1) = >>=-eq-ok (make_posting legs.source_account credit c.origin) _ h in
    let (q, e2, h2) = >>=-eq-ok (make_posting legs.source_clearing debit c.origin) _ h1 in
    let (r, e3, h3) =
      >>=-eq-ok (make_posting legs.destination_clearing credit c.destination) _ h2 in
    let (s, e4, h4) = >>=-eq-ok (make_posting legs.destination_account debit c.destination) _ h3 in
    let f1 = make_posting-eq legs.source_account credit c.origin e1 in
    let f2 = make_posting-eq legs.source_clearing debit c.origin e2 in
    let f3 = make_posting-eq legs.destination_clearing credit c.destination e3 in
    let f4 = make_posting-eq legs.destination_account debit c.destination e4 in
    sym (ok-injective h4) ∙ cc

-- A draft for a conversion between two currencies is valid, and its postings are the four legs with
-- what the price converts to; that is positive.
pub conversion_draft_lem :
    (money : Money) (to : Currency) (legs : Legs) (description : Text) (priced : Conversion)
    {d : EntryDraft}
    → (money.currency == to) ≡ false
    → conversion_draft money to legs description priced ≡ ok d
    → IsDraft d
      × (d.postings ≡ through_clearing legs priced.origin priced.destination)
      × (is_positive priced.destination ≡ true)
unfolding conversion_draft conversion_legs
conversion_draft_lem money to legs description priced {d} other h =
    let (ps, made, drafted) = >>=-eq-ok (conversion_legs money to priced legs) _ h in
    let (valid, same) = make_draft-IsDraft ps _ _ d drafted in
    let (_, tested, cleared) =
      >>=-eq-ok (raise_if (not (is_positive priced.destination)) _) _ (rw other at made) in
    (valid, same ∙ clearing_legs-eq priced legs cleared, ground (arith, raise_if-ok _ _ tested))

-- What a price holds: the money, and its conversion at the rate.
priced_at-eq :
    (money : Money) (to : Currency) (mode : RoundingMode) (rate : Fraction) {c : Conversion}
    → priced_at money to mode rate ≡ ok c
    → (c.origin ≡ money) × (convert money rate to mode ≡ ok c.destination)
unfolding priced_at
priced_at-eq money to mode rate {c} h =
    let (m, converted, made) = >>=-eq-ok (convert money rate to mode) _ h in
    let same = ok-injective made in
    (
      sym (ap (λ (x : Conversion). x.origin) same),
      converted ∙ ap (λ (x : Conversion). ok x.destination) same,
    )

-- A computation that consumes no effect leaves their state.
lift-parts :
    {W A : Type 0} (r : Result A) (w w' : W) {a : A} → lift r w ≡ (ok a, w') → (r ≡ ok a) × (w ≡ w')
lift-parts r w w' h = (ap (λ x. x.0) h, ap (λ x. x.1) h)

module _ {W : Type 0} (rates : Currency → Currency → Exec W Fraction) where
  -- Between two currencies a price asks the source once.
  price-parts :
      (money : Money) (to : Currency) (mode : RoundingMode) (w w' : W) {c : Conversion}
      → (money.currency == to) ≡ false
      → price rates money to mode w ≡ (ok c, w')
      → (rate : Fraction) × (rates money.currency to w ≡ (ok rate, w'))
        × (c.origin ≡ money)
        × (convert money rate to mode ≡ ok c.destination)
  unfolding price
  price-parts money to mode w w' other h =
      let (rate, v, gave, rest) =
        Exec.>>=-eq-ok (rates money.currency to) (λ r. lift (priced_at money to mode r)) w w'
          (rw other at h) in
      let (priced, same) = lift-parts (priced_at money to mode rate) v w' rest in
      let (origin, converted) = priced_at-eq money to mode rate priced in
      (rate, gave ∙ ap (λ x. (ok rate, x)) same, origin, converted)

  -- When `conversion_entry` returns a draft for two different currencies, the rate source gave a
  -- rate for them, and the draft is valid and posts the four legs: the money out of the source
  -- account into clearing, and what it converts to at that rate, which is positive, out of clearing
  -- into the destination account.
  pub conversion_entry_lem :
      (money : Money) (to : Currency) (legs : Legs) (mode : RoundingMode) (description : Text)
      (w w' : W) {d : EntryDraft}
      → (money.currency == to) ≡ false
      → conversion_entry rates money to legs mode description w ≡ (ok d, w')
      → (rate : Fraction) × (arrives : Money) × (rates money.currency to w ≡ (ok rate, w'))
        × (convert money rate to mode ≡ ok arrives)
        × IsDraft d
        × (d.postings ≡ through_clearing legs money arrives)
        × (is_positive arrives ≡ true)
  unfolding conversion_entry
  conversion_entry_lem money to legs mode description w w' {d} other h =
      let (_, _, h1) = lift-eq-ok (raise_if (not (is_positive money)) _) _ w w' h in
      let (_, _, h2) = lift-eq-ok (raise_if (has_alias (leg_ids money to legs)) _) _ w w' h1 in
      let (priced, u, asked, h3) = Exec.>>=-eq-ok (price rates money to mode) _ w w' h2 in
      let (drafted, same) =
        lift-parts (conversion_draft money to legs description priced) u w' h3 in
      let (rate, gave, origin, converted) = price-parts money to mode w u other asked in
      let (valid, posted, positive) =
        conversion_draft_lem money to legs description priced other drafted in
      (
        rate,
        priced.destination,
        gave ∙ ap (λ x. (ok rate, x)) same,
        converted,
        valid,
        posted ∙ ap (λ m. through_clearing legs m priced.destination) origin,
        positive,
      )
