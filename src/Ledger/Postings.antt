-- ===== src/Ledger/Postings.antt =====
-- src/ledgergate/ledger/entries.py: postings and balanced drafts. `make_posting` and `make_draft`
-- are the constructors with their tests.
use ledgergate.Base.{
  Bool, false, not, ◌&&◌, ◌||◌, Option, List, [], ◌∷◌, ◌++◌, map, ◌==◌, nat_eq, list_eq,
  if◌then◌else◌, ltb, any, length,
}
use ledgergate.Text.{Text, text, strip, text_lt}
use ledgergate.Int.{ℤ, pos, ◌+ℤ◌, ltb_ℤ, int_eq}
use ledgergate.Dict.{Dict, lookup, insert, get_or}
use ledgergate.Errors.{
  Result, ok, ◌>>=◌, ◌>>◌, raise_if, invalid_amount, posting_not_positive, empty_entry,
  unbalanced_entry, bad_tag_key, repeated_tag_key,
}
use ledgergate.Ledger.Currency.{Currency, currency_eq}
use ledgergate.Ledger.Money.{Money, is_positive}
use ledgergate.Ledger.Accounts.{Side, debit, side_eq, opposite, times_sign}

pub record Posting : Type 0 where
  pub account_id : Text
  pub side : Side
  pub money : Money

-- `Posting(account_id, side, money)`
unfoldable pub make_posting : Text → Side → Money → Result Posting
unfolding is_positive
make_posting account_id side money = do
  raise_if (not (is_positive money)) (invalid_amount posting_not_positive)
  ok (record { account_id = account_id; side = side; money = money })

-- `Posting.signed_amount`, debit positive.
unfoldable pub signed_amount : Posting → ℤ
unfolding times_sign
signed_amount p = times_sign p.side p.money.amount

-- `Posting.flipped`
unfoldable pub flipped : Posting → Result Posting
unfolding make_posting opposite
flipped p = make_posting p.account_id (opposite p.side) p.money

-- The loop of `net_by_currency`.
unfoldable pub net_from : Dict Currency ℤ → List Posting → Dict Currency ℤ
net_from net [] = net
net_from net (p ∷ postings) =
    net_from (insert p.money.currency (get_or p.money.currency (pos 0) net +ℤ signed_amount p) net)
      postings

unfoldable pub net_by_currency : List Posting → Dict Currency ℤ
unfolding net_from
net_by_currency postings = net_from [] postings

pub record EntryDraft : Type 0 where
  pub postings : List Posting
  pub description : Text
  pub tags : List (Text × Text)

-- The order of two tags as Python's tuples.
unfoldable pub tag_lt : Text × Text → Text × Text → Bool
tag_lt (k, v) (k', v') = text_lt k k' || k == k' && text_lt v v'

unfoldable pub insert_tag : Text × Text → List (Text × Text) → List (Text × Text)
insert_tag t [] = t ∷ []
insert_tag t (u ∷ us) = let rest = insert_tag t us in if tag_lt u t then u ∷ rest else t ∷ u ∷ us

-- `sorted(tags)`
unfoldable pub sort_tags : List (Text × Text) → List (Text × Text)
unfolding insert_tag
sort_tags [] = []
sort_tags (t ∷ ts) = insert_tag t (sort_tags ts)

-- The comprehension of `imbalance` over what it holds so far.
unfoldable pub imbalance_from : Dict Text ℤ → Dict Currency ℤ → Dict Text ℤ
imbalance_from off [] = off
imbalance_from off ((c, n) ∷ net) =
    imbalance_from (if n == pos 0 then off else insert c.code n off) net

-- `{c.code: n for c, n in net.items() if n != 0}`: of two currencies with one code the later is held.
unfoldable pub imbalance : Dict Currency ℤ → Dict Text ℤ
unfolding imbalance_from
imbalance net = imbalance_from [] net

-- Whether `len({k for k, _ in tags}) != len(tags)`.
unfoldable pub repeats_key : List (Text × Text) → Bool
repeats_key [] = false
repeats_key ((k, _) ∷ ts) = any (λ (t : Text × Text). t.0 == k) ts || repeats_key ts

unfoldable pub is_bad_tag : Text × Text → Bool
is_bad_tag (k, _) = not (k == strip k) || k == []

-- `EntryDraft(postings, description, tags)`; that every element is a posting is the type.
unfoldable pub make_draft : List Posting → Text → List (Text × Text) → Result EntryDraft
make_draft postings description given =
    let tags = sort_tags given in
    let off = imbalance (net_by_currency postings) in
    raise_if (ltb (length postings) 2) empty_entry
    >> (raise_if (not (length off == 0)) (unbalanced_entry off)
        >> (raise_if (any is_bad_tag tags) (invalid_amount bad_tag_key)
            >> (raise_if (repeats_key tags) (invalid_amount repeated_tag_key)
                >> ok (record { postings = postings; description = description; tags = tags }))))

-- The keys of `dict.fromkeys(...)` over what is seen so far.
unfoldable pub distinct_from : Dict Text (Unit {0}) → List Text → Dict Text (Unit {0})
distinct_from seen [] = seen
distinct_from seen (k ∷ ks) = distinct_from (insert k tt seen) ks

-- `draft.account_order`
unfoldable pub account_order : EntryDraft → List Text
unfolding distinct_from
account_order draft =
    map (λ e. e.0) (distinct_from [] (map (λ (p : Posting). p.account_id) draft.postings))

-- `draft.tag(key)`
unfoldable pub tag : EntryDraft → Text → Option Text
tag draft key = lookup key draft.tags

unfoldable pub debited : Currency → List Posting → ℤ
debited c [] = pos 0
debited c (p ∷ ps) =
    (if p.side == debit && p.money.currency == c then p.money.amount else pos 0) +ℤ debited c ps

-- `draft.gross(currency)`
unfoldable pub gross : EntryDraft → Currency → Money
unfolding debited
gross draft c = record { amount = debited c draft.postings; currency = c }

-- The loop of `moved`: the net movement of each account in one currency.
unfoldable pub net_by_account : Currency → Dict Text ℤ → List Posting → Dict Text ℤ
net_by_account c net [] = net
net_by_account c net (p ∷ ps) =
    net_by_account c
      (if p.money.currency == c
        then insert p.account_id (get_or p.account_id (pos 0) net +ℤ signed_amount p) net
        else net)
      ps

unfoldable pub sum_positive : Dict Text ℤ → ℤ
sum_positive [] = pos 0
sum_positive ((_, n) ∷ net) = (if ltb_ℤ (pos 0) n then n else pos 0) +ℤ sum_positive net

-- `draft.moved(currency)`
unfoldable pub moved : EntryDraft → Currency → Money
unfolding net_by_account sum_positive
moved draft c = record { amount = sum_positive (net_by_account c [] draft.postings); currency = c }

unfoldable pub flip_all : List Posting → Result (List Posting)
flip_all [] = ok []
flip_all (p ∷ ps) = do q ← flipped p; qs ← flip_all ps; ok (q ∷ qs)

-- `draft.reversed(description)`
unfoldable pub reversed : EntryDraft → Text → Result EntryDraft
unfolding flip_all
reversed draft description = do
  postings ← flip_all draft.postings
  make_draft postings
      (if description == [] then text "reversal: " ++ draft.description else description) draft.tags

-- `draft.currencies`, a set, in the order of the postings
unfoldable pub draft_currencies : EntryDraft → List Currency
unfolding net_by_currency
draft_currencies d = map (λ e. e.0) (net_by_currency d.postings)

-- `draft.account_ids`, a set, in the order of the postings
unfoldable pub account_ids : EntryDraft → List Text
unfolding account_order
account_ids d = account_order d
