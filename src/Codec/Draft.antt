-- ===== src/Codec/Draft.antt =====
-- src/ledgergate/codec/commands.py: money and drafts, to their documents and back.
use ledgergate.Base.{
  ℕ, suc, Bool, not, ◌||◌, Option, none, some, List, [], ◌∷◌, ◌++◌, ◌==◌, list_eq, nat_eq,
  if◌then◌else◌, ltb, any, length,
}
use ledgergate.Text.{Text, text}
use ledgergate.Text.Decimal.{decimal}
use ledgergate.Dict.{Dict, lookup}
use ledgergate.Errors.{Result, ok, err, ◌>>=◌, ◌>>◌, raise_if, or_raise, codec_error}
use ledgergate.Ledger.Currency.{Currency}
use ledgergate.Ledger.Money.{Money}
use ledgergate.Ledger.Accounts.{Side, debit, credit, side_value}
use ledgergate.Ledger.Postings.{Posting, make_posting, EntryDraft, make_draft, sort_tags}
use ledgergate.Codec.Json.{
  Json, string, integer, array, object, Items, no_items, item, Members, no_members, member, find,
  get_or_null, set_member, append_members, keys_in, is_one_of, count_items, at_member, expect,
  text_field, integer_field, items_field, optional_text,
}

-- `_money(money)`
unfoldable pub encode_money : Money → Json
encode_money m = object (
    member (text "amount") (integer m.amount)
      (member (text "currency") (string m.currency.code) no_members))

unfoldable pub encode_posting : Posting → Json
unfolding encode_money side_value
encode_posting p = object (
    member (text "account") (string p.account_id) (
      member (text "side") (string (side_value p.side))
        (member (text "money") (encode_money p.money) no_members)))

unfoldable pub encode_postings : List Posting → Items
unfolding encode_posting
encode_postings [] = no_items
encode_postings (p ∷ ps) = item (encode_posting p) (encode_postings ps)

-- `dict(tags)` over what is there so far
unfoldable pub tag_members : Members → List (Text × Text) → Members
unfolding set_member
tag_members doc [] = doc
tag_members doc ((k, v) ∷ tags) = tag_members (set_member k (string v) doc) tags

-- `if description: doc["description"] = description`
unfoldable pub described : Text → Members
described [] = no_members
described (c ∷ cs) = member (text "description") (string (c ∷ cs)) no_members

-- `if tags: doc["tags"] = dict(tags)`
unfoldable pub tagged : List (Text × Text) → Members
unfolding tag_members
tagged [] = no_members
tagged (t ∷ ts) = member (text "tags") (object (tag_members no_members (t ∷ ts))) no_members

-- `encode_draft(draft)`
unfoldable pub encode_draft : EntryDraft → Json
unfolding encode_postings described tagged append_members
encode_draft d = object (
    member (text "postings") (array (encode_postings d.postings))
      (append_members (described d.description) (tagged d.tags)))

abbrev pub Registry : Type 0
Registry = Dict Text Currency

abbrev pub max_postings : ℕ
max_postings = 1000

abbrev pub max_text : ℕ
max_text = 1024

abbrev pub max_tags : ℕ
max_tags = 100

-- `_only(doc, allowed, where=place)`
abbrev pub only : Members → List Text → Text → Result (Unit {0})
only doc allowed place = raise_if (not (keys_in (is_one_of allowed) doc)) (codec_error place)

-- `_decode_money(doc, registry, where=place)`
unfoldable pub decode_money : Json → Registry → Text → Result Money
unfolding expect keys_in is_one_of text_field integer_field lookup
decode_money doc registry place = do
  m ← expect doc place
  only m (text "amount" ∷ text "currency" ∷ []) place
  amount ← integer_field m (text "amount") place
  code ← text_field m (text "currency") place
  currency ← or_raise (lookup code registry) (codec_error place)
  ok (record { amount = amount; currency = currency })

-- `Side(raw)`
unfoldable pub find_side : Text → Option Side
unfolding side_value
find_side raw =
    if raw == side_value debit
    then some debit
    else if raw == side_value credit
    then some credit
    else none

-- One turn of the loop over the postings
unfoldable pub decode_posting : Json → Registry → Text → Result Posting
unfolding expect keys_in is_one_of text_field find_side decode_money get_or_null make_posting
decode_posting doc registry place = do
  p ← expect doc place
  only p (text "account" ∷ text "side" ∷ text "money" ∷ []) place
  raw ← text_field p (text "side") place
  side ← or_raise (find_side raw) (codec_error (at_member place (text "side")))
  account ← text_field p (text "account") place
  money ← decode_money (get_or_null (text "money") p) registry (at_member place (text "money"))
  make_posting account side money

-- `f"{place}.postings[{i}]"`
abbrev pub at_posting : Text → ℕ → Text
at_posting place i = place ++ (text ".postings[" ++ (decimal i ++ text "]"))

unfoldable pub decode_postings : Items → Registry → Text → ℕ → Result (List Posting)
unfolding decode_posting decimal
decode_postings no_items registry place i = ok []
decode_postings (item doc rest) registry place i = do
  p ← decode_posting doc registry (at_posting place i)
  ps ← decode_postings rest registry place (suc i)
  ok (p ∷ ps)

-- The members of an object of strings
unfoldable pub as_tags : Members → Text → Result (List (Text × Text))
as_tags no_members place = ok []
as_tags (member k (string v) rest) place = do tags ← as_tags rest place; ok ((k, v) ∷ tags)
as_tags (member k _ rest) place = err (codec_error place)

-- `d.get("tags", {})`, an object of strings
unfoldable pub tags_of : Option Json → Text → Result (List (Text × Text))
unfolding as_tags
tags_of none place = ok []
tags_of (some (object members)) place = as_tags members place
tags_of (some _) place = err (codec_error place)

abbrev pub is_long_tag : Text × Text → Bool
is_long_tag (k, v) = ltb max_text (length k) || ltb max_text (length v)

-- `decode_draft(doc, registry, where=place)`
unfoldable pub decode_draft : Json → Registry → Text → Result EntryDraft
unfolding expect keys_in is_one_of items_field decode_postings optional_text find tags_of sort_tags
    make_draft count_items
decode_draft doc registry place = do
  d ← expect doc place
  only d (text "postings" ∷ text "description" ∷ text "tags" ∷ []) place
  raw ← items_field d (text "postings") place
  raise_if (ltb max_postings (count_items raw)) (codec_error (at_member place (text "postings")))
  postings ← decode_postings raw registry place 0
  description ← optional_text d (text "description") place
  raise_if (ltb max_text (length description)) (codec_error (at_member place (text "description")))
  tags ← tags_of (find (text "tags") d) (at_member place (text "tags"))
  raise_if (ltb max_tags (length tags)) (codec_error (at_member place (text "tags")))
  raise_if (any is_long_tag tags) (codec_error (at_member place (text "tags")))
  make_draft postings description (sort_tags tags)
