-- ===== src/Codec/CommandTrip.antt =====
-- src/ledgergate/codec/commands.py: a command that was encoded decodes to itself.
use ledgergate.Base.{
  ◌≡◌, refl, Option, none, some, false, [], ◌∷◌, list_eq, nat_eq, list_dec, ℕ_discrete, ltb, length,
}
use ledgergate.Text.{Text, text}
use ledgergate.Errors.{ok}
use ledgergate.Ledger.Money.{Money}
use ledgergate.Ledger.Postings.{EntryDraft}
use ledgergate.Ledger.Lifecycle.{
  Event, authorize, settle, refund_event, dispute, resolve_dispute, cancel, fail, event_value,
  events, is_refund,
}
use ledgergate.Ledger.Commands.{
  Command, post, reverse, open_transaction, advance, refund, make_advance,
}
use ledgergate.Codec.Json.{
  find, get_or_null, keys_in, is_one_of, at_member, expect, text_field, optional_text,
}
use ledgergate.Codec.Draft.{described, Registry, max_text}
use ledgergate.Codec.Command.{
  encode_command, encode_entry, decode_command, decode_kind, decode_post, decode_reverse,
  decode_open, decode_advance, decode_refund, decode_entry, find_among, command_place,
}
use ledgergate.Codec.RoundTrip.{
  IsEncodable, IsKnown, decode_draft-encode_draft, decode_money-encode_money,
}

abbrev pub IsEntry : Registry → Option EntryDraft → Type 0
IsEntry registry none = Unit
IsEntry registry (some draft) = IsEncodable registry draft

-- Drafts that were constructed, known currencies, short texts, and no refund as an advance.
abbrev pub IsCodable : Registry → Command → Type 0
IsCodable registry (post _ draft) = IsEncodable registry draft
IsCodable registry (reverse _ _ description) = ltb max_text (length description) ≡ false
IsCodable registry (open_transaction _ _ amount) = IsKnown registry amount
IsCodable registry (advance _ _ event entry) = (is_refund event ≡ false) × IsEntry registry entry
IsCodable registry (refund _ _ money entry) = IsKnown registry money × IsEntry registry entry

pub find_among-event_value : (e : Event) → find_among (event_value e) events ≡ some e
unfolding find_among event_value list_dec ℕ_discrete
find_among-event_value authorize = refl
find_among-event_value settle = refl
find_among-event_value refund_event = refl
find_among-event_value dispute = refl
find_among-event_value resolve_dispute = refl
find_among-event_value cancel = refl
find_among-event_value fail = refl

post-trip :
    (registry : Registry) (key : Text) (draft : EntryDraft)
    → IsEncodable registry draft
    → decode_command (encode_command (post key draft)) registry ≡ ok (post key draft)
unfolding decode_command encode_command expect text_field decode_kind decode_post keys_in is_one_of
    get_or_null list_dec ℕ_discrete
post-trip registry key draft h = rw (
    decode_draft-encode_draft registry (at_member (command_place (text "post")) (text "draft"))
      draft h)

reverse-trip :
    (registry : Registry) (key id description : Text)
    → ltb max_text (length description) ≡ false
    → decode_command (encode_command (reverse key id description)) registry
      ≡ ok (reverse key id description)
unfolding decode_command encode_command expect text_field decode_kind decode_reverse keys_in
    is_one_of described optional_text list_dec ℕ_discrete
reverse-trip registry key id [] h = refl
reverse-trip registry key id (c ∷ cs) h = rw h

open_transaction-trip :
    (registry : Registry) (key id : Text) (amount : Money)
    → IsKnown registry amount
    → decode_command (encode_command (open_transaction key id amount)) registry
      ≡ ok (open_transaction key id amount)
unfolding decode_command encode_command expect text_field decode_kind decode_open keys_in is_one_of
    get_or_null list_dec ℕ_discrete
open_transaction-trip registry key id amount h = rw (
    decode_money-encode_money registry
      (at_member (command_place (text "open_transaction")) (text "amount")) amount h)

make_advance-ok :
    (key id : Text) (event : Event) (entry : Option EntryDraft)
    → is_refund event ≡ false
    → make_advance key id event entry ≡ ok (advance key id event entry)
unfolding make_advance
make_advance-ok key id event entry h = rw h

advance-trip :
    (registry : Registry) (key id : Text) (event : Event) (entry : Option EntryDraft)
    → is_refund event ≡ false
    → IsEntry registry entry
    → decode_command (encode_command (advance key id event entry)) registry
      ≡ ok (advance key id event entry)
unfolding decode_command encode_command encode_entry decode_entry expect text_field decode_kind
    decode_advance keys_in is_one_of find list_dec ℕ_discrete
advance-trip registry key id event none r h =
    rw (find_among-event_value event, r, make_advance-ok key id event none r)
advance-trip registry key id event (some draft) r h = rw (
  find_among-event_value event,
  r,
  decode_draft-encode_draft registry (at_member (command_place (text "advance")) (text "entry"))
      draft h,
  make_advance-ok key id event (some draft) r,
)

refund-trip :
    (registry : Registry) (key id : Text) (money : Money) (entry : Option EntryDraft)
    → IsKnown registry money
    → IsEntry registry entry
    → decode_command (encode_command (refund key id money entry)) registry
      ≡ ok (refund key id money entry)
unfolding decode_command encode_command encode_entry decode_entry expect text_field decode_kind
    decode_refund keys_in is_one_of get_or_null find list_dec ℕ_discrete
refund-trip registry key id money none k h = rw (
    decode_money-encode_money registry (at_member (command_place (text "refund")) (text "money"))
      money k)
refund-trip registry key id money (some draft) k h = rw (
  decode_draft-encode_draft registry (at_member (command_place (text "refund")) (text "entry"))
      draft h,
  decode_money-encode_money registry (at_member (command_place (text "refund")) (text "money"))
      money k,
)

-- Decoding the document of a command gives the command back, when its drafts were constructed and
-- keep the codec's bounds, its currencies are in the registry with their exponents, its description
-- is short, and it is no advance with the refund event.
pub decode_command-encode_command :
    (registry : Registry) (c : Command)
    → IsCodable registry c
    → decode_command (encode_command c) registry ≡ ok c
decode_command-encode_command registry (post key draft) h = post-trip registry key draft h
decode_command-encode_command registry (reverse key id description) h =
    reverse-trip registry key id description h
decode_command-encode_command registry (open_transaction key id amount) h =
    open_transaction-trip registry key id amount h
decode_command-encode_command registry (advance key id event entry) h =
    advance-trip registry key id event entry h.0 h.1
decode_command-encode_command registry (refund key id money entry) h =
    refund-trip registry key id money entry h.0 h.1
