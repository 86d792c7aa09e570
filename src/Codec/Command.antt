-- ===== src/Codec/Command.antt =====
-- src/ledgergate/codec/commands.py: a command to its document and back.
use ledgergate.Base.{
  ◌-◌, Option, none, some, List, [], ◌∷◌, ◌++◌, ◌==◌, list_eq, nat_eq, if◌then◌else◌, ltb, leb,
  length, take,
}
use ledgergate.Text.{Text, text}
use ledgergate.Errors.{Result, ok, err, ◌>>=◌, ◌>>◌, raise_if, or_raise, codec_error}
use ledgergate.Ledger.Postings.{EntryDraft}
use ledgergate.Ledger.Lifecycle.{Event, event_value, events, is_refund}
use ledgergate.Ledger.Commands.{
  Command, post, reverse, open_transaction, advance, refund, make_advance,
}
use ledgergate.Codec.Json.{
  Json, string, object, Members, no_members, member, find, get_or_null, at_member, expect,
  text_field, optional_text,
}
use ledgergate.Codec.Draft.{
  encode_money, encode_draft, described, Registry, max_text, only, decode_money, decode_draft,
}

-- `bounded_text(text)`
unfoldable pub bounded_text : Text → Text
bounded_text t =
    if leb (length t) max_text
    then t
    else take (max_text - length (text " [truncated]")) t ++ text " [truncated]"

-- `if entry is not None: doc["entry"] = encode_draft(entry)`
unfoldable pub encode_entry : Option EntryDraft → Members
encode_entry none = no_members
encode_entry (some draft) = member (text "entry") (encode_draft draft) no_members

-- `encode_command(command)`
unfoldable pub encode_command : Command → Json
encode_command (post key draft) = object (
    member (text "kind") (string (text "post"))
      (member (text "key") (string key) (member (text "draft") (encode_draft draft) no_members)))
encode_command (reverse key entry_id description) = object (
    member (text "kind") (string (text "reverse")) (
      member (text "key") (string key)
        (member (text "entry_id") (string entry_id) (described description))))
encode_command (open_transaction key transaction_id amount) = object (
    member (text "kind") (string (text "open_transaction")) (
      member (text "key") (string key) (
        member (text "transaction_id") (string transaction_id)
          (member (text "amount") (encode_money amount) no_members))))
encode_command (advance key transaction_id event entry) = object (
    member (text "kind") (string (text "advance")) (
      member (text "key") (string key) (
        member (text "transaction_id") (string transaction_id)
          (member (text "event") (string (event_value event)) (encode_entry entry)))))
encode_command (refund key transaction_id money entry) = object (
    member (text "kind") (string (text "refund")) (
      member (text "key") (string key) (
        member (text "transaction_id") (string transaction_id)
          (member (text "money") (encode_money money) (encode_entry entry)))))

-- `TransactionEvent(raw)`
unfoldable pub find_among : Text → List Event → Option Event
unfolding event_value
find_among raw [] = none
find_among raw (e ∷ es) =
    let rest = find_among raw es in if raw == event_value e then some e else rest

-- `None if "entry" not in c else decode_draft(c["entry"], ...)`
unfoldable pub decode_entry : Option Json → Registry → Text → Result (Option EntryDraft)
decode_entry none registry place = ok none
decode_entry (some doc) registry place = do
  draft ← decode_draft doc registry (at_member place (text "entry"))
  ok (some draft)

module _ (c : Members) (registry : Registry) (key place : Text) where
  unfoldable pub decode_post : Result Command
  decode_post = do
    only c (text "kind" ∷ text "key" ∷ text "draft" ∷ []) place
    draft ← decode_draft (get_or_null (text "draft") c) registry (at_member place (text "draft"))
    ok (post key draft)

  unfoldable pub decode_reverse : Result Command
  decode_reverse = do
    only c (text "kind" ∷ text "key" ∷ text "entry_id" ∷ text "description" ∷ []) place
    description ← optional_text c (text "description") place
    raise_if (ltb max_text (length description))
        (codec_error (at_member place (text "description")))
    entry_id ← text_field c (text "entry_id") place
    ok (reverse key entry_id description)

  unfoldable pub decode_open : Result Command
  decode_open = do
    only c (text "kind" ∷ text "key" ∷ text "transaction_id" ∷ text "amount" ∷ []) place
    transaction_id ← text_field c (text "transaction_id") place
    amount ← decode_money (get_or_null (text "amount") c) registry (at_member place (text "amount"))
    ok (open_transaction key transaction_id amount)

  unfoldable pub decode_advance : Result Command
  decode_advance = do
    only c (text "kind" ∷ text "key" ∷ text "transaction_id" ∷ text "event" ∷ text "entry" ∷ [])
        place
    raw ← text_field c (text "event") place
    event ← or_raise (find_among raw events) (codec_error (at_member place (text "event")))
    raise_if (is_refund event) (codec_error (at_member place (text "event")))
    entry ← decode_entry (find (text "entry") c) registry place
    transaction_id ← text_field c (text "transaction_id") place
    make_advance key transaction_id event entry

  unfoldable pub decode_refund : Result Command
  decode_refund = do
    only c (text "kind" ∷ text "key" ∷ text "transaction_id" ∷ text "money" ∷ text "entry" ∷ [])
        place
    entry ← decode_entry (find (text "entry") c) registry place
    transaction_id ← text_field c (text "transaction_id") place
    money ← decode_money (get_or_null (text "money") c) registry (at_member place (text "money"))
    ok (refund key transaction_id money entry)

-- `f"command({kind})"`
abbrev pub command_place : Text → Text
command_place kind = text "command(" ++ (kind ++ text ")")

-- `match kind`
unfoldable pub decode_kind : Text → Members → Registry → Text → Result Command
decode_kind kind c registry key =
    if kind == text "post"
    then decode_post c registry key (command_place kind)
    else if kind == text "reverse"
    then decode_reverse c registry key (command_place kind)
    else if kind == text "open_transaction"
    then decode_open c registry key (command_place kind)
    else if kind == text "advance"
    then decode_advance c registry key (command_place kind)
    else if kind == text "refund"
    then decode_refund c registry key (command_place kind)
    else err (codec_error (text "command"))

-- `decode_command(doc, registry)`
unfoldable pub decode_command : Json → Registry → Result Command
decode_command doc registry = do
  c ← expect doc (text "command")
  kind ← text_field c (text "kind") (text "command")
  key ← text_field c (text "key") (text "command")
  decode_kind kind c registry key
