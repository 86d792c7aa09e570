-- ===== src/Ledger/Encoding.antt =====
-- src/ledgergate/ledger/entries.py: the length-prefixed canonical forms, the fingerprint of a
-- request, posted entries and their digests. SHA-256 and `datetime.isoformat` belong to Python's
-- library and are the fields of `Platform`.
use ledgergate.Base.{
  ℕ, zero, suc, Option, none, some, List, [], ◌∷◌, ◌++◌, map, length, nat_eq, list_eq,
  if◌then◌else◌,
}
use ledgergate.Text.{Text, text, text_lt}
use ledgergate.Text.Decimal.{decimal}
use ledgergate.Text.Integer.{show_int}
use ledgergate.Int.{ℤ, pos, ◌-ℤ◌, ltb_ℤ}
use ledgergate.Errors.{Result, ok, err, overflow_error}
use ledgergate.Ledger.Accounts.{side_value}
use ledgergate.Ledger.Postings.{Posting, EntryDraft}

-- One length-prefixed field, `f"{len(f)}:{f}"`.
unfoldable pub encode_field : Text → Text
unfolding decimal
encode_field f = decimal (length f) ++ (b':' ∷ f)

-- `encode(*fields)`
unfoldable pub encode : List Text → Text
unfolding encode_field
encode [] = []
encode (f ∷ fs) = encode_field f ++ encode fs

-- `encode_seq(items)`
unfoldable pub encode_seq : List Text → Text
unfolding encode decimal
encode_seq items = encode (decimal (length items) ∷ items)

-- `Posting.canonical`
unfoldable pub posting_canonical : Posting → Text
unfolding encode side_value show_int
posting_canonical p = encode (
    p.account_id
    ∷ side_value p.side
    ∷ show_int p.money.amount
    ∷ p.money.currency.code
    ∷ decimal p.money.currency.exponent
    ∷ [])

-- `encode(k, v)` of one tag
unfoldable pub tag_canonical : Text × Text → Text
unfolding encode
tag_canonical (k, v) = encode (k ∷ v ∷ [])

-- `EntryDraft.canonical`
unfoldable pub draft_canonical : EntryDraft → Text
unfolding encode encode_seq posting_canonical tag_canonical
draft_canonical draft = encode (
    text "draft"
    ∷ draft.description
    ∷ encode_seq (map tag_canonical draft.tags)
    ∷ encode_seq (map posting_canonical draft.postings)
    ∷ [])

-- A `datetime`: the wall reading in microseconds from the start of the year 1, and its offset from UTC
-- unless it is naive.
pub record Datetime : Type 0 where
  pub reading : ℤ
  pub offset : Option ℤ

-- The reading at the end of the year 9999.
abbrev pub datetime_end : ℕ
datetime_end = 315537897600000000

-- A `datetime` that Python computed: an `OverflowError` outside its years.
unfoldable pub in_years : Datetime → Result Datetime
in_years t =
    if ltb_ℤ t.reading (pos 0)
    then err overflow_error
    else if ltb_ℤ t.reading (pos datetime_end)
    then ok t
    else err overflow_error

-- `at.astimezone(UTC)`, where the offset is not `None`
unfoldable pub as_utc : Datetime → ℤ → Result Datetime
unfolding in_years
as_utc at offset = in_years (record { reading = at.reading -ℤ offset; offset = some (pos 0) })

-- Code of Python's library that the ledger calls.
pub record Platform : Type 0 where
  -- `hashlib.sha256(body.encode("utf-8")).hexdigest()`
  pub sha256 : Text → Text
  -- `datetime.isoformat()`
  pub isoformat : Datetime → Text

-- `GENESIS_HASH`, "0" * 64
unfoldable pub genesis_from : ℕ → Text
genesis_from zero = []
genesis_from (suc n) = b'0' ∷ genesis_from n

unfoldable pub genesis_hash : Text
unfolding genesis_from
genesis_hash = genesis_from 64

pub record Entry : Type 0 where
  pub entry_id : Text
  pub sequence : ℕ
  pub posted_at : Datetime
  pub idempotency_key : Text
  pub draft : EntryDraft
  pub previous_hash : Text
  pub digest : Text
  pub reverses : Option Text

-- `"" if reverses is None else encode(reverses)`
unfoldable pub reverses_canonical : Option Text → Text
unfolding encode
reverses_canonical none = []
reverses_canonical (some entry_id) = encode (entry_id ∷ [])

-- The order in which `sorted(payload)` reads a mapping: insertion by key.
unfoldable pub insert_key : Text × Text → List (Text × Text) → List (Text × Text)
insert_key t [] = t ∷ []
insert_key t (u ∷ us) =
    let rest = insert_key t us in if text_lt u.0 t.0 then u ∷ rest else t ∷ u ∷ us

unfoldable pub sort_payload : List (Text × Text) → List (Text × Text)
unfolding insert_key
sort_payload [] = []
sort_payload (t ∷ ts) = insert_key t (sort_payload ts)

-- The text that `fingerprint(kind, payload)` hashes.
unfoldable pub fingerprint_body : Text → List (Text × Text) → Text
unfolding encode encode_seq sort_payload tag_canonical
fingerprint_body kind payload =
    encode (kind ∷ encode_seq (map tag_canonical (sort_payload payload)) ∷ [])

module _ (platform : Platform) where
  -- `_entry_body`
  unfoldable pub entry_body : Text → ℕ → Datetime → Text → EntryDraft → Text → Option Text → Text
  unfolding encode decimal reverses_canonical draft_canonical
  entry_body entry_id sequence posted_at key draft previous_hash reverses = encode (
      text "entry"
      ∷ entry_id
      ∷ decimal sequence
      ∷ platform.isoformat posted_at
      ∷ key
      ∷ reverses_canonical reverses
      ∷ previous_hash
      ∷ draft_canonical draft
      ∷ [])

  -- `Entry.compute_digest`
  unfoldable pub compute_digest :
      Text → ℕ → Datetime → Text → EntryDraft → Text → Option Text → Text
  compute_digest entry_id sequence posted_at key draft previous_hash reverses =
      platform.sha256 (entry_body entry_id sequence posted_at key draft previous_hash reverses)

  -- `Entry.canonical`
  unfoldable pub entry_canonical : Entry → Text
  entry_canonical e =
      entry_body e.entry_id e.sequence e.posted_at e.idempotency_key e.draft e.previous_hash
        e.reverses

  -- `Entry.recomputed_digest`
  unfoldable pub recomputed_digest : Entry → Text
  recomputed_digest e = platform.sha256 (entry_canonical e)

  -- `fingerprint(kind, payload)`
  unfoldable pub fingerprint : Text → List (Text × Text) → Text
  unfolding fingerprint_body
  fingerprint kind payload = platform.sha256 (fingerprint_body kind payload)
