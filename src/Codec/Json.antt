-- ===== src/Codec/Json.antt =====
-- src/ledgergate/codec: a JSON value as Python decodes it, and reading its members. The members of an
-- object are in insertion order.
use ledgergate.Base.{
  ℕ, suc, Bool, true, false, ◌||◌, Option, none, some, ◌==◌, list_eq, nat_eq, if◌then◌else◌, List,
  [], ◌∷◌, ◌++◌,
}
use ledgergate.Text.{Text}
use ledgergate.Int.{ℤ}
use ledgergate.Errors.{Result, ok, err, codec_error}

mutual
  -- A number that is no integer is its `repr`.
  pub data Json : Type 0 where
    null : Json
    boolean : Bool → Json
    integer : ℤ → Json
    double : Text → Json
    string : Text → Json
    array : Items → Json
    object : Members → Json

  pub data Items : Type 0 where
    no_items : Items
    item : Json → Items → Items

  pub data Members : Type 0 where
    no_members : Members
    member : Text → Json → Members → Members

-- `doc.get(name)`
unfoldable pub find : Text → Members → Option Json
find name no_members = none
find name (member key value rest) = if name == key then some value else find name rest

-- `doc.get(name)`, where `None` is also what `null` decodes to
unfoldable pub get_or_null : Text → Members → Json
unfolding find
get_or_null name doc = elim (find name doc) [ none ↦ null | some value ↦ value ]

-- `doc[name] = value`
unfoldable pub set_member : Text → Json → Members → Members
set_member name value no_members = member name value no_members
set_member name value (member key old rest) =
    let after = set_member name value rest in
    if name == key then member key value rest else member key old after

unfoldable pub append_members : Members → Members → Members
append_members no_members tail = tail
append_members (member key value rest) tail = member key value (append_members rest tail)

-- `set(doc) <= allowed`
unfoldable pub keys_in : (Text → Bool) → Members → Bool
keys_in allowed no_members = true
keys_in allowed (member key _ rest) =
    let others = keys_in allowed rest in if allowed key then others else false

-- `name in names`
unfoldable pub is_one_of : List Text → Text → Bool
is_one_of [] name = false
is_one_of (n ∷ names) name = name == n || is_one_of names name

-- `len(items)`
unfoldable pub count_items : Items → ℕ
count_items no_items = 0
count_items (item _ rest) = suc (count_items rest)

unfoldable pub count_members : Members → ℕ
count_members no_members = 0
count_members (member _ _ rest) = suc (count_members rest)

-- `f"{place}.{name}"`
abbrev pub at_member : Text → Text → Text
at_member place name = place ++ b'.' ∷ name

-- `_expect(doc, place)`
unfoldable pub expect : Json → Text → Result Members
expect (object members) place = ok members
expect _ place = err (codec_error place)

-- `_field(doc, name, str, where=place)`, on what `doc` has
unfoldable pub as_text : Option Json → Text → Text → Result Text
as_text none name place = err (codec_error place)
as_text (some (string value)) name place = ok value
as_text (some _) name place = err (codec_error (at_member place name))

unfoldable pub text_field : Members → Text → Text → Result Text
unfolding find as_text
text_field doc name place = as_text (find name doc) name place

-- `_field(doc, name, int, where=place)`: a Boolean is no integer
unfoldable pub as_integer : Option Json → Text → Text → Result ℤ
as_integer none name place = err (codec_error place)
as_integer (some (integer value)) name place = ok value
as_integer (some _) name place = err (codec_error (at_member place name))

unfoldable pub integer_field : Members → Text → Text → Result ℤ
unfolding find as_integer
integer_field doc name place = as_integer (find name doc) name place

-- `_field(doc, name, list, where=place)`
unfoldable pub as_items : Option Json → Text → Text → Result Items
as_items none name place = err (codec_error place)
as_items (some (array value)) name place = ok value
as_items (some _) name place = err (codec_error (at_member place name))

unfoldable pub items_field : Members → Text → Text → Result Items
unfolding find as_items
items_field doc name place = as_items (find name doc) name place

-- `doc.get(name, "")`, which must be a string
unfoldable pub as_optional_text : Option Json → Text → Text → Result Text
as_optional_text none name place = ok []
as_optional_text (some (string value)) name place = ok value
as_optional_text (some _) name place = err (codec_error (at_member place name))

unfoldable pub optional_text : Members → Text → Text → Result Text
unfolding find as_optional_text
optional_text doc name place = as_optional_text (find name doc) name place
