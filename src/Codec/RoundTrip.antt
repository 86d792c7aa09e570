-- ===== src/Codec/RoundTrip.antt =====
-- src/ledgergate/codec/commands.py: what was encoded decodes to itself.
use ledgergate.Base.{
  ℕ, suc, ◌≡◌, refl, sym, ap, ◌∙◌, Bool, true, false, not, some, List, [], ◌∷◌, ◌++◌, arith, ◌==◌,
  list_eq, nat_eq, list_dec, ℕ_discrete, not_test_sym, ltb, any, length, All, append-nil,
  append_assoc,
}
use ledgergate.Text.{Text, text}
use ledgergate.Dict.{lookup}
use ledgergate.Errors.{ok, raise_if, raise_if-ok, >>=-eq-ok, ok-injective}
use ledgergate.Ledger.Money.{Money, is_positive}
use ledgergate.Ledger.Accounts.{Side, debit, credit, side_value}
use ledgergate.Ledger.Postings.{
  Posting, make_posting, EntryDraft, make_draft, sort_tags, repeats_key, imbalance, net_by_currency,
  is_bad_tag,
}
use ledgergate.Codec.Json.{
  at_member, object, array, string, Items, Members, member, no_members, set_member, append_members,
  expect, find, text_field, integer_field, get_or_null, keys_in, is_one_of, count_items,
  items_field, optional_text,
}
use ledgergate.Codec.Draft.{
  encode_money, encode_posting, encode_postings, encode_draft, tag_members, described, tagged,
  Registry, max_postings, max_text, max_tags, decode_money, find_side, decode_posting,
  decode_postings, as_tags, tags_of, is_long_tag, decode_draft, at_posting,
}

-- The registry knows the currency.
abbrev pub IsKnown : Registry → Money → Type 0
IsKnown registry m = lookup m.currency.code registry ≡ some m.currency

-- A posting that was constructed, in a known currency.
abbrev pub IsCoded : Registry → Posting → Type 0
IsCoded registry p = (is_positive p.money ≡ true) × IsKnown registry p.money

-- A draft that was constructed, within the codec's bounds.
pub record IsEncodable (registry : Registry) (d : EntryDraft) : Type 0 where
  pub constructed : make_draft d.postings d.description d.tags ≡ ok d
  pub coded : All (IsCoded registry) d.postings
  pub few : ltb max_postings (length d.postings) ≡ false
  pub brief : ltb max_text (length d.description) ≡ false
  pub few_tags : ltb max_tags (length d.tags) ≡ false
  pub brief_tags : any is_long_tag d.tags ≡ false

pub decode_money-encode_money :
    (registry : Registry) (place : Text) (m : Money)
    → IsKnown registry m
    → decode_money (encode_money m) registry place ≡ ok m
unfolding decode_money encode_money expect keys_in is_one_of text_field integer_field list_dec
    ℕ_discrete
decode_money-encode_money registry place m h = rw h

find_side-side_value : (s : Side) → find_side (side_value s) ≡ some s
unfolding find_side side_value list_dec ℕ_discrete
find_side-side_value debit = refl
find_side-side_value credit = refl

make_posting-coded :
    (p : Posting) → is_positive p.money ≡ true → make_posting p.account_id p.side p.money ≡ ok p
unfolding make_posting
make_posting-coded p h = rw h

decode_posting-encode_posting :
    (registry : Registry) (place : Text) (p : Posting)
    → IsCoded registry p
    → decode_posting (encode_posting p) registry place ≡ ok p
unfolding decode_posting encode_posting expect keys_in is_one_of text_field get_or_null list_dec
    ℕ_discrete
decode_posting-encode_posting registry place p h =
    rw
      (
        find_side-side_value p.side,
        decode_money-encode_money registry (at_member place (text "money")) p.money h.1,
      )
      (make_posting-coded p h.0)

decode_postings-encode_postings :
    (registry : Registry) (place : Text) (i : ℕ) (ps : List Posting)
    → All (IsCoded registry) ps
    → decode_postings (encode_postings ps) registry place i ≡ ok ps
unfolding decode_postings encode_postings
decode_postings-encode_postings registry place i [] h = refl
decode_postings-encode_postings registry place i (p ∷ ps) h = rw (
  decode_posting-encode_posting registry (at_posting place i) p h.0,
  decode_postings-encode_postings registry place (suc i) ps h.1,
)

count_items-encode_postings : (ps : List Posting) → count_items (encode_postings ps) ≡ length ps
unfolding count_items encode_postings
count_items-encode_postings [] = refl
count_items-encode_postings (p ∷ ps) = ap suc (count_items-encode_postings ps)

-- Tags as members, one by one.
plain_tags : List (Text × Text) → Members
plain_tags [] = no_members
plain_tags ((k, v) ∷ tags) = member k (string v) (plain_tags tags)

as_tags-plain_tags :
    (tags : List (Text × Text)) (place : Text) → as_tags (plain_tags tags) place ≡ ok tags
unfolding as_tags plain_tags
as_tags-plain_tags [] place = refl
as_tags-plain_tags ((k, v) ∷ tags) place = rw (as_tags-plain_tags tags place)

-- A new key goes to the end.
set_member-plain_tags :
    (k v : Text) (tags : List (Text × Text))
    → any (λ (t : Text × Text). t.0 == k) tags ≡ false
    → set_member k (string v) (plain_tags tags) ≡ plain_tags (tags ++ (k, v) ∷ [])
unfolding set_member plain_tags
set_member-plain_tags k v [] h = refl
set_member-plain_tags k v ((j, w) ∷ tags) h =
    ground (arith, set_member-plain_tags k v tags, not_test_sym j k)

any-mid :
    (p : Text × Text → Bool) (xs : List (Text × Text)) (x : Text × Text) (ys : List (Text × Text))
    → any p (xs ++ x ∷ ys) ≡ false
    → p x ≡ false
any-mid p [] x ys h = ground arith
any-mid p (y ∷ xs) x ys h = any-mid p xs x ys (ground arith)

fresh_key :
    (k v : Text) (seen tags : List (Text × Text))
    → repeats_key (seen ++ (k, v) ∷ tags) ≡ false
    → any (λ (t : Text × Text). t.0 == k) seen ≡ false
unfolding repeats_key
fresh_key k v [] tags h = refl
fresh_key k v ((j, w) ∷ seen) tags h = ground (
  arith,
  fresh_key k v seen tags,
  any-mid (λ (t : Text × Text). t.0 == j) seen (k, v) tags,
  not_test_sym k j,
)

tag_members-plain_tags :
    (seen tags : List (Text × Text))
    → repeats_key (seen ++ tags) ≡ false
    → tag_members (plain_tags seen) tags ≡ plain_tags (seen ++ tags)
unfolding tag_members
tag_members-plain_tags seen [] h = ap plain_tags (sym (append-nil seen))
tag_members-plain_tags seen ((k, v) ∷ tags) h =
    let more = append_assoc seen ((k, v) ∷ []) tags in
    ap (λ m. tag_members m tags) (set_member-plain_tags k v seen (fresh_key k v seen tags h))
    ∙ tag_members-plain_tags (seen ++ (k, v) ∷ []) tags (ap repeats_key more ∙ h)
    ∙ ap plain_tags more

-- What the constructor tested, and the order it left.
constructed-parts :
    (ps : List Posting) (description : Text) (tags : List (Text × Text)) (d : EntryDraft)
    → make_draft ps description tags ≡ ok d
    → (repeats_key (sort_tags tags) ≡ false) × (d.tags ≡ sort_tags tags)
unfolding make_draft
constructed-parts ps description tags d h =
    let (_, _, h1) = >>=-eq-ok (raise_if (ltb (length ps) 2) _) _ h in
    let (_, _, h2) =
      >>=-eq-ok (raise_if (not (length (imbalance (net_by_currency ps)) == 0)) _) _ h1 in
    let (_, _, h3) = >>=-eq-ok (raise_if (any is_bad_tag (sort_tags tags)) _) _ h2 in
    let (_, once, h4) = >>=-eq-ok (raise_if (repeats_key (sort_tags tags)) _) _ h3 in
    (raise_if-ok _ _ once, sym (ap (λ (x : EntryDraft). x.tags) (ok-injective h4)))

module _ (registry : Registry) (d : EntryDraft) (h : IsEncodable registry d) where
  sorted_already : sort_tags d.tags ≡ d.tags
  sorted_already = sym (constructed-parts d.postings d.description d.tags d h.constructed).1

  no_repeats : repeats_key d.tags ≡ false
  no_repeats =
      ap repeats_key (sym sorted_already)
      ∙ (constructed-parts d.postings d.description d.tags d h.constructed).0

-- The members of a draft's document.
abbrev body : Items → Text → List (Text × Text) → Members
body raw description tags =
    member (text "postings") (array raw) (append_members (described description) (tagged tags))

abbrev draft_names : List Text
draft_names = text "postings" ∷ text "description" ∷ text "tags" ∷ []

module _ (raw : Items) where
  keys_in-body :
      (description : Text) (tags : List (Text × Text))
      → keys_in (is_one_of draft_names) (body raw description tags) ≡ true
  unfolding keys_in is_one_of append_members described tagged list_dec ℕ_discrete
  keys_in-body [] [] = refl
  keys_in-body [] (t ∷ ts) = refl
  keys_in-body (c ∷ cs) [] = refl
  keys_in-body (c ∷ cs) (t ∷ ts) = refl

  items_field-body :
      (description : Text) (tags : List (Text × Text)) (place : Text)
      → items_field (body raw description tags) (text "postings") place ≡ ok raw
  unfolding items_field list_dec ℕ_discrete
  items_field-body description tags place = refl

  optional_text-body :
      (description : Text) (tags : List (Text × Text)) (place : Text)
      → optional_text (body raw description tags) (text "description") place ≡ ok description
  unfolding optional_text append_members described tagged list_dec ℕ_discrete
  optional_text-body [] [] place = refl
  optional_text-body [] (t ∷ ts) place = refl
  optional_text-body (c ∷ cs) tags place = refl

  tags_of-body :
      (description : Text) (tags : List (Text × Text)) (place : Text)
      → repeats_key tags ≡ false
      → tags_of (find (text "tags") (body raw description tags)) place ≡ ok tags
  unfolding tags_of find append_members described tagged list_dec ℕ_discrete plain_tags
  tags_of-body [] [] place h = refl
  tags_of-body (c ∷ cs) [] place h = refl
  tags_of-body [] (t ∷ ts) place h =
      ap (λ m. as_tags m place) (tag_members-plain_tags [] (t ∷ ts) h)
      ∙ as_tags-plain_tags (t ∷ ts) place
  tags_of-body (c ∷ cs) (t ∷ ts) place h =
      ap (λ m. as_tags m place) (tag_members-plain_tags [] (t ∷ ts) h)
      ∙ as_tags-plain_tags (t ∷ ts) place

-- Decoding goes through when every member reads well.
decode_draft-reads :
    (m : Members) (registry : Registry) (place : Text) (raw : Items) (ps : List Posting)
    (description : Text) (tags : List (Text × Text))
    → keys_in (is_one_of draft_names) m ≡ true
    → items_field m (text "postings") place ≡ ok raw
    → ltb max_postings (count_items raw) ≡ false
    → decode_postings raw registry place 0 ≡ ok ps
    → optional_text m (text "description") place ≡ ok description
    → ltb max_text (length description) ≡ false
    → tags_of (find (text "tags") m) (at_member place (text "tags")) ≡ ok tags
    → ltb max_tags (length tags) ≡ false
    → any is_long_tag tags ≡ false
    → decode_draft (object m) registry place ≡ make_draft ps description (sort_tags tags)
unfolding decode_draft expect
decode_draft-reads m registry place raw ps description tags h1 h2 h3 h4 h5 h6 h7 h8 h9 =
    rw (h1, h2, h3, h4, h5, h6, h7, h8, h9)

pub decode_draft-encode_draft :
    (registry : Registry) (place : Text) (d : EntryDraft)
    → IsEncodable registry d
    → decode_draft (encode_draft d) registry place ≡ ok d
unfolding encode_draft
decode_draft-encode_draft registry place d h =
    let raw = encode_postings d.postings in
    let count = count_items-encode_postings d.postings in
    decode_draft-reads (body raw d.description d.tags) registry place raw d.postings d.description
      d.tags (keys_in-body raw d.description d.tags)
      (items_field-body raw d.description d.tags place) (ap (ltb max_postings) count ∙ h.few)
      (decode_postings-encode_postings registry place 0 d.postings h.coded)
      (optional_text-body raw d.description d.tags place) h.brief
      (tags_of-body raw d.description d.tags (at_member place (text "tags"))
        (no_repeats registry d h))
      h.few_tags h.brief_tags
    ∙ ap (make_draft d.postings d.description) (sorted_already registry d h)
    ∙ h.constructed
