-- ===== src/Ledger/Injective.antt =====
-- src/ledgergate/ledger/entries.py: the length-prefixed encoding is unambiguous.
use ledgergate.Base.{
  ℕ, ◌≡◌, refl, sym, ap, ◌∙◌, List, [], ◌∷◌, ◌++◌, map, arith, length, All, append_assoc,
  ne_of_test, list_eq, nat_eq, list_dec, ℕ_discrete,
}
use ledgergate.Text.{Text, text}
use ledgergate.Text.Decimal.{decimal, decimal-injective, decimal-All, IsDigit}
use ledgergate.Text.Integer.{show_int, show_int-injective, decimal-cons}
use ledgergate.Ledger.Accounts.{Side, debit, credit, side_value}
use ledgergate.Ledger.Postings.{Posting, EntryDraft}
use ledgergate.Ledger.Encoding.{
  encode_field, encode, encode_seq, posting_canonical, tag_canonical, draft_canonical,
}

-- Digits end at the colon.
split_at_colon :
    (s t x y : Text)
    → All IsDigit s
    → All IsDigit t
    → s ++ b':' ∷ x ≡ t ++ b':' ∷ y
    → (s ≡ t) × (x ≡ y)
split_at_colon [] [] x y h k e = (refl, cc)
split_at_colon [] (d ∷ t) x y h k e = absurd (not_colon d k.0 (cc))
  where
    not_colon : (d : ℕ) → IsDigit d → b':' ≡ d → ⊥
    not_colon d h e = omega (arith, h, e)
split_at_colon (c ∷ s) [] x y h k e = absurd (not_colon c h.0 (cc))
  where
    not_colon : (d : ℕ) → IsDigit d → b':' ≡ d → ⊥
    not_colon d h e = omega (arith, h, e)
split_at_colon (c ∷ s) (d ∷ t) x y h k e =
    let (p, q) = split_at_colon s t x y h.1 k.1 (cc) in let heads : c ≡ d = cc in (cc, q)

split_at_length : (s t x y : Text) → length s ≡ length t → s ++ x ≡ t ++ y → (s ≡ t) × (x ≡ y)
split_at_length [] [] x y h e = (refl, e)
split_at_length [] (d ∷ t) x y h e = absurd (omega (arith, h))
split_at_length (c ∷ s) [] x y h e = absurd (omega (arith, h))
split_at_length (c ∷ s) (d ∷ t) x y h e =
    let (p, q) = split_at_length s t x y (omega (arith, h)) (cc) in
    let heads : c ≡ d = cc in (cc, q)

-- A field in front of anything is read back.
encode_field-split :
    (f g x y : Text) → encode_field f ++ x ≡ encode_field g ++ y → (f ≡ g) × (x ≡ y)
unfolding encode_field
encode_field-split f g x y e =
    let (same, rest) =
      split_at_colon (decimal (length f)) (decimal (length g)) (f ++ x) (g ++ y)
        (decimal-All (length f)) (decimal-All (length g))
        (sym (append_assoc (decimal (length f)) (b':' ∷ f) x)
          ∙ e
          ∙ append_assoc (decimal (length g)) (b':' ∷ g) y) in
    split_at_length f g x y (decimal-injective (length f) (length g) same) rest

encode_field-cons : (f x : Text) → (c : ℕ) × (cs : Text) × (encode_field f ++ x ≡ c ∷ cs)
unfolding encode_field
encode_field-cons f x =
    let (c, cs, e) = decimal-cons (length f) in
    (c, (cs ++ (b':' ∷ f)) ++ x, ap (λ s. (s ++ (b':' ∷ f)) ++ x) e)

-- Two lists of fields with the same encoding are the same list.
pub encode-injective : (fs gs : List Text) → encode fs ≡ encode gs → fs ≡ gs
unfolding encode
encode-injective [] [] h = refl
encode-injective [] (g ∷ gs) h = let (c, cs, e) = encode_field-cons g (encode gs) in cc
encode-injective (f ∷ fs) [] h = let (c, cs, e) = encode_field-cons f (encode fs) in cc
encode-injective (f ∷ fs) (g ∷ gs) h =
    let (same, rest) = encode_field-split f g (encode fs) (encode gs) h in
    let others = encode-injective fs gs rest in cc

pub encode_seq-injective : (fs gs : List Text) → encode_seq fs ≡ encode_seq gs → fs ≡ gs
unfolding encode_seq
encode_seq-injective fs gs h =
    let all = encode-injective (decimal (length fs) ∷ fs) (decimal (length gs) ∷ gs) h in cc

pub map-injective :
    {A : Type 0} (f : A → Text)
    → ((x y : A) → f x ≡ f y → x ≡ y)
    → (xs ys : List A) → map f xs ≡ map f ys
    → xs ≡ ys
map-injective f one [] [] h = refl
map-injective f one [] (y ∷ ys) h = cc
map-injective f one (x ∷ xs) [] h = cc
map-injective f one (x ∷ xs) (y ∷ ys) h =
    let head : x ≡ y = one x y (cc) in let tail : xs ≡ ys = map-injective f one xs ys (cc) in cc

side_value-injective : (s t : Side) → side_value s ≡ side_value t → s ≡ t
unfolding side_value list_dec ℕ_discrete
side_value-injective debit debit h = refl
side_value-injective credit credit h = refl
side_value-injective debit credit h = absurd (ne_of_test (text "debit") (text "credit") refl h)
side_value-injective credit debit h = absurd (ne_of_test (text "credit") (text "debit") refl h)

pub tag_canonical-injective : (s t : Text × Text) → tag_canonical s ≡ tag_canonical t → s ≡ t
unfolding tag_canonical
tag_canonical-injective (k, v) (j, w) h =
    let same = encode-injective (k ∷ v ∷ []) (j ∷ w ∷ []) h in
    let keys : k ≡ j = cc in let values : v ≡ w = cc in cc

posting_canonical-injective : (p q : Posting) → posting_canonical p ≡ posting_canonical q → p ≡ q
unfolding posting_canonical
posting_canonical-injective p q h =
    let same =
      encode-injective
        (p.account_id
          ∷ side_value p.side
          ∷ show_int p.money.amount
          ∷ p.money.currency.code
          ∷ decimal p.money.currency.exponent
          ∷ [])
        (q.account_id
          ∷ side_value q.side
          ∷ show_int q.money.amount
          ∷ q.money.currency.code
          ∷ decimal q.money.currency.exponent
          ∷ [])
        h in
    let account : p.account_id ≡ q.account_id = cc in
    let side = side_value-injective p.side q.side (cc) in
    let amount = show_int-injective p.money.amount q.money.amount (cc) in
    let code : p.money.currency.code ≡ q.money.currency.code = cc in
    let exponent = decimal-injective p.money.currency.exponent q.money.currency.exponent (cc) in cc

pub draft_canonical-cons : (d : EntryDraft) → (c : ℕ) × (cs : Text) × (draft_canonical d ≡ c ∷ cs)
unfolding draft_canonical encode
draft_canonical-cons d = encode_field-cons (text "draft") (
    encode (
      d.description
      ∷ encode_seq (map tag_canonical d.tags)
      ∷ encode_seq (map posting_canonical d.postings)
      ∷ []))

-- Two drafts with the same canonical form are the same draft: the same postings in the same order,
-- the same description and the same tags.
pub draft_canonical-injective : (d e : EntryDraft) → draft_canonical d ≡ draft_canonical e → d ≡ e
unfolding draft_canonical
draft_canonical-injective d e h =
    let same =
      encode-injective
        (text "draft"
          ∷ d.description
          ∷ encode_seq (map tag_canonical d.tags)
          ∷ encode_seq (map posting_canonical d.postings)
          ∷ [])
        (text "draft"
          ∷ e.description
          ∷ encode_seq (map tag_canonical e.tags)
          ∷ encode_seq (map posting_canonical e.postings)
          ∷ [])
        h in
    let description : d.description ≡ e.description = cc in
    let tags =
      map-injective tag_canonical tag_canonical-injective d.tags e.tags
        (encode_seq-injective _ _ (cc)) in
    let postings =
      map-injective posting_canonical posting_canonical-injective d.postings e.postings
        (encode_seq-injective _ _ (cc)) in
    cc
