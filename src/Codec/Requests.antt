-- ===== src/Codec/Requests.antt =====
-- src/ledgergate/ledger/state.py and src/ledgergate/codec/commands.py: what a command's fingerprint
-- hashes determines the command.
use ledgergate.Base.{
  ℕ, ◌≡◌, refl, sym, ap, ◌∙◌, Option, none, some, List, [], ◌∷◌, ◌++◌, map, arith, All, eq_of_some,
  list_dec, ℕ_discrete, nat_eq, list_eq, ◌==◌, if◌then◌else◌,
}
use ledgergate.Text.{Text, text, text_lt}
use ledgergate.Text.Decimal.{decimal, decimal-injective, decimal-All, IsDigit}
use ledgergate.Text.Integer.{show_int, show_int-injective}
use ledgergate.Ledger.Currency.{Currency}
use ledgergate.Ledger.Money.{Money}
use ledgergate.Ledger.Lifecycle.{Event, event_value, events}
use ledgergate.Ledger.Postings.{EntryDraft}
use ledgergate.Ledger.Encoding.{
  encode_seq, tag_canonical, sort_payload, insert_key, fingerprint_body,
}
use ledgergate.Ledger.Injective.{
  encode-injective, encode_seq-injective, map-injective, tag_canonical-injective,
  draft_canonical-injective, draft_canonical-cons,
}
use ledgergate.Ledger.Commands.{
  Command, post, reverse, open_transaction, advance, refund, command_key, entry_field,
  currency_field, kind_of, payload_of,
}
use ledgergate.Codec.Command.{find_among}
use ledgergate.Codec.CommandTrip.{find_among-event_value}

-- Both parts of what a fingerprint hashes can be read back.
fingerprint_body-parts :
    (k j : Text) (p q : List (Text × Text))
    → fingerprint_body k p ≡ fingerprint_body j q
    → (k ≡ j) × (sort_payload p ≡ sort_payload q)
unfolding fingerprint_body
fingerprint_body-parts k j p q h =
    let same =
      encode-injective (k ∷ encode_seq (map tag_canonical (sort_payload p)) ∷ [])
        (j ∷ encode_seq (map tag_canonical (sort_payload q)) ∷ []) h in
    let kinds : k ≡ j = cc in
    (
      kinds,
      map-injective tag_canonical tag_canonical-injective (sort_payload p) (sort_payload q)
          (encode_seq-injective _ _ (cc)),
    )

entry_field-injective : (d e : Option EntryDraft) → entry_field d ≡ entry_field e → d ≡ e
unfolding entry_field
entry_field-injective none none h = refl
entry_field-injective none (some e) h = let (c, cs, k) = draft_canonical-cons e in cc
entry_field-injective (some d) none h = let (c, cs, k) = draft_canonical-cons d in cc
entry_field-injective (some d) (some e) h = ap some (draft_canonical-injective d e h)

event_value-injective : (d e : Event) → event_value d ≡ event_value e → d ≡ e
event_value-injective d e h =
    eq_of_some
      (sym (find_among-event_value d) ∙ ap (λ t. find_among t events) h ∙ find_among-event_value e)

no_slash : (b x y : Text) → All IsDigit x → x ≡ b ++ b'/' ∷ y → ⊥
no_slash [] [] y h e = cc
no_slash [] (c ∷ x) y h e = let same : c ≡ b'/' = cc in omega (arith, h.0, same)
no_slash (d ∷ b) [] y h e = cc
no_slash (d ∷ b) (c ∷ x) y h e = no_slash b x y h.1 (cc)

-- Digits hold no slash, so the last slash splits.
split_at_slash :
    (a b x y : Text)
    → All IsDigit x
    → All IsDigit y
    → a ++ b'/' ∷ x ≡ b ++ b'/' ∷ y
    → (a ≡ b) × (x ≡ y)
split_at_slash [] [] x y h k e = (refl, cc)
split_at_slash [] (d ∷ b) x y h k e = absurd (no_slash b x y h (cc))
split_at_slash (c ∷ a) [] x y h k e = absurd (no_slash a y x k (cc))
split_at_slash (c ∷ a) (d ∷ b) x y h k e =
    let (p, q) = split_at_slash a b x y h k (cc) in let heads : c ≡ d = cc in (cc, q)

currency_field-injective : (c d : Currency) → currency_field c ≡ currency_field d → c ≡ d
unfolding currency_field
currency_field-injective c d h =
    let (code, digits) =
      split_at_slash c.code d.code (decimal c.exponent) (decimal d.exponent)
        (decimal-All c.exponent) (decimal-All d.exponent) h in
    let exponent = decimal-injective c.exponent d.exponent digits in cc

money-injective :
    (m n : Money)
    → show_int m.amount ≡ show_int n.amount
    → currency_field m.currency ≡ currency_field n.currency
    → m ≡ n
money-injective m n h k =
    let amount = show_int-injective m.amount n.amount h in
    let currency = currency_field-injective m.currency n.currency k in cc

abbrev request_body : Command → Text
request_body c = fingerprint_body (kind_of c) (payload_of c)

-- The number of a kind.
kind_number : Command → ℕ
kind_number (post _ _) = 0
kind_number (reverse _ _ _) = 1
kind_number (open_transaction _ _ _) = 2
kind_number (advance _ _ _ _) = 3
kind_number (refund _ _ _ _) = 4

number_of : Text → ℕ
number_of t =
    if t == text "post"
    then 0
    else if t == text "reverse"
    then 1
    else if t == text "open"
    then 2
    else if t == text "advance"
    then 3
    else 4

number_of-kind_of : (c : Command) → number_of (kind_of c) ≡ kind_number c
unfolding number_of kind_of kind_number list_dec ℕ_discrete
number_of-kind_of (post _ _) = refl
number_of-kind_of (reverse _ _ _) = refl
number_of-kind_of (open_transaction _ _ _) = refl
number_of-kind_of (advance _ _ _ _) = refl
number_of-kind_of (refund _ _ _ _) = refl

same_payload :
    (c d : Command)
    → kind_number c ≡ kind_number d
    → sort_payload (payload_of c) ≡ sort_payload (payload_of d)
    → command_key c ≡ command_key d
    → c ≡ d
unfolding kind_number payload_of command_key sort_payload insert_key text_lt list_dec ℕ_discrete
same_payload (post k d) (post j e) n h keys = let draft = draft_canonical-injective d e (cc) in cc
same_payload (reverse k i t) (reverse j u s) n h keys =
    let id : i ≡ u = cc in let description : t ≡ s = cc in cc
same_payload (open_transaction k i m) (open_transaction j u o) n h keys =
    let id : i ≡ u = cc in let money = money-injective m o (cc) (cc) in cc
same_payload (advance k i e d) (advance j u f g) n h keys =
    let id : i ≡ u = cc in
    let event = event_value-injective e f (cc) in let entry = entry_field-injective d g (cc) in cc
same_payload (refund k i m d) (refund j u o g) n h keys =
    let id : i ≡ u = cc in
    let money = money-injective m o (cc) (cc) in let entry = entry_field-injective d g (cc) in cc
same_payload (post _ _) (reverse _ _ _) n h keys = absurd (omega (arith, n))
same_payload (post _ _) (open_transaction _ _ _) n h keys = absurd (omega (arith, n))
same_payload (post _ _) (advance _ _ _ _) n h keys = absurd (omega (arith, n))
same_payload (post _ _) (refund _ _ _ _) n h keys = absurd (omega (arith, n))
same_payload (reverse _ _ _) (post _ _) n h keys = absurd (omega (arith, n))
same_payload (reverse _ _ _) (open_transaction _ _ _) n h keys = absurd (omega (arith, n))
same_payload (reverse _ _ _) (advance _ _ _ _) n h keys = absurd (omega (arith, n))
same_payload (reverse _ _ _) (refund _ _ _ _) n h keys = absurd (omega (arith, n))
same_payload (open_transaction _ _ _) (post _ _) n h keys = absurd (omega (arith, n))
same_payload (open_transaction _ _ _) (reverse _ _ _) n h keys = absurd (omega (arith, n))
same_payload (open_transaction _ _ _) (advance _ _ _ _) n h keys = absurd (omega (arith, n))
same_payload (open_transaction _ _ _) (refund _ _ _ _) n h keys = absurd (omega (arith, n))
same_payload (advance _ _ _ _) (post _ _) n h keys = absurd (omega (arith, n))
same_payload (advance _ _ _ _) (reverse _ _ _) n h keys = absurd (omega (arith, n))
same_payload (advance _ _ _ _) (open_transaction _ _ _) n h keys = absurd (omega (arith, n))
same_payload (advance _ _ _ _) (refund _ _ _ _) n h keys = absurd (omega (arith, n))
same_payload (refund _ _ _ _) (post _ _) n h keys = absurd (omega (arith, n))
same_payload (refund _ _ _ _) (reverse _ _ _) n h keys = absurd (omega (arith, n))
same_payload (refund _ _ _ _) (open_transaction _ _ _) n h keys = absurd (omega (arith, n))
same_payload (refund _ _ _ _) (advance _ _ _ _) n h keys = absurd (omega (arith, n))

-- Two commands with the same idempotency key and the same hashed request text are the same command:
-- no two different requests share what the fingerprint hashes.
pub request_body-injective :
    (c d : Command) → command_key c ≡ command_key d → request_body c ≡ request_body d → c ≡ d
request_body-injective c d keys h =
    let (kinds, payloads) =
      fingerprint_body-parts (kind_of c) (kind_of d) (payload_of c) (payload_of d) h in
    same_payload c d (sym (number_of-kind_of c) ∙ ap number_of kinds ∙ number_of-kind_of d) payloads
      keys
