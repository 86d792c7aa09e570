-- ===== src/Ledger/Balance.antt =====
-- src/ledgergate/ledger/entries.py: a draft that was constructed balances in every currency.
use ledgergate.Base.{
  ◌≤◌, ◌≡◌, refl, sym, ◌∙◌, subst, inl, inr, List, [], ◌∷◌, arith, ◌==◌, nat_eq, if◌then◌else◌,
  length, Bool-cases, eq_of_test, test_self, Eq, list_eq,
}
use ledgergate.Text.{Text}
use ledgergate.Int.{ℤ, pos, ◌+ℤ◌, neg, int_eq, int_laws, +ℤ_assoc, zero-+ℤ}
use ledgergate.Dict.{Dict, lookup, insert, get_or, get_or-insert}
use ledgergate.Errors.{ok, >>=-eq-ok, ok-injective}
use ledgergate.Ledger.Currency.{Currency, currency_eq}
use ledgergate.Ledger.Accounts.{times_sign, opposite}
use ledgergate.Ledger.Postings.{
  Posting, EntryDraft, signed_amount, net_from, net_by_currency, imbalance_from, imbalance,
  make_draft, flipped, flip_all, reversed, make_posting,
}

-- Debits less credits of one currency.
abbrev pub net_of : Currency → List Posting → ℤ
net_of c [] = pos 0
net_of c (p ∷ ps) = (if p.money.currency == c then signed_amount p else pos 0) +ℤ net_of c ps

-- What holding an `EntryDraft` promises.
pub record IsDraft (d : EntryDraft) : Type 0 where
  pub enough : 2 ≤ length d.postings
  pub balanced : (c : Currency) → net_of c d.postings ≡ pos 0

-- One entry of a dictionary of sums is raised by `x`; read at another key or at the same.
pub raise_one {ℓ} :
    {K : Type ℓ} ⦃e : Eq K⦄ (c k : K) (g : K → ℤ) (x n : ℤ)
    → (if c == k then g k +ℤ x else g c) +ℤ n ≡ g c +ℤ ((if k == c then x else pos 0) +ℤ n)
raise_one ⦃e⦄ c k g x n = elim (Bool-cases (k == c)) [
  | inl same ↦ rw (eq_of_test k c same, test_self c) (+ℤ_assoc (g c) x n)
  | inr other ↦ elim (Bool-cases (c == k)) [
    | inl same ↦ ground (arith, eq_of_test c k same, test_self k)
    | inr other' ↦ rw (other, other') (omega int_laws)
  ]
]

get_or-net_from :
    (c : Currency) (net : Dict Currency ℤ) (ps : List Posting)
    → get_or c (pos 0) (net_from net ps) ≡ get_or c (pos 0) net +ℤ net_of c ps
unfolding net_from
get_or-net_from c net [] = omega int_laws
get_or-net_from c net (p ∷ ps) =
    let k = p.money.currency in
    let step = get_or k (pos 0) net +ℤ signed_amount p in
    rw (get_or-net_from c (insert k step net) ps, get_or-insert k c step (pos 0) net)
      (raise_one c k (λ j. get_or j (pos 0) net) (signed_amount p) (net_of c ps))

-- A dictionary that was written to is not empty.
length-insert : (k : Text) (v : ℤ) (d : Dict Text ℤ) → 1 ≤ length (insert k v d)
unfolding insert
length-insert k v [] = omega arith
length-insert k v ((j, w) ∷ d) = ground arith

-- What is held at the start is held at the end, or its key is.
length-imbalance_from :
    (off : Dict Text ℤ) (net : Dict Currency ℤ)
    → 1 ≤ length off
    → 1 ≤ length (imbalance_from off net)
unfolding imbalance_from
length-imbalance_from off [] h = h
length-imbalance_from off ((k, n) ∷ net) h = elim (Bool-cases (n == pos 0)) [
  | inl zero_sum ↦ rw zero_sum (length-imbalance_from off net h)
  | inr other ↦
      rw other (length-imbalance_from (insert k.code n off) net (length-insert k.code n off))
]

get_or-imbalance_from :
    (c : Currency) (net : Dict Currency ℤ)
    → length (imbalance_from [] net) ≡ 0
    → get_or c (pos 0) net ≡ pos 0
unfolding imbalance_from get_or lookup
get_or-imbalance_from c [] h = refl
get_or-imbalance_from c ((k, n) ∷ net) h = elim (Bool-cases (n == pos 0)) [
  | inl zero_sum ↦
      let rest = get_or-imbalance_from c net (rw zero_sum at h) in
      let sum = eq_of_test n (pos 0) zero_sum in ground (arith, rest, sum)
  | inr other ↦
      let kept = length-imbalance_from (insert k.code n []) net (length-insert k.code n []) in
      let empty = rw other at h in absurd (omega (arith, kept, empty))
]

get_or-imbalance :
    (c : Currency) (net : Dict Currency ℤ)
    → length (imbalance net) ≡ 0
    → get_or c (pos 0) net ≡ pos 0
unfolding imbalance
get_or-imbalance c net h = get_or-imbalance_from c net h

-- A draft that was made has the postings given, two at least, and no imbalance.
make_draft-parts :
    (ps : List Posting) (description : Text) (tags : List (Text × Text)) (d : EntryDraft)
    → make_draft ps description tags ≡ ok d
    → (d.postings ≡ ps) × (2 ≤ length ps) × (length (imbalance (net_by_currency ps)) ≡ 0)
unfolding make_draft
make_draft-parts ps description tags d h = ground arith

get_or-net_by_currency :
    (c : Currency) (ps : List Posting) → get_or c (pos 0) (net_by_currency ps) ≡ net_of c ps
unfolding net_by_currency get_or lookup
get_or-net_by_currency c ps = get_or-net_from c [] ps ∙ zero-+ℤ (net_of c ps)

net_of-zero :
    (c : Currency) (ps : List Posting)
    → length (imbalance (net_by_currency ps)) ≡ 0
    → net_of c ps ≡ pos 0
net_of-zero c ps h = sym (get_or-net_by_currency c ps) ∙ get_or-imbalance c (net_by_currency ps) h

-- A draft that the constructor returns has two postings or more, the postings given, and in every
-- currency its debits equal its credits.
pub make_draft-IsDraft :
    (ps : List Posting) (description : Text) (tags : List (Text × Text)) (d : EntryDraft)
    → make_draft ps description tags ≡ ok d
    → IsDraft d × (d.postings ≡ ps)
make_draft-IsDraft ps description tags d h =
    let (same, two, none_off) = make_draft-parts ps description tags d h in
    (record { enough = rw same two; balanced = λ c. rw same (net_of-zero c ps none_off) }, same)

-- Each posting on the other side.
abbrev pub Mirrors : List Posting → List Posting → Type 0
Mirrors [] [] = Unit
Mirrors (p ∷ ps) (q ∷ qs) =
    (q.account_id ≡ p.account_id)
    × (q.money ≡ p.money)
    × (signed_amount q ≡ neg (signed_amount p))
    × Mirrors ps qs
Mirrors _ _ = ⊥

neg-neg : (a : ℤ) → neg (neg a) ≡ a
neg-neg a = omega int_laws

flipped-parts :
    (p q : Posting)
    → flipped p ≡ ok q
    → (q.account_id ≡ p.account_id)
      × (q.money ≡ p.money)
      × (signed_amount q ≡ neg (signed_amount p))
unfolding flipped make_posting signed_amount times_sign opposite
flipped-parts p q h = ground (arith, neg-neg p.money.amount)

flip_all-Mirrors : (ps qs : List Posting) → flip_all ps ≡ ok qs → Mirrors ps qs
unfolding flip_all
flip_all-Mirrors [] [] h = tt
flip_all-Mirrors [] (q ∷ qs) h = cc
flip_all-Mirrors (p ∷ ps) qs h =
    let (q', eq, rest) = >>=-eq-ok (flipped p) _ h in
    let (qs', eqs, last) = >>=-eq-ok (flip_all ps) _ rest in
    let (same, money, signed) = flipped-parts p q' eq in
    subst (Mirrors (p ∷ ps)) (ok-injective last) (same, money, signed, flip_all-Mirrors ps qs' eqs)

-- What the reversal of a draft posts: the draft's postings in order, each on the other side.
pub reversed-Mirrors :
    (d r : EntryDraft) (description : Text)
    → reversed d description ≡ ok r
    → IsDraft r × Mirrors d.postings r.postings
unfolding reversed
reversed-Mirrors d r description h =
    let (qs, flips, made) = >>=-eq-ok (flip_all d.postings) _ h in
    let (drafted, same) = make_draft-IsDraft qs _ d.tags r made in
    (drafted, rw same (flip_all-Mirrors d.postings qs flips))
