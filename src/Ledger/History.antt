-- ===== src/Ledger/History.antt =====
-- src/ledgergate/ledger/state.py: the ledger is append-only, and a reversal undoes what an entry did
-- to the balances.
use ledgergate.Base.{
  ◌≡◌, sym, ap, ◌∙◌, subst, Bool, true, false, some, List, [], ◌∷◌, ◌++◌, append_assoc, append-nil,
  ◌==◌, list_eq, nat_eq, if◌then◌else◌,
}
use ledgergate.Text.{Text}
use ledgergate.Int.{ℤ, pos, ◌+ℤ◌, neg, int_laws, +ℤ_assoc}
use ledgergate.Dict.{lookup, get_or}
use ledgergate.Errors.{ok}
use ledgergate.Ledger.Accounts.{Account, Chart, make_chart}
use ledgergate.Ledger.Chart.{IsChart, make_chart-IsChart}
use ledgergate.Ledger.Postings.{Posting, signed_amount}
use ledgergate.Ledger.Balance.{Mirrors}
use ledgergate.Ledger.Encoding.{Platform, Entry}
use ledgergate.Ledger.Commands.{Command, reverse, Ledger, empty_ledger, Applied}
use ledgergate.Ledger.State.{Effects, execute, with_entry, store_transaction, new_entry}
use ledgergate.Ledger.Steps.{Step, recalled, posted, stored, Reverses, replay_of-some}
use ledgergate.Ledger.Handlers.{execute-Step}
use ledgergate.Ledger.Integrity.{validate-post_balances, post_balances-eq}
use ledgergate.Ledger.Books.{moved_of, get_or-add_postings}
use ledgergate.Ledger.Reach.{Reach, Reach_induction, Reach-IsSound}

-- What `m` holds beyond the entries of `l`.
abbrev Extends : Ledger → Ledger → Type 0
Extends l m = (new : List Entry) × (m.entries ≡ l.entries ++ new)

Step-Extends :
    (platform : Platform) (base l : Ledger) (c : Command) (a : Applied)
    → Step platform l c a
    → Extends base l
    → Extends base a.ledger
unfolding with_entry store_transaction
Step-Extends platform base l c a (recalled e) h =
    subst (Extends base) (sym (replay_of-some l _ _ a e).0) h
Step-Extends platform base l c a (posted r _ _ p) (new, same) =
    subst (λ (x : Applied). Extends base x.ledger) (sym p.result)
      (
        new ++ new_entry platform l r p.entry_id p.posted_at ∷ [],
        ap (λ es. es ++ new_entry platform l r p.entry_id p.posted_at ∷ []) same
            ∙ append_assoc base.entries new (new_entry platform l r p.entry_id p.posted_at ∷ []),
      )
Step-Extends platform base l c a (stored t _ _ _ e) h =
    subst (λ (x : Applied). Extends base x.ledger) (sym e) h

moved_of-Mirrors :
    (k : Text) (ps qs : List Posting) → Mirrors ps qs → moved_of k qs +ℤ moved_of k ps ≡ pos 0
moved_of-Mirrors k [] [] h = omega int_laws
moved_of-Mirrors k [] (q ∷ qs) h = elim h [ ]
moved_of-Mirrors k (p ∷ ps) [] h = elim h [ ]
moved_of-Mirrors k (p ∷ ps) (q ∷ qs) (same, _, signed, rest) =
    rw (signed, same)
      (cancel (p.account_id == k) (signed_amount p) (moved_of k qs) (moved_of k ps)
        (moved_of-Mirrors k ps qs rest))
  where
    regroup : (x a b : ℤ) → neg x +ℤ a +ℤ (x +ℤ b) ≡ a +ℤ b
    regroup x a b = omega int_laws

    plain : (a b : ℤ) → pos 0 +ℤ a +ℤ (pos 0 +ℤ b) ≡ a +ℤ b
    plain a b = omega int_laws

    cancel :
        (t : Bool) (x a b : ℤ)
        → a +ℤ b ≡ pos 0
        → (if t then neg x else pos 0) +ℤ a +ℤ ((if t then x else pos 0) +ℤ b) ≡ pos 0
    cancel true x a b h = regroup x a b ∙ h
    cancel false x a b h = plain a b ∙ h

module _ (platform : Platform) where
  reverse-Step :
      (l : Ledger) (key id description : Text) (a : Applied) (k : Text)
      → IsChart l.chart
      → Step platform l (reverse key id description) a
      → a.replayed ≡ false
      → (o : Entry) × (lookup id l.by_id ≡ some o)
        × (get_or k (pos 0) a.ledger.balances +ℤ moved_of k o.draft.postings
            ≡ get_or k (pos 0) l.balances)
  unfolding with_entry store_transaction
  reverse-Step l key id description a k charted (recalled e) fresh =
      let replays : a.replayed ≡ true = (replay_of-some l _ _ a e).1 in cc
  reverse-Step l key id description a k charted (stored t names _ _ e) fresh = cc
  reverse-Step l key id description a k charted (posted r _ f p) fresh =
      let (o, found, _, mirror) = subst (Reverses l r.draft) f.names f.reversal in
      let posts = (validate-post_balances l r.draft p.valid).0 in
      let after = post_balances-eq l.chart l.balances r.draft.postings charted posts in
      (
        o,
        found,
        ap (λ (x : Applied). get_or k (pos 0) x.ledger.balances +ℤ moved_of k o.draft.postings)
              p.result
            ∙ ap (λ b. get_or k (pos 0) b +ℤ moved_of k o.draft.postings) after
            ∙ ap (λ n. n +ℤ moved_of k o.draft.postings)
                (get_or-add_postings k l.balances r.draft.postings)
            ∙ settled_up (get_or k (pos 0) l.balances) (moved_of k r.draft.postings)
                (moved_of k o.draft.postings)
                (moved_of-Mirrors k o.draft.postings r.draft.postings mirror),
      )
    where
      settled_up : (b x y : ℤ) → x +ℤ y ≡ pos 0 → b +ℤ x +ℤ y ≡ b
      settled_up b x y h = +ℤ_assoc b x y ∙ ap (λ n. b +ℤ n) h ∙ omega int_laws

module _ (platform : Platform) {W : Type 0} (effects : Effects W) where
  -- A later ledger holds the entries of an earlier one, unchanged and in their order, followed by
  -- the entries posted since.
  pub entries_extend :
      {l m : Ledger}
      → Reach platform effects l m
      → (new : List Entry) × (m.entries ≡ l.entries ++ new)
  entries_extend {l} r =
      Reach_induction platform effects (Extends l) (Step-Extends platform l)
        ([], sym (append-nil l.entries)) r

  -- When a `Reverse` command with a new key returns, the entry that it names is in the ledger, and
  -- in every account the new balance and what that entry moved come to the old balance.
  pub reverse_restores :
      (accounts : List Account) {chart : Chart} {l : Ledger} (key id description : Text) (w w' : W)
      {a : Applied} (k : Text)
      → make_chart accounts ≡ ok chart
      → Reach platform effects (empty_ledger chart) l
      → execute platform effects l (reverse key id description) w ≡ (ok a, w')
      → a.replayed ≡ false
      → (o : Entry) × (lookup id l.by_id ≡ some o)
        × (get_or k (pos 0) a.ledger.balances +ℤ moved_of k o.draft.postings
            ≡ get_or k (pos 0) l.balances)
  reverse_restores accounts {chart} {l} key id description w w' {a} k made r h fresh =
      reverse-Step platform l key id description a k
        (Reach-IsSound platform effects (make_chart-IsChart accounts chart made).0 r).charted
        (execute-Step platform effects l (reverse key id description) w w' tt h) fresh
