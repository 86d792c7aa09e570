-- ===== src/Journal/Again.antt =====
-- src/ledgergate/ledger/state.py and journal/store.py: a call that is executed again with the id and the
-- time that its entry recorded returns the same.
use ledgergate.Base.{
  ◌≡◌, sym, ap, ◌∙◌, false, inl, inr, Option-cases, Option, none, some, arith, nat_eq, list_eq,
}
use ledgergate.Text.{Text, text}
use ledgergate.Int.{ℤ, pos, ◌-ℤ◌, int_laws}
use ledgergate.Dict.{Dict, lookup, contains}
use ledgergate.Errors.{ok, raise_if, raise_if-ok, duplicate_entry_id, duplicate_transaction}
use ledgergate.Exec.{>>=-eq-ok, lift-eq-ok, lift-reads, pure-eq-ok}
use ledgergate.Ledger.Identifiers.{require_identifier}
use ledgergate.Ledger.Money.{Money}
use ledgergate.Ledger.Postings.{EntryDraft, reversed}
use ledgergate.Ledger.Encoding.{Platform, Datetime, Entry, as_utc, in_years}
use ledgergate.Ledger.Lifecycle.{
  Transaction, Event, refund_event, open_pending, advance_transaction, refund_transaction,
}
use ledgergate.Ledger.Commands.{
  Command, post, reverse, open_transaction, advance, refund, command_key, command_fingerprint,
  Ledger, Applied, get_entry, get_transaction,
}
use ledgergate.Ledger.Checks.{
  validate, replay_of, canonical_time, not_reversed, check_entry, require_entry_moving,
}
use ledgergate.Ledger.State.{
  Effects, Request, append, do_post, do_reverse, do_open, do_advance, do_refund, commit_transaction,
  perform, once, execute, unless_replayed, with_entry, new_entry, entry_request,
  transaction_request,
}
use ledgergate.Ledger.Steps.{require_identifier-eq}

abbrev in_utc : ℤ → Datetime
in_utc n = record { reading = n; offset = some (pos 0) }

canonical_time-in_utc : (n : ℤ) → canonical_time (in_utc n) ≡ in_years (in_utc n)
unfolding canonical_time as_utc
canonical_time-in_utc n =
    let same : n -ℤ pos 0 ≡ n = omega int_laws in ap (λ m. in_years (in_utc m)) same

in_years-eq : (t u : Datetime) → in_years t ≡ ok u → t ≡ u
unfolding in_years
in_years-eq t u h = ground arith

canonical_time-again : (t u : Datetime) → canonical_time t ≡ ok u → canonical_time u ≡ ok u
unfolding canonical_time as_utc
canonical_time-again t u h = elim (Option-cases t.offset) [
  | inl e ↦ ground arith
  | inr (o, e) ↦
      let returned : in_years (in_utc (t.reading -ℤ o)) ≡ ok u = rw e at h in
      let same = in_years-eq (in_utc (t.reading -ℤ o)) u returned in
      ap canonical_time (sym same) ∙ canonical_time-in_utc (t.reading -ℤ o) ∙ returned
]

-- The effects give the id and the time of the entry, if there is one.
pub record Gives {V : Type 0} (effects : Effects V) (entry : Option Entry) : Type 0 where
  pub gives_id : (e : Entry) (v : V) → entry ≡ some e → effects.next_id v ≡ (ok e.entry_id, v)
  pub gives_time : (e : Entry) (v : V) → entry ≡ some e → effects.now v ≡ (ok e.posted_at, v)

module _ (platform : Platform) {V : Type 0} (again : Effects V) where
  append-reads :
      (l : Ledger) (r : Request) (v : V) (balances : Dict Text ℤ) (id : Text) (posted_at : Datetime)
      → validate l r.draft ≡ ok balances
      → again.next_id v ≡ (ok id, v)
      → require_identifier id (text "generated entry id") ≡ ok id
      → contains id l.by_id ≡ false
      → again.now v ≡ (ok posted_at, v)
      → canonical_time posted_at ≡ ok posted_at
      → append platform again l r v
        ≡ (ok (with_entry platform l r balances (new_entry platform l r id posted_at)), v)
  unfolding append
  append-reads l r v balances id posted_at h1 h2 h3 h4 h5 h6 = rw (h1, h2, h3, h4, h5, h6)

module _ (platform : Platform) {W V : Type 0} (effects : Effects W) (again : Effects V) where
  append-again :
      (l : Ledger) (r : Request) (w w' : W) (v : V) {a : Applied}
      → append platform effects l r w ≡ (ok a, w')
      → Gives again a.entry
      → append platform again l r v ≡ (ok a, v)
  unfolding append with_entry new_entry
  append-again l r w w' v {a} h g =
      let (balances, valid, h1) = lift-eq-ok (validate l r.draft) _ w w' h in
      let (given, u, _, h2) = >>=-eq-ok effects.next_id _ w w' h1 in
      let (entry_id, named, h3) =
        lift-eq-ok (require_identifier given (text "generated entry id")) _ u w' h2 in
      let (_, new, h4) =
        lift-eq-ok (raise_if (contains entry_id l.by_id) (duplicate_entry_id entry_id)) _ u w' h3 in
      let (time, x, _, h5) = >>=-eq-ok effects.now _ u w' h4 in
      let (posted_at, canonical, h6) = lift-eq-ok (canonical_time time) _ x w' h5 in
      let made : a ≡ with_entry platform l r balances (new_entry platform l r entry_id posted_at) =
        pure-eq-ok _ x w' h6 in
      let e = new_entry platform l r entry_id posted_at in
      let recorded : a.entry ≡ some e = ap (λ (b : Applied). b.entry) made in
      let same = require_identifier-eq given (text "generated entry id") named in
      append-reads platform again l r v balances entry_id posted_at valid (g.gives_id e v recorded)
        (ap (λ t. require_identifier t (text "generated entry id")) same ∙ named)
        (raise_if-ok _ _ new) (g.gives_time e v recorded)
        (canonical_time-again time posted_at canonical)
      ∙ ap (λ b. (ok b, v)) (sym made)

  commit-again :
      (l : Ledger) (key print : Text) (t : Transaction) (entry : Option EntryDraft) (w w' : W)
      (v : V) {a : Applied}
      → commit_transaction platform effects l key print t entry w ≡ (ok a, w')
      → Gives again a.entry
      → commit_transaction platform again l key print t entry v ≡ (ok a, v)
  unfolding commit_transaction
  commit-again l key print t none w w' v h g = ap (λ b. (ok b, v)) (sym (pure-eq-ok _ w w' h))
  commit-again l key print t (some draft) w w' v h g =
      append-again l (transaction_request l key print draft t) w w' v h g

  do_reverse-again :
      (l : Ledger) (key print id description : Text) (w w' : W) (v : V) {a : Applied}
      → do_reverse platform effects l key print id description w ≡ (ok a, w')
      → Gives again a.entry
      → do_reverse platform again l key print id description v ≡ (ok a, v)
  unfolding do_reverse
  do_reverse-again l key print id description w w' v h g =
      let (o, found, h1) = lift-eq-ok (get_entry l id) _ w w' h in
      let (_, first, h2) = lift-eq-ok (not_reversed id (lookup id l.reversals)) _ w w' h1 in
      let (draft, made, h3) = lift-eq-ok (reversed o.draft description) _ w w' h2 in
      lift-reads (get_entry l id) _ v found (
        lift-reads (not_reversed id (lookup id l.reversals)) _ v first (
          lift-reads (reversed o.draft description) _ v made
            (append-again l (entry_request key print draft (some id)) w w' v h3 g)))

  do_open-again :
      (l : Ledger) (key print id : Text) (amount : Money) (w w' : W) (v : V) {a : Applied}
      → do_open platform effects l key print id amount w ≡ (ok a, w')
      → do_open platform again l key print id amount v ≡ (ok a, v)
  unfolding do_open
  do_open-again l key print id amount w w' v h =
      let (_, absent, h1) =
        lift-eq-ok (raise_if (contains id l.transactions) (duplicate_transaction id)) _ w w' h in
      let (t, made, h2) = lift-eq-ok (open_pending id amount) _ w w' h1 in
      lift-reads (raise_if (contains id l.transactions) (duplicate_transaction id)) _ v absent (
        lift-reads (open_pending id amount) _ v made
          (ap (λ b. (ok b, v)) (sym (pure-eq-ok _ w w' h2))))

  do_advance-again :
      (l : Ledger) (key print id : Text) (event : Event) (entry : Option EntryDraft) (w w' : W)
      (v : V) {a : Applied}
      → do_advance platform effects l key print id event entry w ≡ (ok a, w')
      → Gives again a.entry
      → do_advance platform again l key print id event entry v ≡ (ok a, v)
  unfolding do_advance
  do_advance-again l key print id event entry w w' v h g =
      let (u, found, h1) = lift-eq-ok (get_transaction l id) _ w w' h in
      let (t, made, h2) = lift-eq-ok (advance_transaction u event) _ w w' h1 in
      let (_, fits, h3) =
        lift-eq-ok (check_entry t.transaction_id event entry u.amount) _ w w' h2 in
      lift-reads (get_transaction l id) _ v found (
        lift-reads (advance_transaction u event) _ v made (
          lift-reads (check_entry t.transaction_id event entry u.amount) _ v fits
            (commit-again l key print t entry w w' v h3 g)))

  do_refund-again :
      (l : Ledger) (key print id : Text) (money : Money) (entry : Option EntryDraft) (w w' : W)
      (v : V) {a : Applied}
      → do_refund platform effects l key print id money entry w ≡ (ok a, w')
      → Gives again a.entry
      → do_refund platform again l key print id money entry v ≡ (ok a, v)
  unfolding do_refund
  do_refund-again l key print id money entry w w' v h g =
      let (u, found, h1) = lift-eq-ok (get_transaction l id) _ w w' h in
      let (t, made, h2) = lift-eq-ok (refund_transaction u money) _ w w' h1 in
      let (_, fits, h3) = lift-eq-ok (require_entry_moving entry id refund_event money) _ w w' h2 in
      lift-reads (get_transaction l id) _ v found (
        lift-reads (refund_transaction u money) _ v made (
          lift-reads (require_entry_moving entry id refund_event money) _ v fits
            (commit-again l key print t entry w w' v h3 g)))

  perform-again :
      (l : Ledger) (print : Text) (c : Command) (w w' : W) (v : V) {a : Applied}
      → perform platform effects l print c w ≡ (ok a, w')
      → Gives again a.entry
      → perform platform again l print c v ≡ (ok a, v)
  unfolding perform do_post
  perform-again l print (post key draft) w w' v h g =
      append-again l (entry_request key print draft none) w w' v h g
  perform-again l print (reverse key id description) w w' v h g =
      do_reverse-again l key print id description w w' v h g
  perform-again l print (open_transaction key id amount) w w' v h g =
      do_open-again l key print id amount w w' v h
  perform-again l print (advance key id event entry) w w' v h g =
      do_advance-again l key print id event entry w w' v h g
  perform-again l print (refund key id money entry) w w' v h g =
      do_refund-again l key print id money entry w w' v h g

  unless_replayed-again :
      (l : Ledger) (print : Text) (c : Command) (o : Option Applied) (w w' : W) (v : V)
      {a : Applied}
      → unless_replayed o (perform platform effects l print c) w ≡ (ok a, w')
      → Gives again a.entry
      → unless_replayed o (perform platform again l print c) v ≡ (ok a, v)
  unfolding unless_replayed
  unless_replayed-again l print c none w w' v h g = perform-again l print c w w' v h g
  unless_replayed-again l print c (some b) w w' v h g =
      ap (λ x. (ok x, v)) (sym (pure-eq-ok b w w' h))

  -- A call that returned, executed again on the same ledger with effects that give the id and the
  -- time of the entry it posted, if it posted one, returns the same.
  pub execute-again :
      (l : Ledger) (c : Command) (w w' : W) (v : V) {a : Applied}
      → execute platform effects l c w ≡ (ok a, w')
      → Gives again a.entry
      → execute platform again l c v ≡ (ok a, v)
  unfolding execute once
  execute-again l c w w' v h g =
      let (key, valid, h1) =
        lift-eq-ok (require_identifier (command_key c) (text "idempotency key")) _ w w' h in
      let (o, e, h2) = lift-eq-ok (replay_of l key (command_fingerprint platform c)) _ w w' h1 in
      lift-reads (require_identifier (command_key c) (text "idempotency key")) _ v valid (
        lift-reads (replay_of l key (command_fingerprint platform c)) _ v e
          (unless_replayed-again l (command_fingerprint platform c) c o w w' v h2 g))
