-- ===== src/Ledger/Handlers.antt =====
-- src/ledgergate/ledger/state.py: every call of `Ledger.execute` that returns is one of the steps.
use ledgergate.Base.{◌≡◌, refl, sym, ap, subst, ◌∙◌, Option, none, some, nat_eq, list_eq}
use ledgergate.Text.{Text, text}
use ledgergate.Dict.{lookup, contains}
use ledgergate.Errors.{ok, raise_if, raise_if-ok, duplicate_entry_id}
use ledgergate.Ledger.Identifiers.{require_identifier}
use ledgergate.Exec.{>>=-eq-ok, lift-eq-ok, pure-eq-ok}
use ledgergate.Ledger.Money.{Money}
use ledgergate.Ledger.Postings.{EntryDraft, reversed}
use ledgergate.Ledger.Balance.{IsDraft, reversed-Mirrors}
use ledgergate.Ledger.Encoding.{Platform}
use ledgergate.Ledger.Lifecycle.{
  Transaction, Event, refund_event, open_pending, advance_transaction, refund_transaction,
}
use ledgergate.Ledger.Commands.{
  Command, post, reverse, open_transaction, advance, refund, command_key, command_fingerprint,
  Ledger, Applied, get_entry, get_transaction,
}
use ledgergate.Ledger.Checks.{
  validate, replay_of, canonical_time, not_reversed, check_entry, require_entry_moving,
}
use ledgergate.Ledger.State.{
  Effects, Request, entry_request, transaction_request, append, do_post, do_reverse, do_open,
  do_advance, do_refund, commit_transaction, perform, once, execute, unless_replayed,
}
use ledgergate.Ledger.Steps.{
  HasDraft, reversed_by, IsCommand, Moved, opened, advanced, refunded_part, Appended, Step,
  recalled, posted, stored, get_entry-eq, get_transaction-eq, not_reversed-eq,
  require_identifier-eq, replay_of-none,
}

module _ (platform : Platform) {W : Type 0} (effects : Effects W) where
  pub append-Appended :
      (l : Ledger) (r : Request) (w w' : W) {a : Applied}
      → append platform effects l r w ≡ (ok a, w')
      → Appended platform l r a
  unfolding append
  append-Appended l r w w' {a} h =
      let (balances, valid, h1) = lift-eq-ok (validate l r.draft) _ w w' h in
      let (given, u, _, h2) = >>=-eq-ok effects.next_id _ w w' h1 in
      let (entry_id, _, h3) =
        lift-eq-ok (require_identifier given (text "generated entry id")) _ u w' h2 in
      let (_, new, h4) =
        lift-eq-ok (raise_if (contains entry_id l.by_id) (duplicate_entry_id entry_id)) _ u w' h3 in
      let (time, v, _, h5) = >>=-eq-ok effects.now _ u w' h4 in
      let (posted_at, _, h6) = lift-eq-ok (canonical_time time) _ v w' h5 in
      record {
        balances = balances;
        entry_id = entry_id;
        posted_at = posted_at;
        valid = valid;
        new_id = raise_if-ok _ _ new;
        result = pure-eq-ok _ v w' h6;
      }

  do_post-Step :
      (l : Ledger) (key : Text) (draft : EntryDraft) (w w' : W) {a : Applied}
      → lookup key l.operations ≡ none
      → IsDraft draft
      → do_post platform effects l key (command_fingerprint platform (post key draft)) draft w
        ≡ (ok a, w')
      → Step platform l (post key draft) a
  unfolding do_post command_key
  do_post-Step l key draft w w' new d h =
      posted (entry_request key (command_fingerprint platform (post key draft)) draft none) new
        (record {
          keyed = refl;
          printed = refl;
          drafted = d;
          names = refl;
          reversal = tt;
          stores = refl;
        })
        (append-Appended l _ w w' h)

  do_reverse-Step :
      (l : Ledger) (key id description : Text) (w w' : W) {a : Applied}
      → lookup key l.operations ≡ none
      → do_reverse platform effects l key
          (command_fingerprint platform (reverse key id description))
          id
          description
          w
        ≡ (ok a, w')
      → Step platform l (reverse key id description) a
  unfolding do_reverse command_key
  do_reverse-Step l key id description w w' new h =
      let (o, found, h1) = lift-eq-ok (get_entry l id) _ w w' h in
      let (_, first, h2) = lift-eq-ok (not_reversed id (lookup id l.reversals)) _ w w' h1 in
      let (draft, made, h3) = lift-eq-ok (reversed o.draft description) _ w w' h2 in
      let (d, mirror) = reversed-Mirrors o.draft draft description made in
      let print = command_fingerprint platform (reverse key id description) in
      posted (entry_request key print draft (some id)) new
        (record {
          keyed = refl;
          printed = refl;
          drafted = d;
          names = refl;
          reversal = (o, get_entry-eq l id found, not_reversed-eq id _ first, mirror);
          stores = refl;
        })
        (append-Appended l _ w w' h3)

  do_open-Step :
      (l : Ledger) (key id : Text) (amount : Money) (w w' : W) {a : Applied}
      → lookup key l.operations ≡ none
      → do_open platform effects l key
          (command_fingerprint platform (open_transaction key id amount))
          id
          amount
          w
        ≡ (ok a, w')
      → Step platform l (open_transaction key id amount) a
  unfolding do_open command_key
  do_open-Step l key id amount w w' new h =
      let (_, absent, h1) = lift-eq-ok (raise_if (contains id l.transactions) _) _ w w' h in
      let (t, made, h2) = lift-eq-ok (open_pending id amount) _ w w' h1 in
      stored t refl new (opened id amount (raise_if-ok _ _ absent) made) (pure-eq-ok _ w w' h2)

  commit-Step :
      (l : Ledger) (c : Command) (t : Transaction) (entry : Option EntryDraft) (w w' : W)
      {a : Applied}
      → lookup (command_key c) l.operations ≡ none
      → reversed_by c ≡ none
      → HasDraft entry
      → Moved l t
      → commit_transaction platform effects l
          (command_key c)
          (command_fingerprint platform c)
          t
          entry
          w
        ≡ (ok a, w')
      → Step platform l c a
  unfolding commit_transaction
  commit-Step l c t none w w' new e d m h = stored t e new m (pure-eq-ok _ w w' h)
  commit-Step l c t (some draft) w w' new e d m h =
      posted (transaction_request l (command_key c) (command_fingerprint platform c) draft t) new
        (record {
          keyed = refl;
          printed = refl;
          drafted = d;
          names = sym e;
          reversal = tt;
          stores = (refl, m);
        })
        (append-Appended l _ w w' h)

  do_advance-Step :
      (l : Ledger) (key id : Text) (event : Event) (entry : Option EntryDraft) (w w' : W)
      {a : Applied}
      → lookup key l.operations ≡ none
      → HasDraft entry
      → do_advance platform effects l key
          (command_fingerprint platform (advance key id event entry))
          id
          event
          entry
          w
        ≡ (ok a, w')
      → Step platform l (advance key id event entry) a
  unfolding do_advance command_key
  do_advance-Step l key id event entry w w' new d h =
      let (u, found, h1) = lift-eq-ok (get_transaction l id) _ w w' h in
      let (t, made, h2) = lift-eq-ok (advance_transaction u event) _ w w' h1 in
      let (_, _, h3) = lift-eq-ok (check_entry t.transaction_id event entry u.amount) _ w w' h2 in
      commit-Step l (advance key id event entry) t entry w w' new refl d
        (advanced id u event (get_transaction-eq l id found) made) h3

  do_refund-Step :
      (l : Ledger) (key id : Text) (money : Money) (entry : Option EntryDraft) (w w' : W)
      {a : Applied}
      → lookup key l.operations ≡ none
      → HasDraft entry
      → do_refund platform effects l key
          (command_fingerprint platform (refund key id money entry))
          id
          money
          entry
          w
        ≡ (ok a, w')
      → Step platform l (refund key id money entry) a
  unfolding do_refund command_key
  do_refund-Step l key id money entry w w' new d h =
      let (u, found, h1) = lift-eq-ok (get_transaction l id) _ w w' h in
      let (t, made, h2) = lift-eq-ok (refund_transaction u money) _ w w' h1 in
      let (_, _, h3) = lift-eq-ok (require_entry_moving entry id refund_event money) _ w w' h2 in
      commit-Step l (refund key id money entry) t entry w w' new refl d
        (refunded_part id u money (get_transaction-eq l id found) made) h3

  perform-Step :
      (l : Ledger) (c : Command) (w w' : W) {a : Applied}
      → lookup (command_key c) l.operations ≡ none
      → IsCommand c
      → perform platform effects l (command_fingerprint platform c) c w ≡ (ok a, w')
      → Step platform l c a
  unfolding perform command_key
  perform-Step l (post key draft) w w' new d h = do_post-Step l key draft w w' new d h
  perform-Step l (reverse key id description) w w' new d h =
      do_reverse-Step l key id description w w' new h
  perform-Step l (open_transaction key id amount) w w' new d h =
      do_open-Step l key id amount w w' new h
  perform-Step l (advance key id event entry) w w' new d h =
      do_advance-Step l key id event entry w w' new d h
  perform-Step l (refund key id money entry) w w' new d h =
      do_refund-Step l key id money entry w w' new d h

  unless_replayed-Step :
      (l : Ledger) (c : Command) (w w' : W) {a : Applied} (o : Option Applied)
      → IsCommand c
      → replay_of l (command_key c) (command_fingerprint platform c) ≡ ok o
      → unless_replayed o (perform platform effects l (command_fingerprint platform c) c) w
        ≡ (ok a, w')
      → Step platform l c a
  unfolding unless_replayed
  unless_replayed-Step l c w w' none d e h = perform-Step l c w w' (replay_of-none l _ _ e) d h
  unless_replayed-Step l c w w' (some b) d e h =
      recalled (e ∙ ap (λ (x : Applied). ok (some x)) (sym (pure-eq-ok b w w' h)))

  -- Every call that returns did one of the three.
  pub execute-Step :
      (l : Ledger) (c : Command) (w w' : W) {a : Applied}
      → IsCommand c
      → execute platform effects l c w ≡ (ok a, w')
      → Step platform l c a
  unfolding execute once
  execute-Step l c w w' d h =
      let (key, valid, h1) = lift-eq-ok (require_identifier (command_key c) _) _ w w' h in
      let same = require_identifier-eq (command_key c) (text "idempotency key") valid in
      let (o, e, h2) = lift-eq-ok (replay_of l key (command_fingerprint platform c)) _ w w' h1 in
      unless_replayed-Step l c w w' o d
        (subst (λ k. replay_of l k (command_fingerprint platform c) ≡ ok o) same e) h2
