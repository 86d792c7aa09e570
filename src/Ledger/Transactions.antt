-- ===== src/Ledger/Transactions.antt =====
-- src/ledgergate/ledger/state.py and lifecycle.py: the transactions that a ledger tracks, over any
-- history of commands.
use ledgergate.Base.{
  ◌≡◌, refl, sym, ap, ◌∙◌, subst, Bool, true, false, not, ◌||◌, Option, none, some, arith, ◌==◌,
  list_eq, nat_eq, Bool-cases, inl, inr, eq_of_test, eq_of_some,
}
use ledgergate.Text.{Text}
use ledgergate.Int.{ℤ, pos, ◌+ℤ◌, ◌≤ℤ◌, +ℤ_parts, int_eq}
use ledgergate.Dict.{Dict, lookup, insert, lookup-insert}
use ledgergate.Dict.Distinct.{contains-eq-false}
use ledgergate.Errors.{ok, raise_if, raise_if-ok, >>=-eq-ok}
use ledgergate.Ledger.Currency.{currency_eq}
use ledgergate.Ledger.Money.{Money, is_positive, gt_money}
use ledgergate.Ledger.Accounts.{Chart}
use ledgergate.Ledger.Encoding.{Platform}
use ledgergate.Ledger.Lifecycle.{
  Status, pending, Event, refund_event, transition, transitions, is_terminal, is_refund,
  Transaction, open_pending, refundable, advance_transaction, refund_transaction,
}
use ledgergate.Ledger.LifecycleLaws.{IsTransaction, IsTransaction-check, after_event, after_refund}
use ledgergate.Ledger.Commands.{Command, Ledger, empty_ledger, Applied}
use ledgergate.Ledger.State.{Effects, Request, transactions_after, with_entry, store_transaction}
use ledgergate.Ledger.Steps.{
  Step, recalled, posted, stored, Stores, Moved, opened, advanced, refunded_part, replay_of-some,
}
use ledgergate.Ledger.Reach.{Reach, Reach_induction}

abbrev new_transaction : Text → Money → Transaction
new_transaction id amount = record {
  transaction_id = id;
  amount = amount;
  status = pending;
  refunded_minor = pos 0;
}

-- Every transaction is filed under its id and is well formed.
abbrev pub IsTracked : Dict Text Transaction → Type 0
IsTracked d =
    (k : Text) (t : Transaction) → lookup k d ≡ some t → (t.transaction_id ≡ k) × IsTransaction t

-- How a transaction may have changed: never its amount, its refunds only upwards, and nothing once
-- its status is terminal.
pub record Evolves (t u : Transaction) : Type 0 where
  pub same_id : u.transaction_id ≡ t.transaction_id
  pub same_amount : u.amount ≡ t.amount
  pub grows : t.refunded_minor ≤ℤ u.refunded_minor
  pub final : is_terminal t.status ≡ true → u ≡ t

Evolves-refl : (t : Transaction) → Evolves t t
Evolves-refl t = record {
  same_id = refl;
  same_amount = refl;
  grows = omega arith;
  final = λ h. refl;
}

Evolves-trans : (t u v : Transaction) → Evolves t u → Evolves u v → Evolves t v
Evolves-trans t u v p q = record {
  same_id = q.same_id ∙ p.same_id;
  same_amount = q.same_amount ∙ p.same_amount;
  grows = omega (arith, p.grows, q.grows);
  final = λ h. q.final (ap (λ (x : Transaction). is_terminal x.status) (p.final h) ∙ h) ∙ p.final h;
}

terminal_stuck : (s : Status) (e : Event) → is_terminal s ≡ true → transitions s e ≡ none
unfolding is_terminal transitions
terminal_stuck pending e h = cc
terminal_stuck _ e h = ground arith

transition-eq :
    (id : Text) (s : Status) (e : Event) {s' : Status}
    → transition id s e ≡ ok s'
    → transitions s e ≡ some s'
unfolding transition
transition-eq id s e h = ground arith

-- A status with a row in the table is not terminal.
not_terminal :
    (id : Text) (s : Status) (e : Event) {s' : Status}
    → transition id s e ≡ ok s'
    → is_terminal s ≡ true
    → ⊥
not_terminal id s e h f = cc (transition-eq id s e h, terminal_stuck s e f)

advance-Evolves :
    (u t : Transaction) (e : Event) → advance_transaction u e ≡ ok t → Evolves u t × IsTransaction t
unfolding advance_transaction
advance-Evolves u t e h =
    let (_, _, h1) = >>=-eq-ok (raise_if (is_refund e) _) _ h in
    let (s, moves, h2) = >>=-eq-ok (transition u.transaction_id u.status e) _ h1 in
    let (good, same) = IsTransaction-check (after_event u e s) t h2 in
    (
      rw same (record {
        same_id = refl;
        same_amount = refl;
        grows = omega arith;
        final = λ f. absurd (not_terminal u.transaction_id u.status e moves f);
      }),
      rw same good,
    )

grown : (d : ℤ) (m : Money) (b : Bool) → (not (is_positive m) || b) ≡ false → d ≤ℤ d +ℤ m.amount
unfolding is_positive
grown d m b h = ground (arith, +ℤ_parts d m.amount)

refund-Evolves :
    (u t : Transaction) (m : Money) → refund_transaction u m ≡ ok t → Evolves u t × IsTransaction t
unfolding refund_transaction
refund-Evolves u t m h =
    let (_, moves, h1) = >>=-eq-ok (transition u.transaction_id u.status refund_event) _ h in
    let (_, _, h2) = >>=-eq-ok (raise_if (not (m.currency == u.amount.currency)) _) _ h1 in
    let (left, _, h3) = >>=-eq-ok (refundable u) _ h2 in
    let (exceeds, _, h4) = >>=-eq-ok (gt_money m left) _ h3 in
    let (_, tested, h5) = >>=-eq-ok (raise_if (not (is_positive m) || exceeds) _) _ h4 in
    let (good, same) = IsTransaction-check (after_refund u m.amount) t h5 in
    (
      rw same (record {
        same_id = refl;
        same_amount = refl;
        grows = grown u.refunded_minor m exceeds (raise_if-ok _ _ tested);
        final = λ f. absurd (not_terminal u.transaction_id u.status refund_event moves f);
      }),
      rw same good,
    )

-- The transactions after one was stored: the others stay, and the stored one is new or evolves.
stored-IsTracked :
    (d : Dict Text Transaction) (t : Transaction)
    → IsTracked d
    → IsTransaction t
    → IsTracked (insert t.transaction_id t d)
stored-IsTracked d t h good k u e = elim (Bool-cases (k == t.transaction_id)) [
  | inl same ↦
      let this : t ≡ u = eq_of_some (rw same at (sym (lookup-insert t.transaction_id k t d) ∙ e)) in
      rw (← this) (sym (eq_of_test k t.transaction_id same), good)
  | inr other ↦ h k u (rw other at (sym (lookup-insert t.transaction_id k t d) ∙ e))
]

-- `new` holds what `old` holds, evolved.
abbrev pub Follows : Dict Text Transaction → Dict Text Transaction → Type 0
Follows old new =
    (k : Text) (t : Transaction)
    → lookup k old ≡ some t
    → (u : Transaction) × (lookup k new ≡ some u) × Evolves t u

stored-Follows :
    (d : Dict Text Transaction) (t : Transaction)
    → ((u : Transaction) → lookup t.transaction_id d ≡ some u → Evolves u t)
    → Follows d (insert t.transaction_id t d)
stored-Follows d t ev k u e = elim (Bool-cases (k == t.transaction_id)) [
  | inl same ↦ (
    t,
    lookup-insert t.transaction_id k t d ∙ rw same,
    ev u (ap (λ j. lookup j d) (sym (eq_of_test k t.transaction_id same)) ∙ e),
  )
  | inr other ↦ (u, lookup-insert t.transaction_id k t d ∙ rw other e, Evolves-refl u)
]

-- The transaction that evolved is the one filed under its id.
one_of :
    (u v t : Transaction) (id : Text) (l : Ledger)
    → IsTracked l.transactions
    → lookup id l.transactions ≡ some u
    → lookup t.transaction_id l.transactions ≡ some v
    → Evolves u t
    → Evolves v t
one_of u v t id l tr found here ev =
    let key : t.transaction_id ≡ id = ev.same_id ∙ (tr id u found).0 in
    subst (λ (x : Transaction). Evolves x t)
      (eq_of_some (sym found ∙ ap (λ k. lookup k l.transactions) (sym key) ∙ here)) ev

Moved-Follows :
    (l : Ledger) (t : Transaction)
    → Moved l t
    → IsTracked l.transactions
    → IsTracked (insert t.transaction_id t l.transactions)
      × Follows l.transactions (insert t.transaction_id t l.transactions)
unfolding open_pending
Moved-Follows l t (opened id amount new h) tr =
    let (good, same) = IsTransaction-check (new_transaction id amount) t h in
    let absent : lookup t.transaction_id l.transactions ≡ none =
      ap (λ (x : Transaction). lookup x.transaction_id l.transactions) same
      ∙ contains-eq-false id l.transactions new in
    (
      stored-IsTracked l.transactions t tr (rw same good),
      stored-Follows l.transactions t (λ u e. absurd (cc (absent, e))),
    )
Moved-Follows l t (advanced id u e found h) tr =
    let (ev, good) = advance-Evolves u t e h in
    (
      stored-IsTracked l.transactions t tr good,
      stored-Follows l.transactions t (λ v here. one_of u v t id l tr found here ev),
    )
Moved-Follows l t (refunded_part id u m found h) tr =
    let (ev, good) = refund-Evolves u t m h in
    (
      stored-IsTracked l.transactions t tr good,
      stored-Follows l.transactions t (λ v here. one_of u v t id l tr found here ev),
    )

Follows-trans : (a b c : Dict Text Transaction) → Follows a b → Follows b c → Follows a c
Follows-trans a b c p q k t e =
    let (u, eu, first) = p k t e in
    let (v, ev, second) = q k u eu in (v, ev, Evolves-trans t u v first second)

-- The transactions are tracked, and follow those of the ledger that the history began at.
abbrev Since : Ledger → Ledger → Type 0
Since base l = IsTracked l.transactions × Follows base.transactions l.transactions

posted-Since :
    (base l : Ledger) (r : Request) (o : Option Transaction)
    → r.transaction ≡ o
    → Stores l r o
    → Since base l
    → IsTracked (transactions_after r.transactions l.transactions)
      × Follows base.transactions (transactions_after r.transactions l.transactions)
unfolding transactions_after
posted-Since base l r none e s h = rw s h
posted-Since base l r (some t) e (s, m) h =
    let (tracked, follows) = Moved-Follows l t m h.0 in
    rw s (tracked, Follows-trans _ l.transactions _ h.1 follows)

Step-Since :
    (platform : Platform) (base l : Ledger) (c : Command) (a : Applied)
    → Step platform l c a
    → Since base l
    → Since base a.ledger
unfolding with_entry store_transaction
Step-Since platform base l c a (recalled e) h =
    subst (Since base) (sym (replay_of-some l _ _ a e).0) h
Step-Since platform base l c a (posted r _ f p) h =
    subst (λ (x : Applied). Since base x.ledger) (sym p.result)
      (posted-Since base l r r.transaction refl f.stores h)
Step-Since platform base l c a (stored t _ _ m e) h =
    let (tracked, follows) = Moved-Follows l t m h.0 in
    subst (λ (x : Applied). Since base x.ledger) (sym e)
      (tracked, Follows-trans base.transactions l.transactions _ h.1 follows)

empty-IsTracked : (chart : Chart) → IsTracked (empty_ledger chart).transactions
unfolding empty_ledger lookup
empty-IsTracked chart k t e = cc

module _ (platform : Platform) {W : Type 0} (effects : Effects W) where
  Reach-Since :
      {base l : Ledger} → IsTracked base.transactions → Reach platform effects base l → Since base l
  Reach-Since {base} h r =
      Reach_induction platform effects (Since base) (Step-Since platform base)
        (h, λ k t e. (t, e, Evolves-refl t)) r

  -- Every transaction of a ledger that calls of `execute` lead to is filed under its own id and is
  -- well formed: its amount is positive, its refunded total lies between zero and the amount, and
  -- its status tells the same story as the total.
  pub transactions-Reach :
      (chart : Chart) {l : Ledger} (k : Text) (t : Transaction)
      → Reach platform effects (empty_ledger chart) l
      → lookup k l.transactions ≡ some t
      → (t.transaction_id ≡ k) × IsTransaction t
  transactions-Reach chart k t r = (Reach-Since (empty-IsTracked chart) r).0 k t

  -- A transaction of a ledger that is reached is still there at any later one.
  later :
      (chart : Chart) {l m : Ledger} (k : Text) (t : Transaction)
      → Reach platform effects (empty_ledger chart) l
      → Reach platform effects l m
      → lookup k l.transactions ≡ some t
      → (u : Transaction) × (lookup k m.transactions ≡ some u) × Evolves t u
  later chart k t r s = (Reach-Since (Reach-Since (empty-IsTracked chart) r).0 s).1 k t

  -- Between a ledger that calls of `execute` lead to and a later one no transaction is lost, its id
  -- and its amount do not change, and its refunded total does not fall.
  pub transactions_follow :
      (chart : Chart) {l m : Ledger} (k : Text) (t : Transaction)
      → Reach platform effects (empty_ledger chart) l
      → Reach platform effects l m
      → lookup k l.transactions ≡ some t
      → (u : Transaction) × (lookup k m.transactions ≡ some u)
        × (u.transaction_id ≡ t.transaction_id)
        × (u.amount ≡ t.amount)
        × (t.refunded_minor ≤ℤ u.refunded_minor)
  transactions_follow chart k t r s e =
      let (u, found, ev) = later chart k t r s e in (u, found, ev.same_id, ev.same_amount, ev.grows)

  -- A transaction whose status is terminal at a ledger that calls of `execute` lead to is the same
  -- at every later one.
  pub terminal_is_final :
      (chart : Chart) {l m : Ledger} (k : Text) (t : Transaction)
      → Reach platform effects (empty_ledger chart) l
      → Reach platform effects l m
      → lookup k l.transactions ≡ some t
      → is_terminal t.status ≡ true
      → lookup k m.transactions ≡ some t
  terminal_is_final chart k t r s e f =
      let (u, found, ev) = later chart k t r s e in found ∙ ap some (ev.final f)
