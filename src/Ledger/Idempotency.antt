-- ===== src/Ledger/Idempotency.antt =====
-- src/ledgergate/ledger/state.py: a key is spent once. Retries return the recorded result, and
-- another request under the key is refused, at every later ledger.
use ledgergate.Base.{
  ◌≡◌, ◌≢◌, refl, sym, ap, ◌∙◌, subst, true, false, not, Option, none, some, arith, ◌==◌, list_eq,
  nat_eq, test_self, eq_of_some, Bool-cases, eq_of_test, eq_of_not_test, inl, inr,
}
use ledgergate.Text.{Text, text}
use ledgergate.Dict.{Dict, lookup, insert, contains, lookup-insert_self, lookup-insert_ne}
use ledgergate.Dict.Distinct.{contains-eq-false}
use ledgergate.Errors
use ledgergate.Errors.{
  Error, Result, ok, err, raise_if, raise_if-ok, ok-injective, idempotency_conflict,
}
use ledgergate.Exec.{lift-eq-ok}
use ledgergate.Ledger.Identifiers.{require_identifier}
use ledgergate.Ledger.Encoding.{Platform, Entry}
use ledgergate.Ledger.Lifecycle.{Transaction}
use ledgergate.Ledger.Commands.{
  Command, command_key, command_fingerprint, OperationRecord, Ledger, Applied, indexed,
}
use ledgergate.Ledger.Checks.{recall, replay_of}
use ledgergate.Ledger.State.{
  Effects, execute, once, unless_replayed, with_entry, new_entry, store_transaction,
}
use ledgergate.Ledger.Steps.{
  IsCommand, Step, recalled, posted, stored, require_identifier-eq, replay_of-some,
}
use ledgergate.Ledger.Handlers.{execute-Step}
use ledgergate.Ledger.Reach.{Reach, Reach_induction}

-- The ledger remembers a key: the request, and the entry and the transaction that it produced.
pub record Holds (key print : Text) (id : Option Text) (entry : Option Entry)
    (t : Option Transaction) (l : Ledger) : Type 0 where
  pub recorded :
      lookup key l.operations ≡ some (record { request = print; entry_id = id; transaction = t })
  pub indexes : indexed l.by_id id ≡ ok entry

abbrev pub again : Ledger → Option Entry → Option Transaction → Applied
again l entry t = record { ledger = l; entry = entry; transaction = t; replayed = true }

-- A remembered key with the same request is answered from the record.
Holds-replay_of :
    (key print : Text) (id : Option Text) (entry : Option Entry) (t : Option Transaction)
    (l : Ledger)
    → Holds key print id entry t l
    → replay_of l key print ≡ ok (some (again l entry t))
unfolding replay_of recall
Holds-replay_of key print id entry t l h = rw (h.recorded, test_self print, h.indexes)

-- Another request under a remembered key is a conflict.
Holds-conflict :
    (key print other : Text) (id : Option Text) (entry : Option Entry) (t : Option Transaction)
    (l : Ledger)
    → Holds key print id entry t l
    → print ≢ other
    → replay_of l key other ≡ err (idempotency_conflict key)
unfolding replay_of recall
Holds-conflict key print other id entry t l h ne = rw h.recorded (ground arith)

indexed-insert :
    (by_id : Dict Text Entry) (id : Option Text) (entry : Option Entry) (new : Text) (e : Entry)
    → indexed by_id id ≡ ok entry
    → contains new by_id ≡ false
    → indexed (insert new e by_id) id ≡ ok entry
unfolding indexed
indexed-insert by_id none entry new e h f = h
indexed-insert by_id (some j) entry new e h f = elim (Bool-cases (j == new)) [
  | inl same ↦ ground (arith, eq_of_test j new same, contains-eq-false new by_id f)
  | inr other ↦ rw (lookup-insert_ne new j e by_id (λ p. ground (arith, test_self j))) h
]

lookup-insert_fresh :
    {V : Type 0} (key new : Text) (v w : V) (d : Dict Text V)
    → lookup key d ≡ some v
    → lookup new d ≡ none
    → lookup key (insert new w d) ≡ some v
lookup-insert_fresh key new v w d h f = lookup-insert_ne new key w d (λ p. ground arith) ∙ h

-- What a recorded result was recorded as.
recall-Holds :
    (l : Ledger) (key print : Text) (o : Option OperationRecord) (a : Applied)
    → lookup key l.operations ≡ o
    → recall l key print o ≡ ok (some a)
    → (id : Option Text) × Holds key print id a.entry a.transaction l
unfolding recall
recall-Holds l key print none a e h = cc
recall-Holds l key print (some r) a e h =
    let (_, same, h1) = Errors.>>=-eq-ok (raise_if (not (r.request == print)) _) _ h in
    let (entry, found, h2) = Errors.>>=-eq-ok (indexed l.by_id r.entry_id) _ h1 in
    let result = eq_of_some (ok-injective h2) in
    let asked = eq_of_not_test r.request print (raise_if-ok _ _ same) in
    (
      r.entry_id,
      record {
        recorded =
            e
            ∙ ap
                (λ (x : Text × Option Transaction).
                  some (record { request = x.0; entry_id = r.entry_id; transaction = x.1 }))
                (λ i. (asked i, (result i).transaction));
        indexes = found ∙ ap (λ (x : Applied). ok x.entry) result;
      },
    )

indexed_self :
    (by_id : Dict Text Entry) (id : Text) (e : Entry)
    → indexed (insert id e by_id) (some id) ≡ ok (some e)
unfolding indexed
indexed_self by_id id e = rw (lookup-insert_self id e by_id)

module _ (platform : Platform) where
  -- A step remembers its command's key with what it returned.
  Step-remembers :
      (l : Ledger) (c : Command) (a : Applied)
      → Step platform l c a
      → (id : Option Text) × Holds
          (command_key c)
          (command_fingerprint platform c)
          id
          a.entry
          a.transaction
          a.ledger
  unfolding store_transaction with_entry new_entry replay_of
  Step-remembers l c a (recalled e) =
      let (id, h) = recall-Holds l _ _ _ a refl e in
      (id, subst (Holds _ _ id a.entry a.transaction) (sym (replay_of-some l _ _ a e).0) h)
  Step-remembers l c a (posted r new f p) =
      let e = new_entry platform l r p.entry_id p.posted_at in
      (
        some p.entry_id,
        subst
            (λ (x : Applied).
              Holds (command_key c) (command_fingerprint platform c) (some p.entry_id) x.entry
                x.transaction x.ledger)
            (sym p.result)
            (record {
              recorded = rw (← f.keyed, ← f.printed) (lookup-insert_self r.key _ l.operations);
              indexes = indexed_self l.by_id p.entry_id e;
            }),
      )
  Step-remembers l c a (stored u _ new m e) = (
    none,
    subst
        (λ (x : Applied).
          Holds (command_key c) (command_fingerprint platform c) none x.entry x.transaction
            x.ledger)
        (sym e)
        (record { recorded = lookup-insert_self (command_key c) _ l.operations; indexes = refl }),
  )

  -- What is remembered stays so, whatever the next step is.
  Step-Holds :
      (key print : Text) (id : Option Text) (entry : Option Entry) (t : Option Transaction)
      (l : Ledger) (c : Command) (a : Applied)
      → Step platform l c a
      → Holds key print id entry t l
      → Holds key print id entry t a.ledger
  unfolding store_transaction with_entry new_entry
  Step-Holds key print id entry t l c a (recalled e) h =
      subst (Holds key print id entry t) (sym (replay_of-some l _ _ a e).0) h
  Step-Holds key print id entry t l c a (posted r new f p) h =
      let e = new_entry platform l r p.entry_id p.posted_at in
      subst (λ (x : Applied). Holds key print id entry t x.ledger) (sym p.result)
        (record {
          recorded = lookup-insert_fresh key r.key _ _ l.operations h.recorded (rw f.keyed new);
          indexes = indexed-insert l.by_id id entry p.entry_id e h.indexes p.new_id;
        })
  Step-Holds key print id entry t l c a (stored u _ new m e) h =
      subst (λ (x : Applied). Holds key print id entry t x.ledger) (sym e)
        (record {
          recorded = lookup-insert_fresh key (command_key c) _ _ l.operations h.recorded new;
          indexes = h.indexes;
        })

module _ (platform : Platform) {W : Type 0} (effects : Effects W) where
  -- A key that an earlier call accepted is accepted again.
  accepted :
      (l : Ledger) (c : Command) (a : Applied) (w w' : W)
      → execute platform effects l c w ≡ (ok a, w')
      → require_identifier (command_key c) (text "idempotency key") ≡ ok (command_key c)
  unfolding execute
  accepted l c a w w' h =
      let (key, valid, _) = lift-eq-ok (require_identifier (command_key c) _) _ w w' h in
      valid ∙ ap ok (require_identifier-eq (command_key c) (text "idempotency key") valid)

  -- With its key accepted, a call goes by what the ledger recalls of the key.
  execute-recalled :
      (m : Ledger) (c : Command) (a : Applied) (v : W)
      → require_identifier (command_key c) (text "idempotency key") ≡ ok (command_key c)
      → replay_of m (command_key c) (command_fingerprint platform c) ≡ ok (some a)
      → execute platform effects m c v ≡ (ok a, v)
  unfolding execute once unless_replayed
  execute-recalled m c a v valid e = rw (valid, e)

  execute-refused :
      (m : Ledger) (c : Command) (x : Error) (v : W)
      → require_identifier (command_key c) (text "idempotency key") ≡ ok (command_key c)
      → replay_of m (command_key c) (command_fingerprint platform c) ≡ err x
      → execute platform effects m c v ≡ (err x, v)
  unfolding execute once
  execute-refused m c x v valid e = rw (valid, e)

  remembered :
      (l m : Ledger) (c : Command) (a : Applied) (w w' : W)
      → IsCommand c
      → execute platform effects l c w ≡ (ok a, w')
      → Reach platform effects a.ledger m
      → (id : Option Text) × Holds
          (command_key c)
          (command_fingerprint platform c)
          id
          a.entry
          a.transaction
          m
  remembered l m c a w w' d h r =
      let (id, first) =
        Step-remembers platform l c a (execute-Step platform effects l c w w' d h) in
      (
        id,
        Reach_induction platform effects (Holds _ _ id a.entry a.transaction)
            (λ k c' a' s. Step-Holds platform _ _ id a.entry a.transaction k c' a' s) first r,
      )

  -- Once a command has returned, the same command at any later ledger returns the entry and the
  -- transaction of the first call, leaves that ledger as it is, and consumes no effect.
  pub retry_replays :
      (l m : Ledger) (c : Command) (a : Applied) (w w' v : W)
      → IsCommand c
      → execute platform effects l c w ≡ (ok a, w')
      → Reach platform effects a.ledger m
      → execute platform effects m c v ≡ (ok (again m a.entry a.transaction), v)
  retry_replays l m c a w w' v d h r =
      let (id, held) = remembered l m c a w w' d h r in
      execute-recalled m c (again m a.entry a.transaction) v (accepted l c a w w' h)
        (Holds-replay_of _ _ id a.entry a.transaction m held)

  -- Once a command has returned, a command with the same key and another fingerprint is refused
  -- with a conflict at any later ledger, and consumes no effect.
  pub reused_key_conflicts :
      (l m : Ledger) (c other : Command) (a : Applied) (w w' v : W)
      → IsCommand c
      → execute platform effects l c w ≡ (ok a, w')
      → Reach platform effects a.ledger m
      → command_key other ≡ command_key c
      → command_fingerprint platform c ≢ command_fingerprint platform other
      → execute platform effects m other v ≡ (err (idempotency_conflict (command_key other)), v)
  reused_key_conflicts l m c other a w w' v d h r same ne =
      let (id, held) = remembered l m c a w w' d h r in
      execute-refused m other _ v
        (subst (λ k. require_identifier k (text "idempotency key") ≡ ok k) (sym same)
          (accepted l c a w w' h))
        (subst
          (λ k. replay_of m k (command_fingerprint platform other) ≡ err (idempotency_conflict k))
          (sym same) (Holds-conflict _ _ _ id a.entry a.transaction m held ne))
