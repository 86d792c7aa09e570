-- ===== src/Journal/ReplayLaws.antt =====
-- src/ledgergate/journal/store.py: an applied outcome, as `_write` records it, is replayed by `_rebuild`
-- to the ledger that the write returned.
use ledgergate.Base.{◌≡◌, refl, ap, ◌∙◌, true, Option, none, some, nat_eq, list_eq, ◌==◌, test_self}
use ledgergate.Text.{Text}
use ledgergate.Errors.{ok}
use ledgergate.Exec.{Exec, pure}
use ledgergate.Ledger.Encoding.{Datetime, Entry}
use ledgergate.Ledger.Commands.{Command, Ledger, Applied}
use ledgergate.Ledger.State.{Effects, execute}
use ledgergate.Codec.Command.{encode_command, decode_command}
use ledgergate.Codec.CommandTrip.{IsCodable, decode_command-encode_command}
use ledgergate.Journal.Tables.{Outcome, applied, OutcomeRow, OperationRow, World}
use ledgergate.Journal.Session.{Session, live_effects}
use ledgergate.Journal.Rebuild.{
  as_integrity, scripted, script_of, rescued, replay_outcome, rebuild_step,
}
use ledgergate.Journal.Again.{Gives, execute-again}

abbrev pub entry_id_of : Option Entry → Option Text
entry_id_of entry = elim entry [ none ↦ none | some e ↦ some e.entry_id ]

abbrev pub posted_at_of : Option Entry → Option Datetime
posted_at_of entry = elim entry [ none ↦ none | some e ↦ some e.posted_at ]

-- The row says what the call returned.
pub record Records (o : OutcomeRow) (a : Applied) : Type 0 where
  pub is_applied : o.outcome ≡ applied
  pub recorded_id : o.entry_id ≡ entry_id_of a.entry
  pub recorded_time : o.posted_at ≡ posted_at_of a.entry
  pub recorded_head : o.head_after ≡ a.ledger.head

-- The effects of a rebuild where that entry was recorded.
abbrev pub effects_for : {V : Type 0} → Option Entry → Effects V → Effects V
effects_for none live = live
effects_for (some e) live = scripted e.entry_id e.posted_at

script_of-effects_for :
    {V : Type 0} (entry : Option Entry) (live : Effects V)
    → script_of (entry_id_of entry) (posted_at_of entry) live ≡ ok (effects_for entry live)
unfolding script_of
script_of-effects_for none live = refl
script_of-effects_for (some e) live = refl

pub effects_for-Gives :
    {V : Type 0} (entry : Option Entry) (live : Effects V) → Gives (effects_for entry live) entry
unfolding scripted
effects_for-Gives none live = record {
  gives_id = λ e v h. absurd (cc);
  gives_time = λ e v h. absurd (cc);
}
effects_for-Gives (some e) live = record {
  gives_id = λ d v h.
      ap (λ (x : Option Entry). (ok (elim x [ none ↦ e.entry_id | some y ↦ y.entry_id ]), v)) h;
  gives_time = λ d v h.
      ap (λ (x : Option Entry). (ok (elim x [ none ↦ e.posted_at | some y ↦ y.posted_at ]), v)) h;
}

module _ {W : Type 0} (session : Session W) where
  replay_outcome-reads :
      (ledger : Ledger) (o : OutcomeRow) (op : OperationRow) (c : Command) (a : Applied)
      (effects : Effects (World W)) (v : World W)
      → decode_command op.command session.registry ≡ ok c
      → script_of o.entry_id o.posted_at (live_effects (record session { ledger = ledger }))
        ≡ ok effects
      → execute session.platform effects ledger c v ≡ (ok a, v)
      → (a.ledger.head == o.head_after) ≡ true
      → replay_outcome session ledger o op v ≡ (ok a.ledger, v)
  unfolding replay_outcome as_integrity rescued
  replay_outcome-reads ledger o op c a effects v h1 h2 h3 h4 = rw (h1, h2, h3, h4)

  rebuild_step-reads :
      (ledger : Ledger) (o : OutcomeRow) (op : OperationRow) (v : World W)
      → o.outcome ≡ applied
      → rebuild_step session ledger o op v ≡ replay_outcome session ledger o op v
  unfolding rebuild_step
  rebuild_step-reads ledger o op v h =
      ap
        (λ (k : Outcome).
          (elim k as (λ _. Exec (World W) Ledger) [
            | applied ↦ replay_outcome session ledger o op
            | _ ↦ pure ledger
          ])
            v)
        h

  -- Where a call on a ledger returned for a command that the codec admits, the row of that outcome and
  -- of its operation are replayed on that ledger, whatever clock and ids are given, to the ledger that
  -- the call returned.
  pub rebuild_step-applied :
      {U : Type 0} (effects : Effects U) (ledger : Ledger) (c : Command) (a : Applied) (u u' : U)
      (o : OutcomeRow) (op : OperationRow) (v : World W)
      → IsCodable session.registry c
      → execute session.platform effects ledger c u ≡ (ok a, u')
      → Records o a
      → op.command ≡ encode_command c
      → rebuild_step session ledger o op v ≡ (ok a.ledger, v)
  rebuild_step-applied effects ledger c a u u' o op v codable returned r stored =
      let live = live_effects (record session { ledger = ledger }) in
      let decoded =
        ap (λ doc. decode_command doc session.registry) stored
        ∙ decode_command-encode_command session.registry c codable in
      let again =
        execute-again session.platform effects (effects_for a.entry live) ledger c u u' v returned
          (effects_for-Gives a.entry live) in
      let fed_back =
        ap (λ (p : Option Text × Option Datetime). script_of p.0 p.1 live)
          (ap (λ i. (i, o.posted_at)) r.recorded_id
            ∙ ap (λ t. (entry_id_of a.entry, t)) r.recorded_time)
        ∙ script_of-effects_for a.entry live in
      let heads = ap (λ t. a.ledger.head == t) r.recorded_head ∙ test_self a.ledger.head in
      rebuild_step-reads ledger o op v r.is_applied
      ∙ replay_outcome-reads ledger o op c a (effects_for a.entry live) v decoded fed_back again
          heads
