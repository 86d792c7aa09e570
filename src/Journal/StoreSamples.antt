-- ===== src/Journal/StoreSamples.antt =====
-- An open journal with one sale, for the tests.
use ledgergate.Base.{ℕ, true, some, none, [], ◌∷◌, nat_eq, list_eq}
use ledgergate.Text.{text}
use ledgergate.Int.{pos}
use ledgergate.Ledger.Commands.{empty_ledger, command_fingerprint}
use ledgergate.Ledger.Samples.{platform, effects, chart, noon, first_sale, after_sale}
use ledgergate.Codec.Command.{encode_command}
use ledgergate.Codec.Samples.{registry}
use ledgergate.Journal.PolicySet.{null_policy}
use ledgergate.Journal.Approvals.{Approval}
use ledgergate.Journal.Tables.{
  applied, awaiting_approval, OutcomeRow, OperationRow, RegistryRow, Tables, World,
}
use ledgergate.Journal.Session.{Admitter, Library, Session}
use ledgergate.Journal.ReplayLaws.{entry_id_of, posted_at_of}

abbrev pub library : Library
library = record {
  dumps = λ doc. [];
  bounded_utf8 = λ n t. t;
  verifies = λ public a. true;
  message_of = λ e. text "m";
  class_of = λ e. text "E";
  repr = λ t. t;
}

abbrev pub admitter : Admitter
admitter = record { redact_text = λ t. t; tokenize_identifier = λ t. t; digest_input = λ v. [] }

abbrev pub session : Session ℕ
session = record {
  platform = platform;
  library = library;
  sources = effects;
  policy = null_policy;
  admitter = admitter;
  principal = text "bot";
  journal_id = text "j";
  chart = chart;
  registry = registry;
  ledger = empty_ledger chart;
  cursor = 0;
}

abbrev pub ann : RegistryRow
ann = record {
  number = 1;
  name = text "ann";
  is_add = true;
  kind = none;
  verification_key = some (text "p");
  by = text "bot";
  at = noon;
}

abbrev pub pending : OutcomeRow
pending = record {
  number = 7;
  operation = 3;
  previous = none;
  outcome = awaiting_approval;
  error = none;
  entry_id = none;
  posted_at = none;
  head_before = [];
  head_after = [];
  ledger_sequence = 0;
  decision = 6;
}

abbrev pub sold_row : OutcomeRow
sold_row = record {
  number = 12;
  operation = 3;
  previous = some 7;
  outcome = applied;
  error = none;
  entry_id = entry_id_of after_sale.entry;
  posted_at = posted_at_of after_sale.entry;
  head_before = (empty_ledger chart).head;
  head_after = after_sale.ledger.head;
  ledger_sequence = 1;
  decision = 11;
}

abbrev pub sale_operation : OperationRow
sale_operation = record {
  number = 3;
  key = text "k";
  fingerprint = command_fingerprint platform first_sale;
  command = encode_command first_sale;
}

abbrev pub tables : Tables
tables = record {
  last = 8;
  operations = sale_operation ∷ [];
  invocations = [];
  signed_calls = [];
  presentations = [];
  consumptions = [];
  decisions = [];
  outcomes = pending ∷ [];
  responses = [];
  events = [];
  reads = [];
  principal_events = [];
  approver_events = ann ∷ [];
}

abbrev pub world : World ℕ
world = record { tables = tables; pending = none; sources = 0 }

abbrev pub artefact : Approval
artefact = record {
  journal_id = text "j";
  approval_id = text "a1";
  approver = text "ann";
  fingerprint = text "f";
  key = text "k";
  subject = none;
  amount = none;
  currency = none;
  issued_at = noon;
  expires_at = record { reading = pos 50000; offset = some (pos 0) };
  signature = text "s";
}
