-- ===== src/Lib.antt =====
-- ledgergate: the in-memory ledger of `src/ledgergate/ledger`, an immutable value advanced by
-- commands, the documents of its commands, the policies, and the journal that records every attempt,
-- with the proofs that its history can be trusted.
--
-- The program. A chart of accounts (accounts.py) fixes ids, kinds and currencies. A command
-- (state.py) posts a balanced draft (entries.py), reverses an entry, or opens, advances or refunds a
-- transaction (lifecycle.py) in amounts of money (money.py). `Ledger.execute` returns a new ledger or
-- raises; entries form a hash chain; keys make a command idempotent. The codec
-- (`src/ledgergate/codec/commands.py`) turns commands into documents and back. A policy set
-- (`src/ledgergate/journal/policy.py`) decides whether a command may run. The journal
-- (`src/ledgergate/journal/store.py`) records every attempt in one transaction: the operation of the
-- key, the approval that came with it, the decision, the outcome and the response; its ledger is a
-- projection that `_rebuild` folds from the outcomes. Around them stand traces, a runner and a command
-- line (`src/ledgergate/trace`, `runner`, `cli` and others), which are not modelled.
--
-- The files. A path of the source without a directory is under src/ledgergate/ledger.
--   Base, Int, Text, Text/Decimal, Text/Integer, Dict, Dict/Distinct: numbers and integers, strings
--     as lists of code points, printed decimals, dictionaries as association lists in insertion order.
--   Errors, Exec: the exceptions of errors.py as values, and computations that may raise and carry
--     the state of the injected effects.
--   Ledger/Identifiers: `require_identifier` of identifiers.py.
--   Ledger/Currency, Ledger/Money: `Currency`, `currency`, `Money` and its operators, of money.py.
--   Ledger/Fraction: Python's `Fraction` and its floor, for rounding.
--   Ledger/Rounding, Ledger/Allocation: `round_fraction`, `scale`, `convert`; `allocate`,
--     `split`. Ledger/Parsing: `Money.parse`, given which characters are decimal digits.
--   Ledger/Sources: the reference clocks, ids and rates of effects.py. Ledger/Conversion, Ledger/Fx:
--     `price` and `conversion_entry` of fx.py.
--   Ledger/Accounts: `Side`, `AccountType`, `Account`, `ChartOfAccounts`, of accounts.py.
--   Ledger/Postings, Ledger/Encoding: `Posting`, `EntryDraft`; `encode`, `Entry`, digests and
--     `fingerprint`, of entries.py.
--   Ledger/Lifecycle: `TRANSITIONS`, `Transaction.advance`, `Transaction.refund`, of lifecycle.py.
--   Ledger/Commands: the commands, `command_fingerprint`, the ledger's record and its queries with
--     `trial_balance`; Ledger/Checks: `_replay`, `_validate`, `_require_entry_moving`; Ledger/State:
--     `_append`, the five handlers, `execute`, `replay`; Ledger/Verify: `verify_chain`. All state.py.
--   Ledger/Balance, Chart, LifecycleLaws: what the constructors and the lifecycle guarantee.
--   Ledger/Steps, Handlers: a call that returns is one step of three kinds. Ledger/Reach: histories
--     of calls, with induction. Ledger/Integrity, Books, TrialBalance, Funds, Idempotency,
--     Transactions, History: the invariants of all histories. Ledger/AllocationLaws, RoundingLaws,
--     SourcesLaws, FxLaws: the value types around them. Ledger/Samples, Tests, Amounts: small runs.
--   Ledger/Injective: the canonical forms can be read back.
--   Codec/Json, Codec/Draft, Codec/Command: JSON documents and `_field`; drafts and commands of
--     codec/commands.py, both ways. Codec/RoundTrip, CommandTrip, Requests: their laws, and what a
--     request's fingerprint hashes. Codec/Tests: small runs.
--   Journal/Policy, Decide, PolicyLaws: `ThresholdPolicySet` of journal/policy.py, its `evaluate`, and
--     what it guarantees. Journal/PolicySet: the protocol of a set and how store.py guards it.
--   Journal/Approvals: `Approval`, `check` of journal/approvals.py, `Attribution`, `expiry_cause` of
--     journal/auth.py. Journal/ApprovalLaws: what a valid approval has passed.
--   Journal/Tables, Session, Rows, Invocations: the tables of journal/schema.py, an open journal of
--     store.py with its clock, ids and history, and the rows that it appends.
--   Journal/Write, Attempt, Context, Commit: `_validate_approval`, `_render_replay`, `_invalid`, `_write`,
--     `_txn`. Journal/Reads: `_read`, `_serve`. Journal/Registry: the registries and their changes.
--     Journal/Chains, Rebuild: `_check_chains`, `_rebuild`.
--   Journal/Again, ReplayLaws, Histories, ChainLaws, WriteLaws, Bounds, RegistryLaws: a recorded call
--     executed again, the rebuild of one outcome and of a history, the chains of outcomes, what step 9
--     records, the bound of a message, and revocation. Journal/StoreSamples, Tests, StoreTests,
--     RegistryTests: small runs.
--
-- State and effects. A ledger is a record with the source's fields; a raise leaves the caller the old
-- ledger, so only the injected clock and id generator keep what they have given. They are
-- functions over a state of their own, which may raise. A history (`Reach`) is any sequence of
-- calls that returned, with any state of the effects at each call, so failures may lie in between. A
-- transaction of the journal works on the tables and the pending projection; a raise leaves both as they
-- were and keeps only what the clock and the ids gave.
--
-- Parameters. SHA-256, `datetime.isoformat`, `str(timedelta)`, `json.dumps`, `repr`, `str` and the class
-- of an exception, UTF-8, Ed25519 verification and the digits of Unicode are functions that the model is
-- given, as are a journal's clock, ids, admitter and policy set; no theorem assumes anything of them.
-- `verification_key`, which may raise, is a function that a change of a registry is given. A datetime is
-- its reading, in microseconds from the start of the year 1, and its offset; one that is computed outside
-- the years 1 to 9999 raises, as in Python.
--
-- Bounds and fuel. Python's integers are unbounded and so are the model's. Printing a decimal runs on
-- fuel, one more than the number, which is enough as each step divides by ten; the greatest common
-- divisor likewise. Every other loop is structural.
--
-- Not modelled. SQLite with its constraints and triggers (a column of JSON text holds the document,
-- one of a rendered time holds the time), admission and envelopes (a request comes as admitted, with
-- its digest, and `_check_binding` and `codec.digest` are arguments), `create` and `open`, messages;
-- `Ledger.__eq__`, a generator of ids that starts below zero, the messages of errors, types of
-- arguments that the constructors test at run time (they are the model's types), `freeze` (nothing
-- is mutable), `repr` and hashes of objects. Python compares entries and drafts field by field, and
-- so does the model.
pub mod Base
pub mod Text
pub mod Int
pub mod Dict
pub mod Errors
pub mod Exec
pub mod Ledger
pub mod Codec
pub mod Journal
