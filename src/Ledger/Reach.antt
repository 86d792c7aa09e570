-- ===== src/Ledger/Reach.antt =====
-- src/ledgergate/ledger/state.py: the ledgers that calls of `execute` lead to. A call that raises
-- leaves the ledger, so it is no step, whatever effects it has consumed.
use ledgergate.Base.{◌≡◌, refl, sym, subst, true, List, [], ◌∷◌, All}
use ledgergate.Errors.{ok}
use ledgergate.Exec.{>>=-eq-ok, pure-eq-ok}
use ledgergate.Ledger.Accounts.{Account, Chart, make_chart}
use ledgergate.Ledger.Chart.{IsChart, make_chart-IsChart}
use ledgergate.Ledger.Encoding.{Platform}
use ledgergate.Ledger.Commands.{Command, Ledger, empty_ledger, Applied}
use ledgergate.Ledger.State.{Effects, execute, replay_from, replay}
use ledgergate.Ledger.Steps.{IsCommand, Step}
use ledgergate.Ledger.Handlers.{execute-Step}
use ledgergate.Ledger.Verify.{verify_chain}
use ledgergate.Ledger.Integrity.{IsSound, Step-IsSound, empty_ledger-IsSound, verify_chain-IsSound}

module _ (platform : Platform) {W : Type 0} (effects : Effects W) where
  -- `m` comes from `l` by calls of `execute` that returned.
  pub data Reach (l : Ledger) : Ledger → Type 0 where
    here : Reach l l
    next :
        {k m : Ledger} (c : Command) (a : Applied) (w w' : W)
        → Reach l k
        → IsCommand c
        → execute platform effects k c w ≡ (ok a, w')
        → a.ledger ≡ m
        → Reach l m

  -- What every step keeps holds of all that is reached.
  pub Reach_induction :
      (P : Ledger → Type 0) {l m : Ledger}
      → ((k : Ledger) (c : Command) (a : Applied) → Step platform k c a → P k → P a.ledger)
      → P l
      → Reach l m
      → P m
  Reach_induction P keep base here = base
  Reach_induction P keep base (next {k} {m} c a w w' r d e same) =
      subst P same
        (keep k c a (execute-Step platform effects k c w w' d e) (Reach_induction P keep base r))

  pub Reach-IsSound :
      {chart : Chart} {l : Ledger}
      → IsChart chart
      → Reach (empty_ledger chart) l
      → IsSound platform l
  Reach-IsSound {chart} h r =
      Reach_induction (IsSound platform) (Step-IsSound platform)
        (empty_ledger-IsSound platform chart h) r

  replay_from-Reach :
      (start l m : Ledger) (commands : List Command) (w w' : W)
      → Reach start l
      → All IsCommand commands
      → replay_from platform effects l commands w ≡ (ok m, w')
      → Reach start m
  unfolding replay_from
  replay_from-Reach start l m [] w w' r d e = subst (Reach start) (sym (pure-eq-ok l w w' e)) r
  replay_from-Reach start l m (c ∷ commands) w w' r d e =
      let (a, u, step, rest) = >>=-eq-ok (execute platform effects l c) _ w w' e in
      replay_from-Reach start a.ledger m commands u w' (next c a w u r d.0 step refl) d.1 rest

  -- A replay only reaches what its commands reach one by one.
  pub replay-Reach :
      (chart : Chart) (commands : List Command) (w w' : W) {l : Ledger}
      → All IsCommand commands
      → replay platform effects chart commands w ≡ (ok l, w')
      → Reach (empty_ledger chart) l
  unfolding replay
  replay-Reach chart commands w w' {l} d e =
      replay_from-Reach (empty_ledger chart) (empty_ledger chart) l commands w w' here d e

  -- Over a chart that was constructed, every ledger that calls of `execute` lead to, from the empty
  -- one and through any failures, passes `verify_chain`: its sequence numbers, links, digests and
  -- head, its balances, its id index and its reversal index are those that its entries derive.
  pub verify_chain-Reach :
      (accounts : List Account) {chart : Chart} {l : Ledger}
      → make_chart accounts ≡ ok chart
      → Reach (empty_ledger chart) l
      → verify_chain platform l ≡ ok true
  verify_chain-Reach accounts {chart} {l} made r =
      verify_chain-IsSound platform l (Reach-IsSound (make_chart-IsChart accounts chart made).0 r)
