-- ===== src/Ledger/SourcesLaws.antt =====
-- src/ledgergate/ledger/effects.py: what the reference implementations promise their callers.
use ledgergate.Base.{
  ◌≢◌, ℕ, zero, suc, ◌+◌, ◌-◌, ◌≡◌, refl, sym, ap, ◌∙◌, [], ◌∷◌, ◌++◌, arith, length,
}
use ledgergate.Text.{Text, text}
use ledgergate.Text.Decimal.{zeros, decimal, padded_decimal, read_from, read_from-decimal}
use ledgergate.Errors.{ok, ok-injective}
use ledgergate.Ledger.Currency.{currency_eq}
use ledgergate.Ledger.Sources.{SequentialIds, sequential_id}

read_from-zeros : (k : ℕ) (s : Text) → read_from 0 (zeros k ++ s) ≡ read_from 0 s
unfolding zeros read_from
read_from-zeros zero s = refl
read_from-zeros (suc k) s = read_from-zeros k s

-- Padding does not change the number that is read.
pub read_from-padded_decimal : (width n : ℕ) → read_from 0 (padded_decimal width n) ≡ n
unfolding padded_decimal
read_from-padded_decimal width n =
    read_from-zeros (width - length (decimal n)) (decimal n) ∙ read_from-decimal n

append_cancel : (s t u : Text) → s ++ t ≡ s ++ u → t ≡ u
append_cancel [] t u h = h
append_cancel (c ∷ s) t u h = append_cancel s t u (cc)

-- The state that `n` calls leave, one after the other.
unfoldable pub drawn : ℕ → SequentialIds → SequentialIds
drawn zero ids = ids
drawn (suc n) ids = (sequential_id (drawn n ids)).1

drawn_lem : (n : ℕ) (ids : SequentialIds) → drawn n ids ≡ record ids { counter = n + ids.counter }
unfolding drawn sequential_id
drawn_lem zero ids = ap (λ k. record ids { counter = k }) (omega arith)
drawn_lem (suc n) ids =
    ap (λ s. (sequential_id s).1) (drawn_lem n ids)
    ∙ ap (λ k. record ids { counter = k }) (omega arith)

-- The id that the call after `n` calls gives.
sequential_id-drawn :
    (ids : SequentialIds) (n : ℕ)
    → (sequential_id (drawn n ids)).0
      ≡ ok (ids.prefix ++ (text "-" ++ padded_decimal ids.width (n + ids.counter)))
unfolding sequential_id
sequential_id-drawn ids n = ap (λ s. (sequential_id s).0) (drawn_lem n ids)

same_id :
    (ids : SequentialIds) (m n : ℕ)
    → (sequential_id (drawn m ids)).0 ≡ (sequential_id (drawn n ids)).0
    → m ≡ n
same_id ids m n h =
    let whole = ok-injective (sym (sequential_id-drawn ids m) ∙ h ∙ sequential_id-drawn ids n) in
    let tail =
      append_cancel (ids.prefix) (text "-" ++ padded_decimal ids.width (m + ids.counter))
        (text "-" ++ padded_decimal ids.width (n + ids.counter)) whole in
    let same : padded_decimal ids.width (m + ids.counter)
        ≡ padded_decimal ids.width (n + ids.counter) =
      append_cancel (text "-") _ _ tail in
    omega (
      arith,
      read_from-padded_decimal ids.width (m + ids.counter),
      read_from-padded_decimal ids.width (n + ids.counter),
      ap (read_from 0) same,
    )

-- Two different calls of the sequential id generator, each made in the state that the calls before it
-- left, `m` and `n` calls after the same first state, give different ids.
pub sequential_id_once :
    (ids : SequentialIds) (m n : ℕ)
    → m ≢ n
    → (sequential_id (drawn m ids)).0 ≢ (sequential_id (drawn n ids)).0
sequential_id_once ids m n ne h = ne (same_id ids m n h)
