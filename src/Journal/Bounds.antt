-- ===== src/Journal/Bounds.antt =====
-- src/ledgergate/codec/commands.py and journal/store.py: a bounded message is always recorded.
use ledgergate.Base.{
  ℕ, zero, suc, ◌+◌, ◌≤◌, ◌≡◌, [], ◌∷◌, ◌++◌, arith, length, length-append, take, ltb, leb,
  Bool-cases, inl, inr,
}
use ledgergate.Text.{Text, text}
use ledgergate.Errors.{ok, raise_if, integrity_error}
use ledgergate.Codec.Draft.{max_text}
use ledgergate.Codec.Command.{bounded_text}
use ledgergate.Journal.Rows.{failed, check_answer}

length-take_bound : (n : ℕ) (t : Text) → length (take n t) ≤ n
length-take_bound zero t = omega arith
length-take_bound (suc n) [] = omega arith
length-take_bound (suc n) (c ∷ t) = omega (arith, length-take_bound n t)

-- A kept part with a mark that fits.
length-marked : (n m : ℕ) (t mark : Text) → length mark ≤ m → length (take n t ++ mark) ≤ n + m
length-marked n m t mark h = omega (arith, length-append (take n t) mark, length-take_bound n t, h)

length-bounded_text : (t : Text) → length (bounded_text t) ≤ max_text
unfolding bounded_text
length-bounded_text t = elim (Bool-cases (leb (length t) max_text)) [
  | inl short ↦ rw short (ground arith)
  | inr long ↦ rw long (length-marked 1012 12 t (text " [truncated]") (omega arith))
]

-- A message of any length is within the trace's bound once it is bounded, so the response that carries
-- it is constructed.
pub check_answer-bounded_text :
    (type shown : Text)
    → (length (bounded_text shown) ≤ max_text)
      × (check_answer (failed type (bounded_text shown)) ≡ ok tt)
unfolding check_answer
check_answer-bounded_text type shown = (length-bounded_text shown, fits (length-bounded_text shown))
  where
    fits : {n : ℕ} → n ≤ max_text → raise_if (ltb max_text n) integrity_error ≡ ok tt
    fits h = ground arith
