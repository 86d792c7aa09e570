-- ===== src/Dict/Distinct.antt =====
-- A dictionary holds each key once. Reading an entry, and `==` of a dictionary with itself.
use ledgergate.Base.{
  ◌≡◌, refl, true, false, none, some, [], ◌∷◌, arith, Eq, length, nat_eq, test_self,
}
use ledgergate.Dict.{Dict, lookup, insert, lookup-insert, contains, sub_dict, dict_equal}

module _ {ℓ κ} {K : Type ℓ} {V : Type κ} ⦃e : Eq K⦄ where
  abbrev pub Distinct : Dict K V → Type κ
  Distinct [] = Unit
  Distinct ((k, v) ∷ d) = (lookup k d ≡ none) × Distinct d

  pub insert-Distinct : (k : K) (v : V) (d : Dict K V) → Distinct d → Distinct (insert k v d)
  unfolding insert lookup
  insert-Distinct k v [] h = (refl, tt)
  insert-Distinct k v ((j, w) ∷ d) h =
      ground (arith, insert-Distinct k v d h.1, lookup-insert k j v d)

  -- A key that is bound, and the rest of the entries.
  pub contains-eq-false : (k : K) (d : Dict K V) → contains k d ≡ false → lookup k d ≡ none
  unfolding contains
  contains-eq-false k d h = ground arith

  pub contains_of_none : (k : K) (d : Dict K V) → lookup k d ≡ none → contains k d ≡ false
  unfolding contains
  contains_of_none k d h = ground arith

module _ {ℓ κ} {K : Type ℓ} {V : Type κ} ⦃e : Eq K⦄ ⦃f : Eq V⦄ where
  -- Every entry of `d` is one of `d2`.
  abbrev Within : Dict K V → Dict K V → Type κ
  Within [] d2 = Unit
  Within ((k, v) ∷ d) d2 = (lookup k d2 ≡ some v) × Within d d2

  Within-cons :
      (j : K) (w : V) (d d2 : Dict K V) → lookup j d ≡ none → Within d d2 → Within d ((j, w) ∷ d2)
  unfolding lookup
  Within-cons j w [] d2 h s = tt
  Within-cons j w ((k, v) ∷ d) d2 h s = ground (arith, Within-cons j w d d2)

  Within-self : (d : Dict K V) → Distinct d → Within d d
  unfolding lookup
  Within-self [] h = tt
  Within-self ((k, v) ∷ d) h =
      (ground (arith, test_self k), Within-cons k v d d h.0 (Within-self d h.1))

  sub_dict-Within : (d d2 : Dict K V) → Within d d2 → sub_dict d d2 ≡ true
  unfolding sub_dict
  sub_dict-Within [] d2 h = refl
  sub_dict-Within ((k, v) ∷ d) d2 h = ground (arith, sub_dict-Within d d2 h.1, test_self v)

  -- A dictionary equals itself.
  pub dict_equal_self : (d : Dict K V) → Distinct d → dict_equal d d ≡ true
  unfolding dict_equal
  dict_equal_self d h = ground (arith, test_self (length d), sub_dict-Within d d (Within-self d h))
