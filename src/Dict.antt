-- ===== src/Dict.antt =====
-- Python's `dict`, in insertion order: a key that is written again keeps its place.
pub mod Distinct
use ledgergate.Base.{
  ℕ, ◌≡◌, ◌≢◌, refl, Bool, true, false, ◌&&◌, Option, none, some, List, [], ◌∷◌, arith, Eq, ◌==◌,
  if◌then◌else◌, length, map, nat_eq,
}

abbrev pub Dict {ℓ κ} : Type ℓ → Type κ → Type (ℓ ⊔ κ)
Dict K V = List (K × V)

module _ {ℓ κ} {K : Type ℓ} {V : Type κ} ⦃e : Eq K⦄ where
  -- `d.get(k)`
  unfoldable pub lookup : K → Dict K V → Option V
  lookup k [] = none
  lookup k ((j, v) ∷ d) = if k == j then some v else lookup k d

  -- `k in d`
  unfoldable pub contains : K → Dict K V → Bool
  unfolding lookup
  contains k d = elim (lookup k d) [ none ↦ false | some _ ↦ true ]

  -- `d[k] = v`, `{**d, k: v}`
  unfoldable pub insert : K → V → Dict K V → Dict K V
  insert k v [] = (k, v) ∷ []
  insert k v ((j, w) ∷ d) = if k == j then (j, v) ∷ d else (j, w) ∷ insert k v d

  -- `d.get(k, v)`
  unfoldable pub get_or : K → V → Dict K V → V
  unfolding lookup
  get_or k v d = elim (lookup k d) [ none ↦ v | some w ↦ w ]

  pub lookup-insert :
      (k j : K) (v : V) (d : Dict K V)
      → lookup j (insert k v d) ≡ (if j == k then some v else lookup j d)
  unfolding lookup insert
  lookup-insert k j v [] = refl
  lookup-insert k j v ((i, w) ∷ d) = ground (arith, lookup-insert k j v d)

  pub lookup-insert_self : (k : K) (v : V) (d : Dict K V) → lookup k (insert k v d) ≡ some v
  lookup-insert_self k v d = ground (arith, lookup-insert k k v d)

  pub lookup-insert_ne :
      (k j : K) (v : V) (d : Dict K V) → j ≢ k → lookup j (insert k v d) ≡ lookup j d
  lookup-insert_ne k j v d h = ground (arith, lookup-insert k j v d)

  pub get_or-insert :
      (k j : K) (v x : V) (d : Dict K V)
      → get_or j x (insert k v d) ≡ (if j == k then v else get_or j x d)
  unfolding get_or
  get_or-insert k j v x d = ground (arith, lookup-insert k j v d)

  pub contains-insert :
      (k j : K) (v : V) (d : Dict K V)
      → contains j (insert k v d) ≡ (if j == k then true else contains j d)
  unfolding contains
  contains-insert k j v d = ground (arith, lookup-insert k j v d)

-- `o == v`, where `None` differs from every value.
unfoldable pub holds {κ} : {V : Type κ} ⦃f : Eq V⦄ → Option V → V → Bool
holds none v = false
holds (some w) v = w == v

-- `d == d2`: as many entries, and each of `d` is in `d2`. The order does not count.
module _ {ℓ κ} {K : Type ℓ} {V : Type κ} ⦃e : Eq K⦄ ⦃f : Eq V⦄ where
  unfoldable pub sub_dict : Dict K V → Dict K V → Bool
  unfolding holds
  sub_dict [] d2 = true
  sub_dict ((k, v) ∷ d) d2 = holds (lookup k d2) v && sub_dict d d2

  unfoldable pub dict_equal : Dict K V → Dict K V → Bool
  unfolding sub_dict
  dict_equal d d2 = length d == length d2 && sub_dict d d2
