-- ===== src/Base/Map.antt =====
-- `HashMap` and `DashMap` as association lists. Their order of iteration, which the libraries
-- leave open, is the order of the list.
use mathlib.Core.Path.{◌≡◌, refl, sym, ap, ◌∙◌}
use mathlib.Core.Bool.{Bool, true, false}
use mathlib.Core.Logic.{inl, inr}
use mathlib.Core.List.{List, [], ◌∷◌}
use mathlib.Core.Option.{Option, none, some}
use native.Mathlib.Omega.{arith}
use adb_daemon_rs.Base.Booleans.{if◌then◌else◌, if_cases, Bool-cases}
use adb_daemon_rs.Base.Equality.{Eq, ◌==◌, ==_iff, ==_refl}

abbrev pub Map {ℓ κ} : Type ℓ → Type κ → Type (ℓ ⊔ κ)
Map K V = List (K × V)

abbrev pub keep_if {κ} : {V : Type κ} → (V → Bool) → Option V → Option V
keep_if p none = none
keep_if p (some v) = if p v then some v else none

pub keep_if-if {κ} :
    {V : Type κ} (p : V → Bool) (b : Bool) (x y : Option V)
    → keep_if p (if b then x else y) ≡ (if b then keep_if p x else keep_if p y)
keep_if-if p true x y = refl
keep_if-if p false x y = refl

module _ {ℓ κ} {K : Type ℓ} {V : Type κ} ⦃e : Eq K⦄ where
  unfoldable pub lookup : K → Map K V → Option V
  lookup k [] = none
  lookup k ((j, v) ∷ m) = if j == k then some v else lookup k m

  unfoldable pub remove : K → Map K V → Map K V
  remove k [] = []
  remove k ((j, v) ∷ m) = let rest = remove k m in if j == k then rest else (j, v) ∷ rest

  -- The new pair stands first, and replaces one of the same key.
  unfoldable pub insert : K → V → Map K V → Map K V
  insert k v m = (k, v) ∷ remove k m

  pub lookup-remove :
      (k j : K) (m : Map K V) → lookup j (remove k m) ≡ (if k == j then none else lookup j m)
  unfolding lookup remove
  lookup-remove k j [] = ground arith
  lookup-remove k j ((i, v) ∷ m) =
      ground (arith, lookup-remove k j m, ==_iff i k, ==_iff i j, ==_iff k j)

  pub lookup-insert :
      (k j : K) (v : V) (m : Map K V)
      → lookup j (insert k v m) ≡ (if k == j then some v else lookup j m)
  unfolding lookup insert
  lookup-insert k j v m = ground (arith, lookup-remove k j m)

  -- `retain`, at an entry's key and value.
  unfoldable pub retain : (K → V → Bool) → Map K V → Map K V
  retain p [] = []
  retain p ((k, v) ∷ m) = let rest = retain p m in if p k v then (k, v) ∷ rest else rest

  -- No key stands twice.
  abbrev pub IsDistinct : Map K V → Type (ℓ ⊔ κ)
  IsDistinct [] = Unit {ℓ ⊔ κ}
  IsDistinct ((k, v) ∷ m) = (lookup k m ≡ none) × IsDistinct m

  pub lookup-retain :
      (p : K → V → Bool) (k : K) (m : Map K V)
      → IsDistinct m
      → lookup k (retain p m) ≡ keep_if (p k) (lookup k m)
  unfolding lookup retain
  lookup-retain p k [] h = refl
  lookup-retain p k ((j, v) ∷ m) (new, h) = elim (Bool-cases (j == k)) [
    | inl e ↦
        let same = (==_iff j k).0 e in
        let gone : lookup k (retain p m) ≡ none =
          lookup-retain p k m h ∙ ap (keep_if (p k)) (ap (λ i. lookup i m) (sym same) ∙ new) in
        rw (e, ← same)
          (if_cases (λ r. lookup j r ≡ (if p j v then some v else none)) (p j v) _ _
            (λ t. rw (t, ==_refl j)) (λ f. rw f (ap (λ i. lookup i (retain p m)) same ∙ gone)))
    | inr e ↦ rw e (
        if_cases (λ r. lookup k r ≡ keep_if (p k) (lookup k m)) (p j v) _ _
          (λ t. rw e (lookup-retain p k m h)) (λ f. lookup-retain p k m h))
  ]

  pub retain-IsDistinct : (p : K → V → Bool) (m : Map K V) → IsDistinct m → IsDistinct (retain p m)
  unfolding retain
  retain-IsDistinct p [] h = h
  retain-IsDistinct p ((j, v) ∷ m) (new, h) =
      if_cases IsDistinct (p j v) _ _
        (λ e. (lookup-retain p j m h ∙ ap (keep_if (p j)) new, retain-IsDistinct p m h))
        (λ e. retain-IsDistinct p m h)

  pub remove-IsDistinct : (k : K) (m : Map K V) → IsDistinct m → IsDistinct (remove k m)
  unfolding remove
  remove-IsDistinct k [] h = h
  remove-IsDistinct k ((j, v) ∷ m) (new, h) =
      if_cases IsDistinct (j == k) _ _ (λ e. remove-IsDistinct k m h)
        (λ e. (lookup-remove k j m ∙ ground arith, remove-IsDistinct k m h))

  pub insert-IsDistinct : (k : K) (v : V) (m : Map K V) → IsDistinct m → IsDistinct (insert k v m)
  unfolding insert
  insert-IsDistinct k v m h = (lookup-remove k k m ∙ rw (==_refl k), remove-IsDistinct k m h)

  pub retain-retain : (p : K → V → Bool) (m : Map K V) → retain p (retain p m) ≡ retain p m
  unfolding retain
  retain-retain p [] = refl
  retain-retain p ((j, v) ∷ m) = ground (arith, retain-retain p m)
