-- ===== src/Prelude/Keys.antt =====
-- Keys with a Boolean equality, sets of keys as lists, and dictionaries as association lists.
use Prim.Native.String.{String}
use mathlib.Core.Path.{◌≡◌, refl, sym, ap, subst, subst₂}
use mathlib.Core.Logic.{◌↔◌, inl, inr}
use mathlib.Core.Bool.{Bool, true, false, ◌||◌}
use mathlib.Core.Option.{Option, none, some}
use mathlib.Core.List.{List, [], ◌∷◌}
use text.Mathlib.Text.{◌==◌ as str_eq}
use text.Mathlib.TextEquality.{eq_iff}
use call_forge.Prelude.Tests.{if◌then◌else◌, Bool-cases, All, is_some, some_injective}

pub record Eq {ℓ} (A : Type ℓ) : Type ℓ where
  pub same_key : (x y : A) → Bool
  pub same_iff : (x y : A) → (same_key x y ≡ true) ↔ (x ≡ y)

infix 50 ◌==◌
abbrev pub ◌==◌ {ℓ} : {A : Type ℓ} ⦃e : Eq A⦄ → A → A → Bool
◌==◌ ⦃e⦄ = e.same_key

instance abbrev pub string_eq : Eq String
string_eq = record { same_key = str_eq; same_iff = eq_iff }

module _ {ℓ} {A : Type ℓ} where
  abbrev pub beq_by : Discrete A → A → A → Bool
  beq_by d a b = elim (d a b) [ yes _ ↦ true | no _ ↦ false ]

  pub beq_by_iff : (d : Discrete A) (a b : A) → (beq_by d a b ≡ true) ↔ (a ≡ b)
  beq_by_iff d a b =
      elim (d a b) as (λ r. ((elim r [ yes _ ↦ true | no _ ↦ false ]) ≡ true) ↔ (a ≡ b)) [
        | yes p ↦ (λ _. p, λ _. refl)
        | no n ↦ (λ e. cc, λ p. absurd (n p))
      ]

  -- The equality test of an enumeration.
  abbrev pub eq_by : Discrete A → Eq A
  eq_by d = record { same_key = beq_by d; same_iff = beq_by_iff d }

module _ {ℓ} {K : Type ℓ} ⦃e : Eq K⦄ where
  pub ==-refl : (k : K) → (k == k) ≡ true
  ==-refl k = (e.same_iff k k).1 refl

  -- `k in xs`
  unfoldable pub member : K → List K → Bool
  member k [] = false
  member k (x ∷ xs) = x == k || member k xs

  -- The distinct elements, as `set` keeps them.
  unfoldable pub distinct : List K → List K
  unfolding member
  distinct [] = []
  distinct (x ∷ xs) = let rest = distinct xs in if member x rest then rest else x ∷ rest

  pub All-member {κ} : (P : K → Type κ) (k : K) (xs : List K) → All P xs → member k xs ≡ true → P k
  unfolding member
  All-member P k [] h m = cc
  All-member P k (x ∷ xs) h m = elim (Bool-cases (x == k)) [
    | inl same ↦ subst P ((e.same_iff x k).0 same) h.0
    | inr other ↦ All-member P k xs h.1 (rw other at m)
  ]

module _ {ℓ κ} {K : Type ℓ} {V : Type κ} where
  -- Every entry of a dictionary satisfies a predicate.
  abbrev pub AllEntries {μ} : (K → V → Type μ) → List (K × V) → Type μ
  AllEntries P [] = Unit
  AllEntries P ((k, v) ∷ m) = P k v × AllEntries P m

  pub AllEntries-map {μ ν} :
      (P : K → V → Type μ) (Q : K → V → Type ν) (m : List (K × V))
      → ((k : K) (v : V) → P k v → Q k v)
      → AllEntries P m
      → AllEntries Q m
  AllEntries-map P Q [] f h = tt
  AllEntries-map P Q ((k, v) ∷ m) f h = (f k v h.0, AllEntries-map P Q m f h.1)

module _ {ℓ κ} {K : Type ℓ} {V : Type κ} ⦃e : Eq K⦄ where
  -- `m.get(k)`
  unfoldable pub lookup : K → List (K × V) → Option V
  lookup k [] = none
  lookup k ((j, v) ∷ m) = if j == k then some v else lookup k m

  -- `m[k] = v`
  unfoldable pub insert : K → V → List (K × V) → List (K × V)
  insert k v [] = (k, v) ∷ []
  insert k v ((j, w) ∷ m) = if j == k then (k, v) ∷ m else (j, w) ∷ insert k v m

  -- `k in m`
  unfoldable pub has_key : K → List (K × V) → Bool
  unfolding lookup
  has_key k m = is_some (lookup k m)

  pub AllEntries-lookup {μ} :
      (P : K → V → Type μ) (k : K) (v : V) (m : List (K × V))
      → AllEntries P m
      → lookup k m ≡ some v
      → P k v
  unfolding lookup
  AllEntries-lookup P k v [] h found = cc
  AllEntries-lookup P k v ((j, w) ∷ m) h found = elim (Bool-cases (j == k)) [
    | inl same ↦ subst₂ P ((e.same_iff j k).0 same) (some_injective w v (rw same at found)) h.0
    | inr other ↦ AllEntries-lookup P k v m h.1 (rw other at found)
  ]

  pub AllEntries-insert {μ} :
      (P : K → V → Type μ) (k : K) (v : V) (m : List (K × V))
      → P k v
      → AllEntries P m
      → AllEntries P (insert k v m)
  unfolding insert
  AllEntries-insert P k v [] p h = (p, tt)
  AllEntries-insert P k v ((j, w) ∷ m) p h = elim (Bool-cases (j == k)) [
    | inl same ↦ rw same (p, h.1)
    | inr other ↦ rw other (h.0, AllEntries-insert P k v m p h.1)
  ]

  -- What is stored under a key is found, and hides no other key.
  pub lookup-insert : (k : K) (v : V) (m : List (K × V)) → lookup k (insert k v m) ≡ some v
  unfolding lookup insert
  lookup-insert k v [] = rw (==-refl k) refl
  lookup-insert k v ((j, w) ∷ m) = elim (Bool-cases (j == k)) [
    | inl same ↦ rw same (rw (==-refl k) refl)
    | inr other ↦ rw other (rw other (lookup-insert k v m))
  ]

  pub lookup-insert_ne :
      (k j : K) (v : V) (m : List (K × V)) → (k == j) ≡ false → lookup j (insert k v m) ≡ lookup j m
  unfolding lookup insert
  lookup-insert_ne k j v [] ne = rw ne refl
  lookup-insert_ne k j v ((i, w) ∷ m) ne = elim (Bool-cases (i == k)) [
    | inl same ↦
        rw same (rw ne (rw (subst (λ x. (x == j) ≡ false) (sym ((e.same_iff i k).0 same)) ne) refl))
    | inr other ↦ rw other (ap (λ o. if i == j then some w else o) (lookup-insert_ne k j v m ne))
  ]

module _ {ℓ κ μ ν} {K : Type ℓ} {V : Type κ} where
  pub AllEntries-both :
      (P : K → V → Type μ) (Q : K → V → Type ν) (m : List (K × V))
      → AllEntries P m
      → AllEntries Q m
      → AllEntries (λ k v. P k v × Q k v) m
  AllEntries-both P Q [] h g = tt
  AllEntries-both P Q ((k, v) ∷ m) h g = ((h.0, g.0), AllEntries-both P Q m h.1 g.1)
