-- ===== src/Base/Dicts.antt =====
-- Dictionaries in insertion order, and their items sorted by key.
use Prim.Native.String.{String}
use mathlib.Core.Path.{◌≡◌, refl}
use mathlib.Core.Bool.{true, false, ◌||◌}
use mathlib.Core.Option.{Option, none, some}
use mathlib.Core.List.{List, [], ◌∷◌, map}
use native.Mathlib.Omega.{arith}
use text.Mathlib.TextPositions.{compare_refl}
use mathlib.Core.Logic.{inl, inr}
use scope_proof.Base.Logic.{if◌then◌else◌, Bool-cases}
use scope_proof.Base.Equality.{Eq, ◌==◌, string_eq}
use scope_proof.Base.Lists.{contains, nodup}
use scope_proof.Base.Sorting.{str_leb}

abbrev pub Dict {ℓ κ} : Type ℓ → Type κ → Type (ℓ ⊔ κ)
Dict K V = List (K × V)

module _ {ℓ κ} {K : Type ℓ} {V : Type κ} where
  abbrev pub keys : Dict K V → List K
  keys = map (λ (k, _). k)

module _ {ℓ κ} {K : Type ℓ} {V : Type κ} ⦃e : Eq K⦄ where
  -- `d.get(k)`
  unfoldable pub lookup : K → Dict K V → Option V
  lookup k [] = none
  lookup k ((j, w) ∷ d) = if k == j then some w else lookup k d

  -- `d[k] = v`
  unfoldable pub insert : K → V → Dict K V → Dict K V
  insert k v [] = (k, v) ∷ []
  insert k v ((j, w) ∷ d) = if k == j then (k, v) ∷ d else (j, w) ∷ insert k v d

  pub lookup-nil : (k : K) → lookup k [] ≡ none
  unfolding lookup
  lookup-nil k = refl

  pub lookup-insert :
      (j k : K) (v : V) (d : Dict K V)
      → lookup j (insert k v d) ≡ (if j == k then some v else lookup j d)
  unfolding lookup insert
  lookup-insert j k v [] = refl
  lookup-insert j k v ((i, w) ∷ d) = ground (arith, lookup-insert j k v d)

  pub contains-keys-insert :
      (k : K) (v : V) (d : Dict K V) (j : K)
      → contains (keys (insert k v d)) j ≡ (j == k || contains (keys d) j)
  unfolding insert
  contains-keys-insert k v [] j = refl
  contains-keys-insert k v ((i, w) ∷ d) j = ground (arith, contains-keys-insert k v d j)

  pub insert-nodup :
      (k : K) (v : V) (d : Dict K V) → nodup (keys d) ≡ true → nodup (keys (insert k v d)) ≡ true
  unfolding insert
  insert-nodup k v [] h = refl
  insert-nodup k v ((i, w) ∷ d) h = ground (arith, insert-nodup k v d, contains-keys-insert k v d i)

module _ {κ} {V : Type κ} where
  insert_item : String → V → Dict String V → Dict String V
  insert_item k v [] = (k, v) ∷ []
  insert_item k v ((j, w) ∷ d) =
      let rest = insert_item k v d in if str_leb k j then (k, v) ∷ (j, w) ∷ d else (j, w) ∷ rest

  -- `sorted(d.items())`: keys are distinct, so values are never compared.
  unfoldable pub sorted_items : Dict String V → Dict String V
  unfolding insert_item
  sorted_items [] = []
  sorted_items ((k, v) ∷ d) = insert_item k v (sorted_items d)

  lookup-insert_item :
      (j k : String) (v : V) (d : Dict String V)
      → lookup j (insert_item k v d) ≡ (if j == k then some v else lookup j d)
  unfolding lookup insert_item
  lookup-insert_item j k v [] = refl
  lookup-insert_item j k v ((i, w) ∷ d) = ground (arith, lookup-insert_item j k v d, compare_refl k)

  pub lookup-sorted_items :
      (j : String) (d : Dict String V) → lookup j (sorted_items d) ≡ lookup j d
  unfolding lookup sorted_items
  lookup-sorted_items j [] = refl
  lookup-sorted_items j ((k, v) ∷ d) =
      ground (arith, lookup-insert_item j k v (sorted_items d), lookup-sorted_items j d)

  contains-keys-insert_item :
      (k : String) (v : V) (d : Dict String V) (j : String)
      → contains (keys (insert_item k v d)) j ≡ (j == k || contains (keys d) j)
  unfolding insert_item
  contains-keys-insert_item k v [] j = refl
  contains-keys-insert_item k v ((i, w) ∷ d) j = ground (arith, contains-keys-insert_item k v d j)

  pub contains-keys-sorted_items :
      (d : Dict String V) (j : String) → contains (keys (sorted_items d)) j ≡ contains (keys d) j
  unfolding sorted_items
  contains-keys-sorted_items [] j = refl
  contains-keys-sorted_items ((k, v) ∷ d) j =
      ground
        (arith, contains-keys-insert_item k v (sorted_items d) j, contains-keys-sorted_items d j)

  insert_item-nodup :
      (k : String) (v : V) (d : Dict String V)
      → nodup (keys d) ≡ true
      → contains (keys d) k ≡ false
      → nodup (keys (insert_item k v d)) ≡ true
  unfolding insert_item
  insert_item-nodup k v [] h n = refl
  insert_item-nodup k v ((i, w) ∷ d) h n =
      ground (arith, contains-keys-insert_item k v d i, insert_item-nodup k v d)

  pub sorted_items-nodup :
      (d : Dict String V) → nodup (keys d) ≡ true → nodup (keys (sorted_items d)) ≡ true
  unfolding sorted_items
  sorted_items-nodup [] h = refl
  sorted_items-nodup ((k, v) ∷ d) h = ground (
    arith,
    insert_item-nodup k v (sorted_items d),
    sorted_items-nodup d,
    contains-keys-sorted_items d k,
  )

module _ {ℓ κ} {K : Type ℓ} {V : Type κ} ⦃e : Eq K⦄ where
  pub lookup-of_absent : (k : K) (d : Dict K V) → contains (keys d) k ≡ false → lookup k d ≡ none
  unfolding lookup
  lookup-of_absent k [] h = refl
  lookup-of_absent k ((j, w) ∷ d) h = ground (arith, lookup-of_absent k d)

  -- Every entry is right for its key.
  abbrev pub Entries {μ} : (K → V → Type μ) → Dict K V → Type μ
  Entries P [] = Unit
  Entries P ((k, v) ∷ d) = P k v × Entries P d

  pub insert-Entries {μ} :
      (P : K → V → Type μ) (k : K) (v : V) (d : Dict K V)
      → P k v
      → Entries P d
      → Entries P (insert k v d)
  unfolding insert
  insert-Entries P k v [] p h = (p, tt)
  insert-Entries P k v ((j, w) ∷ d) p h = elim (Bool-cases (k == j)) [
    | inl same ↦ rw same (p, h.1)
    | inr other ↦ rw other (h.0, insert-Entries P k v d p h.1)
  ]

module _ {κ μ} {V : Type κ} (P : String → V → Type μ) where
  insert_item-Entries :
      (k : String) (v : V) (d : Dict String V) → P k v → Entries P d → Entries P (insert_item k v d)
  unfolding insert_item
  insert_item-Entries k v [] p h = (p, tt)
  insert_item-Entries k v ((j, w) ∷ d) p h = elim (Bool-cases (str_leb k j)) [
    | inl below ↦ rw below (p, h)
    | inr above ↦ rw above (h.0, insert_item-Entries k v d p h.1)
  ]

  pub sorted_items-Entries : (d : Dict String V) → Entries P d → Entries P (sorted_items d)
  unfolding sorted_items
  sorted_items-Entries [] h = tt
  sorted_items-Entries ((k, v) ∷ d) h =
      insert_item-Entries k v (sorted_items d) h.0 (sorted_items-Entries d h.1)
