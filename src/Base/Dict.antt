-- ===== src/Base/Dict.antt =====
-- Go's `map` with string keys. The representation is shut: clients have `dict_laws`.
use raft_demo.Base.Tests.{if◌then◌else◌}
use raft_demo.Base.Text.{Bytes, ◌==◌, eq_iff, eq_refl}
use mathlib.Core.Path.{◌≡◌, refl}
use mathlib.Core.Option.{Option, none, some}
use mathlib.Core.List.{List, [], ◌∷◌}
use native.Mathlib.Omega.{arith}

module _ {ℓ} {V : Type ℓ} where
  lookup : Bytes → List (Bytes × V) → Option V
  lookup k [] = none
  lookup k ((j, v) ∷ m) = if j == k then some v else lookup k m

  without : Bytes → List (Bytes × V) → List (Bytes × V)
  without k [] = []
  without k ((j, v) ∷ m) = let rest = without k m in if j == k then rest else (j, v) ∷ rest

  lookup-without :
      (k j : Bytes) (m : List (Bytes × V))
      → lookup j (without k m) ≡ (if k == j then none else lookup j m)
  unfolding lookup without
  lookup-without k j [] = ground arith
  lookup-without k j ((i, v) ∷ m) =
      ground (arith, lookup-without k j m, eq_iff i k, eq_iff i j, eq_iff k j)

pub record Dict {ℓ} (V : Type ℓ) : Type ℓ where
  pub entries : List (Bytes × V)

module _ {ℓ} {V : Type ℓ} where
  -- make(map[string]V)
  unfoldable pub empty : Dict V
  empty = record { entries = [] }

  -- v, ok := m[k]
  unfoldable pub get : Dict V → Bytes → Option V
  unfolding lookup
  get m k = lookup k m.entries

  -- m[k] = v
  unfoldable pub put : Dict V → Bytes → V → Dict V
  unfolding without
  put m k v = record { entries = (k, v) ∷ without k m.entries }

  -- delete(m, k)
  unfoldable pub remove : Dict V → Bytes → Dict V
  unfolding without
  remove m k = record { entries = without k m.entries }

  pub get-empty : (k : Bytes) → get empty k ≡ none
  unfolding get empty
  get-empty k = refl

  pub get-nil : (k : Bytes) → get (record { entries = [] }) k ≡ none
  unfolding get lookup
  get-nil k = refl

  pub get-cons :
      (j : Bytes) (v : V) (es : List (Bytes × V)) (k : Bytes)
      → get (record { entries = (j, v) ∷ es }) k
        ≡ (if j == k then some v else get (record { entries = es }) k)
  unfolding get lookup
  get-cons j v es k = refl

  pub get-remove :
      (m : Dict V) (k j : Bytes) → get (remove m k) j ≡ (if k == j then none else get m j)
  unfolding get remove
  get-remove m k j = lookup-without k j m.entries

  pub get-put :
      (m : Dict V) (k j : Bytes) (v : V) → get (put m k v) j ≡ (if k == j then some v else get m j)
  unfolding get put lookup
  get-put m k j v = ground (arith, lookup-without k j m.entries)

  pub get-put_self : (m : Dict V) (k : Bytes) (v : V) → get (put m k v) k ≡ some v
  get-put_self m k v = simp (get-put, eq_refl)

pub ruleset dict_laws = (get-empty, get-remove, get-put)
