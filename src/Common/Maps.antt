-- ===== src/Common/Maps.antt =====
-- A JavaScript `Map`: an association list in insertion order. `put` keeps the place of a key that is
-- there and appends a new one; `IsDistinct` says that each key stands once, as in a `Map`.
use Prim.Native.Nat.{ℕ, ◌+◌}
use mathlib.Core.Path.{◌≡◌, refl}
use mathlib.Core.Logic.{◌≢◌}
use mathlib.Core.Bool.{Bool}
use mathlib.Core.Option.{Option, none, some}
use mathlib.Core.List.{List, [], ◌∷◌, map}
use native.Mathlib.Omega.{arith}
use dicode_relay.Common.Tests.{Eq, ◌==◌, if◌then◌else◌, ==_refl, beq_of_ne}
use dicode_relay.Common.Logic.{is_some}

abbrev pub Dict {ℓ κ} : Type ℓ → Type κ → Type (ℓ ⊔ κ)
Dict K V = List (K × V)

module _ {ℓ κ} {K : Type ℓ} {V : Type κ} where
  abbrev pub keys : Dict K V → List K
  keys = map (λ e. e.0)

  abbrev pub values : Dict K V → List V
  values = map (λ e. e.1)

module _ {ℓ κ} {K : Type ℓ} {V : Type κ} ⦃e : Eq K⦄ where
  unfoldable pub get : K → Dict K V → Option V
  get k [] = none
  get k ((j, v) ∷ m) = if j == k then some v else get k m

  unfoldable pub put : K → V → Dict K V → Dict K V
  put k v [] = (k, v) ∷ []
  put k v ((j, w) ∷ m) = if j == k then (j, v) ∷ m else (j, w) ∷ put k v m

  unfoldable pub delete : K → Dict K V → Dict K V
  delete k [] = []
  delete k ((j, v) ∷ m) = if j == k then delete k m else (j, v) ∷ delete k m

  unfoldable pub has : K → Dict K V → Bool
  has k m = is_some (get k m)

  abbrev pub IsDistinct : Dict K V → Type κ
  IsDistinct [] = Unit
  IsDistinct ((k, v) ∷ m) = (get k m ≡ none) × IsDistinct m

  pub get-put :
      (k j : K) (v : V) (m : Dict K V) → get j (put k v m) ≡ (if k == j then some v else get j m)
  unfolding get put
  get-put k j v [] = refl
  get-put k j v ((i, w) ∷ m) =
      ground (arith, e.beq_iff k j, e.beq_iff i k, e.beq_iff i j, get-put k j v m)

  pub get-put_self : (k : K) (v : V) (m : Dict K V) → get k (put k v m) ≡ some v
  get-put_self k v m = rw (get-put, ==_refl k)

  pub get-put_ne : (k j : K) (v : V) (m : Dict K V) → k ≢ j → get j (put k v m) ≡ get j m
  get-put_ne k j v m h = rw (get-put, beq_of_ne k j h)

  pub get-delete :
      (k j : K) (m : Dict K V) → get j (delete k m) ≡ (if k == j then none else get j m)
  unfolding get delete
  get-delete k j [] = ground arith
  get-delete k j ((i, w) ∷ m) =
      ground (arith, e.beq_iff k j, e.beq_iff i k, e.beq_iff i j, get-delete k j m)

  pub put-IsDistinct : (k : K) (v : V) (m : Dict K V) → IsDistinct m → IsDistinct (put k v m)
  unfolding put get
  put-IsDistinct k v [] d = (refl, tt)
  put-IsDistinct k v ((j, w) ∷ m) d =
      ground (arith, put-IsDistinct k v m d.1, get-put k j v m, e.beq_iff k j, e.beq_iff j k)

  pub delete-IsDistinct : (k : K) (m : Dict K V) → IsDistinct m → IsDistinct (delete k m)
  unfolding delete get
  delete-IsDistinct k [] d = tt
  delete-IsDistinct k ((j, w) ∷ m) d = ground (arith, delete-IsDistinct k m d.1, get-delete k j m)

  pub delete_absent : (k : K) (m : Dict K V) → get k m ≡ none → delete k m ≡ m
  unfolding delete get
  delete_absent k [] h = refl
  delete_absent k ((j, w) ∷ m) h = ground (arith, delete_absent k m)

  -- The number of entries whose value passes a test.
  unfoldable pub count : (V → Bool) → Dict K V → ℕ
  count p [] = 0
  count p ((k, v) ∷ m) = (if p v then 1 else 0) + count p m

  pub count-put_new :
      (p : V → Bool) (k : K) (v : V) (m : Dict K V)
      → get k m ≡ none
      → count p (put k v m) ≡ count p m + (if p v then 1 else 0)
  unfolding count put get
  count-put_new p k v [] h = ground arith
  count-put_new p k v ((j, w) ∷ m) h = ground (arith, count-put_new p k v m)

  pub count-delete :
      (p : V → Bool) (k : K) (v : V) (m : Dict K V)
      → IsDistinct m
      → get k m ≡ some v
      → count p (delete k m) + (if p v then 1 else 0) ≡ count p m
  unfolding count delete get
  count-delete p k v [] d h = absurd (ground arith)
  count-delete p k v ((j, w) ∷ m) d h =
      ground (arith, count-delete p k v m d.1, delete_absent k m, e.beq_iff j k)
