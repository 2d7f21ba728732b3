-- ===== src/Base/Loop.antt =====
-- A `while` loop as a function of one round, run on fuel.
use Prim.Native.Nat.{ℕ, zero, suc, ◌<◌}
use mathlib.Core.Path.{◌≡◌, refl}
use mathlib.Core.Option.{Option, none, some}
use mathlib.Core.Logic.{◌⊎◌, inl, inr}
use native.Mathlib.Omega.{arith}

-- A round goes on from a new state, or ends the loop with a result.
pub data Round {ℓ κ} (S : Type ℓ) (A : Type κ) : Type (ℓ ⊔ κ) where
  again : S → Round S A
  stop : A → Round S A

module _ {ℓ κ} {S : Type ℓ} {A : Type κ} where
  -- `none` means that the fuel ran out.
  unfoldable pub iterate : (S → Round S A) → ℕ → S → Option A
  iterate round zero s = none
  iterate round (suc fuel) s = elim (round s) [ again s' ↦ iterate round fuel s' | stop a ↦ some a ]

  pub again-injective : (s s' : S) → ◌≡◌ {A = Round S A} (again s) (again s') → s ≡ s'
  again-injective s s' h = cc

  pub stop-injective : (a a' : A) → ◌≡◌ {A = Round S A} (stop a) (stop a') → a ≡ a'
  stop-injective a a' h = cc

  pub Round-cases : (r : Round S A) → ((s : S) × (r ≡ again s)) ⊎ ((a : A) × (r ≡ stop a))
  Round-cases (again s) = inl (s, refl)
  Round-cases (stop a) = inr (a, refl)

module _ {ℓ κ} {S : Type 0} {A : Type κ} (P : S → Type ℓ) (Q : A → Type ℓ) (measure : S → ℕ)
    (round : S → Round S A)
    (keep : (s s' : S) → P s → round s ≡ again s' → P s' × (measure s' < measure s))
    (end : (s : S) (a : A) → P s → round s ≡ stop a → Q a) where
  -- With a measure below the fuel the loop ends, in a state that its last round makes.
  pub iterate_total :
      (fuel : ℕ) (s : S) → measure s < fuel → P s → (a : A) × (iterate round fuel s ≡ some a) × Q a
  unfolding iterate
  iterate_total zero s m p = absurd (omega arith)
  iterate_total (suc fuel) s m p = elim (Round-cases (round s)) [
    | inl (s', e) ↦
        let (p', d) = keep s s' p e in
        let (a, q, r) = iterate_total fuel s' (omega arith) p' in (a, rw (e, iterate) q, r)
    | inr (a, e) ↦ (a, rw (e, iterate), end s a p e)
  ]

-- A loop of which each round makes the measure smaller ends.
pub iterate_ends {κ} :
    {S : Type 0} {A : Type κ} (measure : S → ℕ) (round : S → Round S A)
    → ((s s' : S) → round s ≡ again s' → measure s' < measure s)
    → (s : S) → (a : A) × (iterate round (suc (measure s)) s ≡ some a)
iterate_ends measure round shorter s =
    let (a, e, _) =
      iterate_total (λ v. Unit {0}) (λ v. Unit {0}) measure round (λ v v' p e. (tt, shorter v v' e))
        (λ v b p e. tt) (suc (measure s)) s (omega arith) tt in
    (a, e)

-- The result of a loop that may end with an exception.
unfoldable pub joined {ℓ} : {A : Type ℓ} → Option (Option A) → Option A
joined none = none
joined (some o) = o
