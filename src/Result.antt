-- ===== src/Result.antt =====
-- `Result` of src/db.rs, src/lib.rs and cli/src/lib.rs. An error is a number, since nothing
-- depends on the text of one.
use ipfs_embed.Prelude.{ℕ, ◌≡◌, refl, ◌⊎◌, inl, inr}

pub data Result {ℓ} (A : Type ℓ) : Type ℓ where
  ok : A → Result A
  err : ℕ → Result A

-- `?`: what comes after a success, or what an error makes of it.
abbrev pub if_ok {ℓ κ} : {A : Type ℓ} {X : Type κ} → Result A → (A → X) → (ℕ → X) → X
if_ok (ok a) after stop = after a
if_ok (err e) after stop = stop e

pub Result-cases {ℓ} :
    {A : Type ℓ} (r : Result A) → ((a : A) × (r ≡ ok a)) ⊎ ((e : ℕ) × (r ≡ err e))
Result-cases (ok a) = inl (a, refl)
Result-cases (err e) = inr (e, refl)

pub if_ok-cases {ℓ κ μ} :
    {A : Type ℓ} {X : Type κ} (P : X → Type μ) (r : Result A) {after : A → X} {stop : ℕ → X}
    → ((a : A) → r ≡ ok a → P (after a))
    → ((e : ℕ) → r ≡ err e → P (stop e))
    → P (if_ok r after stop)
if_ok-cases P (ok a) good bad = good a refl
if_ok-cases P (err e) good bad = bad e refl
