-- ===== src/Executor/Effects.antt =====
-- src/executor.rs: what an operation that may fail does to the tasks.
use ipfs_embed.Prelude.{ℕ, Bool, ◌≡◌, ◌∙◌, subst, refl, ◌||◌, ◌==◌, false, arith}
use ipfs_embed.Result.{Result, ok, err, if_ok}
use ipfs_embed.Storage.State.{Action, ◌>>=◌, pure}
use ipfs_embed.Executor.{Executor, Runtime, IsRuntime, JoinHandle, handle, spawn}

module _ {W F G R : Type 0} (rt : Runtime W F G R) where
  -- No task is stopped, and none is started.
  pub record Leaves {A : Type 0} (m : Action W A) : Type 0 where
    pub same : (w : W) → rt.lives (m w).1 ≡ rt.lives w

  -- An error leaves the tasks as they were before, and a result is as `P` says of the tasks before
  -- and after.
  abbrev pub Ends :
      {A : Type 0} → (A → (ℕ → Bool) → (ℕ → Bool) → Type 0) → (ℕ → Bool) → Result A × W → Type 0
  Ends P before (ok a, w) = P a before (rt.lives w)
  Ends P before (err e, w) = rt.lives w ≡ before

  pub record Ensures {A : Type 0} (P : A → (ℕ → Bool) → (ℕ → Bool) → Type 0) (m : Action W A)
      : Type 0 where
    pub ends : (w : W) → Ends P (rt.lives w) (m w)

  -- A new task, named as no other, beside those before.
  abbrev pub Starts : JoinHandle → Executor → (ℕ → Bool) → (ℕ → Bool) → Type 0
  Starts h ex before after =
      (t : ℕ) × (h ≡ handle ex t) × (before t ≡ false) × ((u : ℕ) → after u ≡ (u == t) || before u)

  bound :
      {A B : Type 0} (P : B → (ℕ → Bool) → (ℕ → Bool) → Type 0) (f : A → Action W B)
      (before : ℕ → Bool) (x : Result A × W)
      → ((a : A) → Ensures P (f a))
      → rt.lives x.1 ≡ before
      → Ends P before (if_ok x.0 (λ a. f a x.1) (λ e. (err e, x.1)))
  bound P f before (ok a, w) after e = subst (λ b. Ends P b (f a w)) e ((after a).ends w)
  bound P f before (err d, w) after e = e

  pub >>=-Ensures :
      {A B : Type 0} {P : B → (ℕ → Bool) → (ℕ → Bool) → Type 0} {m : Action W A}
      {f : A → Action W B}
      → Leaves m
      → ((a : A) → Ensures P (f a))
      → Ensures P (m >>= f)
  unfolding ◌>>=◌
  >>=-Ensures {P = P} {m = m} {f = f} quiet after = record {
    ends = λ w. bound P f (rt.lives w) (m w) after (quiet.same w);
  }

  left :
      {A B : Type 0} (f : A → Action W B) (before : ℕ → Bool) (x : Result A × W)
      → ((a : A) → Leaves (f a))
      → rt.lives x.1 ≡ before
      → rt.lives (if_ok {X = Result B × W} x.0 (λ a. f a x.1) (λ e. (err e, x.1))).1 ≡ before
  left f before (ok a, w) after e = (after a).same w ∙ e
  left f before (err d, w) after e = e

  pub >>=-Leaves :
      {A B : Type 0} {m : Action W A} {f : A → Action W B}
      → Leaves m
      → ((a : A) → Leaves (f a))
      → Leaves (m >>= f)
  unfolding ◌>>=◌
  >>=-Leaves {m = m} {f = f} quiet after = record {
    same = λ w. left f (rt.lives w) (m w) after (quiet.same w);
  }

  pub pure-Leaves : {A : Type 0} (a : A) → Leaves (pure a)
  pure-Leaves a = record { same = λ w. refl }

  pub spawn-Starts :
      IsRuntime rt
      → (ex : Executor) (f : F) (w : W)
      → Starts (spawn rt ex f w).0 ex (rt.lives w) (rt.lives (spawn rt ex f w).1)
  unfolding spawn
  spawn-Starts laws Executor.tokio f w = (
    (rt.tokio_spawn f w).0,
    refl,
    laws.tokio_spawn_new f w,
    λ u. ground (arith, laws.tokio_spawn_lives f w u),
  )
  spawn-Starts laws Executor.async_global f w =
      ((rt.spawn f w).0, refl, laws.spawn_new f w, λ u. ground (arith, laws.spawn_lives f w u))
