-- ===== src/Prelude/Memory.antt =====
-- A memory of values of one type, as a function of the address.
use Prim.Native.Nat.{ℕ}
use mathlib.Core.Path.{◌≡◌, fun_ext}
use mathlib.Core.Logic.{◌≢◌}
use native.Mathlib.Omega.{arith}
use epli.Prelude.Tests.{◌==◌, if◌then◌else◌}

module _ {ℓ} {A : Type ℓ} where
  unfoldable pub store : (ℕ → A) → ℕ → A → ℕ → A
  store h a x b = if b == a then x else h b

  pub store_same : (h : ℕ → A) (a : ℕ) (x : A) → store h a x a ≡ x
  unfolding store
  store_same h a x = ground arith

  pub store_other : (h : ℕ → A) (a b : ℕ) (x : A) → b ≢ a → store h a x b ≡ h b
  unfolding store
  store_other h a b x n = ground arith

  pub store_self : (h : ℕ → A) (a : ℕ) → store h a (h a) ≡ h
  unfolding store
  store_self h a = fun_ext (λ b. ground arith)
