-- ===== src/Prelude/Family.antt =====
-- What belongs to the threads, by their numbers: a change for one of them, and a sum over the first.
use Prim.Native.Nat.{ℕ, zero, suc, ◌+◌, ◌<◌}
use mathlib.Core.Path.{◌≡◌, refl}
use native.Mathlib.Omega.{arith}
use ivckolpak.Prelude.Tests.{◌==◌, ltb, lt→ltb, if◌then◌else◌}

abbrev pub update {ℓ} : {T : Type ℓ} → (ℕ → T) → ℕ → T → ℕ → T
update threads k new j = if k == j then new else threads j

-- The weights of the threads with numbers below a bound, added up.
unfoldable pub total {ℓ} : {T : Type ℓ} → (T → ℕ) → ℕ → (ℕ → T) → ℕ
total weight zero threads = 0
total weight (suc bound) threads = weight (threads bound) + total weight bound threads

-- A weight that counts only below the bound.
abbrev counted : ℕ → ℕ → ℕ → ℕ
counted k bound w = if ltb k bound then w else 0

total-update_at {ℓ} :
    {T : Type ℓ} (weight : T → ℕ) (threads : ℕ → T) (k : ℕ) (new : T) (bound : ℕ)
    → total weight bound (update threads k new) + counted k bound (weight (threads k))
      ≡ total weight bound threads + counted k bound (weight new)
unfolding total
total-update_at weight threads k new zero = ground arith
total-update_at weight threads k new (suc bound) =
    ground (arith, total-update_at weight threads k new bound)

-- A thread that changes moves the sum by the difference of its weights.
pub total-update {ℓ} :
    {T : Type ℓ} (weight : T → ℕ) (bound : ℕ) (threads : ℕ → T) (k : ℕ) (new : T)
    → k < bound
    → total weight bound (update threads k new) + weight (threads k)
      ≡ total weight bound threads + weight new
total-update weight bound threads k new below =
    ground (arith, lt→ltb k bound below, total-update_at weight threads k new bound)

-- A change of all threads that keeps the weight of each.
pub total-kept {ℓ} :
    {T : Type ℓ} (weight : T → ℕ) (bound : ℕ) (threads : ℕ → T) (change : T → T)
    → ((t : T) → weight (change t) ≡ weight t)
    → total weight bound (λ i. change (threads i)) ≡ total weight bound threads
unfolding total
total-kept weight zero threads change kept = refl
total-kept weight (suc bound) threads change kept =
    omega (arith, kept (threads bound), total-kept weight bound threads change kept)

pub total-same {ℓ} :
    {T : Type ℓ} (weight : T → ℕ) (bound : ℕ) (threads : ℕ → T) (k : ℕ) (new : T)
    → weight new ≡ weight (threads k)
    → total weight bound (update threads k new) ≡ total weight bound threads
total-same weight bound threads k new same =
    ground (arith, total-update_at weight threads k new bound)
