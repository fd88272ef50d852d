-- ===== src/Pipeline/Lifecycle/Keeps.antt =====
-- Coroutines of ai_request_service.py that keep a property of the tables, also when they raise.
use api_gateways.Base.{Bool, true, false, if◌then◌else◌}
use api_gateways.Errors.{DomainError, Result, ok, err}
use api_gateways.Pipeline.World.{World}
use api_gateways.Pipeline.Exec.{Exec, continue, ◌>>=◌, ◌>>◌, guard}

module _ (P : World → Type 0) where
  abbrev pub Keeps {ℓ} : {A : Type ℓ} → Exec A → Type 0
  Keeps m = (w : World) → P w → P (m w).0

  continue-Keeps {ℓ κ} :
      {A : Type ℓ} {B : Type κ} (p : World × Result A) (f : A → Exec B)
      → P p.0
      → ((a : A) → Keeps (f a))
      → P (continue p f).0
  continue-Keeps (w, ok a) f h k = k a w h
  continue-Keeps (w, err e) f h k = h

  -- A chain keeps what its parts keep.
  pub bind-Keeps {ℓ κ} :
      {A : Type ℓ} {B : Type κ} (m : Exec A) (f : A → Exec B)
      → Keeps m
      → ((a : A) → Keeps (f a))
      → Keeps (m >>= f)
  bind-Keeps m f h k w p = continue-Keeps (m w) f (h w p) k

  pub then-Keeps {ℓ κ} :
      {A : Type ℓ} {B : Type κ} (m : Exec A) (k : Exec B) → Keeps m → Keeps k → Keeps (m >> k)
  then-Keeps m k h g = bind-Keeps m (λ _. k) h (λ _. g)

  pub guard-Keeps : (b : Bool) (e : DomainError) → Keeps (guard b e)
  guard-Keeps true e w h = h
  guard-Keeps false e w h = h

  pub if-Keeps {ℓ} :
      {A : Type ℓ} (b : Bool) (m n : Exec A) → Keeps m → Keeps n → Keeps (if b then m else n)
  if-Keeps true m n h k = h
  if-Keeps false m n h k = k
