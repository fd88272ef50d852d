-- ===== src/Pipeline/Exec.antt =====
-- A coroutine of the request: the world it leaves, also after a raise, and its result or exception.
use api_gateways.Base.{arith, ◌≡◌, refl, ap, Bool, true, false}
use api_gateways.Errors.{DomainError, Exception, domain, Result, ok, err, ok-inj}
use api_gateways.Pipeline.World.{World}

abbrev pub Exec {ℓ} : Type ℓ → Type ℓ
Exec A = World → World × Result A

abbrev pub pure {ℓ} : {A : Type ℓ} → A → Exec A
pure a w = (w, ok a)

abbrev pub throw {ℓ} : {A : Type ℓ} → Exception → Exec A
throw e w = (w, err e)

-- A change of the world that is committed at once.
abbrev pub commit : (World → World) → Exec {0} Unit
commit f w = (f w, ok tt)

-- A value read from the world.
abbrev pub gets {ℓ} : {A : Type ℓ} → (World → A) → Exec A
gets f w = (w, ok (f w))

abbrev pub lift {ℓ} : {A : Type ℓ} → Result A → Exec A
lift r w = (w, r)

abbrev pub continue {ℓ κ} :
    {A : Type ℓ} {B : Type κ} → World × Result A → (A → Exec B) → World × Result B
continue (w, ok a) f = f a w
continue (w, err e) f = (w, err e)

infixl 5 ◌>>=◌ ◌>>◌
abbrev pub ◌>>=◌ {ℓ κ} : {A : Type ℓ} {B : Type κ} → Exec A → (A → Exec B) → Exec B
◌>>=◌ m f w = continue (m w) f

abbrev pub ◌>>◌ {ℓ κ} : {A : Type ℓ} {B : Type κ} → Exec A → Exec B → Exec B
m >> k = m >>= (λ _. k)

-- `if not b: raise e`
abbrev pub guard : Bool → DomainError → Exec {0} Unit
guard true e = pure tt
guard false e = throw (domain e)

continue-ok {ℓ κ} :
    {A : Type ℓ} {B : Type κ} (p : World × Result A) (f : A → Exec B) (b : B)
    → (continue p f).1 ≡ ok b
    → (a : A) × (p.1 ≡ ok a) × ((f a p.0).1 ≡ ok b)
continue-ok (w, ok a) f b e = (a, refl, e)
continue-ok (w, err x) f b e = absurd (ground arith)

-- A chain that gives a result went through each of its calls.
pub bind-ok {ℓ κ} :
    {A : Type ℓ} {B : Type κ} (m : Exec A) (f : A → Exec B) (w : World) (b : B)
    → ((m >>= f) w).1 ≡ ok b
    → (a : A) × ((m w).1 ≡ ok a) × ((f a (m w).0).1 ≡ ok b)
bind-ok m f w b e = continue-ok (m w) f b e

-- A chain that gives a result passed its guard.
pub guard-ok {κ} :
    {B : Type κ} (c : Bool) (x : DomainError) (rest : Exec B) (w : World) (b : B)
    → ((guard c x >> rest) w).1 ≡ ok b
    → (c ≡ true) × ((rest w).1 ≡ ok b)
guard-ok true x rest w b e = (refl, e)
guard-ok false x rest w b e = absurd (ground arith)

continue-run {ℓ κ} :
    {A : Type ℓ} {B : Type κ} (p : World × Result A) (f : A → Exec B) (a : A)
    → p.1 ≡ ok a
    → continue p f ≡ f a p.0
continue-run (w, ok x) f a e = ap (λ y. f y w) (ok-inj e)
continue-run (w, err x) f a e = absurd (ground arith)

-- A chain whose first call gives a result goes on with it.
pub bind-run {ℓ κ} :
    {A : Type ℓ} {B : Type κ} (m : Exec A) (f : A → Exec B) (w : World) (a : A)
    → (m w).1 ≡ ok a
    → (m >>= f) w ≡ f a (m w).0
bind-run m f w a e = continue-run (m w) f a e
