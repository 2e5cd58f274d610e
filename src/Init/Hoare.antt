-- ===== src/Init/Hoare.antt =====
-- What an operation leads to from a condition on the files: one condition when it returns, another
-- when it raises or the process dies in it.
use adaptive_harness.Prelude.{ℕ, ◌≡◌, refl, Bool, true, false, ◌⊎◌, inl, inr, Option, Error}
use adaptive_harness.Init.Io.{
  Disk, Parts, Bytes, Fate, works, fails, dies, State, Ending, returned, raised, died, Io, pure,
  ◌>>=◌, require, try_except, then_do, handled, met, effect, attempt, read_file,
}

abbrev pub Pred : Type 1
Pred = Disk → Type 0

abbrev pub Post : {A : Type 0} → (A → Pred) → Pred → Ending A × State → Type 0
Post Q E (returned a, s) = Q a s.disk
Post Q E (raised e, s) = E s.disk
Post Q E (died, s) = E s.disk

abbrev pub Triple : {A : Type 0} → Pred → Io A → (A → Pred) → Pred → Type 0
Triple P m Q E = (s : State) → P s.disk → Post Q E (m s)

pub bind :
    {A B : Type 0} (P : Pred) (m : Io A) (R : A → Pred) (next : A → Io B) (Q : B → Pred) (E : Pred)
    → Triple P m R E
    → ((a : A) → Triple (R a) (next a) Q E)
    → Triple P (m >>= next) Q E
bind {A} {B} P m R next Q E first rest s p = go (m s) (first s p)
  where
    go : (x : Ending A × State) → Post R E x → Post Q E (then_do next x)
    go (returned a, t) r = rest a t r
    go (raised e, t) r = r
    go (died, t) r = r

-- Both conditions hold when it returns; of the others, the first.
pub both :
    {A : Type 0} (P P' : Pred) (m : Io A) (Q Q' : A → Pred) (E E' : Pred)
    → Triple P m Q E
    → Triple P' m Q' E'
    → Triple (λ d. P d × P' d) m (λ a d. Q a d × Q' a d) E
both {A} P P' m Q Q' E E' h k s (p, p') = go (m s) (h s p) (k s p')
  where
    go : (x : Ending A × State) → Post Q E x → Post Q' E' x → Post (λ a d. Q a d × Q' a d) E x
    go (returned a, t) q q' = (q, q')
    go (raised e, t) q q' = q
    go (died, t) q q' = q

-- What is caught goes on from the condition of the body's exceptions.
pub catch :
    {A : Type 0} (P : Pred) (body : Io A) (handler : Error → Io A) (Q : A → Pred) (E E' : Pred)
    → Triple P body Q E
    → ((e : Error) → Triple E (handler e) Q E')
    → ((d : Disk) → E d → E' d)
    → Triple P (try_except body handler) Q E'
catch {A} P body handler Q E E' h k weaken s p = go (body s) (h s p)
  where
    go : (x : Ending A × State) → Post Q E x → Post Q E' (handled handler x)
    go (returned a, t) q = q
    go (raised e, t) q = k e t q
    go (died, t) q = weaken t.disk q

pub Post-map :
    {A : Type 0} (x : Ending A × State) (Q Q' : A → Pred) (E : Pred)
    → ((a : A) (d : Disk) → Q a d → Q' a d)
    → Post Q E x
    → Post Q' E x
Post-map (returned a, s) Q Q' E h q = h a s.disk q
Post-map (raised e, s) Q Q' E h q = q
Post-map (died, s) Q Q' E h q = q

pub Post-weaken :
    {A : Type 0} (x : Ending A × State) (Q : A → Pred) (E E' : Pred)
    → ((d : Disk) → E d → E' d)
    → Post Q E x
    → Post Q E' x
Post-weaken (returned a, s) Q E E' h q = q
Post-weaken (raised e, s) Q E E' h q = h s.disk q
Post-weaken (died, s) Q E E' h q = h s.disk q

pub require_lem :
    (P : Pred) (b : Bool) (e : Error) (E : Pred)
    → ((d : Disk) → P d → E d)
    → Triple P (require b e) (λ u d. P d × (b ≡ true)) E
require_lem P true e E weaken s p = (p, refl)
require_lem P false e E weaken s p = weaken s.disk p

-- Nothing fails, or what holds when an operation fails is enough.
abbrev pub Escape : (ℕ → Fate) → Pred → Pred → Type 0
Escape fate P E = ((n : ℕ) → fate n ≡ works) ⊎ ((d : Disk) → P d → E d)

module _ (fate : ℕ → Fate) where
  met_lem :
      {A : Type 0} (f : Fate) (a : A) (d : Disk) (s : State) (P : Pred) (Q : A → Pred) (E : Pred)
      → (f ≡ works) ⊎ ((d' : Disk) → P d' → E d')
      → P s.disk
      → Q a d
      → Post Q E (met fate f a d s)
  met_lem works a d s P Q E e p q = q
  met_lem fails a d s P Q E (inl e) p q = cc
  met_lem fails a d s P Q E (inr weaken) p q = weaken s.disk p
  met_lem dies a d s P Q E (inl e) p q = cc
  met_lem dies a d s P Q E (inr weaken) p q = weaken s.disk p

  at_clock : (P E : Pred) (n : ℕ) → Escape fate P E → (fate n ≡ works) ⊎ ((d : Disk) → P d → E d)
  at_clock P E n (inl w) = inl (w n)
  at_clock P E n (inr weaken) = inr weaken

  pub effect_lem :
      (P : Pred) (change : Disk → Disk) (Q : Unit {0} → Pred) (E : Pred)
      → Escape fate P E
      → ((d : Disk) → P d → Q tt (change d))
      → Triple P (effect fate change) Q E
  effect_lem P change Q E escape h s p =
      met_lem (fate s.clock) tt (change s.disk) s P Q E (at_clock P E s.clock escape) p (h s.disk p)

  pub read_file_lem :
      (P : Pred) (path : Parts) (Q : Option Bytes → Pred) (E : Pred)
      → Escape fate P E
      → ((d : Disk) → P d → Q (d path) d)
      → Triple P (read_file fate path) Q E
  read_file_lem P path Q E escape h s p =
      met_lem (fate s.clock) (s.disk path) s.disk s P Q E (at_clock P E s.clock escape) p
        (h s.disk p)

  -- An operation whose errors are ignored, and that keeps the condition.
  pub attempt_lem :
      (P : Pred) (change : Disk → Disk) (E : Pred)
      → Escape fate P E
      → ((d : Disk) → P d → P (change d))
      → Triple P (attempt fate change) (λ u. P) E
  attempt_lem P change E escape h s p = go (fate s.clock) (at_clock P E s.clock escape)
    where
      go :
          (f : Fate)
          → (f ≡ works) ⊎ ((d : Disk) → P d → E d)
          → Post (λ u. P) E (handled (λ e. pure tt) (met fate f tt (change s.disk) s))
      go works w = h s.disk p
      go fails w = p
      go dies (inl w) = cc
      go dies (inr weaken) = weaken s.disk p
