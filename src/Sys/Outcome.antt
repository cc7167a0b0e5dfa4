-- ===== src/Sys/Outcome.antt =====
-- What a command promises: no undefined behaviour, enough fuel, and a postcondition where it
-- returns. It may end in `exit`.

use imonitor.Base.{Option, none, some, Bool, true, false, ◌≡◌, refl}
use imonitor.Sys.Machine.{die, defined, Run, done, exit, fault, starved, M, and_then}
use imonitor.Sys.Types.{Server}

module _ {A : Type 0} where
  abbrev pub Ensures : (A → Server → Type 0) → Run A → Type 0
  Ensures P (done a s) = P a s
  Ensures P (exit s) = Unit
  Ensures P (fault s) = ⊥
  Ensures P (starved s) = ⊥

  -- The same, and the command returns.
  abbrev pub Returns : (A → Server → Type 0) → Run A → Type 0
  Returns P (done a s) = P a s
  Returns P (exit s) = ⊥
  Returns P (fault s) = ⊥
  Returns P (starved s) = ⊥

module _ {A B : Type 0} where
  pub Ensures-bind :
      (r : Run A) (k : A → M B) (P : A → Server → Type 0) (Q : B → Server → Type 0)
      → Ensures P r
      → ((a : A) (s : Server) → P a s → Ensures Q (k a s))
      → Ensures Q (and_then r k)
  Ensures-bind (done a s) k P Q p next = next a s p
  Ensures-bind (exit s) k P Q p next = tt
  Ensures-bind (fault s) k P Q p next = absurd p
  Ensures-bind (starved s) k P Q p next = absurd p

  -- The same, with the run that the first command has made.
  pub Ensures-bind_done :
      (r : Run A) (k : A → M B) (P : A → Server → Type 0) (Q : B → Server → Type 0)
      → Ensures P r
      → ((a : A) (s : Server) → r ≡ done a s → P a s → Ensures Q (k a s))
      → Ensures Q (and_then r k)
  Ensures-bind_done (done a s) k P Q p next = next a s refl p
  Ensures-bind_done (exit s) k P Q p next = tt
  Ensures-bind_done (fault s) k P Q p next = absurd p
  Ensures-bind_done (starved s) k P Q p next = absurd p

  pub Returns-bind :
      (r : Run A) (k : A → M B) (P : A → Server → Type 0) (Q : B → Server → Type 0)
      → Returns P r
      → ((a : A) (s : Server) → P a s → Returns Q (k a s))
      → Returns Q (and_then r k)
  Returns-bind (done a s) k P Q p next = next a s p
  Returns-bind (exit s) k P Q p next = absurd p
  Returns-bind (fault s) k P Q p next = absurd p
  Returns-bind (starved s) k P Q p next = absurd p

module _ {A : Type 0} where
  pub Ensures-mono :
      (r : Run A) (P : A → Server → Type 0) (Q : A → Server → Type 0)
      → Ensures P r
      → ((a : A) (s : Server) → P a s → Q a s)
      → Ensures Q r
  Ensures-mono (done a s) P Q p weaken = weaken a s p
  Ensures-mono (exit s) P Q p weaken = tt
  Ensures-mono (fault s) P Q p weaken = p
  Ensures-mono (starved s) P Q p weaken = p

  pub Returns-mono :
      (r : Run A) (P : A → Server → Type 0) (Q : A → Server → Type 0)
      → Returns P r
      → ((a : A) (s : Server) → P a s → Q a s)
      → Returns Q r
  Returns-mono (done a s) P Q p weaken = weaken a s p
  Returns-mono (exit s) P Q p weaken = p
  Returns-mono (fault s) P Q p weaken = p
  Returns-mono (starved s) P Q p weaken = p

module _ {B : Type 0} where
  -- Behind an assertion of DIE the run goes on with the fact that the assertion does not hold.
  pub Ensures-die :
      (b : Bool) (s : Server) (k : Unit {0} → M B) (Q : B → Server → Type 0)
      → (b ≡ false → Ensures Q (k tt s))
      → Ensures Q (and_then (die b s) k)
  unfolding die
  Ensures-die true s k Q next = tt
  Ensures-die false s k Q next = next refl

module _ {A : Type 0} where
  -- A command that returns never faults.
  pub Returns-Ensures : (r : Run A) (P : A → Server → Type 0) → Returns P r → Ensures P r
  Returns-Ensures (done a s) P p = p
  Returns-Ensures (exit s) P p = absurd p
  Returns-Ensures (fault s) P p = absurd p
  Returns-Ensures (starved s) P p = absurd p

pub die-Same : (b : Bool) (s : Server) → Ensures (λ _ s'. s' ≡ s) (die b s)
unfolding die
die-Same true s = tt
die-Same false s = refl

module _ {A : Type 0} where
  -- A postcondition where the command returns, whatever else it may do.
  abbrev pub Yields : (A → Server → Type 0) → Run A → Type 0
  Yields P (done a s) = P a s
  Yields P _ = Unit

  pub Yields-Ensures : (r : Run A) (P : A → Server → Type 0) → Ensures P r → Yields P r
  Yields-Ensures (done a s) P p = p
  Yields-Ensures (exit s) P p = tt
  Yields-Ensures (fault s) P p = tt
  Yields-Ensures (starved s) P p = tt

  pub Yields-mono :
      (r : Run A) (P : A → Server → Type 0) (Q : A → Server → Type 0)
      → Yields P r
      → ((a : A) (s : Server) → P a s → Q a s)
      → Yields Q r
  Yields-mono (done a s) P Q p weaken = weaken a s p
  Yields-mono (exit s) P Q p weaken = tt
  Yields-mono (fault s) P Q p weaken = tt
  Yields-mono (starved s) P Q p weaken = tt

  -- Two promises of one command.
  pub Ensures-both :
      (r : Run A) (P : A → Server → Type 0) (Q : A → Server → Type 0)
      → Ensures P r
      → Ensures Q r
      → Ensures (λ a s. P a s × Q a s) r
  Ensures-both (done a s) P Q p q = (p, q)
  Ensures-both (exit s) P Q p q = tt
  Ensures-both (fault s) P Q p q = absurd p
  Ensures-both (starved s) P Q p q = absurd p

  -- The same for a command that returns.
  pub Returns-both :
      (r : Run A) (P : A → Server → Type 0) (Q : A → Server → Type 0)
      → Returns P r
      → Yields Q r
      → Returns (λ a s. P a s × Q a s) r
  Returns-both (done a s) P Q p q = (p, q)
  Returns-both (exit s) P Q p q = absurd p
  Returns-both (fault s) P Q p q = absurd p
  Returns-both (starved s) P Q p q = absurd p

  -- The same for a family of promises.
  pub Returns-all :
      {I : Type 0} (r : Run A) (P : I → A → Server → Type 0)
      → I
      → ((i : I) → Returns (P i) r)
      → Returns (λ a s. (i : I) → P i a s) r
  Returns-all (done a s) P j h = h
  Returns-all (exit s) P j h = h j
  Returns-all (fault s) P j h = h j
  Returns-all (starved s) P j h = h j

  -- A command that promises one postcondition and yields another promises both.
  pub Ensures-Yields :
      (r : Run A) (P : A → Server → Type 0) (Q : A → Server → Type 0)
      → Ensures P r
      → Yields Q r
      → Ensures (λ a s. P a s × Q a s) r
  Ensures-Yields (done a s) P Q p q = (p, q)
  Ensures-Yields (exit s) P Q p q = tt
  Ensures-Yields (fault s) P Q p q = absurd p
  Ensures-Yields (starved s) P Q p q = absurd p

module _ {A B : Type 0} where
  pub Yields-bind :
      (r : Run A) (k : A → M B) (P : A → Server → Type 0) (Q : B → Server → Type 0)
      → Yields P r
      → ((a : A) (s : Server) → P a s → Yields Q (k a s))
      → Yields Q (and_then r k)
  Yields-bind (done a s) k P Q p next = next a s p
  Yields-bind (exit s) k P Q p next = tt
  Yields-bind (fault s) k P Q p next = tt
  Yields-bind (starved s) k P Q p next = tt

  -- Behind a result that may be undefined behaviour the run goes on with the result.
  pub Yields-defined :
      (o : Option A) (s : Server) (k : A → M B) (Q : B → Server → Type 0)
      → ((a : A) → o ≡ some a → Yields Q (k a s))
      → Yields Q (and_then (defined o s) k)
  unfolding defined
  Yields-defined none s k Q next = tt
  Yields-defined (some a) s k Q next = next a refl

module _ {B : Type 0} where
  pub Yields-die :
      (b : Bool) (s : Server) (k : Unit {0} → M B) (Q : B → Server → Type 0)
      → (b ≡ false → Yields Q (k tt s))
      → Yields Q (and_then (die b s) k)
  unfolding die
  Yields-die true s k Q next = tt
  Yields-die false s k Q next = next refl

-- The run ends in undefined behaviour.
abbrev pub Faults : {A : Type 0} → Run A → Type 0
Faults r = (s : Server) × (r ≡ fault s)

pub Faults-bind :
    {A B : Type 0} (r : Run A) (k : A → M B) (P : A → Server → Type 0)
    → Returns P r
    → ((a : A) (s : Server) → P a s → Faults (k a s))
    → Faults (and_then r k)
Faults-bind (done a s) k P p next = next a s p
Faults-bind (exit s) k P p next = absurd p
Faults-bind (fault s) k P p next = absurd p
Faults-bind (starved s) k P p next = absurd p
