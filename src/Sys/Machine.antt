-- ===== src/Sys/Machine.antt =====
-- Commands: a run over the server's state that ends in a result, in `exit`, in undefined
-- behaviour, or for want of fuel.
use imonitor.Base.{◌≡◌, refl, arith, false, ℕ, Bool, Option, none, some, ◌∷◌, if◌then◌else◌}
use imonitor.Sys.Calls.{Call, Reply}
use imonitor.Sys.Types.{Connection, Server, Env, update}

pub data Run (A : Type 0) : Type 0 where
  done : A → Server → Run A
  exit : Server → Run A
  fault : Server → Run A
  starved : Server → Run A

abbrev pub M : Type 0 → Type 0
M A = Server → Run A

abbrev pub pure : {A : Type 0} → A → M A
pure a s = done a s

module _ {A B : Type 0} where
  abbrev pub and_then : Run A → (A → M B) → Run B
  and_then (done a s) k = k a s
  and_then (exit s) k = exit s
  and_then (fault s) k = fault s
  and_then (starved s) k = starved s

  infixl 5 ◌>>=◌ ◌>>◌
  abbrev pub ◌>>=◌ : M A → (A → M B) → M B
  m >>= k = λ s. and_then (m s) k

  abbrev pub ◌>>◌ : M A → M B → M B
  m >> n = m >>= λ _. n

-- `exit(EXIT_FAILURE)` with the state at that moment.
abbrev pub halt : {A : Type 0} → M A
halt s = exit s

abbrev pub undefined : {A : Type 0} → M A
undefined s = fault s

-- The macro DIE of util.h: report and exit if the assertion holds.
unfoldable pub die : Bool → M (Unit {0})
die assertion = if assertion then halt else pure tt

abbrev pub get : M Server
get s = done s s

abbrev pub modify : (Server → Server) → M (Unit {0})
modify f s = done tt (f s)

-- A result that may be undefined behaviour.
unfoldable pub defined : {A : Type 0} → Option A → M A
defined none = undefined
defined (some a) = pure a

-- `*p`, for a pointer to a connection.
unfoldable pub load : ℕ → M Connection
load p s = elim (s.heap p) [ none ↦ fault s | some c ↦ done c s ]

-- A load through a live pointer.
pub load-some : (p : ℕ) (s : Server) {c : Connection} → s.heap p ≡ some c → load p s ≡ done c s
unfolding load
load-some p s h = ground arith

-- An assertion of DIE that does not hold.
pub die-pass : (b : Bool) (s : Server) → b ≡ false → die b s ≡ done tt s
unfolding die
die-pass b s h = ground arith

pub die-false : (s : Server) → die false s ≡ done tt s
unfolding die
die-false s = refl

pub defined-some :
    {A : Type 0} (o : Option A) (s : Server) {a : A} → o ≡ some a → defined o s ≡ done a s
unfolding defined
defined-some o s h = rw h

-- Writes through a pointer whose connection was loaded before.
abbrev pub store : ℕ → Connection → M (Unit {0})
store p c s = done tt (record s { heap = update s.heap p (some c) })

-- The state behind a call that leaves the program.
abbrev pub called : Env → Call → Server → Server
called env c s = record s { trace = (c, env.reply s.trace c) ∷ s.trace }

-- The call.
abbrev pub sys : Env → Call → M Reply
sys env c s = done (env.reply s.trace c) (called env c s)
