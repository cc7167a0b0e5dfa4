-- ===== src/Transfer/Apart.antt =====
-- Events of one connection with other events between them.
use imonitor.Base.{ℕ, ℤ, zero, suc, ◌≡◌, ◌∙◌, refl, some, List, [], ◌∷◌, ◌++◌}
use imonitor.Sys.{
  Env, Server, Connection, Reply, M, pure, ◌>>◌, Returns, Returns-bind, Returns-mono,
}
use imonitor.Aio.{submitted}
use imonitor.Main.{dispatch}
use imonitor.Transfer.Defs.{delivered, Kept}
use imonitor.Transfer.Rounds.{out_event, in_event, round, rounds}

-- From `s` to `s'` nothing of the connection at `p` with the context `ctx` has changed: neither the
-- connection itself, nor its operation, nor what it has delivered.
pub record Apart (p ctx : ℕ) (s s' : Server) : Type 0 where
  pub same_here : s'.heap p ≡ s.heap p
  pub same_op : submitted ctx s'.trace ≡ submitted ctx s.trace
  pub same_sent : (sock : ℤ) → delivered sock ctx s'.trace ≡ delivered sock ctx s.trace
  pub kept : Kept s s'

pub Apart-refl : (p ctx : ℕ) (s : Server) → Apart p ctx s s
Apart-refl p ctx s = record {
  same_here = refl;
  same_op = refl;
  same_sent = λ sock. refl;
  kept = (refl, refl, refl);
}

pub Apart-trans :
    {p ctx : ℕ} {s s1 s2 : Server} → Apart p ctx s s1 → Apart p ctx s1 s2 → Apart p ctx s s2
Apart-trans f g = record {
  same_here = g.same_here ∙ f.same_here;
  same_op = g.same_op ∙ f.same_op;
  same_sent = λ sock. g.same_sent sock ∙ f.same_sent sock;
  kept = (g.kept.0 ∙ f.kept.0, g.kept.1 ∙ f.kept.1, g.kept.2 ∙ f.kept.2);
}

-- The events `revs`, one after the other.
unfoldable pub dispatch_all : Env → List Reply → M (Unit {0})
dispatch_all env [] = pure tt
dispatch_all env (rev ∷ revs) = dispatch env rev >> dispatch_all env revs

-- The events of `k` rounds.
abbrev pub round_events : ℕ → ℕ → List Reply
round_events p zero = []
round_events p (suc k) = out_event p ∷ in_event p ∷ round_events p k

-- There is a connection at `p`, with the context `ctx`.
abbrev pub Live : ℕ → ℕ → Server → Type 0
Live p ctx s = (c : Connection) × ((s.heap p ≡ some c) × (c.ctx ≡ ctx))

module _ (env : Env) (p ctx : ℕ) where
  -- The events return one after the other and leave `P`, whatever happens before each of them that
  -- changes nothing of the connection at `p`. Before each of them the connection is there.
  abbrev pub Robust : List Reply → (Server → Type 0) → Server → Type 0
  Robust [] P s = P s
  Robust (rev ∷ revs) P s =
      Live p ctx s
      × ((s1 : Server)
          → Apart p ctx s s1
          → Returns (λ _ s2. Robust revs P s2) (dispatch env rev s1))

  module _ (P : Server → Type 0) where
    pub Robust-bind :
        (revs more : List Reply) (Q : Server → Type 0) (s : Server)
        → Robust revs P s
        → ((s1 : Server) → P s1 → Robust more Q s1)
        → Robust (revs ++ more) Q s
    Robust-bind [] more Q s h next = next s h
    Robust-bind (rev ∷ revs) more Q s (live, h) next = (
      live,
      λ s1 a.
          Returns-mono (dispatch env rev s1) _ _ (h s1 a)
            λ _ s2 rest. Robust-bind revs more Q s2 rest next,
    )

    -- With nothing between them.
    pub Robust-round :
        (revs : List Reply) (s : Server)
        → Robust (out_event p ∷ in_event p ∷ revs) P s
        → Returns (λ _. Robust revs P) (round env p s)
    unfolding round
    Robust-round revs s h =
        Returns-bind (dispatch env (out_event p) s) _ _ _ (h.1 s (Apart-refl p ctx s))
          λ _ s1 rest. rest.1 s1 (Apart-refl p ctx s1)

    pub Robust-rounds :
        (k : ℕ) (s : Server) → Robust (round_events p k) P s → Returns (λ _. P) (rounds env p k s)
    unfolding rounds
    Robust-rounds zero s h = h
    Robust-rounds (suc k) s h =
        Returns-bind (round env p s) _ _ _ (Robust-round (round_events p k) s h)
          λ _ s1 rest. Robust-rounds k s1 rest
