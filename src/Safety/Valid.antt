-- ===== src/Safety/Valid.antt =====
-- The invariant of the server between two events, and what is assumed of the system around it.
use imonitor.Base.{
  ℕ, ℤ, ◌≡◌, ◌≢◌, ◌≤◌, refl, sym, ◌∙◌, true, false, Option, none, some, Bytes, arith, ◌==◌, length,
  drop, replicate, Bool-cases, ◌⊎◌, inl, inr,
}
use mathlib.Core.Option.{some-injective}
use imonitor.Sys.{
  Env, Server, Call, called, Connection, Trace, IoOp, pread, pwrite, c_string, state_new_conn,
  state_data_received,
}
use imonitor.Aio.{submitted}
use imonitor.Transfer.Defs.{delivered}
use imonitor.Safety.Frame.{alive, Frame, is_aio, submitted-called, alive-called, delivered-called}
use imonitor.Safety.Contained.{contained, contained-called}

-- A read that was submitted for the connection at `p` fills that connection's buffer, and a write takes
-- no more than that holds.
abbrev pub Own : (size p : ℕ) → Option IoOp → Type 0
Own size p (some (pread fd buf count offset)) = (buf ≡ p) × (count ≤ size)
Own size p (some (pwrite fd text count offset)) = length text ≤ size
Own size p _ = Unit

-- What holds of a connection at `p` between two events.
pub record Sound (env : Env) (p : ℕ) (c : Connection) (t : Trace) : Type 0 where
  pub recv_size : length c.recv_buffer ≡ env.bufsiz
  pub send_size : length c.send_buffer ≡ env.bufsiz
  pub cleared : c.state ≡ state_new_conn → c.recv_buffer ≡ replicate env.bufsiz 0
  pub named :
      c.state ≡ state_data_received
      → (name : Bytes) × (c_string (drop 1 c.request_path) ≡ some name)
  pub own : Own env.bufsiz p (submitted c.ctx t)
  pub open_context : alive c.ctx t ≡ true

-- Between two events the arrays have their sizes, every connection is sound, and no two connections
-- share a context.
pub record Valid (env : Env) (s : Server) : Type 0 where
  pub path_size : length s.request_path ≡ env.bufsiz
  pub sound : (p : ℕ) (c : Connection) → s.heap p ≡ some c → Sound env p c s.trace
  pub apart :
      (p q : ℕ) (c d : Connection) → s.heap p ≡ some c → s.heap q ≡ some d → c.ctx ≡ d.ctx → p ≡ q

-- A connection is sound behind calls that leave its context alone.
Sound-trace :
    {env : Env} {p : ℕ} {c : Connection} {t t' : Trace}
    → Sound env p c t
    → submitted c.ctx t' ≡ submitted c.ctx t
    → alive c.ctx t' ≡ alive c.ctx t
    → Sound env p c t'
Sound-trace h op context = record {
  recv_size = h.recv_size;
  send_size = h.send_size;
  cleared = h.cleared;
  named = h.named;
  own = rw op h.own;
  open_context = context ∙ h.open_context;
}

pub same_address : (p q : ℕ) → (q ≡ p) ⊎ (q ≢ p)
same_address p q = elim (Bool-cases (q == p)) [
  | inl e ↦ inl (ground arith)
  | inr e ↦ inr (ground arith)
]

-- A step that changes one connection, and whose context no other connection has, keeps the
-- invariant if that connection is sound behind it.
module _ {env : Env} {s s' : Server} (v : Valid env s) (p k : ℕ) (f : Frame p k s s')
    (key : (q : ℕ) (c : Connection) → q ≢ p → s.heap q ≡ some c → c.ctx ≢ k)
    (here : (c : Connection) → s'.heap p ≡ some c → Sound env p c s'.trace × (c.ctx ≡ k)) where
  Frame-Sound : (q : ℕ) (c : Connection) → s'.heap q ≡ some c → Sound env q c s'.trace
  Frame-Sound q c h = elim (same_address p q) [
    | inl e ↦ rw e ((here c (rw e at h)).0)
    | inr other ↦
        let old = sym (f.others q other) ∙ h in
        Sound-trace (v.sound q c old) (f.ops c.ctx (key q c other old))
          (f.contexts c.ctx (key q c other old))
  ]

  apart_again :
      (q r : ℕ) (c d : Connection) → s'.heap q ≡ some c → s'.heap r ≡ some d → c.ctx ≡ d.ctx → q ≡ r
  apart_again q r c d h i e = elim (same_address p q) [
    | inl a ↦ elim (same_address p r) [
      | inl b ↦ a ∙ sym b
      | inr b ↦ absurd (key r d b (sym (f.others r b) ∙ i) (sym e ∙ (here c (rw a at h)).1))
    ]
    | inr a ↦ elim (same_address p r) [
      | inl b ↦ absurd (key q c a (sym (f.others q a) ∙ h) (e ∙ (here d (rw b at i)).1))
      | inr b ↦ v.apart q r c d (sym (f.others q a) ∙ h) (sym (f.others r b) ∙ i) e
    ]
  ]

  pub Valid-frame : length s'.request_path ≡ env.bufsiz → Valid env s'
  Valid-frame path_size = record { path_size = path_size; sound = Frame-Sound; apart = apart_again }

-- No other connection has the context of the connection at `p`.
pub own_context :
    {env : Env} {s : Server} (v : Valid env s) {p : ℕ} {c : Connection}
    → s.heap p ≡ some c
    → (q : ℕ) (d : Connection) → q ≢ p
    → s.heap q ≡ some d
    → d.ctx ≢ c.ctx
own_context v {p} {c} h q d other i e = other (v.apart q p d c i h e)

-- The connection at `p` is another, with the same context, and sound.
pub Valid-changed :
    {env : Env} {s s' : Server} {p : ℕ} {c c' : Connection}
    → Valid env s
    → s.heap p ≡ some c
    → Frame p c.ctx s s'
    → length s'.request_path ≡ env.bufsiz
    → s'.heap p ≡ some c'
    → c'.ctx ≡ c.ctx
    → Sound env p c' s'.trace
    → Valid env s'
Valid-changed {env} {s} {s'} {p} {c} {c'} v h f size h' same sound' =
    Valid-frame v p c.ctx f (own_context v h)
      (λ d e. let eq : d ≡ c' = some-injective d c' (sym e ∙ h') in rw eq (sound', same)) size

-- The connection at `p` is freed.
pub Valid-freed :
    {env : Env} {s s' : Server} {p : ℕ} {c : Connection}
    → Valid env s
    → s.heap p ≡ some c
    → Frame p c.ctx s s'
    → length s'.request_path ≡ env.bufsiz
    → s'.heap p ≡ none
    → Valid env s'
Valid-freed {p} {c} v h f size gone =
    Valid-frame v p c.ctx f (own_context v h) (λ d e. absurd (ground arith)) size

-- From `s` to `s'` only the descriptors and the trace change, and no operation is submitted or
-- finished, and no context is made or ended.
pub record Mute (s s' : Server) : Type 0 where
  pub same_heap : s'.heap ≡ s.heap
  pub same_path : s'.request_path ≡ s.request_path
  pub ops : (k : ℕ) → submitted k s'.trace ≡ submitted k s.trace
  pub contexts : (k : ℕ) → alive k s'.trace ≡ alive k s.trace
  pub sent : (sock : ℤ) (k : ℕ) → delivered sock k s'.trace ≡ delivered sock k s.trace
  pub same_contained : contained s'.trace ≡ contained s.trace

pub Mute-called : (env : Env) (c : Call) (s : Server) → is_aio c ≡ false → Mute s (called env c s)
Mute-called env c s h = record {
  same_heap = refl;
  same_path = refl;
  ops = λ k. submitted-called env c s k h;
  contexts = λ k. alive-called env c s k h;
  sent = λ sock k. delivered-called env c s sock k h;
  same_contained = contained-called env c s h;
}

pub Mute-refl : (s : Server) → Mute s s
Mute-refl s = record {
  same_heap = refl;
  same_path = refl;
  ops = λ k. refl;
  contexts = λ k. refl;
  sent = λ sock k. refl;
  same_contained = refl;
}

pub Mute-trans : {s s1 s2 : Server} → Mute s s1 → Mute s1 s2 → Mute s s2
Mute-trans f g = record {
  same_heap = g.same_heap ∙ f.same_heap;
  same_path = g.same_path ∙ f.same_path;
  ops = λ k. g.ops k ∙ f.ops k;
  contexts = λ k. g.contexts k ∙ f.contexts k;
  sent = λ sock k. g.sent sock k ∙ f.sent sock k;
  same_contained = g.same_contained ∙ f.same_contained;
}

pub Valid-Mute : {env : Env} {s s' : Server} → Valid env s → Mute s s' → Valid env s'
Valid-Mute v m = record {
  path_size = rw m.same_path v.path_size;
  sound = λ p c h. Sound-trace (v.sound p c (rw m.same_heap at h)) (m.ops c.ctx) (m.contexts c.ctx);
  apart = λ p q c d h i e. v.apart p q c d (rw m.same_heap at h) (rw m.same_heap at i) e;
}
