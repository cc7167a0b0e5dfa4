-- ===== src/Safety/Frame.antt =====
-- What a command leaves as it was: the other connections, the contexts of the other connections, and
-- the descriptors that the loop compares with.
use imonitor.Base.{
  Option, ℕ, ℤ, ◌≡◌, ◌≢◌, refl, ◌∙◌, Bool, true, false, [], ◌∷◌, arith, ◌==◌, if◌then◌else◌,
}
use imonitor.Sys.{
  Env, Server, Connection, update, Trace, Call, io_setup, io_destroy, io_submit, io_getevents,
  called, write,
}
use imonitor.Aio.{submitted}
use imonitor.Logfile.Line.{written}
use imonitor.Transfer.Defs.{delivered}

-- The contexts that `io_setup` has returned and `io_destroy` has not ended.
unfoldable pub alive : ℕ → Trace → Bool
alive ctx [] = false
alive ctx ((io_setup, r) ∷ t) = if r.word == ctx then true else alive ctx t
alive ctx ((io_destroy k, r) ∷ t) = if k == ctx then false else alive ctx t
alive ctx (e ∷ t) = alive ctx t

-- From `s` to `s'` nothing changes but the connection at `p`, the context `ctx`, the global path and
-- the trace; nothing is written to a file.
pub record Frame (p ctx : ℕ) (s s' : Server) : Type 0 where
  pub others : (q : ℕ) → q ≢ p → s'.heap q ≡ s.heap q
  pub ops : (k : ℕ) → k ≢ ctx → submitted k s'.trace ≡ submitted k s.trace
  pub contexts : (k : ℕ) → k ≢ ctx → alive k s'.trace ≡ alive k s.trace
  pub sent : (sock : ℤ) (k : ℕ) → k ≢ ctx → delivered sock k s'.trace ≡ delivered sock k s.trace
  pub unlogged : (fd : ℤ) → written fd s'.trace ≡ written fd s.trace
  pub kept_logfd : s'.logfd ≡ s.logfd
  pub kept_listenfd : s'.listenfd ≡ s.listenfd
  pub kept_inotifyfd : s'.inotifyfd ≡ s.inotifyfd
  pub kept_epollfd : s'.epollfd ≡ s.epollfd

pub Frame-refl : (p ctx : ℕ) (s : Server) → Frame p ctx s s
Frame-refl p ctx s = record {
  others = λ q h. refl;
  ops = λ k h. refl;
  contexts = λ k h. refl;
  sent = λ sock k h. refl;
  unlogged = λ fd. refl;
  kept_logfd = refl;
  kept_listenfd = refl;
  kept_inotifyfd = refl;
  kept_epollfd = refl;
}

pub Frame-trans :
    {p ctx : ℕ} {s s1 s2 : Server} → Frame p ctx s s1 → Frame p ctx s1 s2 → Frame p ctx s s2
Frame-trans f g = record {
  others = λ q h. g.others q h ∙ f.others q h;
  ops = λ k h. g.ops k h ∙ f.ops k h;
  contexts = λ k h. g.contexts k h ∙ f.contexts k h;
  sent = λ sock k h. g.sent sock k h ∙ f.sent sock k h;
  unlogged = λ fd. g.unlogged fd ∙ f.unlogged fd;
  kept_logfd = g.kept_logfd ∙ f.kept_logfd;
  kept_listenfd = g.kept_listenfd ∙ f.kept_listenfd;
  kept_inotifyfd = g.kept_inotifyfd ∙ f.kept_inotifyfd;
  kept_epollfd = g.kept_epollfd ∙ f.kept_epollfd;
}

-- A call that is none of the four that a context goes through.
abbrev pub is_aio : Call → Bool
is_aio (io_submit ctx b) = true
is_aio io_setup = true
is_aio (io_destroy ctx) = true
is_aio (io_getevents ctx) = true
is_aio c = false

pub submitted-called :
    (env : Env) (c : Call) (s : Server) (k : ℕ)
    → is_aio c ≡ false
    → submitted k (called env c s).trace ≡ submitted k s.trace
unfolding submitted
submitted-called env c s k h = ground arith

pub alive-called :
    (env : Env) (c : Call) (s : Server) (k : ℕ)
    → is_aio c ≡ false
    → alive k (called env c s).trace ≡ alive k s.trace
unfolding alive
alive-called env c s k h = ground arith

pub delivered-called :
    (env : Env) (c : Call) (s : Server) (sock : ℤ) (k : ℕ)
    → is_aio c ≡ false
    → delivered sock k (called env c s).trace ≡ delivered sock k s.trace
unfolding delivered
delivered-called env c s sock k h = ground arith

-- A call that is none of these and does not write to a file.
abbrev pub is_traced : Call → Bool
is_traced (write fd text) = true
is_traced c = is_aio c

pub untraced : (c : Call) → is_traced c ≡ false → is_aio c ≡ false
untraced c h = ground arith

written-called :
    (env : Env) (c : Call) (s : Server) (fd : ℤ)
    → is_traced c ≡ false
    → written fd (called env c s).trace ≡ written fd s.trace
unfolding written
written-called env c s fd h = ground arith

pub Frame-called :
    (env : Env) (c : Call) (s : Server) (p ctx : ℕ)
    → is_traced c ≡ false
    → Frame p ctx s (called env c s)
Frame-called env c s p ctx h = record {
  others = λ q e. refl;
  ops = λ k e. submitted-called env c s k (untraced c h);
  contexts = λ k e. alive-called env c s k (untraced c h);
  sent = λ sock k e. delivered-called env c s sock k (untraced c h);
  unlogged = λ fd. written-called env c s fd h;
  kept_logfd = refl;
  kept_listenfd = refl;
  kept_inotifyfd = refl;
  kept_epollfd = refl;
}

pub Frame-store :
    (s : Server) (p ctx : ℕ) (x : Option Connection)
    → Frame p ctx s (record s { heap = update s.heap p x })
Frame-store s p ctx x = record {
  others = λ q e. ground arith;
  ops = λ k e. refl;
  contexts = λ k e. refl;
  sent = λ sock k e. refl;
  unlogged = λ fd. refl;
  kept_logfd = refl;
  kept_listenfd = refl;
  kept_inotifyfd = refl;
  kept_epollfd = refl;
}

-- From `s` to `s'` no operation is submitted, no context is made or ended, and nothing else changes
-- but the connection at `p`, what `ctx` has delivered, and the trace.
pub record Quiet (p ctx : ℕ) (s s' : Server) : Type 0 where
  pub others : (q : ℕ) → q ≢ p → s'.heap q ≡ s.heap q
  pub ops : (k : ℕ) → submitted k s'.trace ≡ submitted k s.trace
  pub contexts : (k : ℕ) → alive k s'.trace ≡ alive k s.trace
  pub sent : (sock : ℤ) (k : ℕ) → k ≢ ctx → delivered sock k s'.trace ≡ delivered sock k s.trace
  pub same_path : s'.request_path ≡ s.request_path
  pub unlogged : (fd : ℤ) → written fd s'.trace ≡ written fd s.trace
  pub kept_logfd : s'.logfd ≡ s.logfd
  pub kept_listenfd : s'.listenfd ≡ s.listenfd
  pub kept_inotifyfd : s'.inotifyfd ≡ s.inotifyfd
  pub kept_epollfd : s'.epollfd ≡ s.epollfd

pub Quiet-refl : (p ctx : ℕ) (s : Server) → Quiet p ctx s s
Quiet-refl p ctx s = record {
  others = λ q h. refl;
  ops = λ k. refl;
  contexts = λ k. refl;
  sent = λ sock k h. refl;
  same_path = refl;
  unlogged = λ fd. refl;
  kept_logfd = refl;
  kept_listenfd = refl;
  kept_inotifyfd = refl;
  kept_epollfd = refl;
}

pub Quiet-trans :
    {p ctx : ℕ} {s s1 s2 : Server} → Quiet p ctx s s1 → Quiet p ctx s1 s2 → Quiet p ctx s s2
Quiet-trans f g = record {
  others = λ q h. g.others q h ∙ f.others q h;
  ops = λ k. g.ops k ∙ f.ops k;
  contexts = λ k. g.contexts k ∙ f.contexts k;
  sent = λ sock k h. g.sent sock k h ∙ f.sent sock k h;
  same_path = g.same_path ∙ f.same_path;
  unlogged = λ fd. g.unlogged fd ∙ f.unlogged fd;
  kept_logfd = g.kept_logfd ∙ f.kept_logfd;
  kept_listenfd = g.kept_listenfd ∙ f.kept_listenfd;
  kept_inotifyfd = g.kept_inotifyfd ∙ f.kept_inotifyfd;
  kept_epollfd = g.kept_epollfd ∙ f.kept_epollfd;
}

pub Frame-Quiet : {p ctx : ℕ} {s s' : Server} → Quiet p ctx s s' → Frame p ctx s s'
Frame-Quiet f = record {
  others = f.others;
  ops = λ k h. f.ops k;
  contexts = λ k h. f.contexts k;
  sent = f.sent;
  unlogged = f.unlogged;
  kept_logfd = f.kept_logfd;
  kept_listenfd = f.kept_listenfd;
  kept_inotifyfd = f.kept_inotifyfd;
  kept_epollfd = f.kept_epollfd;
}

pub Quiet-called :
    (env : Env) (c : Call) (s : Server) (p ctx : ℕ)
    → is_traced c ≡ false
    → Quiet p ctx s (called env c s)
Quiet-called env c s p ctx h = record {
  others = λ q e. refl;
  ops = λ k. submitted-called env c s k (untraced c h);
  contexts = λ k. alive-called env c s k (untraced c h);
  sent = λ sock k e. delivered-called env c s sock k (untraced c h);
  same_path = refl;
  unlogged = λ fd. written-called env c s fd h;
  kept_logfd = refl;
  kept_listenfd = refl;
  kept_inotifyfd = refl;
  kept_epollfd = refl;
}

pub Quiet-store :
    (s : Server) (p ctx : ℕ) (x : Option Connection)
    → Quiet p ctx s (record s { heap = update s.heap p x })
Quiet-store s p ctx x = record {
  others = λ q e. ground arith;
  ops = λ k. refl;
  contexts = λ k. refl;
  sent = λ sock k h. refl;
  same_path = refl;
  unlogged = λ fd. refl;
  kept_logfd = refl;
  kept_listenfd = refl;
  kept_inotifyfd = refl;
  kept_epollfd = refl;
}

-- The completion of an operation of the context.
pub Quiet-getevents :
    (env : Env) (s : Server) (p ctx : ℕ) → Quiet p ctx s (called env (io_getevents ctx) s)
unfolding submitted alive delivered written
Quiet-getevents env s p ctx = record {
  others = λ q e. refl;
  ops = λ k. refl;
  contexts = λ k. refl;
  sent = λ sock k h. ground arith;
  same_path = refl;
  unlogged = λ fd. refl;
  kept_logfd = refl;
  kept_listenfd = refl;
  kept_inotifyfd = refl;
  kept_epollfd = refl;
}
