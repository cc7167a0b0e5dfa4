-- ===== src/Transfer/Visit.antt =====
-- A whole visit of a client: its connection, its request and the answer, through the loop's dispatch.
use imonitor.Base.{ℕ, suc, ◌*◌, ◌<◌, ◌≤◌, ◌≡◌, true, some, ◌++◌, [], Bytes, ℤ, pos, ◌==ℤ◌, length}
use imonitor.Sys.{
  Env, Server, Connection, Trace, Reply, accept, malloc_connection, Returns, Returns-bind,
  Returns-mono, M, ◌>>◌,
}
use imonitor.Utils.{header200}
use imonitor.WEpoll.{fd_of}
use imonitor.Handlers.{handle_new_connection}
use imonitor.Main.{dispatch}
use imonitor.Request.Failure.{PeerKnown}
use imonitor.Request.Segments.{Segments}
use imonitor.Transfer.Defs.{Honest}
use imonitor.Transfer.Rounds.{in_event, Ordinary, Ordinary-Kept}
use imonitor.Transfer.Start.{Stored}
use imonitor.Transfer.Fresh.{Accepts, handle_new_connection-Opened}
use imonitor.Transfer.Complete.{Finished, blocks}
use imonitor.Transfer.Serve.{answer, answer-found}
use imonitor.Transfer.Session.{Request, dispatch-Asked}

-- The event that the listening socket can be read.
pub record Connecting (s : Server) (rev : Reply) : Type 0 where
  pub listener : (fd_of rev.word ==ℤ s.listenfd) ≡ true
  pub input : rev.mask.epollin ≡ true

-- The events of the connection at `p`: its request, and the `k` rounds of the answer.
unfoldable pub visit : Env → ℕ → ℕ → M (Unit {0})
visit env p k = dispatch env (in_event p) >> answer env p k

-- The client at the socket `sock` has an address, and its request arrives in segments.
pub record Client (env : Env) (sock : ℤ) (whole : Bytes) (last : ℕ) : Type 0 where
  pub known : PeerKnown env sock
  pub arrives : (t : Trace) → Segments env sock whole last t []

-- A whole visit, on a system where no call fails and every write is whole, with a buffer of 109
-- bytes at least and below 2 GB and a file below 2 GB, where `malloc` gives no address that is
-- taken for one of the two descriptors that the loop compares with. A connection comes in at the
-- listening socket, its client's address is known, and its request arrives: a string shorter than
-- the buffer, with one URL, the path of the file behind a `/`, in segments behind which the loop's
-- test asks for more, except behind the last. Then the server stores a connection for the accepted
-- socket, and after the event that its request can be read, the event that starts the answer, and
-- one round for the header and two for each block of the file, that connection has delivered to
-- the accepted socket the 200 header and the whole file, in this order and nothing else, and is
-- freed.
pub visit-found :
    (env : Env) {path : Bytes} {file : ℤ} {content whole : Bytes} {last : ℕ}
    → Honest env file content
    → Stored env path file content
    → Request env whole path
    → 109 ≤ env.bufsiz
    → env.bufsiz < 0x8000_0000
    → length content < 0x8000_0000
    → (s : Server) (rev : Reply) → Connecting s rev
    → Accepts env s.listenfd
    → Client env (env.reply s.trace (accept s.listenfd)).rc whole last
    → ((t : Trace) → Ordinary (env.reply t malloc_connection).word s)
    → Returns
        (λ _ s1.
          (p : ℕ) × ((c : Connection) × ((s1.heap p ≡ some c)
              × ((c.sockfd ≡ (env.reply s.trace (accept s.listenfd)).rc)
                  × Returns
                      (λ _. Finished p c.ctx c.sockfd (header200 (pos (length content)) ++ content))
                      (visit env p (suc (2 * blocks env content)) s1)))))
        (dispatch env rev s)
unfolding dispatch visit
visit-found env {content} {last} honest stored request room int_sized small s rev connecting accepts
      client ordinary =
    rw (connecting.listener, connecting.input)
      (Returns-mono (handle_new_connection env s) _ _ (handle_new_connection-Opened env s accepts)
        λ _ s1 o.
          let sock = o.fresh.socket_kept in
          (
            o.p,
            (
              o.c,
              (
                o.live,
                (
                  sock,
                  Returns-bind (dispatch env (in_event o.p) s1) _ _ _
                      (dispatch-Asked env int_sized request o.p o.c last s1 _
                        (Ordinary-Kept {s = s} (rw o.from_malloc.1 (ordinary o.from_malloc.0))
                          o.kept)
                        o.live o.fresh o.silent (rw sock client.known) (rw sock (client.arrives _))
                        honest.ctl_ok)
                      λ _ s2 asked. answer-found env honest stored room small o.p _ s2 asked,
                ),
              ),
            ),
          ))
