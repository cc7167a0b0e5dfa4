-- ===== src/Tests/Answers.antt =====
-- Answers of the server to one request.
use imonitor.Base.{
  ℕ, suc, ◌*◌, ◌≡◌, ◌≢◌, refl, none, some, [], ◌++◌, Bytes, codes, ℤ, pos, negsuc, arith, length,
}
use imonitor.Sys.{Returns}
use imonitor.Utils.{header200, header404}
use imonitor.Utils.Headers.{announced, body_of}
use imonitor.Transfer.Defs.{delivered, Honest}
use imonitor.Transfer.Rounds.{Reading}
use imonitor.Transfer.Start.{Stored}
use imonitor.Transfer.Complete.{Finished, blocks}
use imonitor.Transfer.Serve.{
  Asked, answer, answer-found, answer-client, answer-missing_closes, answer-missing_stays,
}
use imonitor.Transfer.Grown.{answer-grown}
use imonitor.Tests.{asking, small_env, one_connection}

abbrev text : Bytes
text = codes "hello"

pub small_env-Honest :
    (found : ℤ) (size : ℕ) (content : Bytes) → Honest (small_env found size content) (pos 9) content
small_env-Honest found size content = record {
  ctl_ok = λ t ep op fd ev. refl;
  submit_ok = λ t ctx b. refl;
  malloc_ok = λ t. refl;
  getevents_ok = λ t ctx. refl;
  read_bytes = λ t ctx buf count offset h. rw h;
  read_res = λ t ctx buf count offset h. rw h;
  write_res = λ t ctx fd text count offset h. rw h;
}

small_env-Stored :
    (old new : Bytes) → Stored (small_env (pos 0) (length old) new) (codes "a") (pos 9) old
small_env-Stored old new = record {
  found = λ t. refl;
  opens = λ t. refl;
  valid = refl;
  ends = λ t. refl;
  rewinds = λ t. refl;
}

asking-Asked :
    (found : ℤ) (size : ℕ) (content : Bytes) (dimension : ℕ)
    → Asked
        (small_env found size content)
        5
        (asking dimension)
        (codes "a")
        (one_connection (asking dimension))
unfolding delivered
asking-Asked found size content dimension = record {
  ordinary = record { not_listener = refl; not_inotify = refl };
  live = refl;
  state = refl;
  named = refl;
  fits = refl;
  fresh = refl;
  silent = refl;
}

answer-found_example :
    Returns
      (λ _. Finished 5 2 (pos 7) (header200 (pos 5) ++ text))
      (answer
        (small_env (pos 0) 5 text)
        5
        (suc (2 * blocks (small_env (pos 0) 5 text) text))
        (one_connection (asking 0)))
answer-found_example =
    answer-found (small_env (pos 0) 5 text) (small_env-Honest (pos 0) 5 text)
      (small_env-Stored text text) (omega arith) (omega arith) 5 (asking 0)
      (one_connection (asking 0)) (asking-Asked (pos 0) 5 text 0)

answer-client_example :
    Returns
      (λ _ s'.
        (announced (delivered (pos 7) 2 s'.trace) ≡ some 5)
        × (body_of (delivered (pos 7) 2 s'.trace) ≡ some text))
      (answer
        (small_env (pos 0) 5 text)
        5
        (suc (2 * blocks (small_env (pos 0) 5 text) text))
        (one_connection (asking 0)))
answer-client_example =
    answer-client (small_env (pos 0) 5 text) (small_env-Honest (pos 0) 5 text)
      (small_env-Stored text text) (omega arith) (omega arith) 5 (asking 0)
      (one_connection (asking 0)) (asking-Asked (pos 0) 5 text 0)

answer-missing_closes_example :
    Returns
      (λ _. Finished 5 2 (pos 7) header404)
      (answer (small_env (negsuc 0) 0 []) 5 1 (one_connection (asking 0)))
answer-missing_closes_example =
    answer-missing_closes (small_env (negsuc 0) 0 []) (λ t. refl) 5 (asking 0)
      (small_env-Honest (negsuc 0) 0 []) (omega arith) (one_connection (asking 0))
      (asking-Asked (negsuc 0) 0 [] 0) refl

answer-missing_stays_example :
    Returns
      (λ _. Reading (small_env (negsuc 0) 0 []) 5 2 (pos 7) (pos 9) 77 0 header404)
      (answer (small_env (negsuc 0) 0 []) 5 1 (one_connection (asking 77)))
answer-missing_stays_example =
    answer-missing_stays (small_env (negsuc 0) 0 []) (λ t. refl) 5 (asking 77)
      (small_env-Honest (negsuc 0) 0 []) (omega arith) (one_connection (asking 77))
      (asking-Asked (negsuc 0) 0 [] 77) (omega arith)

answer-grown_example :
    Returns
      (λ _ s'. s'.heap 5 ≢ none)
      (answer (small_env (pos 0) 5 (codes "hello!")) 5 100 (one_connection (asking 0)))
answer-grown_example =
    answer-grown (small_env (pos 0) 5 (codes "hello!")) (small_env-Stored text (codes "hello!"))
      (small_env-Honest (pos 0) 5 (codes "hello!")) (omega arith) (omega arith) (omega arith)
      (omega arith) 5 (asking 0) (one_connection (asking 0))
      (asking-Asked (pos 0) 5 (codes "hello!") 0) 100
