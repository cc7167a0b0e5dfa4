-- ===== src/Tests/Journal.antt =====
-- The log file behind events of two clients and two changes of the login database.
use imonitor.Base.{◌≡◌, ◌++◌, refl, List, [], ◌∷◌, pos, to_size, to_int, add_size}
use imonitor.Sys.{Reply, Ensures, user_process, die, load, defined, sprintf, memcpy, strcpy}
use imonitor.Utils.{is_req_finished}
use imonitor.Request.{peer_line}
use imonitor.Aio.{submitted, complete}
use imonitor.Main.{dispatch}
use imonitor.Transfer.Apart.{dispatch_all}
use imonitor.Transfer.Rounds.{out_event}
use imonitor.Logfile.Line.{written, added}
use imonitor.Safety.Frame.{alive}
use imonitor.Safety.Registered.{allocated}
use imonitor.Safety.Logged.{Reported, event_lines, dispatch_all-event_lines}
use imonitor.Tests.{plain}
use imonitor.Tests.Logs.{login}
use imonitor.Tests.Crowd.{crowd_env, crowd_env-System, crowd_env-MallocFresh}
use imonitor.Tests.Together.{crowd, crowd-Valid, crowd-Registered, both, input, no_output}

-- A client connects, the database changes, the first client's answer begins, and the database changes
-- again.
abbrev busy_day : List Reply
busy_day = plain (pos 1) [] 4 ∷ plain (pos 1) [] 6 ∷ out_event 5 ∷ plain (pos 1) [] 6 ∷ []

busy_day-Reported : Reported crowd_env busy_day crowd
unfolding dispatch die load defined alive allocated submitted sprintf memcpy strcpy to_int to_size
    add_size is_req_finished peer_line complete
busy_day-Reported = (
  (pos 4, (input 4, (refl, (refl, no_output _)))),
  (
    (pos 6, (input 6, (refl, (refl, no_output _)))),
    (
      (pos 7, (both, (refl, (refl, λ e. refl)))),
      ((pos 6, (input 6, (refl, (refl, no_output _)))), tt),
    ),
  ),
)

-- The database ends in the same entry both times.
busy_day_lines :
    event_lines crowd_env busy_day crowd
    ≡ added crowd_env (login user_process) ++ added crowd_env (login user_process)
unfolding event_lines dispatch die load defined alive allocated submitted sprintf memcpy strcpy
    to_int to_size add_size is_req_finished peer_line complete
busy_day_lines = refl

dispatch_all-event_lines_example :
    Ensures
      (λ _ s'.
        written (pos 8) s'.trace
        ≡ written (pos 8) crowd.trace ++ event_lines crowd_env busy_day crowd)
      (dispatch_all crowd_env busy_day crowd)
dispatch_all-event_lines_example =
    dispatch_all-event_lines crowd_env crowd_env-System crowd_env-MallocFresh
      record { opens = λ t. refl; reads = λ t fd count. refl } (λ t fd text. refl) busy_day crowd
      (crowd-Valid, crowd-Registered) busy_day-Reported
