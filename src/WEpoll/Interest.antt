-- ===== src/WEpoll/Interest.antt =====
-- The interest list of an epoll instance as its documentation tells it: the calls that succeeded
-- decide which event a descriptor is registered for, and a closed descriptor leaves the list.
use imonitor.Base.{◌&&◌, not, Option, none, some, [], ◌∷◌, ℤ, is_neg, ◌==ℤ◌, if◌then◌else◌}
use imonitor.Sys.{Trace, Call, CtlOp, ctl_add, ctl_mod, ctl_del, EpollEvent, epoll_ctl, close}

abbrev pub after_ctl : CtlOp → EpollEvent → Option EpollEvent
after_ctl ctl_add ev = some ev
after_ctl ctl_mod ev = some ev
after_ctl ctl_del ev = none

-- One call's effect on what is registered for `fd`.
abbrev pub registered_by : ℤ → ℤ → Call → ℤ → Option EpollEvent → Option EpollEvent
registered_by ep fd (epoll_ctl e op f ev) rc old =
    if (e ==ℤ ep) && ((f ==ℤ fd) && not (is_neg rc)) then after_ctl op ev else old
registered_by ep fd (close f) rc old = if f ==ℤ fd then none else old
registered_by ep fd c rc old = old

-- What the instance `ep` watches the descriptor `fd` for.
abbrev pub interest : ℤ → Trace → ℤ → Option EpollEvent
interest ep [] fd = none
interest ep ((c, r) ∷ t) fd = registered_by ep fd c r.rc (interest ep t fd)
