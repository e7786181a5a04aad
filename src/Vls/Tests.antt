-- ===== src/Vls/Tests.antt =====
-- The theorems on sessions at concrete answers of libvppcom.
use vclnet.Base.{ℕ, ℤ, List, pos, negsuc, [], ◌∷◌, ◌≤◌, ◌≡◌, refl, arith, length}
use vclnet.Vls.Epoll.{EpollEvent, ctl_event, epoll_wait, epoll_wait-bounded}
use vclnet.Errors.{Error, errno, Result, ok, err}
use vclnet.Vls.Addr.{Ip4, ip_be, port_be, accepted_peer, accepted_peer-encoded}
use vclnet.Vls.Calls.{Call, create, bind, connect, epoll_create, Vls, open_after}
use vclnet.Vls.Sessions.{create_listener, tls4_listener, connect_blocking, tcp4_dial}
use vclnet.Vls.Leaks.{create_listener-open, opened_handle}
use vclnet.Vls.Blocking.{connect_blocking-open}

-- Sessions are created as 3, epoll handles as 9; `bind` fails with EADDRINUSE, `connect` is in
-- progress, and no event comes.
abbrev answers : Call → ℤ
answers (create p) = pos 3
answers (bind v ep) = negsuc 97
answers (connect v ep) = negsuc 114
answers epoll_create = pos 9
answers _ = pos 0

abbrev busy : Vls
busy = record { answer = λ log c. answers c }

abbrev home : Ip4
home = record { b0 = 127; b1 = 0; b2 = 0; b3 = 1 }

create_listener-open_example :
    open_after busy (create_listener (tls4_listener home 443 64 0) busy []).0 ≡ []
unfolding opened_handle open_after vclnet.Vls.Create.listen_tls_nb
create_listener-open_example = create_listener-open busy (tls4_listener home 443 64 0) []

connect_blocking-open_example :
    open_after busy (connect_blocking (tcp4_dial home 80) busy []).0 ≡ []
unfolding open_after opened_handle vclnet.Vls.Create.finish_blocking_connect
    vclnet.Vls.Create.connect_nb vclnet.Errors.is_in_progress
connect_blocking-open_example = connect_blocking-open busy (tcp4_dial home 80) []

timed_out : (connect_blocking (tcp4_dial home 80) busy []).1 ≡ err (errno 110)
unfolding vclnet.Vls.Create.finish_blocking_connect vclnet.Vls.Create.connect_nb
    vclnet.Errors.is_in_progress
timed_out = refl

accepted_peer-encoded_example : accepted_peer (ip_be home) (port_be 8080) ≡ (home, 8080)
accepted_peer-encoded_example =
    accepted_peer-encoded home 8080 (omega arith, omega arith, omega arith, omega arith)
      (omega arith)

-- One event is ready, on the session with the key -3.
abbrev one_event : ℕ → ℤ × List EpollEvent
one_event max = (pos 1, ctl_event (negsuc 2) 1 ∷ [])

epoll_wait-bounded_example :
    ((epoll_wait 8 one_event).0 ≤ 8)
    × ((epoll_wait 8 one_event).0 ≤ 64)
    × (length (epoll_wait 8 one_event).1 ≡ (epoll_wait 8 one_event).0)
unfolding ctl_event vclnet.Vls.Epoll.max_events
epoll_wait-bounded_example = epoll_wait-bounded 8 one_event (omega arith, omega arith)

event_key_kept : epoll_wait 8 one_event ≡ (1, record { vlsh = negsuc 2; events = 1 } ∷ [])
unfolding epoll_wait ctl_event
event_key_kept = refl
