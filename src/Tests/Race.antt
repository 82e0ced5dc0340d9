-- ===== src/Tests/Race.antt =====
-- A race of two families of addresses in src/http/mod.rs.
use simple_http.Base.{ℕ, zero, suc, true, false, Bool, none, some, [], ◌∷◌, ◌≡◌, refl, arith, ok}
use simple_http.Io.{Poll, pending, ready}
use simple_http.Io.Drive.{drive}
use simple_http.Http.Dns.{v4, v6, IpAddrs, split_by_preference, partition}
use simple_http.Http.Tcp
use simple_http.Http.Tcp.{
  TcpIo, ConnectingTcpRemote, remote_new, remote_poll, poll_current, try_next,
}
use simple_http.Http.Tcp.Race.{
  DelayLaw, elapsed, runs, Hangs, no_more, hangs, Accepts, accepts, delays, drive-new_race,
}
use simple_http.Tests.Connections.{tcp, at80, number}

abbrev poll_countdown : ℕ → Poll Bool × ℕ
poll_countdown zero = (ready true, zero)
poll_countdown (suc n) = (pending, n)

-- An address accepts after as many polls as its number, and the timer counts down.
abbrev slow : TcpIo
slow = record tcp {
  connect_std = λ s addr handle. (addr, number addr.ip);
  poll_delay = poll_countdown;
}

delay_law : DelayLaw slow
delay_law = record { stays = λ d d' e. (0, ground arith) }

abbrev addresses : IpAddrs
addresses = at80 (v6 50) ∷ at80 (v4 2) ∷ at80 (v6 3) ∷ at80 (v4 9) ∷ []

abbrev v6_left : ℕ → ConnectingTcpRemote slow
v6_left n = record { addrs = at80 (v6 3) ∷ []; current = some (at80 (v6 50), n) }

abbrev v4_left : ℕ → ConnectingTcpRemote slow
v4_left n = record { addrs = at80 (v4 9) ∷ []; current = some (at80 (v4 2), n) }

no_answer : Hangs slow none none false 5 (remote_new slow (at80 (v6 50) ∷ at80 (v6 3) ∷ []))
unfolding remote_poll poll_current try_next Tcp.connect
no_answer = hangs (v6_left 49) refl (
    hangs (v6_left 48) refl
      (hangs (v6_left 47) refl (hangs (v6_left 46) refl (hangs (v6_left 45) refl no_more))))

answer :
    Accepts slow none none false (at80 (v4 2)) 2 (remote_new slow (at80 (v4 2) ∷ at80 (v4 9) ∷ []))
unfolding remote_poll poll_current try_next Tcp.connect
answer = delays (v4_left 1) refl (delays (v4_left 0) refl (accepts (v4_left 0) refl))

split :
    split_by_preference addresses
    ≡ (at80 (v6 50) ∷ at80 (v6 3) ∷ [], at80 (v4 2) ∷ at80 (v4 9) ∷ [])
unfolding split_by_preference partition
split = refl

drive-new_race_example :
    drive 4 (Tcp.poll slow none) (Tcp.new slow 1 none addresses (some 300) false) ≡ ok (at80 (v4 2))
drive-new_race_example =
    drive-new_race slow none none false delay_law (at80 (v4 2)) 1 300 addresses
      (at80 (v6 50) ∷ at80 (v6 3) ∷ []) (at80 (v4 9) ∷ []) (at80 (v4 2)) 4 split no_answer
      (runs 0 refl (elapsed 0 refl)) answer (omega arith) (omega arith)
