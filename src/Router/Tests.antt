-- ===== src/Router/Tests.antt =====
-- The theorems about the router at concrete states, and runs of its operations.
use udaq.Base.{
  ℕ, zero, suc, ◌+◌, ◌<◌, ◌≡◌, refl, Bool, true, false, [], ◌∷◌, ◌++◌, map, arith, pos, All,
}
use udaq.Router.Shm.{Shm}
use udaq.Router.Protocol.{Msg, Cmd, connect, release, getbuf, buffer, o_wronly, router_version}
use udaq.Router.Outbox.{Reply, Outbox, sent, full, que_snd}
use udaq.Router.Outbox.Order.{log, Flushed, que_snd-Flushed}
use udaq.Router.State.{Router, start, find_proc}
use udaq.Router.Holds.{check_max_buf}
use udaq.Router.Buffers.{clip, send_buf, release_buf}
use udaq.Router.Messages.{message}
use udaq.Router.Listen.{do_listen, take_new, serve, arrive, begin, later}
use udaq.Router.Memory.{RouterOk}
use udaq.Router.Memory.Listen.{SaneReach, SaneReach-RouterOk}
use udaq.Router.References.{Safe, held_by, holders, refs}
use udaq.Router.References.Messages.{message-Safe}
use udaq.Router.References.Exact.{Exact}
use udaq.Router.References.Exact.Messages.{message-Exact}
use udaq.Router.Limits.{Within, Reach-Within}
use udaq.Router.Delivery.{delivered, notices, readers, send_buf-delivers}
use udaq.Router.Faults.{release_unheld}
use udaq.Router.Pids.{AreDistinct, IntReach, IntReach-AreDistinct}
use udaq.Router.Fuel.{take_new-fuel}

abbrev yes : ℕ → Bool
yes n = true

abbrev ok : ℕ → Reply
ok n = sent

abbrev call : Cmd → ℕ → ℕ → ℕ → Msg
call c pid a b = record { mtype = 1; pid = pid; cmd = c; arg0 = a; arg1 = b; arg2 = 0 }

-- A reader (7) and a writer (9) that hold the first two blocks of 4 kB.
abbrev two_holders : Router
two_holders = record {
  pl =
      record { pid = 7; flag = 0; cnt = 1; cnt_total = 1; bl = 0 ∷ [] }
      ∷ record { pid = 9; flag = 1; cnt = 1; cnt_total = 1; bl = 512 ∷ [] }
      ∷ [];
  used =
      record { buf = 0; size = 512; count = 1 } ∷ record { buf = 512; size = 512; count = 1 } ∷ [];
  free = record { buf = 1024; size = 3072; count = 0 } ∷ [];
  shmsize = 4096;
  msg_count = pos 0;
  outbox = record { que = []; que_count = 0; kernel = []; calls = 0 };
  inbox = [];
  inbox_open = true;
  pending = [];
  allocs = 0;
  stats = record {
    in_kbytes = 0;
    in_bytes = 0;
    out_kbytes = 0;
    out_bytes = 0;
    in_blocks = 0;
    out_blocks = 0;
  };
  end_flag = false;
}

two_holders-Safe : Safe two_holders
two_holders-Safe b = ground arith

two_holders-Exact : Exact two_holders
two_holders-Exact = record { counted = λ b. ground arith; live = ground arith; idle = ground arith }

reader_holds : 0 < held_by 7 0 two_holders.pl
unfolding find_proc
reader_holds = ground arith

reader_holds_not : held_by 7 512 two_holders.pl ≡ 0
unfolding find_proc
reader_holds_not = ground arith

none_full : check_max_buf two_holders.pl ≡ false
unfolding check_max_buf
none_full = ground arith

abbrev asked : Router
asked = record (start 4096) { inbox = call getbuf 9 100 0 ∷ [] }

asked-reached : SaneReach yes ok 4096 asked
unfolding start
asked-reached =
    SaneReach.later SaneReach.begin (arrive (call getbuf 9 100 0) (start 4096)) (ground arith)

abbrev answered : Router
answered = (do_listen yes ok asked).1

SaneReach-RouterOk_example : RouterOk answered
unfolding start
SaneReach-RouterOk_example =
    SaneReach-RouterOk yes ok (ground arith) (SaneReach.later asked-reached (serve asked refl) tt)

Reach-Within_example : All Within answered.pl
unfolding start
Reach-Within_example =
    Reach-Within yes ok
      (later (later begin (arrive (call getbuf 9 100 0) (start 4096))) (serve asked refl))

message-Safe_example : Safe (message yes ok (call release 7 0 512) two_holders).1
message-Safe_example =
    message-Safe yes ok (call release 7 0 512) two_holders reader_holds two_holders-Safe

message-Exact_example : Exact (message yes ok (call release 7 0 512) two_holders).1
message-Exact_example =
    message-Exact yes ok (λ n. refl) (call release 7 0 512) two_holders reader_holds
      two_holders-Exact

abbrev full_block : Shm
full_block = record { buf = 512; size = 512; count = 1 }

send_buf-delivers_example :
    let (code, s', r') = send_buf yes ok full_block 600 two_holders in
    (code ≡ pos 0)
    × (s'.count ≡ full_block.count + readers two_holders.pl)
    × (r'.pl ≡ map (delivered 512) two_holders.pl)
    × (log r'.outbox ≡ log two_holders.outbox ++ notices 512 (clip 600 full_block) two_holders.pl)
send_buf-delivers_example =
    send_buf-delivers yes ok (λ n. refl) full_block 600 two_holders none_full

abbrev two_waiting : Outbox
two_waiting = record {
  que = call buffer 7 0 512 ∷ call buffer 7 512 512 ∷ [];
  que_count = 2;
  kernel = [];
  calls = 0;
}

abbrev then_full : ℕ → Reply
then_full zero = sent
then_full (suc n) = full

que_snd-Flushed_example : Flushed two_waiting (que_snd then_full (pos 3) two_waiting)
que_snd-Flushed_example = que_snd-Flushed then_full (pos 3) two_waiting (ground arith)

release_unheld_example :
    (holders 512 (release_buf yes ok 7 512 0 two_holders).1.pl ≡ 1)
    × (refs 512 (release_buf yes ok 7 512 0 two_holders).1.used ≡ 0)
release_unheld_example =
    release_unheld yes ok 7 512 two_holders two_holders-Exact (ground arith) reader_holds_not

take_new-fuel_example : take_new yes ok 2 asked ≡ take_new yes ok 7 asked
unfolding start
take_new-fuel_example = take_new-fuel yes ok 2 7 asked (ground arith) (ground arith)

-- The process 9 asks twice for a connection.
abbrev hello : Msg
hello = call connect 9 o_wronly router_version

abbrev asked_twice : Router
asked_twice = record (start 4096) { inbox = hello ∷ hello ∷ [] }

IntReach-AreDistinct_example : AreDistinct (do_listen yes ok asked_twice).1
unfolding start
IntReach-AreDistinct_example = IntReach-AreDistinct yes ok (
    IntReach.later
      (IntReach.later (IntReach.later IntReach.begin (arrive hello (start 4096)) (ground arith))
        (arrive hello (record (start 4096) { inbox = hello ∷ [] })) (ground arith))
      (serve asked_twice refl) tt)
