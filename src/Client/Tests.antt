-- ===== src/Client/Tests.antt =====
-- The theorems about the client library at concrete states.
use udaq.Base.{ℕ, ◌≡◌, refl, Bool, true, none, some, [], ◌∷◌, ◌++◌, pos}
use udaq.Router.Protocol.{Msg, Cmd, connect, buffer}
use udaq.Router.Outbox.{Reply, sent}
use udaq.Client.Desc.{Desc, Client, reset, blank, blanks, check_fd}
use udaq.Client.Session.{
  got, signalled, System, router_connect, router_get_buf, router_release_buf, next_buffer, receive,
}
use udaq.Client.Table.Connect.{Result, router_connect-opens}
use udaq.Client.Exchange.{release_buf-get_buf, given}

abbrev yes : ℕ → Bool
yes n = true

abbrev ok : ℕ → Reply
ok n = sent

abbrev here : System
here = record {
  has_memory = true;
  getpid = 7;
  msgget = λ k. pos 3;
  shmget = λ k. pos 4;
  shmat = λ id w. some 1000;
  msgsnd = λ id m. true;
}

abbrev plain : Cmd → ℕ → ℕ → Msg
plain c a b = record { mtype = 7; pid = 1; cmd = c; arg0 = a; arg1 = b; arg2 = 0 }

abbrev new_client : Client
new_client = record { desc = none; posted = []; errno = pos 0 }

abbrev connected : Desc
connected = record (reset blank) { msg_id_out = pos 3; shm_buf = some 1000 }

abbrev one_open : Client
one_open = record { desc = some (connected ∷ blanks 7); posted = []; errno = pos 0 }

-- A connection that is made after a signal.
joined :
    (c : Client) × (router_connect here
        (signalled ∷ got (plain connect 0 0) ∷ [])
        (97 ∷ [])
        0
        0
        new_client
      ≡ some (pos 0, c))
unfolding router_connect receive
joined = (_, refl)

router_connect-opens_example : Result here 0 (pos 0) joined.0
router_connect-opens_example =
    router_connect-opens here (signalled ∷ got (plain connect 0 0) ∷ []) (97 ∷ []) 0 0 new_client
      (pos 0) joined.0 tt joined.1

open_there : check_fd (pos 0) one_open ≡ some connected
unfolding check_fd
open_there = refl

a_buffer :
    next_buffer here (signalled ∷ got (plain buffer 512 300) ∷ [])
    ≡ some (some (plain buffer 512 300), [])
unfolding next_buffer
a_buffer = refl

release_buf-get_buf_example :
    (buf : ℕ) × (c' : Client) × (router_get_buf here
        (signalled ∷ got (plain buffer 512 300) ∷ [])
        (pos 0)
        one_open
      ≡ some (some (buf, 300), c'))
    × ((router_release_buf here (pos 0) buf 0 c').1.posted ≡ [] ++ (pos 3, given here 512 0) ∷ [])
release_buf-get_buf_example =
    release_buf-get_buf here (signalled ∷ got (plain buffer 512 300) ∷ []) [] (pos 0) 0
      (plain buffer 512 300) connected 1000 one_open open_there refl a_buffer (λ n k. refl)

abbrev letter_a : ℕ
letter_a = 97
