-- ===== src/Client/Exchange.antt =====
-- The messages of src/router/src/router_lib.c as src/router/src/listen.c reads them.
use udaq.Base.{ℕ, ◌+◌, ◌-◌, ◌≡◌, ◌⊎◌, ◌∙◌, refl, ap, true, some, List, [], ◌∷◌, ◌++◌, ℤ, pos, arith}
use udaq.Router.Protocol.{Msg, release, o_all, o_sample, o_wronly}
use udaq.Router.State.{Proc, Router}
use udaq.Client.Desc.{Desc, Client, check_fd, set_desc}
use udaq.Client.Session.{Received, System, router_get_buf, router_release_buf, next_buffer}
use udaq.Client.Table.{check_fd-set_desc, set_desc-posted}

-- A mode that `router_connect` accepts.
abbrev pub IsMode : ℕ → Type 0
IsMode mode = (mode ≡ o_all) ⊎ (mode ≡ o_sample) ⊎ (mode ≡ o_wronly)

-- The entry of a process that has just connected.
abbrev pub entry : ℕ → ℕ → Proc
entry pid mode = record { pid = pid; flag = mode; cnt = 0; cnt_total = 0; bl = [] }

abbrev answered : Router → ℤ × Router
answered r = (pos 0, r)

back : (a n : ℕ) → a + n - a ≡ n
back a n = omega arith

module _ (sys : System) where
  -- The release of a position, with the size of the data.
  abbrev pub given : ℕ → ℕ → Msg
  given at size = record {
    mtype = 1;
    pid = sys.getpid;
    cmd = release;
    arg0 = at;
    arg1 = size;
    arg2 = 0;
  }

  -- On an open descriptor with memory, where the system takes every message, a client that gets a
  -- buffer and gives the pointer back, whatever the address of its memory, sends the router a
  -- release of the position that the router's message named.
  pub release_buf-get_buf :
      (rs rest : List Received) (fd : ℤ) (size : ℕ) (m : Msg) (d : Desc) (a : ℕ) (c : Client)
      → check_fd fd c ≡ some d
      → d.shm_buf ≡ some a
      → next_buffer sys rs ≡ some (some m, rest)
      → ((n : ℤ) (k : Msg) → sys.msgsnd n k ≡ true)
      → (buf : ℕ) × (c' : Client) × (router_get_buf sys rs fd c ≡ some (some (buf, m.arg1), c'))
        × ((router_release_buf sys fd buf size c').1.posted
            ≡ c.posted ++ (d.msg_id_out, given m.arg0 size) ∷ [])
  unfolding router_get_buf router_release_buf
  release_buf-get_buf rs rest fd size m d a c g b n sends =
      let f : Desc → Desc = λ e. record e { msg_rcv = m } in
      let c' : Client = set_desc fd f c in
      (
        a + m.arg0,
        c',
        rw (g, router_get_buf) (rw n (rw b refl)),
        rw (check_fd-set_desc fd f c d (λ _. refl) g, router_release_buf)
            (rw (sends, b)
              (rw (back a m.arg0) (
                ap (λ u. u ++ (d.msg_id_out, given m.arg0 size) ∷ [])
                  (set_desc-posted fd _ c' ∙ set_desc-posted fd f c)))),
      )
