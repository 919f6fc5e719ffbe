-- ===== src/Client/Table/Connect.antt =====
-- What router_connect of src/router/src/router_lib.c leaves of the table, on every path.
use udaq.Base.{
  ℕ, zero, suc, ◌+◌, ◌<◌, ◌≡◌, ◌⊎◌, inl, inr, refl, Bool, true, false, Option, none, some, List,
  ◌==◌, if◌then◌else◌, ℤ, pos, negsuc, same, length, arith, Option-cases, if-either, ◌||◌,
}
use mathlib.Core.Path.{subst}
use udaq.Router.Protocol.{Msg, disconnect, o_all, o_sample, o_wronly, is_writer}
use udaq.Client.Desc.{
  Desc, Client, open_fd, check_fd, set_desc, mnodesc, take_closed, place_fd, blanks,
}
use udaq.Client.Session.{
  Received, System, router_connect, router_disconnect, hang_up, after_open, call_router, wait_reply,
  attach, receive, fail, send_out, command, detach, write_msg, keyed, with_out, connect_msg,
  is_connect,
}
use udaq.Client.Table.{
  open_nodes, opens, IsSized, Holding, take_closed-Beside, set_desc-Holding, check_fd-Holding,
  close_fd-Holding,
}

module _ (sys : System) where
  send_out-Holding :
      (k n : ℕ) (d : Desc) (m : Msg) (c : Client)
      → Holding k n c
      → Holding k n (send_out sys (pos n) d m c).1
  send_out-Holding k n d m c v =
      if-either (λ (t : Bool × Client). Holding k n t.1) (sys.msgsnd d.msg_id_out m)
        (set_desc-Holding k n (write_msg sys m) c (λ _. refl) v)
        (set_desc-Holding k n (write_msg sys m) c (λ _. refl) v)

  router_disconnect-Holding :
      (k n : ℕ) (c : Client)
      → Holding k n c
      → (opens (router_disconnect sys (pos n) c) ≡ k) × IsSized (router_disconnect sys (pos n) c)
  unfolding router_disconnect hang_up
  router_disconnect-Holding k n c v =
      let (d, g) = check_fd-Holding k n c v in
      rw (g, router_disconnect)
        (let c' : Client =
            if d.is_connected
            then (send_out sys (pos n) d (command sys disconnect d.msg_snd) c).1
            else c in
          close_fd-Holding k n (set_desc (pos n) (detach sys) c') (
            set_desc-Holding k n (detach sys) c' (λ _. refl)
              (if-either (λ c'. Holding k n c') d.is_connected
                (send_out-Holding k n d (command sys disconnect d.msg_snd) c v) v)))

  -- What a call that has taken the node `n` may return.
  abbrev Ended : ℕ → ℤ × Client → Type 0
  Ended k (pos n, c) = Holding k n c
  Ended k (negsuc zero, c) = (opens c ≡ k) × IsSized c
  Ended k (negsuc (suc n), c) = false ≡ true

  attach-Ended :
      (k n mode : ℕ) (d : Desc) (c : Client) → Holding k n c → Ended k (attach sys mode (pos n) d c)
  unfolding attach
  attach-Ended k n mode d c v =
      let v' =
        set_desc-Holding k n (λ e. record e { is_connected = true; shm_id = sys.shmget d.key }) c
          (λ _. refl) v in
      if-either (Ended k) (same (sys.shmget d.key) (negsuc 0)) (router_disconnect-Holding k n _ v')
        (elim (Option-cases (sys.shmat (sys.shmget d.key) (is_writer mode))) [
          | inl e ↦ rw (e, attach) (router_disconnect-Holding k n _ v')
          | inr (a, e) ↦
              rw (e, attach)
                (set_desc-Holding k n (λ x. record x { shm_buf = some a }) _ (λ _. refl) v')
        ])

  abbrev Done : ℕ → Option (ℤ × Client) → Type 0
  Done k none = Unit
  Done k (some t) = Ended k t

  wait_reply-Done :
      (k n mode : ℕ) (d : Desc) (o : Option (Option Msg × List Received)) (c : Client)
      → Holding k n c
      → Done k (wait_reply sys mode (pos n) d o c)
  unfolding wait_reply
  wait_reply-Done k n mode d none c v = tt
  wait_reply-Done k n mode d (some (none, rs)) c v = router_disconnect-Holding k n c v
  wait_reply-Done k n mode d (some (some m, rs)) c v =
      let v' = set_desc-Holding k n (λ e. record e { msg_rcv = m }) c (λ _. refl) v in
      if-either (Ended k) (is_connect m.cmd) (attach-Ended k n mode d _ v')
        (router_disconnect-Holding k n _ v')

  call_router-Done :
      (rs : List Received) (router : List ℕ) (uid mode k n : ℕ) (d : Desc) (c : Client)
      → Holding k n c
      → Done k (call_router sys rs router uid mode (pos n) d c)
  unfolding call_router
  call_router-Done rs router uid mode k n d c v =
      let d1 : Desc = keyed sys router uid mode d in
      let c1 : Client = set_desc (pos n) (keyed sys router uid mode) c in
      let d2 : Desc = with_out sys d1 in
      let c2 : Client = set_desc (pos n) (with_out sys) c1 in
      let t3 : Bool × Client = send_out sys (pos n) d2 (connect_msg sys mode) c2 in
      let v1 = set_desc-Holding k n (keyed sys router uid mode) c (λ _. refl) v in
      let v2 = set_desc-Holding k n (with_out sys) c1 (λ _. refl) v1 in
      let v3 = send_out-Holding k n d2 (connect_msg sys mode) c2 v2 in
      if-either (Done k) (same d1.msg_id_in (negsuc 0)) (router_disconnect-Holding k n c1 v1) (
        if-either (Done k) (same (sys.msgget d1.key_out) (negsuc 0))
          (router_disconnect-Holding k n c2 v2)
          (if-either (Done k) t3.0 {x = wait_reply sys mode (pos n) d2 (receive rs) t3.1}
            {y = some (fail sys (pos n) t3.1)} (wait_reply-Done k n mode d2 (receive rs) t3.1 v3)
            (router_disconnect-Holding k n t3.1 v3)))

  after_open-Done :
      (rs : List Received) (router : List ℕ) (uid mode k : ℕ) (t : ℤ × Client)
      → Ended k t
      → Done k (after_open sys rs router uid mode t)
  unfolding after_open
  after_open-Done rs router uid mode k (pos n, c) v =
      let (d, g) = check_fd-Holding k n c v in
      rw (g, after_open)
        (if-either (Done k) (mode == o_all || mode == o_sample || mode == o_wronly)
          (call_router-Done rs router uid mode k n d c v) (router_disconnect-Holding k n c v))
  after_open-Done rs router uid mode k (negsuc zero, c) v = v
  after_open-Done rs router uid mode k (negsuc (suc n), c) v = ground (arith, v)

  place_fd-Ended :
      (ds : List Desc) (c : Client)
      → length ds ≡ mnodesc
      → Ended (open_nodes ds) (place_fd ds (take_closed ds) c)
  unfolding place_fd
  place_fd-Ended ds c l = elim (Option-cases (take_closed ds)) [
    | inl e ↦ rw (e, place_fd) (refl, l)
    | inr ((n, es), e) ↦
        rw (e, place_fd) (let h = take_closed-Beside ds n es e in ground (arith, h, l))
  ]

  open_fd-Ended :
      (has_memory : Bool) (c : Client) → IsSized c → Ended (opens c) (open_fd has_memory c)
  unfolding open_fd
  open_fd-Ended has_memory c v = elim (Option-cases c.desc) [
    | inl e ↦
        rw (e, open_fd)
          (if-either (Ended 0) has_memory (place_fd-Ended (blanks mnodesc) c refl)
            (rw e (refl, tt)))
    | inr (ds, e) ↦ let v' = rw e at v in rw (e, open_fd) (place_fd-Ended ds c v')
  ]

  -- What the caller of `router_connect` sees.
  abbrev pub Result : ℕ → ℤ → Client → Type 0
  Result k z c =
      ((z ≡ negsuc 0) × (opens c ≡ k) × IsSized c)
      ⊎ ((n : ℕ) × (z ≡ pos n)
          × (n < mnodesc)
          × (d : Desc) × (check_fd (pos n) c ≡ some d)
          × (opens c ≡ k + 1)
          × IsSized c)

  Holding-opens : (k n : ℕ) (c : Client) → Holding k n c → (opens c ≡ k + 1) × IsSized c
  Holding-opens k n c v = elim (Option-cases c.desc) [
    | inl e ↦ let v' = rw e at v in ground (arith, v')
    | inr (ds, e) ↦ let v' = rw e at v in rw e (ground (arith, v'))
  ]

  Ended-Result : (k : ℕ) (z : ℤ) (c : Client) → Ended k (z, c) → Result k z c
  Ended-Result k (pos n) c v =
      let (d, g) = check_fd-Holding k n c v in
      let (o, l) = Holding-opens k n c v in inr (n, refl, v.0, d, g, o, l)
  Ended-Result k (negsuc zero) c v = inl (refl, v.0, v.1)
  Ended-Result k (negsuc (suc n)) c v = ground (arith, v)

  -- A call of `router_connect` that returns an error leaves as many descriptors open as before, however
  -- far it came; one that succeeds returns a number below 8 that is open, and one more is open.
  pub router_connect-opens :
      (rs : List Received) (router : List ℕ) (uid mode : ℕ) (c : Client) (z : ℤ) (c' : Client)
      → IsSized c
      → router_connect sys rs router uid mode c ≡ some (z, c')
      → Result (opens c) z c'
  unfolding router_connect
  router_connect-opens rs router uid mode c z c' v h = Ended-Result (opens c) z c' (
      subst (Done (opens c)) h
        (after_open-Done rs router uid mode (opens c) _ (open_fd-Ended sys.has_memory c v)))
