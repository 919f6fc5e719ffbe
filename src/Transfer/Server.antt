-- ===== src/Transfer/Server.antt =====
-- The sending of blocks in src/router/tools/router_tcp.c: send_data_from_router.
pub mod Acts
use udaq.Base.{
  ℕ, zero, suc, ◌+◌, ◌-◌, Bool, true, false, Option, none, some, List, [], ◌∷◌, ◌++◌, length, ltb,
  ◌==◌, if◌then◌else◌, ℤ, pos, negsuc,
}
use udaq.Tcp.{Read, ntohl}
use udaq.Transfer.{zeros, take, htonl, Received, got, failed, waiting, read_all}

pub data Version : Type 0 where
  router_inet_version_1 router_inet_version_2 : Version

-- What the function does: a `write` to the socket, the release of a buffer with its size, the end of the session.
pub data Act : Type 0 where
  write : List ℕ → Act
  router_release_buf : ℕ → Act
  router_disconnect : Act

-- How it ends: it returns, or it wants more buffers or reads than are given.
pub data Ending : Type 0 where
  returned : ℤ → Ending
  waits : Ending

abbrev pub after : List Act → List Act × Ending → List Act × Ending
after as' r = (as' ++ r.0, r.1)

-- `memcpy` of the bytes of a reply that came in part.
abbrev pub overlay : List ℕ → List ℕ → List ℕ
overlay [] old = old
overlay (c ∷ cs) [] = c ∷ cs
overlay (c ∷ cs) (o ∷ old) = c ∷ overlay cs old

-- `reply = ntohl(reply);` on a machine with the low byte first.
abbrev pub swap_bytes : List ℕ → List ℕ
swap_bytes (a ∷ b ∷ c ∷ d ∷ []) = d ∷ c ∷ b ∷ a ∷ []
swap_bytes bs = bs

-- `rtr_inet_info3_t`, with the words `res` that are never set.
abbrev pub info3 : List ℕ → ℕ → ℕ → List ℕ
info3 res blk_count blk_size = htonl blk_count ++ (htonl blk_size ++ res)

-- What is written for a block in version 2.
abbrev pub frame : List ℕ → ℕ → List ℕ → List Act
frame res i buf =
    write (info3 res i (length buf)) ∷ (if ltb 0 (length buf) then write buf ∷ [] else [])

-- `for(i=0; i<blk_size; i++) zero[i]=0x00;` and what is written for a block in version 1.
abbrev pub padded : ℕ → ℕ → List ℕ → List Act
padded blk_size size buf = write buf ∷ write (zeros (blk_size - size)) ∷ []

-- From the reply on, which is in `reply` with what is left to read; `next` is the loop's next round.
abbrev pub after_reply :
    Version → ℕ → Bool → List ℕ → (List ℕ → List Act × Ending) → List Act × Ending
after_reply version size ok reply next =
    let release = router_release_buf size ∷ [] in
    let on = if ok then after release (next (swap_bytes reply)) else (release, returned (pos 0)) in
    elim version [
      | router_inet_version_1 ↦ on
      | router_inet_version_2 ↦
          if ntohl reply == 0 then on else (router_disconnect ∷ [], returned (negsuc 0))
    ]

abbrev pub await_reply :
    Version
    → ℕ
    → Bool
    → List ℕ
    → Received
    → (List ℕ → List Read → List Act × Ending)
    → List Act × Ending
await_reply version size ok reply (got b rs) next = after_reply version size ok b (λ r. next r rs)
await_reply version size ok reply (failed b rs) next =
    after_reply version size ok (overlay b reply) (λ r. next r rs)
await_reply version size ok reply waiting next = ([], waits)

module _ (version : Version) (blk_size : ℕ) (res : List ℕ) where
  -- The loop. A buffer of the router comes with whether its release works; none is an error of `router_get_buf`, and
  -- behind the last buffer the call waits. `reply` is what the variable holds.
  unfoldable pub send_blocks :
      ℕ → List ℕ → List (Option (List ℕ × Bool)) → List Read → List Act × Ending
  send_blocks i reply [] rs = ([], waits)
  send_blocks i reply (none ∷ bufs) rs = ([], returned (pos 0))
  send_blocks i reply (some (buf, ok) ∷ bufs) rs =
      let next = λ (r : List ℕ) (ts : List Read). send_blocks (i + 1) r bufs ts in
      elim version [
        | router_inet_version_1 ↦
            let sent = take blk_size buf in
            after (padded blk_size (length sent) sent)
              (await_reply router_inet_version_1 (length sent) ok reply (read_all 4 rs) next)
        | router_inet_version_2 ↦
            after (frame res i buf)
              (await_reply router_inet_version_2 (length buf) ok reply (read_all 4 rs) next)
      ]

  -- `send_data_from_router`; the flag says whether `malloc` gives memory.
  unfoldable pub send_data_from_router :
      Bool → List ℕ → List (Option (List ℕ × Bool)) → List Read → List Act × Ending
  send_data_from_router malloc reply bufs rs =
      if malloc then send_blocks 0 reply bufs rs else ([], returned (negsuc 0))
