-- ===== src/Startup/Ledger.antt =====
-- What the router leaves in the system, by src/router/src/router.c.
use udaq.Base.{
  ◌≡◌, ◌⊎◌, inl, inr, refl, ap, ◌∙◌, Bool, true, false, [], ◌∷◌, ◌++◌, ℤ, pos, negsuc, same, arith,
  Bool-cases,
}
use udaq.Router.Shm.{init_shm}
use udaq.Startup.Objects.{
  shm_made, shm_removed, msg_removed, Ipc, Process, change, invalid, Launched, stopped, listening,
  create_shm, create_out, create_msg, remove_out, remove_msg, clear_shmbuf, remove_shm, cleanup,
  launch, after_shm, with_lists,
}

module _ (ipc : Ipc) where
  -- How a start ends: the changes of one that fails, or the state of one that goes on to listen.
  abbrev pub LeavesNothing : Process → Launched → Type 0
  LeavesNothing p (stopped q) =
      (q.changes ≡ p.changes)
      ⊎ (let id = ipc.make_shm p.shm_key p.shmsize in
          q.changes ≡ (p.changes ++ shm_made p.shm_key id ∷ []) ++ shm_removed id ∷ [])
  LeavesNothing p (listening q) =
      (same q.shm_id invalid ≡ false)
      × (same q.msg_id_in invalid ≡ false)
      × (q.used ≡ [])
      × (q.free ≡ (init_shm p.shmsize).1)

  remove_shm-changes :
      (q : Process)
      → same q.shm_id invalid ≡ false
      → ipc.drop_shm q.shm_id ≡ true
      → (remove_shm ipc q).changes ≡ q.changes ++ shm_removed q.shm_id ∷ []
  unfolding remove_shm clear_shmbuf
  remove_shm-changes q e d = ground (arith, e, d)

  after_msg-stops :
      (q : Process)
      → same (ipc.make_msg q.msg_key_in) invalid ≡ true
      → create_msg ipc q ≡ (negsuc 0, record q { msg_id_in = ipc.make_msg q.msg_key_in })
  unfolding create_msg
  after_msg-stops q m = ground (arith, m)

  after_msg-listens :
      (q : Process)
      → same (ipc.make_msg q.msg_key_in) invalid ≡ false
      → (q' : Process) × (create_msg ipc q ≡ (pos 0, q'))
        × (q'.shm_id ≡ q.shm_id)
        × (same q'.msg_id_in invalid ≡ false)
        × (q'.used ≡ q.used)
        × (q'.free ≡ q.free)
  unfolding create_msg create_out
  after_msg-listens q m = (
    (create_msg ipc q).1,
    ground (arith, m),
    ground (arith, m),
    ground (arith, m),
    ground (arith, m),
    ground (arith, m),
  )

  -- The process with its memory made.
  abbrev made : Process → Process
  made p =
      let id = ipc.make_shm p.shm_key p.shmsize in
      change (shm_made p.shm_key id) (record p { shm_id = id })

  with_memory :
      (p : Process) (has_memory : Bool)
      → same (ipc.make_shm p.shm_key p.shmsize) invalid ≡ false
      → ipc.drop_shm (ipc.make_shm p.shm_key p.shmsize) ≡ true
      → LeavesNothing p (after_shm ipc has_memory (pos 0, made p))
  unfolding init_shm
  with_memory p false e d = inr (remove_shm-changes (record (made p) { used = []; free = [] }) e d)
  with_memory p true e d =
      let q : Process = with_lists ipc (made p) in
      elim (Bool-cases (same (ipc.make_msg p.msg_key_in) invalid)) [
        | inl m ↦ rw (after_msg-stops q m) (inr (remove_shm-changes _ e d))
        | inr m ↦
            let (q', g, a, b, u, f) = after_msg-listens q m in
            rw g (ap (λ z. same z invalid) a ∙ e, b, u, f)
      ]

  -- Where shared memory can be removed, a start that fails has made nothing in the system, or has made the
  -- shared memory and removed it again; one that goes on to listen has its memory, the queue for itself,
  -- no used node, and the free list of `init_shm`.
  pub launch-LeavesNothing :
      (has_memory : Bool) (p : Process)
      → ((id : ℤ) → ipc.drop_shm id ≡ true)
      → LeavesNothing p (launch ipc has_memory p)
  unfolding launch create_shm create_msg create_out remove_shm clear_shmbuf
  launch-LeavesNothing has_memory p drops =
      let id = ipc.make_shm p.shm_key p.shmsize in
      elim (Bool-cases (same id invalid)) [
        | inl e ↦ rw (e, launch) (inl refl)
        | inr e ↦ rw (e, launch) (with_memory p has_memory e (drops id))
      ]

  -- A router whose objects are all there, and can be removed, removes them all when it ends, the queues
  -- before the memory.
  cleanup-changes :
      (p : Process)
      → same p.shm_id invalid ≡ false
      → same p.msg_id_in invalid ≡ false
      → same p.msg_id_out invalid ≡ false
      → ((id : ℤ) → ipc.drop_shm id ≡ true)
      → ((id : ℤ) → ipc.drop_msg id ≡ true)
      → cleanup ipc p ≡ record p {
        shm_id = invalid;
        msg_id_in = invalid;
        msg_id_out = invalid;
        used = [];
        free = [];
        changes =
            ((p.changes ++ msg_removed p.msg_id_in ∷ []) ++ msg_removed p.msg_id_out ∷ [])
            ++ shm_removed p.shm_id ∷ [];
      }
  unfolding cleanup remove_shm remove_msg remove_out clear_shmbuf
  cleanup-changes p a b c d e = ground (arith, a, b, c, d p.shm_id, e p.msg_id_in, e p.msg_id_out)
