-- ===== src/Startup/Objects.antt =====
-- The shared memory and the message queues: create_shm, create_msg, remove_msg, clear_shmbuf,
-- remove_shm, cleanup and the rest of `main` of src/router/src/router.c. What the system calls answer is
-- a parameter; messages, the error log and the signal hooks are left out.
use udaq.Base.{ℕ, Bool, true, false, List, [], ◌∷◌, ◌++◌, if◌then◌else◌, ℤ, pos, negsuc, same}
use udaq.Router.Shm.{Shm, init_shm}

-- What changed in the system: an object was made, for a key and with an id, or removed.
pub data Change : Type 0 where
  shm_made msg_made : ℕ → ℤ → Change
  shm_removed msg_removed : ℤ → Change

-- `shmget` and `msgget` to make an object or to find one, -1 where they fail, and whether `shmctl` and
-- `msgctl` remove one.
pub record Ipc : Type 0 where
  pub make_shm : ℕ → ℕ → ℤ
  pub find_shm : ℕ → ℤ
  pub drop_shm : ℤ → Bool
  pub make_msg : ℕ → ℤ
  pub find_msg : ℕ → ℤ
  pub drop_msg : ℤ → Bool

-- The variables of the process that these functions use, and the changes it made.
pub record Process : Type 0 where
  pub shm_key : ℕ
  pub msg_key_in : ℕ
  pub msg_key_out : ℕ
  pub shmsize : ℕ
  pub shm_id : ℤ
  pub msg_id_in : ℤ
  pub msg_id_out : ℤ
  pub used : List Shm
  pub free : List Shm
  pub changes : List Change

abbrev pub change : Change → Process → Process
change k p = record p { changes = p.changes ++ k ∷ [] }

abbrev pub invalid : ℤ
invalid = negsuc 0

-- `main` ends with status 1, or has called `listen` with this state.
pub data Launched : Type 0 where
  stopped listening : Process → Launched

module _ (ipc : Ipc) where
  unfoldable pub create_shm : Process → ℤ × Process
  create_shm p =
      let id = ipc.make_shm p.shm_key p.shmsize in
      let p' : Process = record p { shm_id = id } in
      if same id invalid then (negsuc 0, p') else (pos 0, change (shm_made p.shm_key id) p')

  -- The test after the second `msgget` is on `msg_id_in` again.
  unfoldable pub create_out : Process → ℤ × Process
  create_out p =
      let id = ipc.make_msg p.msg_key_out in
      let p' : Process = record p { msg_id_out = id } in
      let p'' : Process = if same id invalid then p' else change (msg_made p.msg_key_out id) p' in
      if same p''.msg_id_in invalid then (negsuc 0, p'') else (pos 0, p'')

  unfoldable pub create_msg : Process → ℤ × Process
  unfolding create_out
  create_msg p =
      let id = ipc.make_msg p.msg_key_in in
      let p' : Process = record p { msg_id_in = id } in
      if same id invalid then (negsuc 0, p') else create_out (change (msg_made p.msg_key_in id) p')

  abbrev pub with_in : Process → Process
  with_in p =
      if same p.msg_id_in invalid then record p { msg_id_in = ipc.find_msg p.msg_key_in } else p

  abbrev pub with_out : Process → Process
  with_out p =
      if same p.msg_id_out invalid then record p { msg_id_out = ipc.find_msg p.msg_key_out } else p

  unfoldable pub remove_out : Process → Process
  remove_out p =
      let q : Process = with_out p in
      if same q.msg_id_out invalid
      then q
      else if ipc.drop_msg q.msg_id_out
      then change (msg_removed q.msg_id_out) (record q { msg_id_out = invalid })
      else q

  -- Where the first queue cannot be removed the second is left.
  unfoldable pub remove_msg : Process → Process
  unfolding remove_out
  remove_msg p =
      let q : Process = with_in p in
      if same q.msg_id_in invalid
      then q
      else if ipc.drop_msg q.msg_id_in
      then remove_out (change (msg_removed q.msg_id_in) (record q { msg_id_in = invalid }))
      else q

  unfoldable pub clear_shmbuf : Process → Process
  clear_shmbuf p = record p { used = []; free = [] }

  abbrev pub with_shm : Process → Process
  with_shm p =
      if same p.shm_id invalid then record p { shm_id = ipc.find_shm p.shm_key } else clear_shmbuf p

  unfoldable pub remove_shm : Process → Process
  unfolding clear_shmbuf
  remove_shm p =
      let q : Process = with_shm p in
      let q' : Process = record q { shm_id = invalid } in
      if same q.shm_id invalid
      then q
      else if ipc.drop_shm q.shm_id
      then change (shm_removed q.shm_id) q'
      else q'

  unfoldable pub cleanup : Process → Process
  unfolding remove_shm remove_msg
  cleanup p = remove_shm (remove_msg p)

  abbrev pub with_lists : Process → Process
  with_lists p = record p { used = (init_shm p.shmsize).0; free = (init_shm p.shmsize).1 }

  abbrev pub after_msg : ℤ × Process → Launched
  after_msg (pos n, p) = listening p
  after_msg (negsuc n, p) = stopped (remove_shm p)

  -- From `init_shm` on; the flag says whether `malloc` gives its node.
  abbrev pub after_shm : Bool → ℤ × Process → Launched
  after_shm has_memory (negsuc n, p) = stopped p
  after_shm true (pos n, p) = after_msg (create_msg (with_lists p))
  after_shm false (pos n, p) = stopped (remove_shm (record p { used = []; free = [] }))

  -- `main` from `create_shm` on.
  unfoldable pub launch : Bool → Process → Launched
  unfolding create_shm create_msg remove_shm
  launch has_memory p = after_shm has_memory (create_shm p)

  -- `main` from the removal of the old objects on.
  unfoldable pub main : Bool → Bool → Process → Launched
  unfolding launch remove_shm remove_msg
  main rflag has_memory p = launch has_memory (if rflag then remove_msg (remove_shm p) else p)
