-- ===== src/Router/State.antt =====
-- The state of the router: the globals of src/router/src/router.c and src/router/src/listen.c.
use udaq.Base.{ℕ, Bool, true, false, Option, none, some, List, [], ◌∷◌, ◌==◌, if◌then◌else◌, ℤ, pos}
use udaq.Router.Shm.{Shm, init_shm}
use udaq.Router.Protocol.{Msg}
use udaq.Router.Outbox.{Outbox}

-- `rtr_proc_t`. The list `bl` holds pointers to nodes of the used list; a pointer is recorded by the
-- position of its node, which does not change while the node is in use. The times of connection and
-- of the last access, which are only displayed, are left out.
pub record Proc : Type 0 where
  pub pid : ℕ
  pub flag : ℕ
  pub cnt : ℕ
  pub cnt_total : ℕ
  pub bl : List ℕ

-- `status[NumStat]`
pub record Stats : Type 0 where
  pub in_kbytes : ℕ
  pub in_bytes : ℕ
  pub out_kbytes : ℕ
  pub out_bytes : ℕ
  pub in_blocks : ℕ
  pub out_blocks : ℕ

unfoldable pub init_stat : Stats
init_stat = record {
  in_kbytes = 0;
  in_bytes = 0;
  out_kbytes = 0;
  out_bytes = 0;
  in_blocks = 0;
  out_blocks = 0;
}

-- `inbox` is the system's queue `msg_id_in`, `inbox_open` says whether it still exists, `pending` the
-- ring `mb_head`, and `allocs` counts the calls of `malloc`.
pub record Router : Type 0 where
  pub pl : List Proc
  pub used : List Shm
  pub free : List Shm
  pub shmsize : ℕ
  pub msg_count : ℤ
  pub outbox : Outbox
  pub inbox : List Msg
  pub inbox_open : Bool
  pub pending : List Msg
  pub allocs : ℕ
  pub stats : Stats
  pub end_flag : Bool

-- The state in which `main` calls `listen`.
unfoldable pub start : ℕ → Router
start shmsize = record {
  pl = [];
  used = (init_shm shmsize).0;
  free = (init_shm shmsize).1;
  shmsize = shmsize;
  msg_count = pos 0;
  outbox = record { que = []; que_count = 0; kernel = []; calls = 0 };
  inbox = [];
  inbox_open = true;
  pending = [];
  allocs = 0;
  stats = init_stat;
  end_flag = false;
}

-- The loop that looks a process up: the first with the pid, or none (`pl==pl_head`).
unfoldable pub find_proc : ℕ → List Proc → Option Proc
find_proc pid [] = none
find_proc pid (p ∷ ps) = if p.pid == pid then some p else find_proc pid ps

-- The head node of the ring has flag 0.
abbrev pub flag_or_head : Option Proc → ℕ
flag_or_head none = 0
flag_or_head (some p) = p.flag

-- The processes with `f` applied to the first that has the pid.
unfoldable pub at_proc : (Proc → Proc) → ℕ → List Proc → List Proc
at_proc f pid [] = []
at_proc f pid (p ∷ ps) = if p.pid == pid then f p ∷ ps else p ∷ at_proc f pid ps
