-- ===== src/Startup/Tests.antt =====
-- The theorems about the start and the end of the router at concrete states.
use udaq.Base.{refl, true, [], pos, negsuc, if◌then◌else◌, ◌==◌}
use udaq.Startup.Objects.{Ipc, Process, launch}
use udaq.Startup.Ledger.{LeavesNothing, launch-LeavesNothing}

-- A system that makes no queue for the key 5.
abbrev system : Ipc
system = record {
  make_shm = λ k n. pos 1;
  find_shm = λ k. negsuc 0;
  drop_shm = λ id. true;
  make_msg = λ k. if k == 5 then negsuc 0 else pos 2;
  find_msg = λ k. negsuc 0;
  drop_msg = λ id. true;
}

abbrev fresh : Process
fresh = record {
  shm_key = 4;
  msg_key_in = 4;
  msg_key_out = 5;
  shmsize = 4096;
  shm_id = negsuc 0;
  msg_id_in = negsuc 0;
  msg_id_out = negsuc 0;
  used = [];
  free = [];
  changes = [];
}

launch-LeavesNothing_example : LeavesNothing system fresh (launch system true fresh)
launch-LeavesNothing_example = launch-LeavesNothing system true fresh (λ id. refl)
