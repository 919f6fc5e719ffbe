-- ===== src/Router/Protocol.antt =====
-- The messages between the router and its clients: src/router/header/router.h. Names of processes,
-- which are only displayed, are left out.
use udaq.Base.{ℕ, ◌*◌, ◌/◌, ◌%◌, Bool, ◌==◌}

-- The commands `RTR_CONNECT` to `RTR_TERMINATE`; `other` is any other number.
pub data Cmd : Type 0 where
  connect disconnect refuse buffer release getbuf suspend status terminate : Cmd
  other : ℕ → Cmd

-- `rtr_msg_t`
pub record Msg : Type 0 where
  pub mtype : ℕ
  pub pid : ℕ
  pub cmd : Cmd
  pub arg0 : ℕ
  pub arg1 : ℕ
  pub arg2 : ℕ

-- `RTR_MTYPE_ROUTER`
abbrev pub mtype_router : ℕ
mtype_router = 1

-- `ROUTER_VERSION` and `ROUTER_VERSION_MIN`, (3<<8)|0
abbrev pub router_version : ℕ
router_version = 3 * 256

abbrev pub router_version_min : ℕ
router_version_min = 3 * 256

-- The open modes `O_ALL` (which is `O_RDONLY`), `O_WRONLY` and `O_SAMPLE`.
abbrev pub o_all : ℕ
o_all = 0

abbrev pub o_wronly : ℕ
o_wronly = 1

abbrev pub o_sample : ℕ
o_sample = 8

-- `flag & O_WRONLY` and `flag & O_SAMPLE`
abbrev pub is_writer : ℕ → Bool
is_writer flag = flag % 2 == 1

abbrev pub is_sampler : ℕ → Bool
is_sampler flag = flag / 8 % 2 == 1
