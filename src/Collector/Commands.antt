-- ===== src/Collector/Commands.antt =====
-- The commands of collect_cmd in src/gr/grcollect.c, for a message that was read.
pub mod Early
pub mod Start
use udaq.Base.{ℕ, ◌*◌, ◌/◌, ◌%◌, ◌^◌, ◌||◌, Option, none, some, ◌==◌, not, if◌then◌else◌}
use udaq.Collector.RunBlocks.{CmdMsgbuf}
use udaq.Collector.Loop.{Status, run_start, run_off, run_on, run_stop, Collector}

pub data Command : Type 0 where
  gr_cmd_start gr_cmd_stop gr_cmd_exit gr_cmd_reset gr_cmd_undefined : Command

abbrev pub next_status : Command → Status → Status
next_status gr_cmd_start run_off = run_start
next_status gr_cmd_stop run_on = run_stop
next_status gr_cmd_stop run_start = run_stop
next_status _ status = status

-- `mb.run = (dumStr[1]<<24) || (dumStr[0]<<16) || (dumStr[3]<<8) || (dumStr[2]);`
unfoldable pub swap_run : ℕ → ℕ
swap_run run =
    let byte = λ (n : ℕ). run / 2 ^ (8 * n) % 256 in
    if not (byte 2 == 0) || not (byte 3 == 0) || not (byte 0 == 0) || not (byte 1 == 0)
    then 1
    else 0

-- The message is read over the last one before anything is tested; none where the process exits.
unfoldable pub collect_cmd : Command → CmdMsgbuf → Collector → Option Collector
collect_cmd gr_cmd_exit mb s = none
collect_cmd command mb s =
    some
      (record s { mb = record mb { run = swap_run mb.run }; status = next_status command s.status })
