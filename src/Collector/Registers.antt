-- ===== src/Collector/Registers.antt =====
-- The register that tells the hardware which buffers may be filled: src/vmelib/src/librpv.c.
use udaq.Base.{ℕ, Bool, true, false, Option, none, some, ◌==◌, if◌then◌else◌}

-- `rpv_current_level`, one field for each bit that is used.
pub record Level : Type 0 where
  pub buf1 : Bool
  pub buf2 : Bool
  pub veto : Bool

abbrev pub rpv_init : Level
rpv_init = record { buf1 = true; buf2 = true; veto = true }

abbrev pub rpv_ena : Level → Level
rpv_ena l = record l { veto = false }

abbrev pub rpv_dis : Level → Level
rpv_dis l = record l { veto = true }

-- none where the process exits.
unfoldable pub rpv_dis_buf : ℕ → Level → Option Level
rpv_dis_buf i_buf l =
    if i_buf == 1
    then some (record l { buf1 = false })
    else if i_buf == 2
    then some (record l { buf2 = false })
    else if i_buf == 3
    then some (record l { buf1 = false; buf2 = false })
    else none

unfoldable pub rpv_ena_buf : ℕ → Level → Option Level
rpv_ena_buf i_buf l =
    if i_buf == 1
    then some (record l { buf1 = true })
    else if i_buf == 2
    then some (record l { buf2 = true })
    else if i_buf == 3
    then some (record l { buf1 = true; buf2 = true })
    else none
