-- ===== src/Format/Ticks.antt =====
-- The counters of src/router/tools/check_format_lib.c after they are counted up.
use udaq.Base.{ℕ, ◌+◌, ◌≡◌, refl, true, false, arith}
use udaq.Format.Counters.{bump}
use udaq.Format.State.{Checker, tick, tick_if}
use udaq.Format.Encode.{hits}

pub tick-counter : (i : ℕ) (s : Checker) (j : ℕ) → (tick i s).counter j ≡ s.counter j + hits i j
unfolding tick bump
tick-counter i s j = ground arith

pub tick_none : (i : ℕ) (s : Checker) (j : ℕ) → (tick_if false i s).counter j ≡ s.counter j
unfolding tick_if
tick_none i s j = refl

pub tick_some :
    (i : ℕ) (s : Checker) (j : ℕ) → (tick_if true i s).counter j ≡ s.counter j + hits i j
unfolding tick_if
tick_some i s j = tick-counter i s j
