-- ===== src/Format/Block/Ends.antt =====
-- When check_buf of src/router/tools/check_format_lib.c comes to an end.
use udaq.Base.{ℕ, ◌+◌, ◌-◌, ◌<◌, ◌≡◌, refl, some, arith, inl, inr, Bool-cases}
use udaq.Format.{Memory}
use udaq.Format.State.{Layout, Checker, evt_header_id, fld_header_id}
use udaq.Format.Events.Ends.{check_evts-returns}
use udaq.Format.Block.{is_information, check_blk_header, check_buf}

module _ (layout : Layout) (show_itvl : ℕ) (mem : Memory) where
  -- Where no header of an event or of a field in the memory has both sizes 0, the check of a block ends,
  -- whatever its words are, with as many rounds in each loop as the block has words, and one.
  pub check_buf-returns :
      (moves : (q : ℕ) → mem q ≡ fld_header_id → 0 < mem (q + 1) + mem (q + 3))
      (moves' : (q : ℕ) → mem q ≡ evt_header_id → 0 < mem (q + 1) + mem (q + 3)) (fuel buf size : ℕ)
      (s : Checker)
      → size < fuel
      → (t : Checker) × (check_buf layout show_itvl mem fuel buf size s ≡ some t)
  unfolding check_buf
  check_buf-returns moves moves' fuel buf size s l =
      elim (Bool-cases (is_information layout show_itvl mem (mem (buf + 2)))) [
        | inl e ↦ rw (e, check_buf) (_, refl)
        | inr e ↦
            let header = check_blk_header layout show_itvl mem buf size s in
            let (c, run) =
              check_evts-returns layout show_itvl mem moves moves' fuel (buf + 8) (buf + size - 2)
                header (omega (arith, l)) (omega (arith, l)) in
            rw (e, check_buf) (rw run (_, refl))
      ]
