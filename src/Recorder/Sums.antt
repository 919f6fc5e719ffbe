-- ===== src/Recorder/Sums.antt =====
-- The report of src/router/tools/router_save.c at the end of a run.
use udaq.Base.{
  ℕ, ◌≡◌, ◌≢◌, refl, ◌∙◌, ◌&&◌, List, [], ◌∷◌, length, not, if-either, Bool-cases, Option-cases,
  inl, inr,
}
use udaq.Transfer.{take}
use udaq.Recorder.{
  Totals, check_buf, Recorder, Turn, Options, save_blocks, save, is_full, after_save, released_size,
  image,
}
use udaq.Recorder.Assign.{
  Kind, blk_unknown, blk_start, blk_end, blk_middle, blk_data, blk_scaler, assign_j11,
  assign_j11-ne,
}

check_buf-reported :
    (kind : Kind) (n : ℕ) (t : Totals) → kind ≢ blk_end → (check_buf kind n t).reported ≡ t.reported
unfolding check_buf
check_buf-reported blk_unknown n t h = refl
check_buf-reported blk_start n t h = refl
check_buf-reported blk_end n t h = absurd (h refl)
check_buf-reported blk_middle n t h = refl
check_buf-reported blk_data n t h = refl
check_buf-reported blk_scaler n t h = refl

module _ (max_size : ℕ) (o : Options) where
  after_save-reported :
      (s : Recorder) → (after_save max_size o s).totals.reported ≡ s.totals.reported
  after_save-reported s =
      if-either (λ (u : Recorder). u.totals.reported ≡ s.totals.reported) (is_full max_size o s)
        refl refl

  -- Whatever blocks come, no run is ever reported.
  pub save_blocks-reported :
      (turns : List Turn) (r : Recorder)
      → (save_blocks max_size o turns r).0.totals.reported ≡ r.totals.reported
  unfolding save_blocks
  save_blocks-reported [] r = refl
  save_blocks-reported (turn ∷ turns) r = elim (Option-cases turn.buf) [
    | inl e ↦ rw (e, save_blocks) refl
    | inr (buf, e) ↦
        let s = save max_size o buf turn.stored r in
        let kept =
          check_buf-reported (assign_j11 (take (released_size max_size o buf) buf))
            (length (image max_size o buf)) r.totals
            (assign_j11-ne (take (released_size max_size o buf) buf)).1 in
        elim (Bool-cases turn.release_ok) [
          | inr f ↦ rw (e, f, save_blocks) kept
          | inl f ↦ elim (Bool-cases (is_full max_size o s && not turn.fopen_ok)) [
            | inl g ↦ rw (e, f, g, save_blocks) kept
            | inr g ↦
                rw (e, f, g, save_blocks)
                  (save_blocks-reported turns (after_save max_size o s)
                    ∙ after_save-reported s
                    ∙ kept)
          ]
        ]
  ]
