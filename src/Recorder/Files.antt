-- ===== src/Recorder/Files.antt =====
-- The files that src/router/tools/router_save.c writes.
use udaq.Base.{
  ℕ, zero, suc, ◌+◌, ◌≤◌, ◌<◌, ◌≡◌, refl, sym, ap, ◌∙◌, Bool, true, false, ◌&&◌, none, some, List,
  [], ◌∷◌, ◌++◌, length, length-append, not, leb, if-either, Bool-cases, inl, inr, arith, All,
  All-append,
}
use mathlib.Core.List.{append_assoc, append-nil}
use udaq.Tcp.Blocks.{joined}
use udaq.Transfer.{take}
use udaq.Recorder.{Recorder, Turn, Options, waits, save_blocks, save, is_full, after_save, image}

joined-append : (cs ds : List (List ℕ)) → joined (cs ++ ds) ≡ joined cs ++ joined ds
joined-append [] ds = refl
joined-append (c ∷ cs) ds =
    ap (λ u. c ++ u) (joined-append cs ds) ∙ sym (append_assoc c (joined cs) (joined ds))

take-all : (n : ℕ) (x : List ℕ) → length x ≤ n → take n x ≡ x
take-all zero [] h = refl
take-all (suc n) [] h = refl
take-all zero (a ∷ x) h = absurd (omega (arith, h))
take-all (suc n) (a ∷ x) h = ap (λ u. a ∷ u) (take-all n x (omega (arith, h)))

and_false : (b : Bool) → (b && not true) ≡ false
and_false true = refl
and_false false = refl

module _ (max_size limit : ℕ) (o : Options) where
  -- A round without an error: a buffer of at most `limit` bytes to write, all of which reach the file.
  abbrev pub IsFine : Turn → Type 0
  IsFine turn =
      (buf : List ℕ) × (turn.buf ≡ some buf)
      × (length (image max_size o buf) ≤ turn.stored)
      × (length (image max_size o buf) ≤ limit)
      × (turn.release_ok ≡ true)
      × (turn.fopen_ok ≡ true)

  abbrev pub AreFine : List Turn → Type 0
  AreFine [] = Unit {0}
  AreFine (turn ∷ turns) = IsFine turn × AreFine turns

  -- What is to be written in all rounds.
  abbrev pub images : List Turn → List ℕ
  images [] = []
  images (turn ∷ turns) =
      (elim turn.buf [ none ↦ [] | some buf ↦ image max_size o buf ]) ++ images turns

  -- All that was written.
  abbrev pub recorded : Recorder → List ℕ
  recorded r = joined r.closed ++ r.file

  -- A file that was closed is full, and no larger than the block that filled it made it.
  abbrev pub IsFull : List ℕ → Type 0
  IsFull file = (max_size ≤ length file) × (length file < max_size + limit)

  abbrev pub IsRecorder : Recorder → Type 0
  IsRecorder r =
      (r.count ≡ length r.file)
      × ((o.cflag && o.named) ≡ true → length r.file < max_size)
      × All IsFull r.closed

  recorded-save :
      (buf : List ℕ) (stored : ℕ) (r : Recorder)
      → length (image max_size o buf) ≤ stored
      → recorded (save max_size o buf stored r) ≡ recorded r ++ image max_size o buf
  recorded-save buf stored r h =
      ap (λ u. joined r.closed ++ (r.file ++ u)) (take-all stored (image max_size o buf) h)
      ∙ sym (append_assoc (joined r.closed) r.file (image max_size o buf))

  recorded-after_save : (s : Recorder) → recorded (after_save max_size o s) ≡ recorded s
  recorded-after_save s =
      if-either (λ u. recorded u ≡ recorded s) (is_full max_size o s)
        (append-nil (joined (s.closed ++ s.file ∷ []))
          ∙ joined-append s.closed (s.file ∷ [])
          ∙ ap (λ u. joined s.closed ++ u) (append-nil s.file))
        refl

  save-count :
      (buf : List ℕ) (stored : ℕ) (r : Recorder)
      → length (image max_size o buf) ≤ stored
      → r.count ≡ length r.file
      → (save max_size o buf stored r).count ≡ length (save max_size o buf stored r).file
  save-count buf stored r h c = omega (
    arith,
    c,
    length-append r.file (take stored (image max_size o buf)),
    ap length (take-all stored (image max_size o buf) h),
  )

  after_save-IsRecorder :
      (s : Recorder)
      → s.count ≡ length s.file
      → ((o.cflag && o.named) ≡ true → length s.file < max_size + limit)
      → All IsFull s.closed
      → 0 < max_size
      → IsRecorder (after_save max_size o s)
  after_save-IsRecorder s c u a p = elim (Bool-cases (o.cflag && o.named)) [
    | inr e ↦ rw e (c, (λ f. cc), a)
    | inl e ↦ elim (Bool-cases (leb max_size s.count)) [
      | inl f ↦
          rw (e, f)
            (
              refl,
              (λ g. p),
              All-append IsFull s.closed (s.file ∷ []) a ((ground (arith, f, c), u e), tt),
            )
      | inr f ↦ rw (e, f) (c, (λ g. ground (arith, f, c)), a)
    ]
  ]

  -- Where all rounds are without an error the loop goes on, and the files that were closed and the open one hold, one
  -- after the other, what they held before and then every block in its order, as it is or in `bsize` bytes. Where
  -- the option is set and a file is named, every file that was closed has at least `MAXSIZE` bytes and less than
  -- that and a block, and the open one has less than `MAXSIZE`.
  pub save_blocks-files :
      (turns : List Turn) (r : Recorder)
      → 0 < max_size
      → AreFine turns
      → IsRecorder r
      → ((save_blocks max_size o turns r).1 ≡ waits)
        × (recorded (save_blocks max_size o turns r).0 ≡ recorded r ++ images turns)
        × IsRecorder (save_blocks max_size o turns r).0
  unfolding save_blocks
  save_blocks-files [] r p fine v = (refl, sym (append-nil (recorded r)), v)
  save_blocks-files (turn ∷ turns) r p ((buf, e, h, l, f, g), fine) (c, u, a) =
      let s = save max_size o buf turn.stored r in
      let new = ap length (take-all turn.stored (image max_size o buf) h) in
      let grown : (o.cflag && o.named) ≡ true → length s.file < max_size + limit = λ t.
        omega
          (arith, u t, l, new, length-append r.file (take turn.stored (image max_size o buf))) in
      let v = after_save-IsRecorder s (save-count buf turn.stored r h c) grown a p in
      let (w, x, y) = save_blocks-files turns (after_save max_size o s) p fine v in
      let goes : (is_full max_size o s && not turn.fopen_ok) ≡ false =
        rw g (and_false (is_full max_size o s)) in
      (
        rw (e, f, goes, save_blocks) w,
        rw (e, f, goes, save_blocks)
            (x
              ∙ ap (λ b. b ++ images turns)
                  (recorded-after_save s ∙ recorded-save buf turn.stored r h)
              ∙ append_assoc (recorded r) (image max_size o buf) (images turns)),
        rw (e, f, goes, save_blocks) y,
      )
