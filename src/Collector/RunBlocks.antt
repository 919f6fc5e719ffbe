-- ===== src/Collector/RunBlocks.antt =====
-- The blocks at the start and at the end of a run: encode_run_start and encode_run_end of src/gr/grlib.c.
use udaq.Base.{
  ℕ, ◌+◌, ◌-◌, ◌/◌, ◌%◌, Option, none, some, List, [], ◌∷◌, ◌++◌, length, ◌==◌, if◌then◌else◌,
}
use udaq.Collector.{zeros}

-- `cmd_msgbuf_t`, of what goes into the blocks. `comment` has MAX_MSG characters.
pub record CmdMsgbuf : Type 0 where
  pub run : ℕ
  pub comment : List ℕ

-- The words of the comment up to its end; none where no 0 is in it, where the code goes on from a position that
-- was never set.
unfoldable pub comment_words : List ℕ → Option (List ℕ)
comment_words [] = none
comment_words (c ∷ cs) =
    let rest = comment_words cs in
    if c == 0 then some [] else elim rest [ none ↦ none | some ws ↦ some (c ∷ ws) ]

abbrev pub blk_header_start : ℕ
blk_header_start = 3841

abbrev pub blk_header_end : ℕ
blk_header_end = 3842

-- The words in front of the comment, with the time in seconds.
abbrev pub run_header : ℕ → ℕ → ℕ → ℕ → List ℕ
run_header id size time run =
    65535
    ∷ 6
    ∷ id
    ∷ ((size - 6) % 65536)
    ∷ 0
    ∷ 0
    ∷ 0
    ∷ 1024
    ∷ 772
    ∷ 258
    ∷ (time / 65536 % 65536)
    ∷ (time % 65536)
    ∷ (run % 65536)
    ∷ []

-- The block in `size` words, which are more than the header, the comment and the trailer take.
unfoldable pub encode_run : ℕ → ℕ → ℕ → CmdMsgbuf → Option (List ℕ)
encode_run id size time mb = elim (comment_words mb.comment) [
  | none ↦ none
  | some ws ↦ some (
      run_header id size time mb.run ++ (ws ++ (zeros (size - (15 + length ws)) ++ 65519 ∷ 2 ∷ [])))
]

abbrev pub encode_run_start : ℕ → ℕ → CmdMsgbuf → Option (List ℕ)
encode_run_start = encode_run blk_header_start

abbrev pub encode_run_end : ℕ → ℕ → CmdMsgbuf → Option (List ℕ)
encode_run_end = encode_run blk_header_end
