-- ===== src/Router/Holds.antt =====
-- The steps on the lists of processes and nodes by which src/router/src/listen.c hands buffers out
-- and takes them back, and its statistics.
use udaq.Base.{
  ℕ, ◌+◌, ◌-◌, ◌*◌, ◌/◌, Bool, false, not, ◌&&◌, ◌||◌, Option, none, some, List, [], ◌∷◌, ◌++◌, leb,
  ◌==◌, if◌then◌else◌, ℤ, pos, dec,
}
use udaq.Router.Shm.{Shm, shm_free_insert}
use udaq.Router.Protocol.{is_writer, is_sampler}
use udaq.Router.State.{Proc, Stats, Router}

-- `RTR_MAXSAMPBUF`, `RTR_MAXSENDBUF` and `RTR_MAXWRITEBUF`
abbrev pub max_samp_buf : ℕ
max_samp_buf = 30

abbrev pub max_send_buf : ℕ
max_send_buf = 100

abbrev pub max_write_buf : ℕ
max_write_buf = 5

-- A release for which the source passes the size -1: only a size above 0 has an effect.
abbrev pub no_size : ℕ
no_size = 0

unfoldable pub remove_first : ℕ → List ℕ → Option (List ℕ)
remove_first b [] = none
remove_first b (c ∷ cs) =
    if c == b then some cs else elim (remove_first b cs) [ none ↦ none | some r ↦ some (c ∷ r) ]

-- `if(pl_remove_buf(pl, buf)==0){ if(pl->cnt>0) pl->cnt--; }`
unfoldable pub pl_remove_buf : ℕ → Proc → Proc
unfolding remove_first
pl_remove_buf buf p = elim (remove_first buf p.bl) [
  | none ↦ p
  | some rest ↦ record p { bl = rest; cnt = p.cnt - 1 }
]

-- `insert_item(&pl->bl, bl); pl->cnt++; pl->cnt_total++;`
unfoldable pub pl_add_buf : ℕ → Proc → Proc
pl_add_buf buf p = record p { bl = p.bl ++ buf ∷ []; cnt = p.cnt + 1; cnt_total = p.cnt_total + 1 }

-- A reader that must have every buffer, and has as many as it may.
abbrev pub is_full_reader : Proc → Bool
is_full_reader p = not (is_writer p.flag || is_sampler p.flag) && leb max_send_buf p.cnt

unfoldable pub check_max_buf : List Proc → Bool
check_max_buf [] = false
check_max_buf (p ∷ ps) = is_full_reader p || check_max_buf ps

unfoldable pub count_in : ℕ → Stats → Stats
count_in size s = record s {
  in_blocks = s.in_blocks + 1;
  in_kbytes = s.in_kbytes + (s.in_bytes + size) / 1024;
  in_bytes = s.in_bytes + size - (s.in_bytes + size) / 1024 * 1024;
}

unfoldable pub count_out : ℕ → Stats → Stats
count_out size s = record s {
  out_blocks = s.out_blocks + 1;
  out_kbytes = s.out_kbytes + (s.out_bytes + size) / 1024;
  out_bytes = s.out_bytes + size - (s.out_bytes + size) / 1024 * 1024;
}

-- The node that `get_shm` returns is the last of the used list.
unfoldable pub bump_last : List Shm → List Shm
bump_last [] = []
bump_last (s ∷ []) = record s { count = s.count + 1 } ∷ []
bump_last (s ∷ t ∷ ss) = s ∷ bump_last (t ∷ ss)

unfoldable pub drop_last : List Shm → List Shm
drop_last [] = []
drop_last (s ∷ []) = []
drop_last (s ∷ t ∷ ss) = s ∷ drop_last (t ∷ ss)

-- The first node of the used list at a position, with the nodes before and behind it.
unfoldable pub find_used : ℕ → List Shm → Option (List Shm × Shm × List Shm)
find_used buf [] = none
find_used buf (s ∷ ss) = if s.buf == buf then some ([], s, ss) else elim (find_used buf ss) [
  | none ↦ none
  | some (before, t, after) ↦ some (s ∷ before, t, after)
]

-- `shm->count--; if(shm->count<=0){ shm->count = 0; remove_item(shm); shm_free_insert(shm); }` and
-- `msg_count--`.
unfoldable pub drop_ref : List Shm → Shm → List Shm → Router → ℤ × Router
drop_ref before shm after r =
    if leb shm.count 1
    then (
      pos 0,
      record r {
        used = before ++ after;
        free = (shm_free_insert (record shm { count = 0 }) r.free).1;
        msg_count = dec r.msg_count;
      },
    )
    else (
      pos 0,
      record r {
        used = before ++ (record shm { count = shm.count - 1 } ∷ after);
        msg_count = dec r.msg_count;
      },
    )
