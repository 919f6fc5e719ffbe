-- ===== src/Client/Desc.antt =====
-- The table of connections: `rtr_desc_t`, open_fd, check_fd, close_fd and get_shmbuf of
-- src/router/src/router_lib.c. Messages to the user are left out.
use udaq.Base.{
  ℕ, zero, suc, Bool, true, false, Option, none, some, List, [], ◌∷◌, leb, if◌then◌else◌, ℤ, pos,
  negsuc,
}
use mathlib.Core.Option
use udaq.Router.Protocol.{Msg, other}

-- `MNODESC`
abbrev pub mnodesc : ℕ
mnodesc = 8

-- `rtr_desc_t`; `shm_buf` is none where the source has (char*)-1.
pub record Desc : Type 0 where
  pub is_open : Bool
  pub is_connected : Bool
  pub key : ℕ
  pub key_in : ℕ
  pub key_out : ℕ
  pub msg_id_in : ℤ
  pub msg_id_out : ℤ
  pub shm_id : ℤ
  pub shm_buf : Option ℕ
  pub fmode : ℕ
  pub msg_snd : Msg
  pub msg_rcv : Msg

-- The table, none before the first `malloc`, the messages that were sent, each with its queue, and the
-- error code that was set last.
pub record Client : Type 0 where
  pub desc : Option (List Desc)
  pub posted : List (ℤ × Msg)
  pub errno : ℤ

abbrev pub blank_msg : Msg
blank_msg = record { mtype = 0; pid = 0; cmd = other 0; arg0 = 0; arg1 = 0; arg2 = 0 }

-- What `open_fd` sets of a node, which keeps its messages.
abbrev pub reset : Desc → Desc
reset d = record d {
  is_open = true;
  is_connected = true;
  key = 0;
  key_in = 0;
  key_out = 0;
  msg_id_in = negsuc 0;
  msg_id_out = negsuc 0;
  shm_id = negsuc 0;
  shm_buf = none;
  fmode = 0;
}

-- A node as `malloc` gives it and `open = 0` marks it; the rest of it is never read before it is set.
abbrev pub blank : Desc
blank = record {
  is_open = false;
  is_connected = false;
  key = 0;
  key_in = 0;
  key_out = 0;
  msg_id_in = negsuc 0;
  msg_id_out = negsuc 0;
  shm_id = negsuc 0;
  shm_buf = none;
  fmode = 0;
  msg_snd = blank_msg;
  msg_rcv = blank_msg;
}

abbrev pub blanks : ℕ → List Desc
blanks zero = []
blanks (suc n) = blank ∷ blanks n

-- The first closed node, opened, with its number.
unfoldable pub take_closed : List Desc → Option (ℕ × List Desc)
take_closed [] = none
take_closed (d ∷ ds) =
    let rest = take_closed ds in
    if d.is_open
    then Option.map (λ (t : ℕ × List Desc). (suc t.0, d ∷ t.1)) rest
    else some (0, reset d ∷ ds)

unfoldable pub place_fd : List Desc → Option (ℕ × List Desc) → Client → ℤ × Client
place_fd ds none c = (negsuc 0, record c { desc = some ds })
place_fd ds (some (fd, es)) c = (pos fd, record c { desc = some es })

-- `open_fd`. The flag says whether `malloc` gives the table, where there is none yet.
unfoldable pub open_fd : Bool → Client → ℤ × Client
unfolding take_closed place_fd
open_fd has_memory c = elim c.desc [
  | some ds ↦ place_fd ds (take_closed ds) c
  | none ↦
      if has_memory
      then place_fd (blanks mnodesc) (take_closed (blanks mnodesc)) c
      else (negsuc 0, c)
]

unfoldable pub get_desc : ℕ → List Desc → Option Desc
get_desc n [] = none
get_desc zero (d ∷ ds) = some d
get_desc (suc n) (d ∷ ds) = get_desc n ds

abbrev pub if_open : Option Desc → Option Desc
if_open none = none
if_open (some d) = if d.is_open then some d else none

abbrev pub desc_at : ℕ → Option (List Desc) → Option Desc
desc_at n none = none
desc_at n (some ds) = if_open (get_desc n ds)

-- `check_fd`: the node where the source returns 0, none where it returns -1.
unfoldable pub check_fd : ℤ → Client → Option Desc
unfolding get_desc
check_fd (negsuc n) c = none
check_fd (pos n) c = if leb mnodesc n then none else desc_at n c.desc

abbrev pub set_nth : ℕ → (Desc → Desc) → List Desc → List Desc
set_nth n f [] = []
set_nth zero f (d ∷ ds) = f d ∷ ds
set_nth (suc n) f (d ∷ ds) = d ∷ set_nth n f ds

-- An assignment to fields of `desc[fd]`.
unfoldable pub set_desc : ℤ → (Desc → Desc) → Client → Client
set_desc (negsuc n) f c = c
set_desc (pos n) f c = record c {
  desc = elim c.desc [ none ↦ none | some ds ↦ some (set_nth n f ds) ];
}

abbrev pub mark_closed : Desc → Desc
mark_closed d = record d { is_open = false }

unfoldable pub close_fd : ℤ → Client → ℤ × Client
unfolding check_fd set_desc
close_fd fd c = elim (check_fd fd c) [
  | none ↦ (negsuc 0, c)
  | some d ↦ (pos 0, set_desc fd mark_closed c)
]

-- `get_shmbuf`; none is the null pointer, and some none is (void*)-1.
unfoldable pub get_shmbuf : ℤ → Client → Option (Option ℕ)
unfolding check_fd
get_shmbuf fd c = Option.map (λ (d : Desc). d.shm_buf) (check_fd fd c)
