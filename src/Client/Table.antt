-- ===== src/Client/Table.antt =====
-- How many descriptors are open: open_fd, close_fd, router_connect and router_disconnect of
-- src/router/src/router_lib.c.
pub mod Connect
use udaq.Base.{
  ℕ, zero, suc, ◌+◌, ◌<◌, ◌≡◌, ◌⊎◌, ◌∙◌, inl, inr, refl, ap, sym, Bool, true, false, Option, none,
  some, List, [], ◌∷◌, ◌==◌, leb, if◌then◌else◌, ℤ, pos, negsuc, same, length, arith, Bool-cases,
  Option-cases, if-either, ◌||◌,
}
use mathlib.Core.Path.{subst}
use udaq.Router.Protocol.{Msg, disconnect, o_all, o_sample, o_wronly, is_writer}
use udaq.Client.Desc.{
  Desc, Client, open_fd, check_fd, set_desc, close_fd, mnodesc, take_closed, place_fd, set_nth,
  get_desc, blanks, mark_closed, if_open,
}
use udaq.Client.Session.{
  Received, System, router_connect, router_disconnect, hang_up, after_open, call_router, wait_reply,
  attach, receive, fail, send_out, command, detach, write_msg, keyed, with_out, connect_msg,
  is_connect,
}

-- How many nodes of the table are open.
abbrev open_nodes : List Desc → ℕ
open_nodes [] = 0
open_nodes (d ∷ ds) = (if d.is_open then 1 else 0) + open_nodes ds

abbrev pub opens : Client → ℕ
opens c = elim c.desc [ none ↦ 0 | some ds ↦ open_nodes ds ]

-- The table has its eight nodes once it is there.
abbrev pub IsSized : Client → Type 0
IsSized c = elim c.desc [ none ↦ Unit {0} | some ds ↦ length ds ≡ mnodesc ]

abbrev open_at : ℕ → List Desc → Bool
open_at n [] = false
open_at zero (d ∷ ds) = d.is_open
open_at (suc n) (d ∷ ds) = open_at n ds

-- `k` nodes are open beside the node `n`.
abbrev Beside : ℕ → ℕ → List Desc → Type 0
Beside k n ds = (open_nodes ds ≡ k + 1) × (open_at n ds ≡ true) × (length ds ≡ mnodesc)

abbrev InTable : ℕ → ℕ → Option (List Desc) → Type 0
InTable k n none = false ≡ true
InTable k n (some ds) = Beside k n ds

abbrev Holding : ℕ → ℕ → Client → Type 0
Holding k n c = (n < mnodesc) × InTable k n c.desc

take_closed-Beside :
    (ds : List Desc) (n : ℕ) (es : List Desc)
    → take_closed ds ≡ some (n, es)
    → (open_nodes es ≡ open_nodes ds + 1)
      × (open_at n es ≡ true)
      × (length es ≡ length ds)
      × (n < length ds)
unfolding take_closed
take_closed-Beside [] n es h = ground (arith, h)
take_closed-Beside (d ∷ ds) n es h = elim (Option-cases (take_closed ds)) [
  | inl e ↦ let h' = rw e at h in ground (arith, h')
  | inr ((m, fs), e) ↦
      let ih = take_closed-Beside ds m fs e in let h' = rw e at h in ground (arith, ih, h')
]

set_nth-open :
    (n : ℕ) (f : Desc → Desc) (ds : List Desc)
    → ((d : Desc) → (f d).is_open ≡ d.is_open)
    → (open_nodes (set_nth n f ds) ≡ open_nodes ds)
      × (open_at n (set_nth n f ds) ≡ open_at n ds)
      × (length (set_nth n f ds) ≡ length ds)
set_nth-open n f [] h = ground arith
set_nth-open zero f (d ∷ ds) h = ground (arith, h d)
set_nth-open (suc n) f (d ∷ ds) h = ground (arith, set_nth-open n f ds h)

set_nth-closed :
    (n : ℕ) (ds : List Desc)
    → open_at n ds ≡ true
    → (open_nodes (set_nth n mark_closed ds) + 1 ≡ open_nodes ds)
      × (length (set_nth n mark_closed ds) ≡ length ds)
set_nth-closed n [] h = ground (arith, h)
set_nth-closed zero (d ∷ ds) h = ground (arith, h)
set_nth-closed (suc n) (d ∷ ds) h = ground (arith, set_nth-closed n ds h)

set_desc-Holding :
    (k n : ℕ) (f : Desc → Desc) (c : Client)
    → ((d : Desc) → (f d).is_open ≡ d.is_open)
    → Holding k n c
    → Holding k n (set_desc (pos n) f c)
unfolding set_desc
set_desc-Holding k n f c h v = elim (Option-cases c.desc) [
  | inl e ↦ let v' = rw e at v in ground (arith, v')
  | inr (ds, e) ↦ let v' = rw e at v in rw (e, set_desc) (ground (arith, v', set_nth-open n f ds h))
]

get_desc-open :
    (n : ℕ) (ds : List Desc)
    → open_at n ds ≡ true
    → (d : Desc) × (get_desc n ds ≡ some d) × (d.is_open ≡ true)
unfolding get_desc
get_desc-open n [] h = ground (arith, h)
get_desc-open zero (d ∷ ds) h = (d, refl, h)
get_desc-open (suc n) (d ∷ ds) h = get_desc-open n ds h

check_fd-Holding :
    (k n : ℕ) (c : Client) → Holding k n c → (d : Desc) × (check_fd (pos n) c ≡ some d)
unfolding check_fd
check_fd-Holding k n c v = elim (Option-cases c.desc) [
  | inl e ↦ let v' = rw e at v in ground (arith, v')
  | inr (ds, e) ↦
      let v' = rw e at v in
      let (d, g, o) = get_desc-open n ds v'.1.1 in
      (d, rw (e, check_fd) (rw g (ground (arith, v'.0, o))))
]

-- A node that is given back is closed, and no other.
close_fd-Holding :
    (k n : ℕ) (c : Client)
    → Holding k n c
    → (opens (close_fd (pos n) c).1 ≡ k) × IsSized (close_fd (pos n) c).1
unfolding close_fd set_desc
close_fd-Holding k n c v =
    let (d, g) = check_fd-Holding k n c v in
    rw (g, close_fd)
      (elim (Option-cases c.desc) [
        | inl e ↦ let v' = rw e at v in ground (arith, v')
        | inr (ds, e) ↦ let v' = rw e at v in rw e (ground (arith, v', set_nth-closed n ds v'.1.1))
      ])

get_desc-set_nth :
    (n : ℕ) (f : Desc → Desc) (ds : List Desc) (d : Desc)
    → get_desc n ds ≡ some d
    → get_desc n (set_nth n f ds) ≡ some (f d)
unfolding get_desc
get_desc-set_nth n f [] d h = ground (arith, h)
get_desc-set_nth zero f (e ∷ ds) d h = ground (arith, h)
get_desc-set_nth (suc n) f (e ∷ ds) d h = get_desc-set_nth n f ds d h

abbrev flag : Option Desc → Bool
flag none = true
flag (some d) = d.is_open

kept :
    (b : Bool) (x d : Desc) → (if b then some x else none) ≡ some d → (b ≡ true) × (some x ≡ some d)
kept true x d h = (refl, h)
kept false x d h = ground (arith, h)

found :
    (n : ℕ) (d : Desc) (o : Option Desc)
    → (if leb mnodesc n then none else if_open o) ≡ some d
    → (o ≡ some d) × (d.is_open ≡ true) × (leb mnodesc n ≡ false)
found n d none h = elim (Bool-cases (leb mnodesc n)) [
  | inl e ↦ let h' = rw e at h in ground (arith, h')
  | inr e ↦ let h' = rw e at h in ground (arith, h')
]
found n d (some x) h = elim (Bool-cases (leb mnodesc n)) [
  | inl e ↦ let h' = rw e at h in ground (arith, h')
  | inr e ↦ let (o, k) = kept x.is_open x d (rw e at h) in (k, ap flag (sym k) ∙ o, e)
]

-- The node that was written is the one that is found.
pub check_fd-set_desc :
    (fd : ℤ) (f : Desc → Desc) (c : Client) (d : Desc)
    → ((e : Desc) → (f e).is_open ≡ e.is_open)
    → check_fd fd c ≡ some d
    → check_fd fd (set_desc fd f c) ≡ some (f d)
unfolding check_fd set_desc
check_fd-set_desc (negsuc n) f c d h g = ground (arith, g)
check_fd-set_desc (pos n) f c d h g = elim (Option-cases c.desc) [
  | inl e ↦ let g' = rw (e, check_fd) at g in ground (arith, g')
  | inr (ds, e) ↦
      let g' = rw (e, check_fd) at g in
      let (k, o, l) = found n d (get_desc n ds) g' in
      rw (e, check_fd) (rw (get_desc-set_nth n f ds d k) (rw (l, h d, o) refl))
]

pub set_desc-posted : (fd : ℤ) (f : Desc → Desc) (c : Client) → (set_desc fd f c).posted ≡ c.posted
unfolding set_desc
set_desc-posted (pos n) f c = refl
set_desc-posted (negsuc n) f c = refl
