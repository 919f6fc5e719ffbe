-- ===== src/Router/Outbox.antt =====
-- The messages that wait to be sent to clients: que_msg and que_snd of src/router/src/listen.c.
pub mod Order
use udaq.Base.{
  ℕ, suc, ◌+◌, ◌-◌, Bool, true, false, List, [], ◌∷◌, ◌++◌, leb, if◌then◌else◌, ℤ, pos, negsuc,
  at_least,
}
use udaq.Router.Protocol.{Msg}

-- What `msgsnd` answers: the message is sent, a signal came first and the call is made again, the
-- queue is full, or another error.
pub data Reply : Type 0 where
  sent full failed : Reply
  interrupted : Reply → Reply

-- The ring `que_head` with its count, and the system's queue `msg_id_out`. `calls` counts the messages
-- that were offered to `msgsnd`.
pub record Outbox : Type 0 where
  pub que : List Msg
  pub que_count : ℕ
  pub kernel : List Msg
  pub calls : ℕ

-- `que_msg`. The flag says whether `malloc` gave a node; without one the message is dropped.
unfoldable pub que_msg : Bool → Msg → Outbox → ℤ × Outbox
que_msg true m o = (pos 0, record o { que = o.que ++ m ∷ []; que_count = o.que_count + 1 })
que_msg false m o = (negsuc 0, o)

-- `while(1){ res = msgsnd(...); if(errno==EINTR) continue; ... }`
abbrev pub settle : Reply → Reply
settle (interrupted r) = settle r
settle r = r

abbrev after_call : List Msg → Outbox → Outbox
after_call ms o = record o { que = ms; calls = o.calls + 1 }

-- `RTR_MNOSENDMSG`, to which `max_num_msg` is set
abbrev pub num_msg_limit : ℕ
num_msg_limit = 1000

module _ (msgsnd : ℕ → Reply) where
  -- The outer loop of `que_snd`, over the nodes that are left.
  unfoldable pub send_all : List Msg → Outbox → ℤ × Outbox
  send_all [] o = (pos 0, o)
  send_all (m ∷ ms) o = elim (settle (msgsnd o.calls)) [
    | sent ↦ send_all ms (record o {
      que = ms;
      que_count = o.que_count - 1;
      kernel = o.kernel ++ m ∷ [];
      calls = o.calls + 1;
    })
    | full ↦ (pos 1, after_call (m ∷ ms) o)
    | _ ↦ (negsuc 0, after_call (m ∷ ms) o)
  ]

  unfoldable pub que_snd : ℤ → Outbox → ℤ × Outbox
  que_snd msg_count o =
      if at_least msg_count (num_msg_limit + o.que_count) then (pos 1, o) else send_all o.que o
