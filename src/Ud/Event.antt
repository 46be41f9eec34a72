-- ===== src/Ud/Event.antt =====
-- The loop body of `event`: the switch over the type of a message. None of its cases ends with a
-- `break`, so each goes on into the next.

use rdma_paxos.Prelude.{
  Option, none, some, ◌||◌, ℕ, ◌&&◌, not, ltb, ◌∙◌, true, Bool-cases, inl, inr, ap, ◌≡◌, refl, ◌==◌,
  if◌then◌else◌, Bool, false, List, [], ◌∷◌, u32,
}
use rdma_paxos.Rc.Verbs.{Verbs}
use rdma_paxos.Ud.Handlers.{
  establish, synack_of, Datagram, Local, UdState, short_idx, rc_syn, rc_synack, join, destroy,
  cfg_reply, handle_rc_syn, handle_rc_synack, handle_server_join_request, handle_server_join_reply,
  handle_server_destroy_request, ud_exchange_rc_info,
}

-- A message is sent to the sender of the one that is handled, or to the multicast group.
pub data Sent : Type 0 where
  replied : Datagram → Sent
  multicast : Datagram → Sent

-- `handle_server_join_reply` and then `handle_server_destroy_request`; none if one of them is.
unfoldable pub from_cfg_reply :
    {D : Type 0} → Local → Datagram → UdState D → Option (List Sent × UdState D)
from_cfg_reply me msg st = elim (handle_server_join_reply msg st) [
  | none ↦ none
  | some st' ↦ elim (handle_server_destroy_request msg st') [
    | none ↦ none
    | some st'' ↦ some (multicast (ud_exchange_rc_info me) ∷ [], st'')
  ]
]

unfoldable pub from_rc_synack :
    {D : Type 0} → Verbs D → Local → Datagram → UdState D → Option (List Sent × UdState D)
from_rc_synack v me msg st = from_cfg_reply me msg (handle_rc_synack v me msg st)

-- The message that is sent before the rest.
abbrev pub sent_first :
    {D : Type 0} → Sent → Option (List Sent × UdState D) → Option (List Sent × UdState D)
sent_first m none = none
sent_first m (some (sent, st)) = some (m ∷ sent, st)

unfoldable pub from_rc_syn :
    {D : Type 0} → Verbs D → Local → Datagram → UdState D → Option (List Sent × UdState D)
from_rc_syn v me msg st =
    let (reply, st') = handle_rc_syn v me msg st in
    sent_first (replied reply) (from_rc_synack v me msg st')

unfoldable pub from_join :
    {D : Type 0} → Verbs D → Local → Datagram → UdState D → Option (List Sent × UdState D)
from_join v me msg st =
    sent_first (replied (handle_server_join_request me)) (from_rc_syn v me msg st)

-- `is_leader` has no definition in the repository; `from_self` says that the message has the address
-- of this server. None: the process uses a null pointer or a server outside the array.
unfoldable pub event :
    {D : Type 0}
    → Verbs D
    → (from_self is_leader : Bool) → Local
    → Datagram
    → UdState D
    → Option (List Sent × UdState D)
event v from_self is_leader me msg st =
    if from_self
    then some ([], st)
    else if msg.type == join
    then (if is_leader then from_join v me msg st else some ([], st))
    else if msg.type == rc_syn
    then from_rc_syn v me msg st
    else if msg.type == rc_synack
    then from_rc_synack v me msg st
    else if msg.type == cfg_reply
    then from_cfg_reply me msg st
    else if msg.type == destroy
    then elim (handle_server_destroy_request msg st) [ none ↦ none | some st' ↦ some ([], st') ]
    else some ([], st)

abbrev pub is_fault : {D : Type 0} → Option (List Sent × UdState D) → Bool
is_fault none = true
is_fault (some out) = false

-- The connection does not touch `cur_view`.
establish-cur_view :
    {D : Type 0} (v : Verbs D) (me : Local) (msg : Datagram) (qpn : ℕ) (st : UdState D)
    → (establish v me msg qpn st).cur_view ≡ st.cur_view
unfolding establish
establish-cur_view v me msg qpn st = elim (Bool-cases ((st.servers msg.idx).rc_connected == 0)) [
  | inl new ↦ rw (new, establish) refl
  | inr old ↦ rw (old, establish) refl
]

cfg_reply_null :
    {D : Type 0} (me : Local) (msg : Datagram) (st : UdState D)
    → st.cur_view ≡ none
    → from_cfg_reply me msg st ≡ none
unfolding from_cfg_reply handle_server_join_reply
cfg_reply_null me msg st null = rw (null, from_cfg_reply, handle_server_join_reply) refl

synack_null :
    {D : Type 0} (v : Verbs D) (me : Local) (msg : Datagram) (st : UdState D)
    → st.cur_view ≡ none
    → from_rc_synack v me msg st ≡ none
unfolding from_rc_synack handle_rc_synack
synack_null v me msg st null =
    cfg_reply_null me msg (establish v me msg (msg.qpns 0) st)
      (establish-cur_view v me msg (msg.qpns 0) st ∙ null)

syn_null :
    {D : Type 0} (v : Verbs D) (me : Local) (msg : Datagram) (st : UdState D)
    → st.cur_view ≡ none
    → from_rc_syn v me msg st ≡ none
unfolding from_rc_syn handle_rc_syn
syn_null v me msg st null = ap (sent_first (replied (synack_of me msg))) (
    synack_null v me msg (establish v me msg (msg.qpns me.idx) st)
      (establish-cur_view v me msg (msg.qpns me.idx) st ∙ null))

join_null :
    {D : Type 0} (v : Verbs D) (me : Local) (msg : Datagram) (st : UdState D)
    → st.cur_view ≡ none
    → from_join v me msg st ≡ none
unfolding from_join
join_null v me msg st null =
    ap (sent_first (replied (handle_server_join_request me))) (syn_null v me msg st null)

destroy-is_fault :
    {D : Type 0} (msg : Datagram) (st : UdState D)
    → is_fault
        (elim (handle_server_destroy_request msg st) as (λ x. Option (List Sent × UdState D)) [
          | none ↦ none
          | some st' ↦ some ([], st')
        ])
      ≡ not (ltb (u32 msg.raddr) 7)
unfolding handle_server_destroy_request short_idx
destroy-is_fault msg st = elim (Bool-cases (ltb (u32 msg.raddr) 7)) [
  | inl inside ↦ rw (inside, handle_server_destroy_request, short_idx) refl
  | inr outside ↦ rw (outside, handle_server_destroy_request, short_idx) refl
]

-- The messages that are not JOIN.
event_others :
    {D : Type 0} (v : Verbs D) (me : Local) (msg : Datagram) (st : UdState D)
    → st.cur_view ≡ none
    → is_fault (
        if msg.type == rc_syn
        then from_rc_syn v me msg st
        else if msg.type == rc_synack
        then from_rc_synack v me msg st
        else if msg.type == cfg_reply
        then from_cfg_reply me msg st
        else if msg.type == destroy
        then elim (handle_server_destroy_request msg st) [ none ↦ none | some st' ↦ some ([], st') ]
        else some ([], st))
      ≡ (msg.type == rc_syn
          || msg.type == rc_synack
          || msg.type == cfg_reply
          || (msg.type == destroy && not (ltb (u32 msg.raddr) 7)))
event_others v me msg st null = elim (Bool-cases (msg.type == rc_syn)) [
  | inl syn ↦ rw (syn, syn_null v me msg st null) refl
  | inr not_syn ↦ elim (Bool-cases (msg.type == rc_synack)) [
    | inl synack ↦ rw (not_syn, synack, synack_null v me msg st null) refl
    | inr not_synack ↦ elim (Bool-cases (msg.type == cfg_reply)) [
      | inl reply ↦ rw (not_syn, not_synack, reply, cfg_reply_null me msg st null) refl
      | inr not_reply ↦ elim (Bool-cases (msg.type == destroy)) [
        | inl ends ↦ rw (not_syn, not_synack, not_reply, ends) (destroy-is_fault msg st)
        | inr other ↦ rw (not_syn, not_synack, not_reply, other) refl
      ]
    ]
  ]
]

pub event-is_fault :
    {D : Type 0} (v : Verbs D) (is_leader : Bool) (me : Local) (msg : Datagram) (st : UdState D)
    → st.cur_view ≡ none
    → is_fault (event v false is_leader me msg st) ≡ (
        if msg.type == join
        then is_leader
        else msg.type == rc_syn
          || msg.type == rc_synack
          || msg.type == cfg_reply
          || (msg.type == destroy && not (ltb (u32 msg.raddr) 7)))
unfolding event
event-is_fault v true me msg st null = elim (Bool-cases (msg.type == join)) [
  | inl joins ↦ rw (joins, join_null v me msg st null, event) refl
  | inr other ↦ rw (other, event) (event_others v me msg st null)
]
event-is_fault v false me msg st null = elim (Bool-cases (msg.type == join)) [
  | inl joins ↦ rw (joins, event) refl
  | inr other ↦ rw (other, event) (event_others v me msg st null)
]
