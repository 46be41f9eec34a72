-- ===== src/Rc/Tests.antt =====
-- Tests of the connections, and the theorems at concrete devices.
use native.Mathlib.Omega.{arith}
use rdma_paxos.Prelude.{ℕ, ◌-◌, ◌^◌, ◌≤◌, ◌≡◌, refl, leb, true, List, [], ◌∷◌, map, some, none}
use rdma_paxos.Consensus.Types.{Endpoint}
use rdma_paxos.Rc.Verbs.{QpState, reset, rts, WorkRequest, rdma_write}
use rdma_paxos.Rc.Connect.{rc_connect_server}
use rdma_paxos.Rc.Machine.{rc_connect_server_lem, rc_connect_server-again}
use rdma_paxos.Rc.Post.{Write, post_all, write_and_poll, find_max_inline, inline_loop}
use rdma_paxos.Rc.Waiting.{Window}
use rdma_paxos.Rc.Bounds.{post_all_lem}
use rdma_paxos.Rc.Stuck.{write_and_poll-stuck}
use rdma_paxos.Rc.Samples.{
  qp_state, obedient, obedient-IsQpMachine, obedient-IsWilling, prompt, prompt-IsSendQueue, device,
  unconnected,
}

abbrev all_reset : ℕ → QpState
all_reset i = reset

abbrev all_rts : ℕ → QpState
all_rts i = rts

rc_connect_server_lem_example :
    ((rc_connect_server obedient device 2 unconnected 9 [] all_reset).0 ≡ 0)
    × (qp_state 2 (rc_connect_server obedient device 2 unconnected 9 [] all_reset).2 ≡ rts)
    × ((rc_connect_server obedient device 2 unconnected 9 [] all_reset).1 ≡ unconnected)
rc_connect_server_lem_example =
    rc_connect_server_lem obedient qp_state obedient-IsQpMachine device 2 unconnected 9 [] all_reset
      obedient-IsWilling refl

rc_connect_server-again_example :
    ((rc_connect_server obedient device 2 unconnected 9 [] all_rts).0 ≡ 1)
    × (qp_state 2 (rc_connect_server obedient device 2 unconnected 9 [] all_rts).2 ≡ rts)
rc_connect_server-again_example =
    rc_connect_server-again obedient qp_state obedient-IsQpMachine device 2 unconnected 9 [] all_rts
      refl

abbrev empty : Window
empty = record { unpolled = 0; unretired = 0; since = 0 }

-- The state before the write with the number 4095.
abbrev before_poll : Window
before_poll = record { unpolled = 1; unretired = 8190; since = 4094 }

abbrev last : Endpoint
last = record unconnected { rc_connected = 1; send_count = 2 ^ 32 - 1 }

abbrev writes : List Write
writes =
    record { addr = 10; len = 100; offset = 8 } ∷ record { addr = 20; len = 30; offset = 108 } ∷ []

post_all_lem_example :
    (ep' : Endpoint) × (d' : Window) × (post_all prompt device 1 1 writes last before_poll
      ≡ some (map (λ w. 0) writes, ep', d'))
    × (d'.unpolled ≤ 1)
    × (d'.unretired ≤ 8190)
post_all_lem_example =
    post_all_lem prompt device 1 8192 1 (λ w. w) (λ w. 0) prompt-IsSendQueue (omega arith)
      (λ d. omega arith) writes last before_poll
      (record { fresh = λ e. absurd (omega (arith, e)); within = λ lt. ground arith })

abbrev heartbeat_write : WorkRequest
heartbeat_write = record {
  addr = 10;
  length = 8;
  lkey = 98;
  opcode = rdma_write;
  send_flags = 0;
  remote_addr = 4096;
  rkey = 99;
}

write_and_poll-stuck_example : write_and_poll prompt device 1000 1 heartbeat_write empty ≡ none
write_and_poll-stuck_example =
    write_and_poll-stuck prompt device 1 8192 (λ w. w) (λ w. 0) 1000 heartbeat_write empty
      prompt-IsSendQueue refl (omega arith)

largest : find_max_inline true (λ n. leb n 300) ≡ some (0, 256)
unfolding find_max_inline inline_loop
largest = refl
