-- ===== src/ViewStamp.antt =====
-- RDMA/src/util/common-structure.c and its header: views, view stamps and the record number that
-- the database is keyed by. `& 0xFFFFFFFF` is `% 2 ^ 32`, `>> 32` is `/ 2 ^ 32`.
pub mod Order
mod Tests
use rdma_paxos.Prelude.{
  ℕ, ◌+◌, ◌*◌, ◌/◌, ◌%◌, ◌^◌, ◌<◌, u32, u64, ltb, if◌then◌else◌, ℤ, pos, minus_one,
}

-- `view`
pub record View : Type 0 where
  pub view_id : ℕ
  pub leader_id : ℕ
  pub req_id : ℕ

-- `view_stamp`: two `uint32_t`
pub record ViewStamp : Type 0 where
  pub view_id : ℕ
  pub req_id : ℕ

-- The fields hold `uint32_t` values.
pub record IsStamp (vs : ViewStamp) : Type 0 where
  pub view_fits : vs.view_id < 2 ^ 32
  pub req_fits : vs.req_id < 2 ^ 32

unfoldable pub view_stamp_comp : ViewStamp → ViewStamp → ℤ
view_stamp_comp op1 op2 =
    if ltb op1.view_id op2.view_id
    then minus_one
    else if ltb op2.view_id op1.view_id
    then pos 1
    else if ltb op2.req_id op1.req_id
    then pos 1
    else if ltb op1.req_id op2.req_id
    then minus_one
    else pos 0

unfoldable pub vstol : ViewStamp → ℕ
vstol vs =
    let result = vs.req_id % 2 ^ 32 in
    let temp = vs.view_id % 2 ^ 32 in u64 (result + u64 (temp * 2 ^ 32))

unfoldable pub ltovs : ℕ → ViewStamp
ltovs record_no = record {
  view_id = record_no / 2 ^ 32 % 2 ^ 32;
  req_id = u32 (record_no % 2 ^ 32);
}
