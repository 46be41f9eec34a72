-- ===== src/ViewStamp/Order.antt =====
-- Record numbers order the log as view stamps do, and determine them.
use rdma_paxos.Prelude.{ℕ, ◌+◌, ◌*◌, ◌^◌, ◌<◌, ◌≡◌, ◌↔◌, true, arith, is_positive, pos, minus_one}
use rdma_paxos.ViewStamp.{ViewStamp, IsStamp, view_stamp_comp, vstol, ltovs}

pub vstol_lem : (vs : ViewStamp) → IsStamp vs → vstol vs ≡ vs.view_id * 2 ^ 32 + vs.req_id
unfolding vstol
vstol_lem vs h = omega arith

-- Every view stamp of two `uint32_t` fields is read back from its record number.
pub ltovs-vstol : (vs : ViewStamp) → IsStamp vs → ltovs (vstol vs) ≡ vs
unfolding ltovs vstol
ltovs-vstol vs h = ground arith

-- Every `uint64_t` is the record number of the view stamp that it is read as.
pub vstol-ltovs : (n : ℕ) → n < 2 ^ 64 → vstol (ltovs n) ≡ n
unfolding ltovs vstol
vstol-ltovs n h = omega arith

-- `view_stamp_comp` is positive, zero or negative exactly as the first record number is above,
-- equal to or below the second.
pub view_stamp_comp-vstol :
    (a b : ViewStamp)
    → IsStamp a
    → IsStamp b
    → ((view_stamp_comp a b ≡ pos 1) ↔ (vstol b < vstol a))
      × ((view_stamp_comp a b ≡ pos 0) ↔ (vstol a ≡ vstol b))
      × ((view_stamp_comp a b ≡ minus_one) ↔ (vstol a < vstol b))
unfolding view_stamp_comp
view_stamp_comp-vstol a b ha hb = ground (arith, vstol_lem a ha, vstol_lem b hb)

pub is_positive-view_stamp_comp :
    (a b : ViewStamp)
    → IsStamp a
    → IsStamp b
    → (is_positive (view_stamp_comp a b) ≡ true) ↔ (vstol b < vstol a)
unfolding view_stamp_comp
is_positive-view_stamp_comp a b ha hb = ground (arith, vstol_lem a ha, vstol_lem b hb)
