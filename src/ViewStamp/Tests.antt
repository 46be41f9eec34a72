-- ===== src/ViewStamp/Tests.antt =====
-- Tests of the view stamp functions, and the theorems at concrete stamps.
use rdma_paxos.Prelude.{◌<◌, ◌≡◌, ◌↔◌, refl, arith, pos, minus_one}
use rdma_paxos.ViewStamp.{ViewStamp, view_stamp_comp, vstol, ltovs}
use rdma_paxos.ViewStamp.Order.{ltovs-vstol, view_stamp_comp-vstol}

abbrev early : ViewStamp
early = record { view_id = 1; req_id = 0xffff_ffff }

abbrev late : ViewStamp
late = record { view_id = 2; req_id = 0 }

vstol-early : vstol early ≡ 0x1_ffff_ffff
unfolding vstol
vstol-early = refl

ltovs-vstol_example : ltovs (vstol early) ≡ early
ltovs-vstol_example = ltovs-vstol early (omega arith)

view_stamp_comp-vstol_example :
    ((view_stamp_comp early late ≡ pos 1) ↔ (vstol late < vstol early))
    × ((view_stamp_comp early late ≡ pos 0) ↔ (vstol early ≡ vstol late))
    × ((view_stamp_comp early late ≡ minus_one) ↔ (vstol early < vstol late))
view_stamp_comp-vstol_example = view_stamp_comp-vstol early late (omega arith) (omega arith)
