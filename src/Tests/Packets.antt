-- ===== src/Tests/Packets.antt =====
-- The theorems on wfpdriver/datalinkctx.c and establishedctx.c at concrete packets.
use wfpdriver.Shared.{◌≡◌, inr, refl, true, none, some, [], ◌∷◌, pos}
use wfpdriver.Nt.{success, unsuccessful}
use wfpdriver.Packets.Alloc.{Alloc}
use wfpdriver.Packets.Datalink.{pushdata}
use wfpdriver.Packets.Established.{pushflowestablishedctx}
use wfpdriver.Packets.DatalinkLaws
use wfpdriver.Packets.EstablishedLaws
use wfpdriver.Tests.Data.{busy, plenty}

pushdata-Pushed_example :
    DatalinkLaws.PushedIf 2 2 busy (pushdata (some (8 ∷ 9 ∷ [])) (pos 2) plenty busy)
pushdata-Pushed_example = DatalinkLaws.pushdata-Pushed (some (8 ∷ 9 ∷ [])) (pos 2) plenty busy

pushflowestablishedctx-Pushed_example :
    EstablishedLaws.PushedIf 2 2 busy
      (pushflowestablishedctx (some (8 ∷ 9 ∷ [])) (pos 2) plenty busy)
pushflowestablishedctx-Pushed_example =
    EstablishedLaws.pushflowestablishedctx-Pushed (some (8 ∷ 9 ∷ [])) (pos 2) plenty busy

-- The pool is exhausted.
abbrev starved : Alloc
starved = record { entry = true; buffer = none; query = true }

pushdata_drops_example : pushdata (some (8 ∷ 9 ∷ [])) (pos 2) starved busy ≡ some (success, busy)
pushdata_drops_example = DatalinkLaws.pushdata_drops (8 ∷ 9 ∷ []) 1 starved busy (inr refl)

pushflowestablishedctx_drops_example :
    pushflowestablishedctx (some (8 ∷ 9 ∷ [])) (pos 2) starved busy ≡ some (unsuccessful, busy)
pushflowestablishedctx_drops_example =
    EstablishedLaws.pushflowestablishedctx_drops (8 ∷ 9 ∷ []) 1 starved busy (inr refl)
