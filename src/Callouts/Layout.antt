-- ===== src/Callouts/Layout.antt =====
-- The sizes of the records that callouts.c sends, as laid out.
use wfpdriver.Shared.{
  ℕ, zero, suc, ◌+◌, ◌≡◌, refl, ap, ◌∙◌, List, [], ◌∷◌, ◌++◌, length, length-append, le32,
}
use wfpdriver.Callouts.Info.{
  FlowInfo, MacInfo, flow_bytes, mac_bytes, field_of, sizeof_flow_info, sizeof_mac_info,
}

length-field_of : (n : ℕ) (bs : List ℕ) → length (field_of n bs) ≡ n
unfolding field_of
length-field_of zero bs = refl
length-field_of (suc n) [] = ap suc (length-field_of n [])
length-field_of (suc n) (b ∷ bs) = ap suc (length-field_of n bs)

length-field_of_append :
    (n : ℕ) (bs rest : List ℕ) → length (field_of n bs ++ rest) ≡ n + length rest
length-field_of_append n bs rest =
    length-append (field_of n bs) rest ∙ ap (◌+ length rest) (length-field_of n bs)

-- The layout of a flow record has the size that is pushed.
pub length-flow_bytes : (f : FlowInfo) → length (flow_bytes f) ≡ sizeof_flow_info
unfolding flow_bytes le32
length-flow_bytes f = rw (length-field_of_append, length-field_of_append, length-field_of_append)

pub length-mac_bytes : (m : MacInfo) → length (mac_bytes m) ≡ sizeof_mac_info
unfolding mac_bytes le32
length-mac_bytes m =
    rw (
      length-field_of_append, length-field_of_append, length-field_of_append,
      length-field_of_append,
    )
