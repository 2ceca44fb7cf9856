-- ===== src/TransTable/Room.antt =====
-- How many local hosts are announced.
use batman_adv_userspace.Base.{ℕ, ◌+◌, ◌-◌, ◌*◌, ◌/◌, ◌^◌, ◌≤◌, ◌<◌, ◌≡◌, min, arith}
use batman_adv_userspace.TransTable.Defs.{batman_maxframesize}
use batman_adv_userspace.TransTable.Update.{announced}

-- For a device that takes at least the frame's headers, the number of hosts announced is the least of
-- the hosts there are, the 255 that the header can say, and the addresses that fit the device behind
-- the headers.
pub announced_lem :
    (tap_mtu cnt_hna : ℕ)
    → batman_maxframesize ≤ tap_mtu
    → tap_mtu < 2 ^ 31
    → (announced tap_mtu cnt_hna ≡ min (min cnt_hna 255) ((tap_mtu - batman_maxframesize) / 6))
      × (batman_maxframesize + announced tap_mtu cnt_hna * 6 ≤ tap_mtu)
unfolding announced
announced_lem tap_mtu cnt_hna lo hi = (ground arith, ground arith)
