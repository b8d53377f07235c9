-- ===== src/Executor/OldSets/Slack.antt =====
-- The numbers of a scale-down of which nothing is lost to unavailable pods.
use batch_release.Base.{◌≡◌, ◌⊎◌, false, arith}
use batch_release.Base.Int.{ℤ, pos, ◌+ℤ◌, ◌≤ℤ◌, ◌<ℤ◌, leb_ℤ, max_int32, sub32, int_laws}
use batch_release.Vendor.Laws.{IsMax}

-- The numbers of the scale-down: `n` new and `old` old pods, all of them available.
pub removable :
    (n old replicas surge unavailable limit target : ℤ)
    → pos 0 ≤ℤ n
    → n ≤ℤ replicas
    → pos 0 ≤ℤ old
    → old +ℤ n ≤ℤ max_int32
    → pos 0 ≤ℤ surge
    → replicas +ℤ surge ≤ℤ max_int32
    → pos 0 ≤ℤ unavailable
    → unavailable ≤ℤ replicas
    → pos 1 ≤ℤ surge +ℤ unavailable
    → pos 0 ≤ℤ limit
    → limit ≤ℤ replicas
    → (n <ℤ limit) ⊎ (replicas <ℤ old +ℤ n)
    → (limit ≤ℤ n) ⊎ (replicas +ℤ surge ≤ℤ old +ℤ n)
    → IsMax limit n target
    → (pos 1 ≤ℤ old)
      × (pos 1 ≤ℤ sub32 (old +ℤ n) (sub32 replicas unavailable))
      × (sub32 replicas unavailable <ℤ old +ℤ n)
      × (pos 1 ≤ℤ sub32 old (sub32 replicas target))
      × (sub32 old (sub32 replicas target) ≤ℤ max_int32)
removable n old replicas surge unavailable limit target a b c d e f g h i j k l m o = omega int_laws

pub not_leb : (c m : ℤ) → m <ℤ c → leb_ℤ c m ≡ false
not_leb c m h = ground (arith, h)
