-- ===== src/Health.antt =====
-- src/daemon/health.rs: the window of recent check results and the healthy flag with its two
-- thresholds. `recent` has its front first; the mutex of `HealthMaster` makes each call atomic.
use ebbflow.Prelude.{
  ℕ, zero, suc, ◌+◌, ◌%◌, ◌^◌, max, Bool, true, false, List, [], ◌∷◌, Option, ltb, leb, length,
  unwrap_or, if◌then◌else◌,
}
use ebbflow.Config.{ConcreteHealthCheck}
pub mod Window
pub mod Hysteresis

abbrev pub Check : Type 0
Check = Bool × ℕ

pub record HealthMasterInner : Type 0 where
  pub healthy : Bool
  pub recent : List Check

unfoldable pub new : HealthMasterInner
new = record { healthy = false; recent = [] }

unfoldable pub pop_back : List Check → List Check
pop_back [] = []
pop_back (x ∷ []) = []
pop_back (x ∷ y ∷ r) = x ∷ pop_back (y ∷ r)

-- The `while` loop of `status`, on fuel: a round takes one check off the back.
unfoldable pub trim_recent : ℕ → ℕ → List Check → List Check
trim_recent zero limit recent = recent
trim_recent (suc fuel) limit recent =
    let rest = trim_recent fuel limit (pop_back recent) in
    if ltb limit (length recent) then rest else recent

-- The `for` loops of `status`: how many checks at the front have result `b`. The counter is a u16.
unfoldable pub leading : Bool → ℕ → List Check → ℕ
leading b n [] = n
leading true n ((true, t) ∷ rest) = leading true ((n + 1) % 2 ^ 16) rest
leading true n ((false, t) ∷ rest) = n
leading false n ((true, t) ∷ rest) = n
leading false n ((false, t) ∷ rest) = leading false ((n + 1) % 2 ^ 16) rest

abbrev pub window : ConcreteHealthCheck → ℕ
window cfg = max cfg.consider_healthy_threshold cfg.consider_unhealthy_threshold

-- The second half of `status`, on the trimmed window.
unfoldable pub judge : ConcreteHealthCheck → Bool → List Check → Bool
judge cfg true recent =
    if leb cfg.consider_unhealthy_threshold (leading false 0 recent) then false else true
judge cfg false recent =
    if leb cfg.consider_healthy_threshold (leading true 0 recent) then true else false

-- `status`: the fuel is the length of the window, and each round takes one off.
unfoldable pub status : ConcreteHealthCheck → HealthMasterInner → HealthMasterInner × Bool
unfolding judge
status cfg s =
    let recent = trim_recent (length s.recent) (window cfg) s.recent in
    let healthy = judge cfg s.healthy recent in
    (record { healthy = healthy; recent = recent }, healthy)

-- `report_check_result`: the clock reading is `none` when the clock stands before the epoch.
unfoldable pub report_check_result :
    Bool → Option ℕ → ConcreteHealthCheck → HealthMasterInner → HealthMasterInner × Bool
report_check_result result now cfg s =
    status cfg (record s { recent = (result, unwrap_or now 0) ∷ s.recent })

unfoldable pub data_of : HealthMasterInner → Bool × List Check
data_of s = (s.healthy, s.recent)
