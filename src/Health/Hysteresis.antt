-- ===== src/Health/Hysteresis.antt =====
-- The rule by which `status` turns an endpoint healthy and unhealthy, against its description: the
-- flag falls when the newest `consider_unhealthy_threshold` checks all failed, and rises when the
-- newest `consider_healthy_threshold` checks all passed.
use ebbflow.Prelude.{
  ℕ, zero, suc, ◌+◌, ◌^◌, ◌≤◌, ◌<◌, ◌≡◌, refl, sym, ap, ◌∙◌, Bool, true, false, not, List, [], ◌∷◌,
  Option, arith, leb, length, take, length-take, take-cons-take, take-nil, unwrap_or,
}
use ebbflow.Config.{ConcreteHealthCheck}
use ebbflow.Health.{
  Check, HealthMasterInner, new, leading, window, judge, status, report_check_result, data_of,
}
use ebbflow.Health.Window.{trim_recent-take}

-- The newest `n` checks of a history all have result `b`, and there are `n` of them.
pub last_all : Bool → ℕ → List Check → Bool
last_all b zero h = true
last_all b (suc n) [] = false
last_all true (suc n) ((r, t) ∷ h) = elim r [ true ↦ last_all true n h | false ↦ false ]
last_all false (suc n) ((r, t) ∷ h) = elim r [ true ↦ false | false ↦ last_all false n h ]

-- The described rule, over the whole history (newest first).
pub expected_after : ConcreteHealthCheck → Bool → List Check → Bool
expected_after cfg true h = not (last_all false cfg.consider_unhealthy_threshold h)
expected_after cfg false h = last_all true cfg.consider_healthy_threshold h

-- The described flag after reports, oldest first, on top of a history.
pub expected : ConcreteHealthCheck → Bool → List Check → List (Bool × Option ℕ) → Bool
expected cfg healthy h [] = healthy
expected cfg healthy h ((r, now) ∷ rest) =
    let h' = (r, unwrap_or now 0) ∷ h in expected cfg (expected_after cfg healthy h') h' rest

-- Reports handed to `report_check_result`, oldest first.
unfoldable pub run_reports :
    ConcreteHealthCheck → HealthMasterInner → List (Bool × Option ℕ) → HealthMasterInner
run_reports cfg s [] = s
run_reports cfg s ((r, now) ∷ rest) = run_reports cfg (report_check_result r now cfg s).0 rest

pub history : List Check → List (Bool × Option ℕ) → List Check
history h [] = h
history h ((r, now) ∷ rest) = history ((r, unwrap_or now 0) ∷ h) rest

-- Thresholds that fit a u16, as the configuration's do.
pub record IsU16 (cfg : ConcreteHealthCheck) : Type 0 where
  pub healthy_fits : cfg.consider_healthy_threshold < 2 ^ 16
  pub unhealthy_fits : cfg.consider_unhealthy_threshold < 2 ^ 16

leading-le : (b : Bool) (n : ℕ) (l : List Check) → n + length l < 2 ^ 16 → n ≤ leading b n l
unfolding leading
leading-le b n [] h = ground arith
leading-le true n ((true, t) ∷ l) h = ground (arith, leading-le true (n + 1) l)
leading-le true n ((false, t) ∷ l) h = ground arith
leading-le false n ((true, t) ∷ l) h = ground arith
leading-le false n ((false, t) ∷ l) h = ground (arith, leading-le false (n + 1) l)

-- The u16 counter does not wrap on a window that fits, and the test reads the newest checks.
leading-last_all :
    (b : Bool) (n k : ℕ) (l : List Check)
    → n + length l < 2 ^ 16
    → leb (n + k) (leading b n l) ≡ last_all b k l
unfolding leading last_all
leading-last_all b n zero l h = ground (arith, leading-le b n l)
leading-last_all b n (suc k) [] h = ground arith
leading-last_all true n (suc k) ((true, t) ∷ l) h =
    ground (arith, leading-last_all true (n + 1) k l)
leading-last_all true n (suc k) ((false, t) ∷ l) h = ground arith
leading-last_all false n (suc k) ((true, t) ∷ l) h = ground arith
leading-last_all false n (suc k) ((false, t) ∷ l) h =
    ground (arith, leading-last_all false (n + 1) k l)

last_all-take :
    (b : Bool) (k w : ℕ) (h : List Check) → k ≤ w → last_all b k (take w h) ≡ last_all b k h
unfolding last_all
last_all-take b zero w h le = refl
last_all-take b (suc k) zero h le = absurd (omega arith)
last_all-take b (suc k) (suc w) [] le = refl
last_all-take true (suc k) (suc w) ((true, t) ∷ h) le = last_all-take true k w h (omega arith)
last_all-take true (suc k) (suc w) ((false, t) ∷ h) le = refl
last_all-take false (suc k) (suc w) ((true, t) ∷ h) le = refl
last_all-take false (suc k) (suc w) ((false, t) ∷ h) le = last_all-take false k w h (omega arith)

leading-window :
    (b : Bool) (k w : ℕ) (h : List Check)
    → k ≤ w
    → w < 2 ^ 16
    → leb k (leading b 0 (take w h)) ≡ last_all b k h
leading-window b k w h le fits =
    ground (arith, leading-last_all b 0 k (take w h), length-take w h, last_all-take b k w h)

judge-window :
    (cfg : ConcreteHealthCheck) (healthy : Bool) (h : List Check)
    → IsU16 cfg
    → judge cfg healthy (take (window cfg) h) ≡ expected_after cfg healthy h
unfolding judge expected_after
judge-window cfg true h fits =
    ground (arith, leading-window false cfg.consider_unhealthy_threshold (window cfg) h, fits)
judge-window cfg false h fits =
    ground (arith, leading-window true cfg.consider_healthy_threshold (window cfg) h, fits)

abbrev at : ConcreteHealthCheck → Bool → List Check → HealthMasterInner
at cfg healthy h = record { healthy = healthy; recent = take (window cfg) h }

report-at :
    (cfg : ConcreteHealthCheck) (healthy r : Bool) (now : Option ℕ) (h : List Check)
    → IsU16 cfg
    → (report_check_result r now cfg (at cfg healthy h)).0
      ≡ at cfg (expected_after cfg healthy ((r, unwrap_or now 0) ∷ h)) ((r, unwrap_or now 0) ∷ h)
unfolding report_check_result status
report-at cfg healthy r now h fits =
    let c : Check = (r, unwrap_or now 0) in
    rw (
      trim_recent-take (window cfg) (c ∷ take (window cfg) h),
      take-cons-take (window cfg) c h,
      judge-window cfg healthy (c ∷ h) fits,
    )

run_reports-at :
    (cfg : ConcreteHealthCheck) (healthy : Bool) (h : List Check) (rs : List (Bool × Option ℕ))
    → IsU16 cfg
    → run_reports cfg (at cfg healthy h) rs ≡ at cfg (expected cfg healthy h rs) (history h rs)
unfolding run_reports expected history
run_reports-at cfg healthy h [] fits = refl
run_reports-at cfg healthy h ((r, now) ∷ rest) fits =
    let h' : List Check = (r, unwrap_or now 0) ∷ h in
    ap (λ s. run_reports cfg s rest) (report-at cfg healthy r now h fits)
    ∙ run_reports-at cfg (expected_after cfg healthy h') h' rest fits

-- After any reports, oldest first and with thresholds that fit a u16, the flag of a fresh
-- `HealthMasterInner` is the one that the thresholds describe over the whole history, and the
-- window holds the newest checks, as many as the larger threshold says.
pub data-run_reports :
    (cfg : ConcreteHealthCheck) (rs : List (Bool × Option ℕ))
    → IsU16 cfg
    → data_of (run_reports cfg new rs)
      ≡ (expected cfg false [] rs, take (window cfg) (history [] rs))
unfolding data_of new
data-run_reports cfg rs fits = ap data_of (
    ap (λ l. run_reports cfg (record { healthy = false; recent = l }) rs)
      (sym (take-nil (window cfg)))
    ∙ run_reports-at cfg false [] rs fits)
