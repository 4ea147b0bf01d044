-- ===== src/Cli/Printed/Digits.antt =====
-- The digits that src/ebbflow.rs prints for the window of src/daemon/health.rs.
use Prim.Native.String.{◌++◌ as str_append}
use text.Mathlib.TextLemmas.{append_assoc, append-nil, nil-append}
use ebbflow.Prelude.{
  ℕ, suc, ◌≡◌, sym, ap, ◌∙◌, String, Bool, List, [], ◌∷◌, ◌++◌, Option, unwrap_or, take,
}
use ebbflow.Config.{ConcreteHealthCheck}
use ebbflow.Health.{Check, HealthMasterInner, report_check_result, status, window}
use ebbflow.Health.Window.{trim_recent-take}
use ebbflow.Cli.Printed.{concat, digit, push_digits, format_health_data_old_new}

concat-append : (xs ys : List String) → concat (xs ++ ys) ≡ str_append (concat xs) (concat ys)
unfolding concat
concat-append [] ys = sym (nil-append (concat ys))
concat-append (x ∷ xs) ys =
    ap (str_append x) (concat-append xs ys) ∙ sym (append_assoc x (concat xs) (concat ys))

-- The newest check is the last digit.
format-cons :
    (b : Bool) (t : ℕ) (checks : List Check)
    → format_health_data_old_new ((b, t) ∷ checks)
      ≡ str_append (format_health_data_old_new checks) (digit b)
unfolding format_health_data_old_new push_digits concat
format-cons b t checks =
    concat-append (push_digits checks) (digit b ∷ [])
    ∙ ap (str_append (concat (push_digits checks))) (append-nil (digit b))

-- After a check the health that is printed shows the checks of the window, oldest first: those that
-- were in it, but for the oldest ones that the window has no place for, and last the new one.
pub format-report_check_result :
    (b : Bool) (now : Option ℕ) (cfg : ConcreteHealthCheck) (s : HealthMasterInner) (n : ℕ)
    → window cfg ≡ suc n
    → format_health_data_old_new (report_check_result b now cfg s).0.recent
      ≡ str_append (format_health_data_old_new (take n s.recent)) (digit b)
unfolding report_check_result status
format-report_check_result b now cfg s n size =
    ap format_health_data_old_new (trim_recent-take (window cfg) ((b, unwrap_or now 0) ∷ s.recent))
    ∙ ap (λ w. format_health_data_old_new (take w ((b, unwrap_or now 0) ∷ s.recent))) size
    ∙ format-cons b (unwrap_or now 0) (take n s.recent)
