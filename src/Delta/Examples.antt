-- ===== src/Delta/Examples.antt =====
-- The theorem on the fraud delta at a calculator that reads messages.
use boi.Prelude.Decimals.{decimal, decimal-IsOrdered}
use boi.Prelude.{refl, true, false, [], ◌∷◌}
use boi.Prelude.Floats.{minimum, at_or_above}
use boi.Security.Roles.{sorted_set}
use boi.Delta.Calculate.{
  Baseline, Categories, Extracted, Delta, calculate, baseline_for, category_at,
  unexpected_permissions, tally, permission_loop, signal_loop, weight_of, contribute, contribute_if,
  delta_of,
}
use boi.Delta.Explained.{IsExplained, calculate-IsExplained}

abbrev tools : Baseline
tools = record {
  is_empty = false;
  common_permissions = "android.permission.INTERNET" ∷ [];
  tolerated_permissions = "android.permission.CAMERA" ∷ [];
}

abbrev categories : Categories
categories = ("tools", tools) ∷ ("other", tools) ∷ []

abbrev calculator : Extracted
calculator = record {
  requested = "android.permission.INTERNET" ∷ "android.permission.READ_SMS" ∷ [];
  detected = "sms_api" ∷ [];
  accessibility_service = false;
  sms_receiver = true;
  bank_impersonation_flag = false;
}

abbrev delta : Delta decimal
delta = record {
  category = "tools";
  score = 3200;
  is_anomalous = false;
  unexpected_permissions = "android.permission.READ_SMS" ∷ [];
  contributions =
      record {
        kind = "permission";
        evidence = "android.permission.READ_SMS";
        weight = 1400;
        reason = "Unexpected for the declared 'tools' category";
      }
      ∷ record {
        kind = "code_signal";
        evidence = "sms_api";
        weight = 800;
        reason = "Observed signal is uncommon in the 'tools' baseline";
      }
      ∷ record {
        kind = "component";
        evidence = "sms_receiver";
        weight = 1000;
        reason = "SMS broadcast interception is abnormal for the declared category";
      }
      ∷ [];
}

calculate-IsExplained_example : IsExplained decimal calculator tools delta
unfolding calculate baseline_for category_at unexpected_permissions sorted_set tally permission_loop
    signal_loop weight_of contribute contribute_if delta_of minimum at_or_above
calculate-IsExplained_example =
    calculate-IsExplained decimal (λ s. s) categories calculator "tools" tools delta
      decimal-IsOrdered refl refl
