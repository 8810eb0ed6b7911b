-- ===== src/Examples/Agreement.antt =====
-- The two paths of retry/executor.go on one call: a failure, then a success.
use recourse.Common.{ℕ, false, none}
use recourse.Common.Int.{pos}
use recourse.Policy.{EffectivePolicy}
use recourse.Policy.Defaults.{default_policy_for}
use recourse.Retry.Verdict.{ClassifierMeta}
use recourse.Retry.Fast as Fast
use recourse.Retry.Full as Full
use recourse.Retry.Full.{Vars}
use recourse.Examples.{thousandths, user_key}
use recourse.Examples.Full.{told}

abbrev plain : EffectivePolicy ℕ
plain = default_policy_for user_key

abbrev meta : ClassifierMeta
meta = record { requested = ""; not_found = false }

abbrev vars : Vars
vars = record { tl = told; last_err = none; backoff = pos 10_000_000; last_backoff = pos 0 }
