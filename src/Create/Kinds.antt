-- ===== src/Create/Kinds.antt =====
-- The frequencies of apps/web/src/lib/config.ts.
use dca_protocol.Base.{
  ℕ, ◌*◌, ◌/◌, ◌%◌, Bool, List, [], ◌∷◌, ◌++◌, Option, none, some, String, ◌==◌, if◌then◌else◌,
}
use dca_protocol.Base.Text.{template, decimal}
use dca_protocol.Plan.Format.{Fraction}

pub data VaultKind : Type 0 where
  hourly : VaultKind
  daily : VaultKind
  weekly : VaultKind
  monthly : VaultKind
  test : VaultKind

-- A frequency as the text it is in the source.
unfoldable pub kind_text : VaultKind → String
kind_text hourly = "hourly"
kind_text daily = "daily"
kind_text weekly = "weekly"
kind_text monthly = "monthly"
kind_text test = "test"

abbrev pub production_vault_kinds : List VaultKind
production_vault_kinds = hourly ∷ daily ∷ weekly ∷ monthly ∷ []

-- The frequencies shown, by whether the test vault is.
unfoldable pub vault_kinds : Bool → List VaultKind
vault_kinds test_shown =
    if test_shown then production_vault_kinds ++ (test ∷ []) else production_vault_kinds

pub record KindMeta : Type 0 where
  pub label : String
  pub per : String
  pub cadence : String
  pub blurb : String
  pub buys_per_month : Fraction
  pub default_fee_bps : ℕ

abbrev per_month : ℕ → ℕ → Fraction
per_month n d = record { over = n; under = d }

unfoldable pub vault_meta : VaultKind → KindMeta
vault_meta hourly = record {
  label = "Hourly";
  per = "hour";
  cadence = "Every hour, on the hour (UTC)";
  blurb = "Fastest. Buys every hour.";
  buys_per_month = per_month 720 1;
  default_fee_bps = 90;
}
vault_meta daily = record {
  label = "Daily";
  per = "day";
  cadence = "Every day at 00:00 UTC";
  blurb = "Smoothest entry. Buys every day.";
  buys_per_month = per_month 30 1;
  default_fee_bps = 75;
}
vault_meta weekly = record {
  label = "Weekly";
  per = "week";
  cadence = "Every Monday at 00:00 UTC";
  blurb = "The classic. One buy a week.";
  buys_per_month = per_month 435 100;
  default_fee_bps = 50;
}
vault_meta monthly = record {
  label = "Monthly";
  per = "month";
  cadence = "Every 30 days";
  blurb = "Set it and forget it.";
  buys_per_month = per_month 1 1;
  default_fee_bps = 25;
}
vault_meta test = record {
  label = "Test";
  per = "epoch";
  cadence = "Every few minutes (local)";
  blurb = "Dev only. Minutes-long epochs, run by the scheduler.";
  buys_per_month = per_month 21600 1;
  default_fee_bps = 75;
}

abbrev counted : ℕ → String → String
counted n unit = template (decimal n ∷ " " ∷ unit ∷ [])

unfoldable pub fmt_epoch_length : ℕ → String
fmt_epoch_length seconds =
    if seconds % 3600 == 0
    then (if seconds == 3600 then "hour" else counted (seconds / 3600) "hours")
    else if seconds % 60 == 0
    then (if seconds == 60 then "minute" else counted (seconds / 60) "minutes")
    else counted seconds "seconds"

-- The length the test vault goes by: `kind === "test"` and a length that is there and not zero.
unfoldable pub own_length : VaultKind → Option ℕ → Option ℕ
own_length test (some n) = if n == 0 then none else some n
own_length test none = none
own_length hourly len = none
own_length daily len = none
own_length weekly len = none
own_length monthly len = none

unfoldable pub cadence_of : VaultKind → Option ℕ → String
cadence_of kind epoch_length = elim (own_length kind epoch_length) [
  | none ↦ (vault_meta kind).cadence
  | some n ↦ template ("Every " ∷ fmt_epoch_length n ∷ " (local)" ∷ [])
]

-- Buys in 30 days.
unfoldable pub buys_per_month_of : VaultKind → Option ℕ → Fraction
buys_per_month_of kind epoch_length = elim (own_length kind epoch_length) [
  | none ↦ (vault_meta kind).buys_per_month
  | some n ↦ per_month (30 * 86400) n
]

-- The noun after "Every", of apps/web/src/components/app/create/fields.tsx.
unfoldable pub every_label : VaultKind → String
every_label test = "test"
every_label hourly = (vault_meta hourly).per
every_label daily = (vault_meta daily).per
every_label weekly = (vault_meta weekly).per
every_label monthly = (vault_meta monthly).per
