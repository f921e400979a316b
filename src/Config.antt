-- ===== src/Config.antt =====
-- backend/app/config.py: the two settings of the sweep and of the display, and the threshold that the
-- display takes from them. The other settings are left out.
use transaction_aggregator.Prelude.{ℕ, ◌+◌, ◌*◌, Option, or_else}

pub record Settings : Type 0 where
  pub sync_interval_minutes : ℕ
  pub display_stale_after_minutes : Option ℕ

unfoldable pub stale_display_minutes : Settings → ℕ
stale_display_minutes settings =
    or_else settings.display_stale_after_minutes (settings.sync_interval_minutes * 2 + 30)
