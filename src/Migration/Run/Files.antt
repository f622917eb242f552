-- ===== src/Migration/Run/Files.antt =====
-- What a whole run does to the files of the shares.
use i_transfer.Base.{String, some}
use i_transfer.Env.{Env}
use i_transfer.Migration.{Machine, update_job}
use i_transfer.Migration.Item.Paths.{IsIntact}
use i_transfer.World.{World, App, ok}
use i_transfer.World.Migrations.{Status, pending, running, cancel_requested, cancelled}

module _ (env : Env) (machine : Machine) (j : String) (before : World) where
  abbrev P : World → Type 0
  P w = IsIntact env machine j before w

  abbrev by_status : String → Status → App (Unit {0})
  by_status id pending =
      update_job id (λ j. record j { status = cancelled; completed_at = some env.now })
  by_status id running = update_job id (λ j. record j { status = cancel_requested })
  by_status id _ = λ w. (ok tt, w)
