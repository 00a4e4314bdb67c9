-- ===== src/Frost/Coordinator/Run.antt =====
-- The commands of frost-coordinator/src/coordinator.rs.
use core_eng.Prelude.{Map}
use core_eng.Prelude.Exec.{pure, ◌>>=◌}
use core_eng.Frost.Wsts.{Wsts, Bytes}
use core_eng.Frost.Messages.{DkgPublicShare}
use core_eng.Frost.Coordinator.Defs.{Aggregation, Coordinator, Run}
use core_eng.Frost.Coordinator.Dkg.{run_distributed_key_generation, get_aggregate_public_key}
use core_eng.Frost.Coordinator.Sign.{sign_message}

pub data Command : Type 0 where
  dkg get_aggregate_key : Command
  sign dkg_sign : Bytes → Command

module _ (w : Wsts) (a : Aggregation w) where
  unfoldable pub set_aggregate_public_key : w.Point → Coordinator w → Coordinator w
  set_aggregate_public_key key s = record s { aggregate_public_key = key }

  unfoldable pub set_dkg_public_shares : Map (DkgPublicShare w) → Coordinator w → Coordinator w
  set_dkg_public_shares shares s = record s { dkg_public_shares = shares }

  unfoldable pub run : Command → Run w (Unit {0})
  unfolding run_distributed_key_generation sign_message get_aggregate_public_key
  run dkg = do key ← run_distributed_key_generation w a; pure tt
  run (sign msg) = do proof ← sign_message w a msg; pure tt
  run (dkg_sign msg) = do
    key ← run_distributed_key_generation w a
    proof ← sign_message w a msg
    pure tt
  run get_aggregate_key = do key ← get_aggregate_public_key w a; pure tt
