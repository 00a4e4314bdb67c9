-- ===== src/Frost/States.antt =====
-- frost-signer/src/state_machine.rs, and the transition table of `SigningRound::can_move_to` in
-- frost-signer/src/signing_round.rs.
use core_eng.Prelude.{Bool, true, false, ◌||◌}

pub data States : Type 0 where
  idle dkg_public_distribute dkg_public_gather dkg_private_distribute : States
  dkg_private_gather sign_gather signed : States

-- state_machine.rs `Error`: the text is that of the two states.
pub data StateMachineError : Type 0 where
  bad_state_change : States → States → StateMachineError

abbrev pub is_state : States → States → Bool
is_state idle idle = true
is_state dkg_public_distribute dkg_public_distribute = true
is_state dkg_public_gather dkg_public_gather = true
is_state dkg_private_distribute dkg_private_distribute = true
is_state dkg_private_gather dkg_private_gather = true
is_state sign_gather sign_gather = true
is_state signed signed = true
is_state _ _ = false

-- `accepted`: the move from `prev` to the state asked for.
unfoldable pub accepted : States → States → Bool
accepted prev idle = true
accepted prev dkg_public_distribute =
    is_state prev idle || is_state prev dkg_public_gather || is_state prev dkg_private_distribute
accepted prev dkg_public_gather = is_state prev dkg_public_distribute
accepted prev dkg_private_distribute = is_state prev dkg_public_gather
accepted prev dkg_private_gather = is_state prev dkg_private_distribute
accepted prev sign_gather = is_state prev idle
accepted prev signed = is_state prev sign_gather
