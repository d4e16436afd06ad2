-- ===== src/Noise/Session/Tests.antt =====
-- A session of src/noise.c from a concrete state, and the theorems at that state.
use wgx.Base.{refl, arith, none, some, [], ◌∷◌}
use wgx.Noise.Types.{Handshake, HandshakeState}
use wgx.Noise.Index.{delete, new_for_handshake}
use wgx.Noise.Session.{Session, begin_session, zero_key_material}
use wgx.Noise.Session.Life.{IsSound, Reaches, here, handshakes, begins, zeroes, reached-IsSound}
use wgx.Noise.Fixture.{toy, peer_with, empty_table, handshake_with}

abbrev start : Session
start = record { index_table = empty_table; keypairs = λ a. none; peer = peer_with 2 3 }

-- the handshake of an initiator that has read the response
abbrev consumed : Handshake
consumed = record (handshake_with 2 3) {
  state = HandshakeState.response_consumed;
  chain_key = 4 ∷ 5 ∷ [];
  local_index = 21;
  remote_index = 33;
}

abbrev shaken : Session
shaken = record {
  index_table =
      (new_for_handshake (delete start.index_table start.peer.handshake.local_index)
        start.peer.peer_id (21 ∷ []) 0).0;
  keypairs = start.keypairs;
  peer = record start.peer { handshake = consumed };
}

abbrev begun : Session
begun = (begin_session toy shaken (some 500) 1003 9000).0

start-IsSound : IsSound start
start-IsSound = record {
  filed = λ slot a occ e. ground (arith, occ);
  owned = record {
    alive = λ a h. ground arith;
    cur_not_next = λ a e. ground arith;
    cur_not_prev = λ a e. ground arith;
    one_waits = λ a e. ground arith;
  };
  kept = λ a h. absurd (h refl);
}

reached : Reaches toy start (zero_key_material begun)
reached =
    zeroes begun (begins shaken 500 1003 9000 refl (handshakes start consumed (21 ∷ []) 0 here))

reached-IsSound_example : IsSound (zero_key_material begun)
reached-IsSound_example = reached-IsSound toy start (zero_key_material begun) start-IsSound reached
