-- ===== src/Noise/Tests.antt =====
-- A handshake of src/noise.c between two concrete devices, and the theorems at that input.
use wgx.Base.{ℕ, ◌≡◌, ◌≢◌, refl, arith, true, false, none, some, List, [], ◌∷◌}
use wgx.Noise.Fixture.{toy, toy-AeadLaw, toy-DhLaw, exchange, exchange-IsPaired}
use wgx.Base.Bytes.{bytes_eq, bytes_gt}
use wgx.Crypto.{generate_private_key, dh, encrypt}
use wgx.Tai64n.{tai64n_after}
use wgx.Noise.Index.{delete, new_for_handshake, pick_random_index, pick_drawn}
use wgx.Noise.Initiation.{
  put_peer, find_peer, refused, accept_initiation, begin_initiation, create_initiation,
  finish_initiation, consume_initiation,
}
use wgx.Noise.Initiation.Agree.{picked}
use wgx.Noise.Response.{peer_at}
use wgx.Noise.Types.{Initiation, CookieGen, CookieChecker, CookieReply}
use wgx.Noise.Initiation.Fresh.{receive_all, initiation_accepted_once}
use wgx.Noise.Cookie.{valid, validate_macs, refresh_secret, create_reply}
use wgx.Noise.Cookie.RoundTrip.{XAeadLaw, replied, next_macs, cookie_accepted}
use wgx.Peer.{Sockaddr, sockaddr_in}
use wgx.Noise.Pair.First.{made, accepted, initiation_agrees}
use wgx.Noise.Pair.Whole.{HandshakeAgrees, handshake_agrees}

initiator_drawn : (picked exchange.table exchange.peer exchange.draws).1 ≡ 21
unfolding delete new_for_handshake pick_random_index pick_drawn
initiator_drawn = refl

initiator_draws : (picked exchange.table exchange.peer exchange.draws).1 ≢ 0
initiator_draws z = ground (arith, initiator_drawn, z)

responder_drawn :
    (picked exchange.responder_table (accepted toy exchange) exchange.response_draws).1 ≡ 33
unfolding accept_initiation delete new_for_handshake pick_random_index pick_drawn
responder_drawn = refl

responder_draws :
    (picked exchange.responder_table (accepted toy exchange) exchange.response_draws).1 ≢ 0
responder_draws z = ground (arith, responder_drawn, z)

initiator_at :
    peer_at ((made toy exchange).peer ∷ []) exchange.peer.peer_id ≡ some (made toy exchange).peer
unfolding peer_at create_initiation finish_initiation generate_private_key dh encrypt bytes_eq
    begin_initiation new_for_handshake pick_random_index pick_drawn delete
initiator_at = refl

known_found : find_peer exchange.peers exchange.initiator.public_key ≡ some exchange.known
unfolding find_peer bytes_eq
known_found = refl

timestamp_fresh : refused exchange.known.handshake exchange.timestamp exchange.received_ms ≡ false
unfolding refused tai64n_after bytes_gt
timestamp_fresh = refl

handshake_agrees_example : HandshakeAgrees toy exchange ((made toy exchange).peer ∷ []) 1003 1004
handshake_agrees_example =
    handshake_agrees toy refl toy-AeadLaw toy-DhLaw exchange exchange-IsPaired initiator_draws
      responder_draws ((made toy exchange).peer ∷ []) 1003 1004 known_found timestamp_fresh
      initiator_at

initiation_agrees_example :
    ((made toy exchange).made ≡ true)
    × (consume_initiation toy exchange.responder exchange.peers
          (made toy exchange).msg
          exchange.received_ms
        ≡ (put_peer exchange.peers (accepted toy exchange), some (accepted toy exchange)))
initiation_agrees_example =
    initiation_agrees toy refl toy-AeadLaw toy-DhLaw exchange exchange-IsPaired initiator_draws
      known_found timestamp_fresh

-- The message comes again after an initiation of the device 5, which is not known.
abbrev between : List (Initiation × ℕ)
between = (record (made toy exchange).msg { ephemeral = 5 ∷ [] }, 1500) ∷ []

initiation_taken :
    (consume_initiation toy exchange.responder exchange.peers
      (made toy exchange).msg
      exchange.received_ms).1
    ≢ none
initiation_taken z = ground (arith, initiation_agrees_example.1, z)

initiation_accepted_once_example :
    (consume_initiation toy exchange.responder
      (receive_all toy exchange.responder
        (consume_initiation toy exchange.responder exchange.peers
          (made toy exchange).msg
          exchange.received_ms).0
        between)
      (made toy exchange).msg
      9000).1
    ≡ none
initiation_accepted_once_example =
    initiation_accepted_once toy exchange.responder exchange.peers (made toy exchange).msg
      exchange.received_ms between 9000 refl initiation_taken

-- a receiver with the keys of the device 2, and a sender that was asked for a cookie
abbrev checker : CookieChecker
checker = record {
  mac1_key = 1 ∷ [];
  mac2_secret = [];
  mac2_secret_set_ms = 0;
  mac2_encrypt_key = 2 ∷ [];
}

abbrev generator : CookieGen
generator = record {
  mac1_key = 1 ∷ [];
  mac2_key = 2 ∷ [];
  cookie = [];
  cookie_set_ms = 0;
  has_last_mac1 = true;
  last_mac1 = 3 ∷ [];
}

abbrev blank_reply : CookieReply
blank_reply = record { msg_type = 0; receiver = 0; nonce = []; cookie_enc = [] }

abbrev source : Sockaddr
source = sockaddr_in (10 ∷ 0 ∷ 0 ∷ 1 ∷ []) (1 ∷ 2 ∷ [])

toy-XAeadLaw : XAeadLaw toy
toy-XAeadLaw = record { opens = λ key nonce m aad. refl }

abbrev reply_to : CookieChecker × CookieReply
reply_to =
    replied toy refl toy-XAeadLaw checker generator source refl refl refl 21 blank_reply 5000 5010
      5020 5030 (4 ∷ []) (6 ∷ []) (9 ∷ []) (11 ∷ [])

secret_kept : refresh_secret toy reply_to.0 5030 (9 ∷ []) ≡ reply_to.0
unfolding refresh_secret create_reply
secret_kept = refl

cookie_accepted_example :
    (validate_macs toy reply_to.0 source
      (11 ∷ [])
      (next_macs toy refl toy-XAeadLaw checker generator source refl refl refl 21 blank_reply 5000
        5010 5020 5030
        (4 ∷ [])
        (6 ∷ [])
        (9 ∷ [])
        (11 ∷ [])).1
      (next_macs toy refl toy-XAeadLaw checker generator source refl refl refl 21 blank_reply 5000
        5010 5020 5030
        (4 ∷ [])
        (6 ∷ [])
        (9 ∷ [])
        (11 ∷ [])).2
      5030
      true
      (9 ∷ [])).1
    ≡ valid
cookie_accepted_example =
    cookie_accepted toy refl toy-XAeadLaw checker generator source refl refl refl 21 blank_reply
      5000 5010 5020 5030 (4 ∷ []) (6 ∷ []) (9 ∷ []) (11 ∷ []) (λ z. ground (arith, z)) refl
      secret_kept
