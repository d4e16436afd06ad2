-- ===== src/Device/Receive/RoundTrip.antt =====
-- A packet through the tunnel of src/device.c: what one device encrypts the other writes to its
-- TUN device.
use wgx.Base.{
  take-length, ℕ, zero, suc, ◌+◌, ◌-◌, ◌*◌, ◌%◌, ◌^◌, ◌<◌, ◌≤◌, ◌≡◌, ◌≢◌, refl, ap, ◌∙◌, arith,
  Bool, true, ◌&&◌,
}
use wgx.Base.{
  some, List, [], ◌∷◌, ◌++◌, ◌==◌, leb, if◌then◌else◌, bit_and, length, get_or, take, drop,
  replicate,
}
use wgx.Base.{length-append, length-replicate}
use wgx.Base.Bytes.{Bytes}
use wgx.Crypto.{Primitives, encrypt, decrypt}
use wgx.Crypto.Ready.{encrypt-ready}
use wgx.Replay.{Filter, check, commit}
use wgx.AllowedIps.{AllowedIps}
use wgx.Noise.Types.{Keypair}
use wgx.Noise.Index.{Entry, idx_keypair, lookup, update}
use wgx.Noise.Initiation.Agree.{AeadLaw, decrypt-encrypted}
use wgx.Noise.Session.{Session, confirm_next, retire}
use wgx.Peer.{Peer, Sockaddr}
use wgx.Timers.{timers_data_received}
use wgx.Device.{Device, Env}
use wgx.Device.Send.{padded, pad_packet, nonce_bytes, reject_after_messages, default_mtu}
use wgx.Device.Receive.{
  version_of, be16_at, transport_plaintext_len, is_allowed, deliver, receive_under,
  handle_transport,
}

get_or-append {ℓ} :
    {A : Type ℓ} (xs ys : List A) (i : ℕ) (d : A)
    → i < length xs
    → get_or (xs ++ ys) i d ≡ get_or xs i d
get_or-append [] ys i d h = absurd (omega arith)
get_or-append (x ∷ xs) ys zero d h = refl
get_or-append (x ∷ xs) ys (suc i) d h = get_or-append xs ys i d (omega arith)

take-append {ℓ} :
    {A : Type ℓ} (n : ℕ) (xs ys : List A) → n ≤ length xs → take n (xs ++ ys) ≡ take n xs
take-append zero xs ys h = refl
take-append (suc n) [] ys h = absurd (omega arith)
take-append (suc n) (x ∷ xs) ys h = ap (λ (t : List _). x ∷ t) (take-append n xs ys (omega arith))

take-drop-append {ℓ} :
    {A : Type ℓ} (n m : ℕ) (xs ys : List A)
    → m + n ≤ length xs
    → take n (drop m (xs ++ ys)) ≡ take n (drop m xs)
take-drop-append n zero xs ys h = take-append n xs ys (omega arith)
take-drop-append n (suc m) [] ys h = absurd (omega arith)
take-drop-append n (suc m) (x ∷ xs) ys h = take-drop-append n m xs ys (omega arith)

-- A whole IP packet: its header gives its length.
abbrev pub is_ip_packet : Bytes → Bool
is_ip_packet pkt =
    if version_of pkt == 4
    then leb 20 (bit_and (get_or pkt 0 0) 0xf * 4)
      && (leb (bit_and (get_or pkt 0 0) 0xf * 4) (be16_at pkt 2) && (be16_at pkt 2 == length pkt))
    else (version_of pkt == 6) && (40 + be16_at pkt 4 == length pkt)

length-padded :
    (pkt : Bytes) → length pkt ≤ default_mtu → length (padded pkt) ≡ pad_packet (length pkt)
unfolding pad_packet
length-padded pkt h = ground (
  arith,
  length-append pkt (replicate (pad_packet (length pkt) - length pkt) 0),
  length-replicate {A = ℕ} (pad_packet (length pkt) - length pkt) 0,
)

length-le-padded : (pkt : Bytes) → length pkt ≤ default_mtu → length pkt ≤ length (padded pkt)
length-le-padded pkt h =
    ground (arith, length-append pkt (replicate (pad_packet (length pkt) - length pkt) 0))

-- The padding is taken off again.
transport_plaintext_len-padded :
    (pkt : Bytes)
    → is_ip_packet pkt ≡ true
    → length pkt ≤ default_mtu
    → transport_plaintext_len (padded pkt) (length (padded pkt)) ≡ some (length pkt)
unfolding transport_plaintext_len
transport_plaintext_len-padded pkt ip fits =
    let zeros : Bytes = replicate (pad_packet (length pkt) - length pkt) 0 in
    let at = λ (i : ℕ) (h : i < length pkt). get_or-append pkt zeros i 0 h in
    ground (arith, length-le-padded pkt fits, at 0, at 2, at 3, at 4, at 5)

is_ip_packet-long :
    (pkt : Bytes)
    → is_ip_packet pkt ≡ true
    → if version_of pkt == 4 then 20 ≤ length pkt else 40 ≤ length pkt
is_ip_packet-long pkt ip = ground arith

is_allowed-padded :
    (routes : AllowedIps) (peer : Peer) (pkt : Bytes)
    → is_ip_packet pkt ≡ true
    → is_allowed routes peer (padded pkt) (length pkt) ≡ is_allowed routes peer pkt (length pkt)
unfolding is_allowed
is_allowed-padded routes peer pkt ip =
    let zeros : Bytes = replicate (pad_packet (length pkt) - length pkt) 0 in
    ground (
      arith,
      get_or-append pkt zeros 0 0,
      take-drop-append 4 12 pkt zeros,
      take-drop-append 16 8 pkt zeros,
    )

-- what `is_allowed` reads of the peer stays
is_allowed_peer :
    (routes : AllowedIps) (peer peer' : Peer) (pkt : Bytes) (n : ℕ)
    → peer'.peer_id ≡ peer.peer_id
    → peer'.allowedips ≡ peer.allowedips
    → is_allowed routes peer' pkt n ≡ is_allowed routes peer pkt n
unfolding is_allowed
is_allowed_peer routes peer peer' pkt n e f = ground arith

confirm_next-peer :
    (s : Session) (a : ℕ)
    → ((confirm_next s a).peer.peer_id ≡ s.peer.peer_id)
      × ((confirm_next s a).peer.allowedips ≡ s.peer.allowedips)
unfolding confirm_next retire
confirm_next-peer s a = ground arith

timers_data_received-peer :
    (peer : Peer)
    → ((timers_data_received peer).peer_id ≡ peer.peer_id)
      × ((timers_data_received peer).allowedips ≡ peer.allowedips)
unfolding timers_data_received
timers_data_received-peer peer = ground arith

deliver-written :
    (d : Device) (src : Sockaddr) (a len : ℕ) (plaintext : Bytes) (n : ℕ)
    → n ≢ 0
    → is_allowed d.routes d.session.peer plaintext n ≡ true
    → (deliver d src a len plaintext n).written ≡ d.written ++ (take n plaintext ∷ [])
unfolding deliver
deliver-written d src a len plaintext n some_bytes allowed =
    let counted = record d.session.peer { rx_bytes = (d.session.peer.rx_bytes + len) % 2 ^ 64 } in
    let received = timers_data_received counted in
    let session = confirm_next (record d.session { peer = received }) a in
    let here : Peer = record session.peer { endpoint = some src } in
    let kept = confirm_next-peer (record d.session { peer = received }) a in
    let kept' = timers_data_received-peer counted in
    let same =
      is_allowed_peer d.routes d.session.peer here plaintext n (kept.0 ∙ kept'.0)
        (kept.1 ∙ kept'.1) in
    ground (arith, same)

commit-check :
    (f : Filter) (counter limit : ℕ)
    → check f counter limit ≡ true
    → (commit f counter limit).1 ≡ true
unfolding commit
commit-check f counter limit h = ground arith

module _ (p : Primitives) (env : Env) (ready : Primitives.sodium_init p ≡ true)
    (aead : AeadLaw p) where
  receive_under-written :
      (d : Device) (src : Sockaddr) (a : ℕ) (kp : Keypair) (send_key : Bytes) (counter : ℕ)
      (pkt ciphertext : Bytes)
      → kp.recv_key ≡ send_key
      → check kp.replay counter reject_after_messages ≡ true
      → env.buffer ≡ true
      → is_ip_packet pkt ≡ true
      → length pkt ≤ default_mtu
      → is_allowed d.routes d.session.peer pkt (length pkt) ≡ true
      → encrypt p send_key (nonce_bytes counter) (padded pkt) [] ≡ some ciphertext
      → (receive_under p env d src a kp counter ciphertext).written ≡ d.written ++ (pkt ∷ [])
  unfolding receive_under
  receive_under-written d src a kp send_key counter pkt ciphertext same_key new buffer ip fits
        allowed enc =
      let made = Primitives.aead_encrypt p send_key (nonce_bytes counter) (padded pkt) [] in
      let is_made : made ≡ ciphertext =
        ground (arith, encrypt-ready p ready send_key (nonce_bytes counter) (padded pkt) [], enc) in
      let opened = decrypt-encrypted p ready aead send_key (nonce_bytes counter) (padded pkt) [] in
      let sized = aead.sized send_key (nonce_bytes counter) (padded pkt) [] in
      let read : decrypt p kp.recv_key (nonce_bytes counter) ciphertext [] ≡ some (padded pkt) =
        ground (arith, opened, is_made, same_key) in
      let len : length ciphertext - 16 ≡ length (padded pkt) = ground (arith, sized, is_made) in
      let whole : transport_plaintext_len (padded pkt) (length ciphertext - 16)
          ≡ some (length pkt) =
        ap (transport_plaintext_len (padded pkt)) len
        ∙ transport_plaintext_len-padded pkt ip fits in
      let committed = record d {
        session = record d.session {
          keypairs =
              update d.session.keypairs a
                (some (record kp { replay = (commit kp.replay counter reject_after_messages).0 }));
        };
      } in
      let long = is_ip_packet-long pkt ip in
      let routed : is_allowed d.routes d.session.peer (padded pkt) (length pkt) ≡ true =
        is_allowed-padded d.routes d.session.peer pkt ip ∙ allowed in
      let written =
        deliver-written committed src a (16 + length ciphertext) (padded pkt) (length pkt)
          (ground (arith, long)) routed in
      let inner : take (length pkt) (padded pkt) ≡ pkt =
        take-append (length pkt) pkt _ (omega arith) ∙ take-length (length pkt) pkt refl in
      ground (
        arith,
        read,
        whole,
        written,
        inner,
        commit-check kp.replay counter reject_after_messages new,
      )

  -- A whole IP packet of at most the MTU that one device encrypts for the other comes out of the
  -- other's TUN device as it went in, with its padding removed: its index table has the keypair
  -- for the receiver index of the message, the keypair has the sender's key, the counter is new
  -- to it, there is a buffer, the source address is routed to the peer, and libsodium has started
  -- and keeps its laws.
  pub tunnel_round_trip :
      (d : Device) (src : Sockaddr) (entry : Entry) (a : ℕ) (kp sender : Keypair) (counter : ℕ)
      (pkt ciphertext : Bytes)
      → lookup d.session.index_table sender.remote_index ≡ some entry
      → entry.entry_type ≡ idx_keypair
      → entry.keypair ≡ some a
      → d.session.keypairs a ≡ some kp
      → kp.recv_key ≡ sender.send_key
      → check kp.replay counter reject_after_messages ≡ true
      → env.buffer ≡ true
      → is_ip_packet pkt ≡ true
      → length pkt ≤ default_mtu
      → is_allowed d.routes d.session.peer pkt (length pkt) ≡ true
      → encrypt p sender.send_key (nonce_bytes counter) (padded pkt) [] ≡ some ciphertext
      → (handle_transport p env d src sender.remote_index counter ciphertext).written
        ≡ d.written ++ (pkt ∷ [])
  unfolding handle_transport
  tunnel_round_trip d src entry a kp sender counter pkt ciphertext found type at here same_key new
        buffer ip fits allowed enc =
      let sized = aead.sized sender.send_key (nonce_bytes counter) (padded pkt) [] in
      let written =
        receive_under-written d src a kp sender.send_key counter pkt ciphertext same_key new buffer
          ip fits allowed enc in
      let is_made = encrypt-ready p ready sender.send_key (nonce_bytes counter) (padded pkt) [] in
      let long : 16 ≤ length ciphertext = ground (arith, sized, is_made, enc) in
      ground (arith, found, type, at, here, written, long)
