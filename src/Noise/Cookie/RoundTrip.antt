-- ===== src/Noise/Cookie/RoundTrip.antt =====
-- The cookie exchange of src/noise.c end to end: a sender that is told to come back with a cookie
-- gets one that the receiver accepts.
use wgx.Base.{ℕ, ◌++◌, ◌≡◌, ◌≢◌, refl, arith, ltb, true, some, Bool}
use wgx.Base.Bytes.{Bytes, bytes_eq_refl}
use wgx.Crypto.{Primitives, blake2s128_mac}
use wgx.Crypto.Ready.{random_bytes-ready, xencrypt-ready, xdecrypt-ready}
use wgx.Noise.Types.{
  CookieGen, CookieChecker, CookieReply, cookie_refresh_time_ms, msg_cookie_reply, sub64,
}
use wgx.Noise.Cookie.{
  valid, add_macs, compute_cookie, refresh_secret, validate_macs, create_reply, consume_reply,
}
use wgx.Peer.{Sockaddr}

-- What libsodium documents of XChaCha20-Poly1305: decryption gives back what was encrypted.
pub record XAeadLaw (p : Primitives) : Type 0 where
  pub opens :
      (key nonce m aad : Bytes)
      → Primitives.xaead_decrypt p key nonce (Primitives.xaead_encrypt p key nonce m aad) aad
        ≡ some m

validate_macs_lem :
    (p : Primitives) (cc : CookieChecker) (src : Sockaddr) (head mac1 mac2 : Bytes) (now_ms : ℕ)
    (rnd : Bytes)
    → refresh_secret p cc now_ms rnd ≡ cc
    → mac1 ≡ blake2s128_mac p cc.mac1_key head
    → mac2 ≡ blake2s128_mac p (compute_cookie p cc src) (head ++ mac1)
    → (validate_macs p cc src head mac1 mac2 now_ms true rnd).1 ≡ valid
unfolding validate_macs
validate_macs_lem p cc src head mac1 mac2 now_ms rnd kept is_mac1 is_mac2 =
    ground (arith, bytes_eq_refl mac1, bytes_eq_refl mac2)

module _ (p : Primitives) (ready : Primitives.sodium_init p ≡ true) (law : XAeadLaw p)
    (cc : CookieChecker) (cg : CookieGen) (src : Sockaddr)
    (same_key : cg.mac2_key ≡ cc.mac2_encrypt_key) (same_mac1 : cg.mac1_key ≡ cc.mac1_key)
    (asked : cg.has_last_mac1 ≡ true) (receiver : ℕ) (buffer : CookieReply) (t0 t1 t2 t3 : ℕ)
    (rnd_nonce rnd_secret rnd : Bytes) (head : Bytes) where
  abbrev pub replied : CookieChecker × CookieReply
  replied = create_reply p cc src cg.last_mac1 receiver buffer t0 rnd_nonce rnd_secret

  abbrev pub consumed : CookieGen × Bool
  consumed = consume_reply p cg replied.1 t1

  refreshed : CookieChecker
  refreshed = refresh_secret p cc t0 rnd_secret

  replied_checker : replied.0 ≡ refreshed
  unfolding create_reply refreshed
  replied_checker = refl

  kept_key : refreshed.mac2_encrypt_key ≡ cg.mac2_key
  unfolding refreshed refresh_secret
  kept_key = ground arith

  replied_enc :
      replied.1.cookie_enc
      ≡ Primitives.xaead_encrypt p cg.mac2_key replied.1.nonce
          (compute_cookie p refreshed src)
          cg.last_mac1
  unfolding create_reply refreshed
  replied_enc = ground (
    arith,
    random_bytes-ready p ready rnd_nonce,
    kept_key,
    xencrypt-ready p ready refreshed.mac2_encrypt_key rnd_nonce (compute_cookie p refreshed src)
        cg.last_mac1,
  )

  replied_type : replied.1.msg_type ≡ msg_cookie_reply
  unfolding create_reply
  replied_type = refl

  -- The sender accepts the reply to its last message, and stores the cookie of its address.
  reply_accepted :
      consumed ≡ (record cg { cookie = compute_cookie p refreshed src; cookie_set_ms = t1 }, true)
  unfolding consume_reply
  reply_accepted = ground (
    arith,
    replied_type,
    replied_enc,
    xdecrypt-ready p ready cg.mac2_key replied.1.nonce replied.1.cookie_enc cg.last_mac1,
    law.opens cg.mac2_key replied.1.nonce (compute_cookie p refreshed src) cg.last_mac1,
  )

  -- what the sender puts on its next message
  abbrev pub next_macs : CookieGen × Bytes × Bytes
  next_macs = add_macs p consumed.0 head t2

  kept_mac1_key : refreshed.mac1_key ≡ cg.mac1_key
  unfolding refreshed refresh_secret
  kept_mac1_key = ground arith

  module _ (set : t1 ≢ 0) (young : ltb (sub64 t2 t1) cookie_refresh_time_ms ≡ true) where
    next_macs_lem :
        (next_macs.1 ≡ blake2s128_mac p cg.mac1_key head)
        × (next_macs.2
            ≡ blake2s128_mac p
                (compute_cookie p refreshed src)
                (head ++ blake2s128_mac p cg.mac1_key head))
    unfolding add_macs
    next_macs_lem = ground (arith, reply_accepted)

    -- A sender that has sent a message takes the cookie reply to it of a receiver whose keys it
    -- has, and while the cookie is younger than two minutes and was not set at time 0, and the
    -- receiver's secret is not drawn anew, the receiver accepts both MACs of the sender's next
    -- message from that address under load. libsodium has started and keeps its law.
    pub cookie_accepted :
        refresh_secret p replied.0 t3 rnd ≡ replied.0
        → (validate_macs p replied.0 src head next_macs.1 next_macs.2 t3 true rnd).1 ≡ valid
    cookie_accepted kept =
        validate_macs_lem p replied.0 src head next_macs.1 next_macs.2 t3 rnd kept
          (rw (replied_checker, kept_mac1_key) next_macs_lem.0)
          (rw (replied_checker, next_macs_lem.0) next_macs_lem.1)
