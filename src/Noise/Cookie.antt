-- ===== src/Noise/Cookie.antt =====
-- Cookies and the two MACs of a handshake message: the `cookie_*` functions of src/noise.c.
pub mod RoundTrip
use wgx.Base.{
  ℕ, ◌+◌, ◌++◌, [], Bool, true, false, ◌||◌, ◌&&◌, not, Option, none, some, ltb, leb, ◌==◌,
}
use wgx.Base.{if◌then◌else◌, replicate}
use wgx.Base.Bytes.{Bytes, bytes_eq}
use wgx.Crypto.{
  Primitives, blake2s128_mac, xencrypt, xdecrypt, random_bytes, key_len, hash_len, mac_len,
}
use wgx.Noise.Types.{
  CookieGen, CookieChecker, CookieReply, msg_cookie_reply, cookie_len, cookie_refresh_time_ms,
  sub64,
}
use wgx.Noise.Mix.{label_mac1, label_cookie}
use wgx.Peer.{Sockaddr, sockaddr_in, sockaddr_in6}

-- what `cookie_validate_macs` returns: -1, 0 and 1
pub data MacResult : Type 0 where
  invalid valid needs_cookie : MacResult

-- the bytes of `src` that the cookie is made of
abbrev pub src_bytes : Sockaddr → Bytes
src_bytes (sockaddr_in addr port) = addr ++ port
src_bytes (sockaddr_in6 addr port) = addr ++ port

-- `cookie_valid`
abbrev pub cookie_fresh : CookieGen → ℕ → Bool
cookie_fresh cg now_ms =
    not (cg.cookie_set_ms == 0) && ltb (sub64 now_ms cg.cookie_set_ms) cookie_refresh_time_ms

module _ (p : Primitives) where
  unfoldable pub checker_init : CookieChecker → Bytes → CookieChecker
  checker_init cc pub_key = record {
    mac1_key = Primitives.blake2s p hash_len [] (label_mac1 ++ pub_key);
    mac2_encrypt_key = Primitives.blake2s p hash_len [] (label_cookie ++ pub_key);
    mac2_secret = replicate hash_len 0;
    mac2_secret_set_ms = 0;
  }

  unfoldable pub gen_init : CookieGen → Bytes → CookieGen
  gen_init cg pub_key = record cg {
    mac1_key = Primitives.blake2s p hash_len [] (label_mac1 ++ pub_key);
    mac2_key = Primitives.blake2s p hash_len [] (label_cookie ++ pub_key);
    cookie = replicate cookie_len 0;
    cookie_set_ms = 0;
    has_last_mac1 = false;
  }

  -- `head` is the message up to `mac1`. Returns the generator and the two MACs.
  unfoldable pub add_macs : CookieGen → Bytes → ℕ → CookieGen × Bytes × Bytes
  add_macs cg head now_ms =
      let mac1 = blake2s128_mac p cg.mac1_key head in
      let mac2 =
        if cookie_fresh cg now_ms
        then blake2s128_mac p cg.cookie (head ++ mac1)
        else replicate mac_len 0 in
      (record cg { last_mac1 = mac1; has_last_mac1 = true }, mac1, mac2)

  unfoldable pub compute_cookie : CookieChecker → Sockaddr → Bytes
  compute_cookie cc src = blake2s128_mac p cc.mac2_secret (src_bytes src)

  -- the secret is drawn anew when it is unset or too old; `rnd` is the random source's answer
  unfoldable pub refresh_secret : CookieChecker → ℕ → Bytes → CookieChecker
  refresh_secret cc now_ms rnd =
      if (cc.mac2_secret_set_ms == 0)
        || leb cookie_refresh_time_ms (sub64 now_ms cc.mac2_secret_set_ms)
      then record cc {
        mac2_secret = elim (random_bytes p rnd) [ some secret ↦ secret | none ↦ cc.mac2_secret ];
        mac2_secret_set_ms = now_ms;
      }
      else cc

  unfoldable pub validate_macs :
      CookieChecker
      → Sockaddr
      → Bytes
      → Bytes
      → Bytes
      → ℕ
      → Bool
      → Bytes
      → CookieChecker × MacResult
  validate_macs cc src head mac1 mac2 now_ms under_load rnd =
      if not (bytes_eq (blake2s128_mac p cc.mac1_key head) mac1)
      then (cc, invalid)
      else (if not under_load
          then (cc, valid)
          else (let cc' = refresh_secret cc now_ms rnd in
              let expected_mac2 = blake2s128_mac p (compute_cookie cc' src) (head ++ mac1) in
              if not (bytes_eq expected_mac2 mac2) then (cc', needs_cookie) else (cc', valid)))

  -- `reply` is the caller's buffer; the nonce and the secret are drawn from the two random sources.
  unfoldable pub create_reply :
      CookieChecker
      → Sockaddr
      → Bytes
      → ℕ
      → CookieReply
      → ℕ
      → Bytes
      → Bytes
      → CookieChecker × CookieReply
  create_reply cc src last_mac1 receiver reply now_ms rnd_nonce rnd_secret =
      let nonce : Bytes = elim (random_bytes p rnd_nonce) [ some n ↦ n | none ↦ reply.nonce ] in
      let cc' = refresh_secret cc now_ms rnd_secret in
      let cookie = compute_cookie cc' src in
      let enc : Bytes = elim (xencrypt p cc'.mac2_encrypt_key nonce cookie last_mac1) [
        | some c ↦ c
        | none ↦ reply.cookie_enc
      ] in
      (
        cc',
        record {
          msg_type = msg_cookie_reply;
          receiver = receiver;
          nonce = nonce;
          cookie_enc = enc;
        },
      )

  -- Returns the generator, and whether the reply was accepted.
  unfoldable pub consume_reply : CookieGen → CookieReply → ℕ → CookieGen × Bool
  consume_reply cg reply now_ms =
      if not (reply.msg_type == msg_cookie_reply)
      then (cg, false)
      else (if not cg.has_last_mac1
          then (cg, false)
          else elim (xdecrypt p cg.mac2_key reply.nonce reply.cookie_enc cg.last_mac1) [
            | some cookie ↦ (record cg { cookie = cookie; cookie_set_ms = now_ms }, true)
            | none ↦ (cg, false)
          ])
