-- ===== src/Crypto/Ready.antt =====
-- The wrappers of src/crypto.c once libsodium has started.
use wgx.Base.{◌≡◌, false, true, some, arith, ltb, length}
use wgx.Base.Bytes.{Bytes}
use wgx.Crypto.{Primitives, random_bytes, encrypt, decrypt, xencrypt, xdecrypt, dh, aead_tag_len}

module _ (p : Primitives) (ready : Primitives.sodium_init p ≡ true) where
  pub random_bytes-ready : (rnd : Bytes) → random_bytes p rnd ≡ some rnd
  unfolding random_bytes
  random_bytes-ready rnd = ground arith

  pub encrypt-ready :
      (key nonce m aad : Bytes)
      → encrypt p key nonce m aad ≡ some (Primitives.aead_encrypt p key nonce m aad)
  unfolding encrypt
  encrypt-ready key nonce m aad = ground arith

  pub xencrypt-ready :
      (key nonce m aad : Bytes)
      → xencrypt p key nonce m aad ≡ some (Primitives.xaead_encrypt p key nonce m aad)
  unfolding xencrypt
  xencrypt-ready key nonce m aad = ground arith

  pub xdecrypt-ready :
      (key nonce c aad : Bytes)
      → xdecrypt p key nonce c aad ≡ Primitives.xaead_decrypt p key nonce c aad
  unfolding xdecrypt
  xdecrypt-ready key nonce c aad = ground arith

  pub decrypt-ready :
      (key nonce c aad : Bytes)
      → ltb (length c) aead_tag_len ≡ false
      → decrypt p key nonce c aad ≡ Primitives.aead_decrypt p key nonce c aad
  unfolding decrypt
  decrypt-ready key nonce c aad long = ground arith

  pub dh-ready :
      (shared priv pub_key : Bytes)
      → dh p shared priv pub_key ≡ Primitives.scalarmult p shared priv pub_key
  unfolding dh
  dh-ready shared priv pub_key = ground arith
