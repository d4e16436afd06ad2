-- ===== src/Crypto.antt =====
-- src/crypto.c and src/crypto.h: the wrappers of libsodium, and HMAC and HKDF over BLAKE2s.
-- libsodium and the hash of src/blake2s.c are the parameter `Primitives`; a hash that is fed by
-- several `blake2s_update` calls is that of the bytes joined.
pub mod Ready
use wgx.Base.{ℕ, bit_and, bit_or, bit_xor, Bool, false, Option, none, some}
use wgx.Base.{[], ◌∷◌, ◌++◌, map, ltb, if◌then◌else◌, length, get_or, set, replicate, take}
use wgx.Base.Bytes.{Bytes}

-- `sodium_init` may fail; `scalarmult` is given what its output buffer holds, and returns whether
-- it succeeded and what the buffer holds then. The key stands first in each call.
pub record Primitives : Type 0 where
  pub sodium_init : Bool
  pub scalarmult_base : Bytes → Bytes
  pub scalarmult : Bytes → Bytes → Bytes → Bool × Bytes
  pub aead_encrypt : Bytes → Bytes → Bytes → Bytes → Bytes
  pub aead_decrypt : Bytes → Bytes → Bytes → Bytes → Option Bytes
  pub xaead_encrypt : Bytes → Bytes → Bytes → Bytes → Bytes
  pub xaead_decrypt : Bytes → Bytes → Bytes → Bytes → Option Bytes
  pub blake2s : ℕ → Bytes → Bytes → Bytes

-- `WG_KEY_LEN`, `WG_HASH_LEN`, `WG_MAC_LEN`, `WG_AEAD_TAG_LEN` and `BLAKE2S_BLOCKBYTES`
abbrev pub key_len : ℕ
key_len = 32

abbrev pub hash_len : ℕ
hash_len = 32

abbrev pub mac_len : ℕ
mac_len = 16

abbrev pub aead_tag_len : ℕ
aead_tag_len = 16

abbrev pub block_bytes : ℕ
block_bytes = 64

unfoldable pub clamp_private_key : Bytes → Bytes
clamp_private_key priv =
    let low = set priv 0 (bit_and (get_or priv 0 0) 248) in
    set low 31 (bit_or (bit_and (get_or low 31 0) 127) 64)

module _ (p : Primitives) where
  open p use {sodium_init, scalarmult_base, scalarmult, aead_encrypt, aead_decrypt}
  open p use {xaead_encrypt, xaead_decrypt, blake2s}

  -- the random bytes are an argument
  unfoldable pub random_bytes : Bytes → Option Bytes
  random_bytes rnd = if sodium_init then some rnd else none

  unfoldable pub generate_private_key : Bytes → Option Bytes
  unfolding random_bytes
  generate_private_key rnd = elim (random_bytes rnd) [
    | none ↦ none
    | some priv ↦ some (clamp_private_key priv)
  ]

  -- `pub` keeps what it holds where the library does not start
  unfoldable pub generate_public_key : Bytes → Bytes → Bytes
  generate_public_key pub_key priv = if sodium_init then scalarmult_base priv else pub_key

  -- `wg_dh`: its status, and what `shared` holds afterwards
  unfoldable pub dh : Bytes → Bytes → Bytes → Bool × Bytes
  dh shared priv pub_key = if sodium_init then scalarmult shared priv pub_key else (false, shared)

  unfoldable pub encrypt : Bytes → Bytes → Bytes → Bytes → Option Bytes
  encrypt key nonce plaintext aad =
      if sodium_init then some (aead_encrypt key nonce plaintext aad) else none

  unfoldable pub decrypt : Bytes → Bytes → Bytes → Bytes → Option Bytes
  decrypt key nonce ciphertext aad =
      if ltb (length ciphertext) aead_tag_len
      then none
      else (if sodium_init then aead_decrypt key nonce ciphertext aad else none)

  unfoldable pub xencrypt : Bytes → Bytes → Bytes → Bytes → Option Bytes
  xencrypt key nonce plaintext aad =
      if sodium_init then some (xaead_encrypt key nonce plaintext aad) else none

  unfoldable pub xdecrypt : Bytes → Bytes → Bytes → Bytes → Option Bytes
  xdecrypt key nonce ciphertext aad =
      if sodium_init then xaead_decrypt key nonce ciphertext aad else none

  unfoldable pub blake2s256 : Bytes → Bytes
  blake2s256 m = blake2s hash_len [] m

  unfoldable pub blake2s128_mac : Bytes → Bytes → Bytes
  blake2s128_mac key m = blake2s mac_len key m

  -- the key, hashed if it is longer than a block, in a block of zeros
  abbrev hmac_block : Bytes → Bytes
  hmac_block key = take block_bytes (
      (if ltb block_bytes (length key) then blake2s hash_len [] key else key)
      ++ replicate block_bytes 0)

  unfoldable pub hmac_blake2s : Bytes → Bytes → Bytes → Bytes
  hmac_blake2s key in0 in1 =
      let k = hmac_block key in
      let ipad = map (λ b. bit_xor b 0x36) k in
      let opad = map (λ b. bit_xor b 0x5c) k in
      let inner = blake2s hash_len [] (ipad ++ (in0 ++ in1)) in blake2s hash_len [] (opad ++ inner)

  unfoldable pub kdf1 : Bytes → Bytes → Bytes
  unfolding hmac_blake2s
  kdf1 key input = let prk = hmac_blake2s key input [] in hmac_blake2s prk (0x01 ∷ []) []

  unfoldable pub kdf2 : Bytes → Bytes → Bytes × Bytes
  unfolding hmac_blake2s
  kdf2 key input =
      let prk = hmac_blake2s key input [] in
      let t0 = hmac_blake2s prk (0x01 ∷ []) [] in
      let t1 = hmac_blake2s prk t0 (0x02 ∷ []) in (t0, t1)

  unfoldable pub kdf3 : Bytes → Bytes → Bytes × Bytes × Bytes
  unfolding hmac_blake2s
  kdf3 key input =
      let prk = hmac_blake2s key input [] in
      let t0 = hmac_blake2s prk (0x01 ∷ []) [] in
      let t1 = hmac_blake2s prk t0 (0x02 ∷ []) in
      let t2 = hmac_blake2s prk t1 (0x03 ∷ []) in (t0, t1, t2)
