-- ===== src/Tcp/Segment/RoundTrip.antt =====
-- A segment that one stack of src/tcpstack.c sends is read by another as it was meant.
use wgx.Base.{
  ℕ, zero, suc, ◌+◌, ◌-◌, ◌*◌, ◌/◌, ◌%◌, ◌^◌, ◌<◌, ◌≤◌, ◌≡◌, refl, ap, sym, ◌∙◌, arith, some, [],
  ◌∷◌, ◌++◌, length, take, drop, get_or, length-append,
}
use wgx.Base.Bytes.{Bytes}
use wgx.Tcp.Types.{Family}
use wgx.Tcp.Segment.{tcp_bytes}
use wgx.Tcp.Segment.Parse.{parse_tcp, byte_at, be16_at, be32_at}

pub drop_append : (xs ys : Bytes) (k : ℕ) → drop (length xs + k) (xs ++ ys) ≡ drop k ys
drop_append [] ys k = ap (λ (t : ℕ). drop t ys) (omega arith)
drop_append (x ∷ xs) ys k =
    ap (λ (t : ℕ). drop t (x ∷ xs ++ ys)) {x = suc (length xs) + k} {y = suc (length xs + k)}
      (omega arith)
    ∙ drop_append xs ys k

drop_nil : (k : ℕ) → drop {A = ℕ} k [] ≡ []
drop_nil zero = refl
drop_nil (suc k) = refl

pub drop-drop : (j k : ℕ) (xs : Bytes) → drop (j + k) xs ≡ drop k (drop j xs)
drop-drop zero k xs = ap (λ (t : ℕ). drop t xs) (omega arith)
drop-drop (suc j) k [] =
    ap (λ (t : ℕ). drop {A = ℕ} t []) {y = suc (j + k)} (omega arith) ∙ sym (drop_nil k)
drop-drop (suc j) k (x ∷ xs) =
    ap (λ (t : ℕ). drop t (x ∷ xs)) {x = suc j + k} {y = suc (j + k)} (omega arith)
    ∙ drop-drop j k xs

pub byte_at_append : (xs ys : Bytes) (k : ℕ) → byte_at (xs ++ ys) (length xs + k) ≡ byte_at ys k
byte_at_append [] ys k = ap (λ (t : ℕ). get_or ys t 0) (omega arith)
byte_at_append (x ∷ xs) ys k =
    ap (λ (t : ℕ). get_or (x ∷ xs ++ ys) t 0) {x = suc (length xs) + k} {y = suc (length xs + k)}
      (omega arith)
    ∙ byte_at_append xs ys k

pub take_append : (xs ys : Bytes) → take (length xs) (xs ++ ys) ≡ xs
take_append [] ys = refl
take_append (x ∷ xs) ys = ap (λ (t : Bytes). x ∷ t) (take_append xs ys)

pub take_whole : (xs : Bytes) → take (length xs) xs ≡ xs
take_whole [] = refl
take_whole (x ∷ xs) = ap (λ (t : Bytes). x ∷ t) (take_whole xs)

be16_at_append : (xs ys : Bytes) (k : ℕ) → be16_at (xs ++ ys) (length xs + k) ≡ be16_at ys k
be16_at_append xs ys k = ground (
  arith,
  byte_at_append xs ys k,
  byte_at_append xs ys (k + 1),
  ap (λ (t : ℕ). byte_at (xs ++ ys) t) {x = length xs + (k + 1)} {y = length xs + k + 1}
      (omega arith),
)

be32_at_append : (xs ys : Bytes) (k : ℕ) → be32_at (xs ++ ys) (length xs + k) ≡ be32_at ys k
be32_at_append xs ys k = ground (
  arith,
  byte_at_append xs ys k,
  byte_at_append xs ys (k + 1),
  byte_at_append xs ys (k + 2),
  byte_at_append xs ys (k + 3),
  ap (λ (t : ℕ). byte_at (xs ++ ys) t) {x = length xs + (k + 1)} {y = length xs + k + 1}
      (omega arith),
  ap (λ (t : ℕ). byte_at (xs ++ ys) t) {x = length xs + (k + 2)} {y = length xs + k + 2}
      (omega arith),
  ap (λ (t : ℕ). byte_at (xs ++ ys) t) {x = length xs + (k + 3)} {y = length xs + k + 3}
      (omega arith),
)

-- The header fields of a segment fit their widths, and its options a header.
pub record FitsHeader (sport dport seq ack window : ℕ) (opts : Bytes) : Type 0 where
  pub sport_fits : sport < 2 ^ 16
  pub dport_fits : dport < 2 ^ 16
  pub seq_fits : seq < 2 ^ 32
  pub ack_fits : ack < 2 ^ 32
  pub window_fits : window < 2 ^ 16
  pub aligned : length opts % 4 ≡ 0
  pub opts_fit : length opts ≤ 40

-- A TCP segment behind `ip`, the IP header, is read as it was written.
module _ (family : Family) (src dst ip : Bytes) (sport dport seq ack flags window c1 c0 : ℕ)
    (opts payload : Bytes) (fits : FitsHeader sport dport seq ack window opts) where
  abbrev tcp : Bytes
  tcp = tcp_bytes sport dport seq ack (20 + length opts) flags window (c1 ∷ c0 ∷ []) opts payload

  abbrev header : ℕ
  header = (20 + length opts) / 4 * 16 % 256

  data_off : header / 16 * 4 ≡ 20 + length opts
  data_off = omega (arith, fits.aligned, fits.opts_fit)

  be16_back : (v : ℕ) → v < 2 ^ 16 → (v / 256 ^ 1 % 256) * 256 + v / 256 ^ 0 % 256 ≡ v
  be16_back v lt = omega arith

  be32_back :
      (v : ℕ)
      → v < 2 ^ 32
      → (v / 256 ^ 3 % 256) * 2 ^ 24
          + (v / 256 ^ 2 % 256) * 2 ^ 16
          + (v / 256 ^ 1 % 256) * 2 ^ 8
          + v / 256 ^ 0 % 256
        ≡ v
  be32_back v lt = omega arith

  length-tcp : length tcp ≡ 20 + length opts + length payload
  length-tcp = omega (arith, length-append {0} opts payload)

  abbrev whole : Bytes
  whole = ip ++ tcp

  abbrev at : ℕ
  at = length ip

  off_at : byte_at whole (at + 12) / 16 * 4 ≡ 20 + length opts
  off_at = ap (λ (t : ℕ). t / 16 * 4) (byte_at_append ip tcp 12) ∙ data_off

  options_at : take (20 + length opts - 20) (drop (at + 20) whole) ≡ opts
  options_at =
      ap (λ (t : Bytes). take (20 + length opts - 20) t) (drop_append ip tcp 20)
      ∙ (ap (λ (t : ℕ). take t (opts ++ payload)) {y = length opts} (omega arith)
          ∙ take_append opts payload)

  sport_at : be16_at whole at ≡ sport
  sport_at =
      ap (be16_at whole) {y = at + 0} (omega arith)
      ∙ (be16_at_append ip tcp 0 ∙ be16_back sport fits.sport_fits)

  dport_at : be16_at whole (at + 2) ≡ dport
  dport_at = be16_at_append ip tcp 2 ∙ be16_back dport fits.dport_fits

  seq_at : be32_at whole (at + 4) ≡ seq
  seq_at = be32_at_append ip tcp 4 ∙ be32_back seq fits.seq_fits

  ack_at : be32_at whole (at + 8) ≡ ack
  ack_at = be32_at_append ip tcp 8 ∙ be32_back ack fits.ack_fits

  flags_at : byte_at whole (at + 13) ≡ flags
  flags_at = byte_at_append ip tcp 13

  window_at : be16_at whole (at + 14) ≡ window
  window_at = be16_at_append ip tcp 14 ∙ be16_back window fits.window_fits

  -- the payload stands where the reading says
  pub payload_at_lem : take (length payload) (drop (at + (20 + length opts)) whole) ≡ payload
  payload_at_lem =
      ap (λ (t : Bytes). take (length payload) t)
        (drop_append ip tcp (20 + length opts)
          ∙ (drop-drop 20 (length opts) tcp
              ∙ (ap (λ (t : ℕ). drop t (opts ++ payload)) {y = length opts + 0} (omega arith)
                  ∙ drop_append opts payload 0)))
      ∙ take_whole payload

  pub parse_tcp_lem :
      parse_tcp family src dst (ip ++ tcp) (length ip) (length tcp)
      ≡ some (record {
        family = family;
        src = src;
        dst = dst;
        src_port = sport;
        dst_port = dport;
        seq = seq;
        ack = ack;
        flags = flags;
        window = window;
        options = opts;
        payload_at = length ip + (20 + length opts);
        payload_len = length payload;
      })
  unfolding parse_tcp
  parse_tcp_lem = ground (
    arith, length-tcp, off_at, options_at, sport_at, dport_at, seq_at, ack_at, flags_at, window_at,
  )
