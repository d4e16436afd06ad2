-- ===== src/Tcp/Sendbuf.antt =====
-- src/tcpstack.c: the ring of bytes that are sent or wait to be sent, and are not acknowledged.
pub mod Ring
pub mod Refine
pub mod Moves
use wgx.Base.{
  ℕ, zero, suc, ◌+◌, ◌-◌, ◌*◌, ◌%◌, ◌^◌, ◌&&◌, Bool, true, false, min, [], ◌∷◌, ◌++◌, ◌==◌, ltb,
  leb, if◌then◌else◌, length, take, drop, replicate,
}
use wgx.Base.Bytes.{Bytes}
use wgx.Tcp.Types.{Sendbuf, tcp_sendbuf_size, tcp_sendbuf_initial_size}

-- `memcpy(dst + pos, src, …)`: it stays inside `dst` in the code, and here too
unfoldable pub write : Bytes → ℕ → Bytes → Bytes
write [] pos src = []
write (d ∷ ds) zero [] = d ∷ ds
write (d ∷ ds) zero (s ∷ ss) = s ∷ write ds zero ss
write (d ∷ ds) (suc pos) src = d ∷ write ds pos src

-- `while (new_cap < need && new_cap < WG_TCP_SENDBUF_SIZE) new_cap *= 2`
unfoldable pub double_cap : ℕ → ℕ → ℕ → ℕ
double_cap zero need cap = cap
double_cap (suc fuel) need cap = elim (ltb cap need && ltb cap tcp_sendbuf_size) [
  | true ↦ double_cap fuel need (cap * 2 % 2 ^ 32)
  | false ↦ cap
]

-- the capacity that `sendbuf_grow` asks for; 18 rounds reach `WG_TCP_SENDBUF_SIZE` from 1
abbrev pub grown_cap : ℕ → ℕ → ℕ
grown_cap need cap =
    min tcp_sendbuf_size (double_cap 18 need (if cap == 0 then tcp_sendbuf_initial_size else cap))

-- the two copies out of the ring, up to its end and from its start
abbrev pub ring_copy : Bytes → ℕ → ℕ → ℕ → Bytes
ring_copy bytes cap pos len =
    let first = min (cap - pos) len in take first (drop pos bytes) ++ take (len - first) bytes

-- `mem` is whether `malloc` gives memory; 0 in `sendbuf_grow` is true
unfoldable pub sendbuf_grow : Bool → Sendbuf → ℕ → Bool × Sendbuf
sendbuf_grow mem b need =
    if leb need b.cap
    then (true, b)
    else (if ltb (grown_cap need b.cap) need
        then (false, b)
        else (if mem
            then (
              true,
              record {
                bytes =
                    write (replicate (grown_cap need b.cap) 0) 0
                      (ring_copy b.bytes b.cap b.head b.len);
                cap = grown_cap need b.cap;
                head = 0;
                len = b.len;
              },
            )
            else (false, b)))

unfoldable pub sendbuf_append : Sendbuf → Bytes → Sendbuf
sendbuf_append b src =
    let tail = (b.head + b.len) % b.cap in
    let first = min (b.cap - tail) (length src) in
    record {
      bytes = write (write b.bytes tail (take first src)) 0 (drop first src);
      cap = b.cap;
      head = b.head;
      len = b.len + length src;
    }

unfoldable pub sendbuf_copy_out : Sendbuf → ℕ → ℕ → Bytes
sendbuf_copy_out b off len = ring_copy b.bytes b.cap ((b.head + off) % b.cap) len

unfoldable pub sendbuf_consume : Sendbuf → ℕ → Sendbuf
sendbuf_consume b len =
    if leb b.len len
    then record b { head = 0; len = 0 }
    else record b { head = (b.head + len) % b.cap; len = b.len - len }
