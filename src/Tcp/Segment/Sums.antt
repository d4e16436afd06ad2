-- ===== src/Tcp/Segment/Sums.antt =====
-- The checksums of the packets that `send_segment` of src/tcpstack.c builds.
use mathlib.Core.Path.{subst}
use wgx.Base.{
  ℕ, zero, suc, ◌+◌, ◌*◌, ◌/◌, ◌%◌, ◌^◌, ◌<◌, ◌≤◌, ◌≡◌, refl, ap, sym, ◌∙◌, arith, List, [], ◌∷◌,
  ◌++◌, ◌==◌, if◌then◌else◌, length, take, drop, length-append, Bool-cases, inl, inr,
}
use wgx.Base.Bytes.{Bytes, be_bytes}
use wgx.Tcp.Seq.{add32}
use wgx.Tcp.Types.{Family, inet, inet6, OooSeg, Conn, App, tcp_mss, tcpf_syn, tcpf_ack, flag_set}
use wgx.Tcp.Checksum.{
  cksum_add, cksum_fold, ip4_checksum, tcp4_checksum, tcp6_checksum, pseudo4, pseudo6,
}
use wgx.Tcp.Checksum.Valid.{
  AreBytes, word_sum, word_sum-le, word_sum-append, cksum_add-word_sum, checksum_field, IsRight,
  pseudo_header, cksum_fold-IsRight,
}
use wgx.Tcp.Segment.{
  sack_segs, sack_blocks, tcp_options, advertised_window, tcp_of, ip4_bytes, ip6_bytes, packet_of,
  segment,
}
use wgx.Tcp.Segment.RoundTrip.{take_append, drop_append}
use wgx.Tcp.Segment.Packet.{length-tcp_options, length-sack_segs, addr_len}

pub AreBytes-append : (xs ys : Bytes) → AreBytes xs → AreBytes ys → AreBytes (xs ++ ys)
AreBytes-append [] ys hx hy = hy
AreBytes-append (x ∷ xs) ys hx hy = (hx.0, AreBytes-append xs ys hx.1 hy)

AreBytes-be_bytes : (n v : ℕ) → AreBytes (be_bytes n v)
AreBytes-be_bytes zero v = tt
AreBytes-be_bytes (suc n) v = (omega arith, AreBytes-be_bytes n v)

AreBytes-sack_blocks : (segs : List OooSeg) → AreBytes (sack_blocks segs)
AreBytes-sack_blocks [] = tt
AreBytes-sack_blocks (s ∷ segs) =
    let right = add32 s.seq (length s.bytes) in
    AreBytes-append (be_bytes 4 s.seq) (be_bytes 4 right ++ sack_blocks segs)
      (AreBytes-be_bytes 4 s.seq)
      (AreBytes-append (be_bytes 4 right) (sack_blocks segs) (AreBytes-be_bytes 4 right)
        (AreBytes-sack_blocks segs))

AreBytes-tcp_options :
    (flags : ℕ) (segs : List OooSeg) → length segs ≤ 3 → AreBytes (tcp_options flags segs)
unfolding tcp_options
AreBytes-tcp_options flags segs few = elim (Bool-cases (flag_set flags tcpf_syn)) [
  | inl e ↦ rw e (omega arith)
  | inr e ↦ elim (Bool-cases (length segs == 0)) [
    | inl none_left ↦ rw (e, none_left) tt
    | inr some_left ↦
        rw (e, some_left)
          (omega arith, (omega arith, (omega arith, (omega arith, AreBytes-sack_blocks segs))))
  ]
]

length-ip4_checksum : (hdr : Bytes) → length (ip4_checksum hdr) ≡ 2
unfolding ip4_checksum cksum_fold
length-ip4_checksum hdr = refl

take_header : (n : ℕ) (header rest : Bytes) → length header ≡ n → take n (header ++ rest) ≡ header
take_header n header rest size =
    ap (λ (t : ℕ). take t (header ++ rest)) (sym size) ∙ take_append header rest

drop_header : (n : ℕ) (header rest : Bytes) → length header ≡ n → drop n (header ++ rest) ≡ rest
drop_header n header rest size =
    ap (λ (t : ℕ). drop t (header ++ rest)) {x = n} {y = length header + 0} (omega (arith, size))
    ∙ drop_append header rest 0

-- the bytes of a connection's addresses and of a payload are bytes
pub record HasBytes (c : Conn) (flags : ℕ) (payload : Bytes) : Type 0 where
  pub local_bytes : AreBytes c.local_addr
  pub remote_bytes : AreBytes c.remote_addr
  pub flags_byte : flags < 256
  pub payload_bytes : AreBytes payload
  pub payload_fits : length payload ≤ tcp_mss

module _ (app : App) (c : Conn) (flags seq ack : ℕ) (payload : Bytes)
    (h : HasBytes c flags payload) where
  abbrev opts : Bytes
  opts = tcp_options flags (sack_segs c flags payload)

  abbrev ack_field : ℕ
  ack_field = if flag_set flags tcpf_ack then ack else 0

  abbrev before : Bytes
  before =
      be_bytes 2 c.local_port
      ++ (be_bytes 2 c.remote_port
          ++ (be_bytes 4 seq
              ++ (be_bytes 4 ack_field
                  ++ ((20 + length opts) / 4 * 16 % 256
                      ∷ flags
                      ∷ be_bytes 2 (advertised_window app c flags)))))

  abbrev after : Bytes
  after = 0 ∷ 0 ∷ opts ++ payload

  tcp_split :
      (c1 c0 : ℕ)
      → tcp_of app c flags seq ack payload (c1 ∷ c0 ∷ []) ≡ before ++ ((c1 ∷ c0 ∷ []) ++ after)
  tcp_split c1 c0 = refl

  opts_lem : (length opts % 4 ≡ 0) × (length opts ≤ 28)
  opts_lem = length-tcp_options flags (sack_segs c flags payload) (length-sack_segs c flags payload)

  before_sum : word_sum before ≤ 16 * 65535
  before_sum = omega (arith, word_sum-le before before_bytes)
    where
      before_bytes : AreBytes before
      before_bytes = omega (arith, h.flags_byte)

  after_sum : word_sum after ≤ 1500 * 65535
  after_sum =
      let bytes =
        AreBytes-append opts payload
          (AreBytes-tcp_options flags (sack_segs c flags payload)
            (length-sack_segs c flags payload))
          h.payload_bytes in
      omega (
        arith,
        word_sum-le after (omega arith, (omega arith, bytes)),
        length-append {0} opts payload,
        opts_lem,
        h.payload_fits,
      )

  -- The checksum over any start of up to 1500 words makes the segment's sum come out right.
  tcp_sum :
      (start : ℕ)
      → start ≤ 1500 * 65535
      → cksum_fold (
          cksum_add
            (tcp_of app c flags seq ack payload
              (cksum_fold (cksum_add (tcp_of app c flags seq ack payload (0 ∷ 0 ∷ [])) start)))
            start)
        ≡ 0 ∷ 0 ∷ []
  unfolding cksum_fold
  tcp_sum start few =
      checksum_field start 8 before after refl (omega (arith, before_sum, after_sum))

  -- the sum of a pseudo header, of at most 40 bytes
  pseudo_sum :
      (pseudo : Bytes)
      → AreBytes pseudo
      → length pseudo ≤ 40
      → (word_sum pseudo ≤ 20 * 65535) × (cksum_add pseudo 0 ≤ 20 * 65535)
  pseudo_sum pseudo bytes short =
      let few = word_sum-le pseudo bytes in
      (omega (arith, few), omega (arith, few, cksum_add-word_sum pseudo 0 (omega (arith, few))))

  abbrev filled : Bytes → Bytes
  filled = tcp_of app c flags seq ack payload

  abbrev unsummed : Bytes
  unsummed = filled (0 ∷ 0 ∷ [])

  -- the sum of a segment whose checksum is filled in
  filled_sum : (v : ℕ) → word_sum (filled (be_bytes 2 v)) ≤ 1517 * 65535
  filled_sum v =
      let field : Bytes = be_bytes 2 v in
      omega (
        arith,
        ap word_sum (tcp_split (v / 256 ^ 1 % 256) (v / 256 ^ 0 % 256)),
        word_sum-append 8 before (field ++ after) refl,
        word_sum-append 1 field after refl,
        word_sum-le field (AreBytes-be_bytes 2 v),
        before_sum,
        after_sum,
      )

  pseudo4_sum :
      (n : ℕ)
      → length c.local_addr ≡ 4
      → length c.remote_addr ≡ 4
      → (length (pseudo4 c.local_addr c.remote_addr n) ≡ 12)
        × (word_sum (pseudo4 c.local_addr c.remote_addr n) ≤ 20 * 65535)
        × (cksum_add (pseudo4 c.local_addr c.remote_addr n) 0 ≤ 20 * 65535)
  pseudo4_sum n local_len remote_len =
      let tail : Bytes = 0 ∷ 6 ∷ be_bytes 2 n in
      let bytes =
        AreBytes-append c.local_addr (c.remote_addr ++ tail) h.local_bytes
          (AreBytes-append c.remote_addr tail h.remote_bytes (omega arith)) in
      let size : length (pseudo4 c.local_addr c.remote_addr n) ≡ 12 = omega (
        arith,
        length-append {0} c.local_addr (c.remote_addr ++ tail),
        length-append {0} c.remote_addr tail,
      ) in
      let sums = pseudo_sum (pseudo4 c.local_addr c.remote_addr n) bytes (omega (arith, size)) in
      (size, sums.0, sums.1)

  pseudo6_sum :
      (n : ℕ)
      → length c.local_addr ≡ 16
      → length c.remote_addr ≡ 16
      → (length (pseudo6 c.local_addr c.remote_addr n) ≡ 40)
        × (word_sum (pseudo6 c.local_addr c.remote_addr n) ≤ 20 * 65535)
        × (cksum_add (pseudo6 c.local_addr c.remote_addr n) 0 ≤ 20 * 65535)
  pseudo6_sum n local_len remote_len =
      let tail : Bytes = be_bytes 4 n ++ (0 ∷ 0 ∷ 0 ∷ 6 ∷ []) in
      let bytes =
        AreBytes-append c.local_addr (c.remote_addr ++ tail) h.local_bytes
          (AreBytes-append c.remote_addr tail h.remote_bytes (omega arith)) in
      let size : length (pseudo6 c.local_addr c.remote_addr n) ≡ 40 = omega (
        arith,
        length-append {0} c.local_addr (c.remote_addr ++ tail),
        length-append {0} c.remote_addr tail,
      ) in
      let sums = pseudo_sum (pseudo6 c.local_addr c.remote_addr n) bytes (omega (arith, size)) in
      (size, sums.0, sums.1)

  tcp4_sum :
      length c.local_addr ≡ 4
      → length c.remote_addr ≡ 4
      → tcp4_checksum c.local_addr c.remote_addr
          (filled (tcp4_checksum c.local_addr c.remote_addr unsummed))
        ≡ 0 ∷ 0 ∷ []
  unfolding tcp4_checksum cksum_fold
  tcp4_sum local_len remote_len =
      tcp_sum (cksum_add (pseudo4 c.local_addr c.remote_addr (length unsummed)) 0)
        (omega (arith, (pseudo4_sum (length unsummed) local_len remote_len).2))

  tcp6_sum :
      length c.local_addr ≡ 16
      → length c.remote_addr ≡ 16
      → tcp6_checksum c.local_addr c.remote_addr
          (filled (tcp6_checksum c.local_addr c.remote_addr unsummed))
        ≡ 0 ∷ 0 ∷ []
  unfolding tcp6_checksum cksum_fold
  tcp6_sum local_len remote_len =
      tcp_sum (cksum_add (pseudo6 c.local_addr c.remote_addr (length unsummed)) 0)
        (omega (arith, (pseudo6_sum (length unsummed) local_len remote_len).2))

  abbrev ip4_header : Bytes → Bytes
  ip4_header cksum = ip4_bytes (20 + length unsummed) cksum c.local_addr c.remote_addr

  abbrev ip4_front : Bytes
  ip4_front = 0x45 ∷ 0 ∷ be_bytes 2 (20 + length unsummed) ++ (0 ∷ 0 ∷ 0x40 ∷ 0 ∷ 64 ∷ 6 ∷ [])

  ip4_back_sum :
      length c.local_addr ≡ 4
      → length c.remote_addr ≡ 4
      → word_sum (c.local_addr ++ c.remote_addr) ≤ 4 * 65535
  ip4_back_sum local_len remote_len = omega (
    arith,
    word_sum-le (c.local_addr ++ c.remote_addr)
        (AreBytes-append c.local_addr c.remote_addr h.local_bytes h.remote_bytes),
    length-append {0} c.local_addr c.remote_addr,
  )

  ip4_sum :
      length c.local_addr ≡ 4
      → length c.remote_addr ≡ 4
      → ip4_checksum (ip4_header (ip4_checksum (ip4_header (0 ∷ 0 ∷ [])))) ≡ 0 ∷ 0 ∷ []
  unfolding ip4_checksum
  ip4_sum local_len remote_len =
      checksum_field 0 5 ip4_front (c.local_addr ++ c.remote_addr) refl
        (omega (arith, word_sum-le ip4_front (omega arith), ip4_back_sum local_len remote_len))

  ip4-IsRight :
      length c.local_addr ≡ 4
      → length c.remote_addr ≡ 4
      → IsRight (ip4_header (ip4_checksum (ip4_header (0 ∷ 0 ∷ []))))
  unfolding ip4_checksum cksum_fold cksum_add
  ip4-IsRight local_len remote_len =
      let ck = ip4_checksum (ip4_header (0 ∷ 0 ∷ [])) in
      let back = c.local_addr ++ c.remote_addr in
      let none_sum : word_sum [] ≡ 0 = unfold word_sum in refl in
      let bound : word_sum (ip4_header ck) ≤ 10 * 65535 = omega (
        arith,
        word_sum-append 5 ip4_front (ck ++ back) refl,
        word_sum-append 1 ck back refl,
        word_sum-le ip4_front (omega arith),
        word_sum-le ck (AreBytes-be_bytes 2 _),
        ip4_back_sum local_len remote_len,
      ) in
      cksum_fold-IsRight 0 [] (ip4_header ck) refl (omega (arith, bound, none_sum))
        (ip4_sum local_len remote_len)

  pseudo_header4 :
      (n : ℕ)
      → pseudo4 c.local_addr c.remote_addr n ≡ pseudo_header inet c.local_addr c.remote_addr n
  pseudo_header4 n =
      ap (λ (b : ℕ). c.local_addr ++ (c.remote_addr ++ (0 ∷ 6 ∷ (n / 256 % 256) ∷ b ∷ [])))
        {x = n / 1 % 256} {y = n % 256} (omega arith)

  pseudo_header6 :
      (n : ℕ)
      → pseudo6 c.local_addr c.remote_addr n ≡ pseudo_header inet6 c.local_addr c.remote_addr n
  pseudo_header6 n =
      ap
        (λ (b : ℕ).
          c.local_addr
          ++ (c.remote_addr
              ++ ((n / 2 ^ 24 % 256)
                  ∷ (n / 2 ^ 16 % 256)
                  ∷ (n / 256 % 256)
                  ∷ b
                  ∷ 0
                  ∷ 0
                  ∷ 0
                  ∷ 6
                  ∷ [])))
        {x = n / 1 % 256} {y = n % 256} (omega arith)

  tcp4-IsRight :
      length c.local_addr ≡ 4
      → length c.remote_addr ≡ 4
      → let seg = filled (tcp4_checksum c.local_addr c.remote_addr unsummed) in
        IsRight (pseudo_header inet c.local_addr c.remote_addr (length seg) ++ seg)
  tcp4-IsRight local_len remote_len =
      let seg = filled (tcp4_checksum c.local_addr c.remote_addr unsummed) in
      let front = pseudo4 c.local_addr c.remote_addr (length seg) in
      let few = pseudo4_sum (length seg) local_len remote_len in
      let body : word_sum seg ≤ 1517 * 65535 = unfold tcp4_checksum cksum_fold in filled_sum _ in
      subst (λ (h : Bytes). IsRight (h ++ seg)) (pseudo_header4 (length seg))
        (cksum_fold-IsRight 6 front seg few.0 (omega (arith, few.1, body))
          (unfold tcp4_checksum in tcp4_sum local_len remote_len))

  tcp6-IsRight :
      length c.local_addr ≡ 16
      → length c.remote_addr ≡ 16
      → let seg = filled (tcp6_checksum c.local_addr c.remote_addr unsummed) in
        IsRight (pseudo_header inet6 c.local_addr c.remote_addr (length seg) ++ seg)
  tcp6-IsRight local_len remote_len =
      let seg = filled (tcp6_checksum c.local_addr c.remote_addr unsummed) in
      let front = pseudo6 c.local_addr c.remote_addr (length seg) in
      let few = pseudo6_sum (length seg) local_len remote_len in
      let body : word_sum seg ≤ 1517 * 65535 = unfold tcp6_checksum cksum_fold in filled_sum _ in
      subst (λ (h : Bytes). IsRight (h ++ seg)) (pseudo_header6 (length seg))
        (cksum_fold-IsRight 20 front seg few.0 (omega (arith, few.1, body))
          (unfold tcp6_checksum in tcp6_sum local_len remote_len))

  -- The sums that a receiver of a packet forms, of the IPv4 header and of the segment behind its
  -- pseudo header, are right.
  abbrev HasRightSums : Family → Bytes → Type 0
  HasRightSums inet p =
      IsRight (take 20 p)
      × IsRight (pseudo_header inet c.local_addr c.remote_addr (length (drop 20 p)) ++ drop 20 p)
  HasRightSums inet6 p =
      IsRight (pseudo_header inet6 c.local_addr c.remote_addr (length (drop 40 p)) ++ drop 40 p)

  abbrev BehindPseudo : Family → Bytes → Type 0
  BehindPseudo family seg =
      IsRight (pseudo_header family c.local_addr c.remote_addr (length seg) ++ seg)

  packet-HasRightSums :
      (family : Family)
      → length c.local_addr ≡ addr_len family
      → length c.remote_addr ≡ addr_len family
      → HasRightSums family (packet_of family c.local_addr c.remote_addr filled)
  unfolding packet_of
  packet-HasRightSums inet local_len remote_len =
      let ck = ip4_checksum (ip4_header (0 ∷ 0 ∷ [])) in
      let tcp = filled (tcp4_checksum c.local_addr c.remote_addr unsummed) in
      let size : length (ip4_header ck) ≡ 20 = omega (
        arith,
        length-ip4_checksum (ip4_header (0 ∷ 0 ∷ [])),
        length-append {0} ck (c.local_addr ++ c.remote_addr),
        length-append {0} c.local_addr c.remote_addr,
      ) in
      (
        subst IsRight (sym (take_header 20 (ip4_header ck) tcp size))
            (ip4-IsRight local_len remote_len),
        subst (BehindPseudo inet) (sym (drop_header 20 (ip4_header ck) tcp size))
            (tcp4-IsRight local_len remote_len),
      )
  packet-HasRightSums inet6 local_len remote_len =
      let header = ip6_bytes (length unsummed) c.local_addr c.remote_addr in
      let tcp = filled (tcp6_checksum c.local_addr c.remote_addr unsummed) in
      let size : length header ≡ 40 = omega (arith, length-append {0} c.local_addr c.remote_addr) in
      subst (BehindPseudo inet6) (sym (drop_header 40 header tcp size))
        (tcp6-IsRight local_len remote_len)

  -- The checksums of a packet that a connection with addresses of its family's length sends, whose
  -- payload is at most the largest segment, are right: the words of the IPv4 header, and those of
  -- the segment behind the pseudo header of the RFCs, with protocol 6, the connection's addresses and
  -- the segment's length, sum to all ones in ones' complement.
  pub segment-HasRightSums :
      length c.local_addr ≡ addr_len c.family
      → length c.remote_addr ≡ addr_len c.family
      → HasRightSums c.family (segment app c flags seq ack payload)
  unfolding segment
  segment-HasRightSums local_len remote_len = packet-HasRightSums c.family local_len remote_len
