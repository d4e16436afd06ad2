-- ===== src/Tcp/Delivery/Arrive.antt =====
-- A segment that arrives at a connection of src/tcpstack.c, in every state of it.
use wgx.Base.{
  ℕ, ◌+◌, ◌*◌, ◌%◌, ◌^◌, ◌≤◌, ◌≡◌, ==_iff, refl, ap, ◌∙◌, arith, inl, inr, Bool, false, not, none,
  ◌==◌, ◌&&◌, ltb, Bool-cases, if◌then◌else◌, length,
}
use wgx.Tcp.Types.{
  Conn, App, TcpState, closed, syn_received, syn_sent, established, fin_wait, close_wait, last_ack,
  tcpf_fin, tcpf_rst, tcpf_ack, flag_set,
}
use wgx.Tcp.Reassembly.Stream.{slice}
use wgx.Tcp.Reassembly.Queue.{IsAt}
use wgx.Tcp.Conn.{is_state, conn_destroy}
use wgx.Tcp.Input.{
  Arrival, take_data, receive_data, stop_retransmit, take_ack, in_established, in_syn_received,
  in_fin_wait, in_last_ack, conn_input,
}
use wgx.Tcp.Delivery.{Undisturbed, Undisturbed-refl, Undisturbed-trans, IsQuiet}
use wgx.Tcp.Delivery.Quiet.{take_ack-Undisturbed, conn_destroy-Undisturbed}
use wgx.Tcp.Delivery.Order.{limit, InOrder, InOrder-Undisturbed}
use wgx.Tcp.Delivery.Receive.{take_data-Later, Received, reached, receive_data-Received}

-- Where a segment brings a connection: one that is open and not reset takes its data.
abbrev pub expected_end : ℕ → ℕ → ℕ → Arrival → Conn → ℕ
expected_end r p n s c =
    if is_state c.state established && not (flag_set s.flags tcpf_rst) then reached r p n else 0

module _ (f : ℕ → ℕ) (isn : ℕ) where
  -- The segment carries the `n` bytes of the stream from `p` on, and does not end it.
  pub record Carries (p n : ℕ) (s : Arrival) : Type 0 where
    pub piece : IsAt f isn p n s.seq s.payload
    pub within : p + n ≤ limit
    pub no_fin : flag_set s.flags tcpf_fin ≡ false

module _ (f : ℕ → ℕ) (isn : ℕ) (app : App) (quiet : IsQuiet app) where
  module _ (r p n : ℕ) (mem : Bool) (s : Arrival) (c : Conn) (h : InOrder f isn r c)
      (carries : Carries f isn p n s) where
    abbrev windowed : Conn
    windowed = record c {
      snd_wnd =
          if is_state c.state syn_sent then s.window else s.window * 2 ^ c.snd_wscale % 2 ^ 32;
    }

    windowed-InOrder : InOrder f isn r windowed
    windowed-InOrder = record {
      next = h.next;
      small = h.small;
      got = h.got;
      queue = h.queue;
      listens = h.listens;
      opened = h.opened;
    }

    stays : (c' : Conn) → Undisturbed windowed c' → Received f isn r 0 c'
    stays c' g =
        (r, omega arith, omega arith, InOrder-Undisturbed f isn r windowed c' windowed-InOrder g)

    established-Received : Received f isn r (reached r p n) (in_established app mem s windowed)
    established-Received =
        let acked = if flag_set s.flags tcpf_ack then take_ack app s.ack windowed else windowed in
        let same : in_established app mem s windowed ≡ receive_data app mem s.seq s.payload acked =
          unfold in_established in ground (arith, carries.no_fin) in
        let kept : Undisturbed windowed acked =
          ground
            (arith, Undisturbed-refl windowed, take_ack-Undisturbed app quiet s.ack windowed) in
        rw same (
          receive_data-Received f isn app quiet r p n mem s.seq s.payload acked
            (InOrder-Undisturbed f isn r windowed acked windowed-InOrder kept) carries.piece
            carries.within)

    opening-Received : Received f isn r 0 (in_syn_received app s windowed)
    opening-Received =
        let opened =
          stop_retransmit app (record windowed { snd_una = s.ack; state = established }) in
        let kept : Undisturbed windowed opened = unfold stop_retransmit in ground arith in
        elim (Bool-cases (flag_set s.flags tcpf_ack && (s.ack == windowed.snd_nxt))) [
          | inr e ↦
              let same : in_syn_received app s windowed ≡ windowed =
                unfold in_syn_received in ground (arith, e) in
              rw same (stays windowed (Undisturbed-refl windowed))
          | inl e ↦ elim (Bool-cases (ltb 0 (length s.payload) && (s.seq == windowed.rcv_nxt))) [
            | inr gap ↦
                let same : in_syn_received app s windowed ≡ opened =
                  unfold in_syn_received in ground (arith, e, gap) in
                rw same (stays opened kept)
            | inl next ↦
                let same : in_syn_received app s windowed ≡ take_data app s.payload false opened =
                  unfold in_syn_received in ground (arith, e, next) in
                let here : p ≡ r = omega (
                  arith,
                  (==_iff s.seq c.rcv_nxt).0 (ground (arith, next)),
                  carries.piece.0,
                  h.next,
                  h.small,
                  carries.within,
                ) in
                let (r', le, ordered) =
                  take_data-Later f isn app quiet r n s.payload false opened
                    (InOrder-Undisturbed f isn r windowed opened windowed-InOrder kept)
                    (carries.piece.1 ∙ ap (λ (t : ℕ). slice f t n) here)
                    (omega (arith, here, carries.within)) in
                rw same (r', omega (arith, le), omega arith, ordered)
          ]
        ]

    fin_wait-Undisturbed : Undisturbed windowed (in_fin_wait app s windowed)
    unfolding in_fin_wait stop_retransmit
    fin_wait-Undisturbed = ground (arith, carries.no_fin, Undisturbed-refl windowed)

    last_ack-Undisturbed : Undisturbed windowed (in_last_ack app s windowed)
    unfolding in_last_ack
    last_ack-Undisturbed =
        let ended = record windowed { retransmit_timer = none; state = closed } in
        ground (arith, Undisturbed-refl windowed, conn_destroy-Undisturbed app quiet ended)

    pub conn_input-Received : Received f isn r (expected_end r p n s c) (conn_input app mem s c)
    conn_input-Received = elim (Bool-cases (flag_set s.flags tcpf_rst)) [
      | inl reset ↦
          let ended = record c { state = closed } in
          let same : conn_input app mem s c ≡ conn_destroy app ended =
            unfold conn_input in ground (arith, reset) in
          let kept : Undisturbed c ended = ground arith in
          rw same (
            r,
            omega arith,
            ground (arith, reset),
            InOrder-Undisturbed f isn r c (conn_destroy app ended) h
                (Undisturbed-trans kept (conn_destroy-Undisturbed app quiet ended)),
          )
      | inr on ↦ go on c.state refl
    ]
      where
        settle :
            (c' : Conn)
            → conn_input app mem s c ≡ c'
            → is_state c.state established ≡ false
            → Received f isn r 0 c'
            → Received f isn r (expected_end r p n s c) (conn_input app mem s c)
        settle c' same other (r', le, _, ordered) = rw same (r', le, ground (arith, other), ordered)

        go :
            flag_set s.flags tcpf_rst ≡ false
            → (state : TcpState) → c.state ≡ state
            → Received f isn r (expected_end r p n s c) (conn_input app mem s c)
        go on established e =
            let same : conn_input app mem s c ≡ in_established app mem s windowed =
              unfold conn_input in ground (arith, on, e) in
            let (r', le, reach, ordered) = established-Received in
            rw same (r', le, ground (arith, reach), ordered)
        go on syn_received e =
            settle (in_syn_received app s windowed) (unfold conn_input in ground (arith, on, e))
              (ground (arith, e)) opening-Received
        go on syn_sent e = absurd (ground (arith, e, h.opened))
        go on fin_wait e =
            settle (in_fin_wait app s windowed) (unfold conn_input in ground (arith, on, e))
              (ground (arith, e)) (stays (in_fin_wait app s windowed) fin_wait-Undisturbed)
        go on last_ack e =
            settle (in_last_ack app s windowed) (unfold conn_input in ground (arith, on, e))
              (ground (arith, e)) (stays (in_last_ack app s windowed) last_ack-Undisturbed)
        go on closed e =
            settle windowed (unfold conn_input in ground (arith, on, e)) (ground (arith, e))
              (stays windowed (Undisturbed-refl windowed))
        go on close_wait e =
            settle windowed (unfold conn_input in ground (arith, on, e)) (ground (arith, e))
              (stays windowed (Undisturbed-refl windowed))
