-- ===== src/Tcp/Delivery.antt =====
-- What the application hears of a connection of src/tcpstack.c, and what leaves that alone.
pub mod Quiet
pub mod Local
pub mod Order
pub mod Arrive
pub mod Receive
pub mod Runs
use wgx.Base.{
  ℕ, ◌+◌, ◌%◌, ◌^◌, ◌≤◌, ◌≡◌, refl, ap, sym, ◌∙◌, Bool, true, false, if◌then◌else◌, List, [], ◌∷◌,
  ◌++◌,
}
use wgx.Base.Bytes.{Bytes}
use wgx.Tcp.Types.{OooSeg, Conn, App, Event, syn_sent}
use wgx.Tcp.Conn.{is_state}

-- the bytes that the application was given, in order
abbrev pub heard : List Event → Bytes
heard [] = []
heard (Event.received bytes ∷ log) = bytes ++ heard log
heard (Event.packet bytes ∷ log) = heard log
heard (Event.connected status ∷ log) = heard log
heard (Event.closing ∷ log) = heard log
heard (Event.writeable ∷ log) = heard log
heard (Event.unlinked ∷ log) = heard log
heard (Event.flush_scheduled ∷ log) = heard log
heard (Event.released ∷ log) = heard log

-- The receiving side of `c'` is that of `c`, nothing was heard in between, and a connection that
-- is not opening stays one.
pub record Undisturbed (c c' : Conn) : Type 0 where
  pub nxt : c'.rcv_nxt ≡ c.rcv_nxt
  pub ooo : c'.rcv_ooo ≡ c.rcv_ooo
  pub ooo_len : c'.rcv_ooo_len ≡ c.rcv_ooo_len
  pub listens : c'.on_data ≡ c.on_data
  pub same_heard : heard c'.log ≡ heard c.log
  pub opened : is_state c.state syn_sent ≡ false → is_state c'.state syn_sent ≡ false

pub Undisturbed-refl : (c : Conn) → Undisturbed c c
Undisturbed-refl c = record {
  nxt = refl;
  ooo = refl;
  ooo_len = refl;
  listens = refl;
  same_heard = refl;
  opened = λ h. h;
}

pub Undisturbed-trans : {a b c : Conn} → Undisturbed a b → Undisturbed b c → Undisturbed a c
Undisturbed-trans h g = record {
  nxt = g.nxt ∙ h.nxt;
  ooo = g.ooo ∙ h.ooo;
  ooo_len = g.ooo_len ∙ h.ooo_len;
  listens = g.listens ∙ h.listens;
  same_heard = g.same_heard ∙ h.same_heard;
  opened = λ o. g.opened (h.opened o);
}

pub if-Undisturbed :
    {c x y : Conn} (b : Bool)
    → Undisturbed c x
    → Undisturbed c y
    → Undisturbed c (if b then x else y)
if-Undisturbed true h g = h
if-Undisturbed false h g = g

-- The application's callbacks do not touch the receiving side: they may send and close.
pub record IsQuiet (app : App) : Type 0 where
  pub receives : (bytes : Bytes) (c : Conn) → Undisturbed c (app.receive bytes c)
  pub writes : (c : Conn) → Undisturbed c (app.write c)
  pub connects : (status : Bool) (c : Conn) → Undisturbed c (app.connect status c)
  pub closes : (c : Conn) → Undisturbed c (app.close c)
