-- ===== src/Tcp/Sendbuf/Refine.antt =====
-- The send buffer of src/tcpstack.c as the queue of the bytes that it holds.
use native.Mathlib.Nat.{pow-suc}
use wgx.Base.{
  ℕ, zero, suc, ◌+◌, ◌*◌, ◌%◌, ◌^◌, ◌<◌, ◌≤◌, ◌≡◌, ◌⊎◌, refl, ap, sym, ◌∙◌, inl, inr, arith, Bool,
  true, ◌&&◌, ◌==◌, ltb, leb, Bool-cases, if◌then◌else◌, length, get_or, replicate,
  length-replicate,
}
use wgx.Base.Bytes.{Bytes}
use wgx.Tcp.Types.{Sendbuf, tcp_sendbuf_size, tcp_sendbuf_initial_size}
use wgx.Tcp.Sendbuf.{write, double_cap, grown_cap, ring_copy, sendbuf_grow}
use wgx.Tcp.Sendbuf.Ring.{
  length-write, eq_of_get_or, get_or-write, mod_turn, length-ring_copy, get_or-ring_copy,
}

pub record IsRing (b : Sendbuf) : Type 0 where
  pub whole : length b.bytes ≡ b.cap
  pub not_empty : 0 < b.cap
  pub bounded : b.cap ≤ tcp_sendbuf_size
  pub head_fits : b.head < b.cap
  pub fits : b.len ≤ b.cap

-- the bytes that the buffer holds, the oldest first
abbrev pub contents : Sendbuf → Bytes
contents b = ring_copy b.bytes b.cap b.head b.len

pub length-contents : (b : Sendbuf) → IsRing b → length (contents b) ≡ b.len
length-contents b r = length-ring_copy b.bytes b.cap b.head b.len r.whole r.head_fits r.fits

pub get_or-contents :
    (b : Sendbuf)
    → IsRing b
    → (i : ℕ) → i < b.len
    → get_or (contents b) i 0 ≡ get_or b.bytes ((b.head + i) % b.cap) 0
get_or-contents b r = get_or-ring_copy b.bytes b.cap b.head b.len r.whole r.head_fits r.fits

-- Doubling ends at a capacity that is needed, or at the largest one.
double_cap_enough :
    (fuel need cap : ℕ)
    → tcp_sendbuf_size ≤ cap * 2 ^ fuel
    → (need ≤ double_cap fuel need cap) ⊎ (tcp_sendbuf_size ≤ double_cap fuel need cap)
unfolding double_cap
double_cap_enough zero need cap enough = inr (omega arith)
double_cap_enough (suc fuel) need cap enough =
    elim (Bool-cases (ltb cap need && ltb cap tcp_sendbuf_size)) [
      | inl e ↦
          let small : cap < tcp_sendbuf_size = ground (arith, e) in
          let same : cap * 2 % 2 ^ 32 ≡ cap * 2 = omega arith in
          let rest =
            double_cap_enough fuel need (cap * 2)
              (grind (arith, pow-suc 2 fuel, ap (λ (t : ℕ). cap * t) (pow-suc 2 fuel))) in
          let step : double_cap (suc fuel) need cap ≡ double_cap fuel need (cap * 2) =
            ground (arith, e, ap (double_cap fuel need) same) in
          rw step rest
      | inr e ↦
          let stop : double_cap (suc fuel) need cap ≡ cap = ground (arith, e) in
          rw stop (ground (arith, e))
    ]

grown_cap-enough : (need cap : ℕ) → need ≤ tcp_sendbuf_size → need ≤ grown_cap need cap
grown_cap-enough need cap small =
    let start = if cap == 0 then tcp_sendbuf_initial_size else cap in
    ground (arith, double_cap_enough 18 need start (ground arith))

-- What `sendbuf_grow` promises of a ring, a need that covers the bytes it holds, its answer and
-- the new ring.
abbrev pub Grows : Bool → ℕ → Sendbuf → Bool × Sendbuf → Type 0
Grows mem need b (done, b') =
    IsRing b'
    × (contents b' ≡ contents b)
    × (b'.len ≡ b.len)
    × (done ≡ true → need ≤ b'.cap)
    × (mem ≡ true → need ≤ tcp_sendbuf_size → done ≡ true)

-- The largest capacity that `sendbuf_grow` gives, and the ring after it.
abbrev grown : ℕ → Sendbuf → Sendbuf
grown need b = record {
  bytes = write (replicate (grown_cap need b.cap) 0) 0 (contents b);
  cap = grown_cap need b.cap;
  head = 0;
  len = b.len;
}

grown-IsRing :
    (need : ℕ) (b : Sendbuf)
    → 0 < grown_cap need b.cap
    → b.len ≤ grown_cap need b.cap
    → IsRing (grown need b)
grown-IsRing need b pos fits = record {
  whole =
      length-write (replicate (grown_cap need b.cap) 0) 0 (contents b)
      ∙ length-replicate (grown_cap need b.cap) 0;
  not_empty = pos;
  bounded = omega arith;
  head_fits = pos;
  fits = fits;
}

contents-grown :
    (need : ℕ) (b : Sendbuf)
    → IsRing b
    → 0 < grown_cap need b.cap
    → b.len ≤ grown_cap need b.cap
    → contents (grown need b) ≡ contents b
contents-grown need b r pos fits =
    let r' = grown-IsRing need b pos fits in
    let fresh : Bytes = replicate (grown_cap need b.cap) 0 in
    eq_of_get_or (contents (grown need b)) (contents b)
      (length-contents (grown need b) r' ∙ sym (length-contents b r))
      (λ i lt.
        let inside : i < b.len = omega (arith, lt, length-contents (grown need b) r') in
        get_or-contents (grown need b) r' i inside
        ∙ (ap (λ (t : ℕ). get_or (write fresh 0 (contents b)) t 0)
              {x = (0 + i) % grown_cap need b.cap} {y = i}
              (mod_turn (0 + i) (grown_cap need b.cap) (omega arith) ∙ ground arith)
            ∙ (get_or-write fresh 0 (contents b) i (
                  omega
                    (arith, length-contents b r, length-replicate {A = ℕ} (grown_cap need b.cap) 0))
                ∙ ground (arith, length-contents b r))))

-- `sendbuf_grow` keeps the bytes that the buffer holds, succeeds only with the capacity that is
-- needed, and always succeeds for up to 256 KiB where there is memory.
pub sendbuf_grow-Grows :
    (mem : Bool) (b : Sendbuf) (need : ℕ)
    → IsRing b
    → b.len ≤ need
    → Grows mem need b (sendbuf_grow mem b need)
unfolding sendbuf_grow
sendbuf_grow-Grows mem b need r covers = elim (Bool-cases (leb need b.cap)) [
  | inl e ↦ rw e (r, refl, refl, (λ _. ground (arith, e)), (λ _ _. refl))
  | inr e ↦ elim (Bool-cases (ltb (grown_cap need b.cap) need)) [
    | inl short ↦
        rw (e, short)
          (
            r,
            refl,
            refl,
            (λ h. cc),
            (λ _ small. absurd (ground (arith, short, grown_cap-enough need b.cap small))),
          )
    | inr enough ↦
        let big : need ≤ grown_cap need b.cap = ground (arith, enough) in
        let pos : 0 < grown_cap need b.cap = ground (arith, e, big) in
        let covered : b.len ≤ grown_cap need b.cap = omega (arith, big, covers) in
        elim (Bool-cases mem) [
          | inl m ↦
              rw (e, enough, m)
                (
                  grown-IsRing need b pos covered,
                  contents-grown need b r pos covered,
                  refl,
                  (λ _. big),
                  (λ _ _. refl),
                )
          | inr m ↦ rw (e, enough, m) (r, refl, refl, (λ h. cc), (λ h. cc))
        ]
  ]
]
