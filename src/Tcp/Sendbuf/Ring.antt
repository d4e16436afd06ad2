-- ===== src/Tcp/Sendbuf/Ring.antt =====
-- The copies of src/tcpstack.c into and out of its send buffer, byte by byte.
use native.Mathlib.Nat.{mod-eq_of_lt, mod-eq-sub-mod}
use wgx.Base.{
  ℕ, zero, suc, ◌+◌, ◌-◌, ◌%◌, ◌<◌, ◌≤◌, ◌≡◌, refl, ap, ◌∙◌, arith, ◌&&◌, min, [], ◌∷◌, ◌++◌, ltb,
  leb, if◌then◌else◌, length, take, drop, get_or, length-append, length-take, length-drop,
}
use wgx.Base.Bytes.{Bytes}
use wgx.Tcp.Sendbuf.{write, ring_copy}

pub length-write : (dst : Bytes) (pos : ℕ) (src : Bytes) → length (write dst pos src) ≡ length dst
unfolding write
length-write [] pos src = refl
length-write (d ∷ ds) zero [] = refl
length-write (d ∷ ds) zero (s ∷ ss) = ap suc (length-write ds zero ss)
length-write (d ∷ ds) (suc pos) src = ap suc (length-write ds pos src)

-- Two strings of one length that agree at every position are equal.
pub eq_of_get_or :
    (xs ys : Bytes)
    → length xs ≡ length ys
    → ((i : ℕ) → i < length xs → get_or xs i 0 ≡ get_or ys i 0)
    → xs ≡ ys
eq_of_get_or [] [] len same = refl
eq_of_get_or [] (y ∷ ys) len same = absurd (omega arith)
eq_of_get_or (x ∷ xs) [] len same = absurd (omega arith)
eq_of_get_or (x ∷ xs) (y ∷ ys) len same =
    let rest = eq_of_get_or xs ys (omega arith) (λ i lt. same (suc i) (omega arith)) in
    ap (λ (t : ℕ). t ∷ xs) (same 0 (omega arith)) ∙ ap (λ (t : Bytes). y ∷ t) rest

pub get_or-write :
    (dst : Bytes) (pos : ℕ) (src : Bytes) (i : ℕ)
    → pos + length src ≤ length dst
    → get_or (write dst pos src) i 0
      ≡ (if leb pos i && ltb i (pos + length src) then get_or src (i - pos) 0 else get_or dst i 0)
unfolding write
get_or-write [] zero [] i fits = ground arith
get_or-write [] zero (s ∷ ss) i fits = absurd (omega arith)
get_or-write [] (suc pos) src i fits = absurd (omega arith)
get_or-write (d ∷ ds) zero [] i fits = ground arith
get_or-write (d ∷ ds) zero (s ∷ ss) zero fits = ground arith
get_or-write (d ∷ ds) zero (s ∷ ss) (suc i) fits =
    ground (arith, get_or-write ds zero ss i (omega arith))
get_or-write (d ∷ ds) (suc pos) src zero fits = ground arith
get_or-write (d ∷ ds) (suc pos) src (suc i) fits =
    ground (arith, get_or-write ds pos src i (omega arith))

pub get_or-append :
    (xs ys : Bytes) (i : ℕ)
    → get_or (xs ++ ys) i 0
      ≡ (if ltb i (length xs) then get_or xs i 0 else get_or ys (i - length xs) 0)
get_or-append [] ys i = ground arith
get_or-append (x ∷ xs) ys zero = ground arith
get_or-append (x ∷ xs) ys (suc i) = ground (arith, get_or-append xs ys i)

pub get_or-take :
    (n : ℕ) (xs : Bytes) (i : ℕ) → get_or (take n xs) i 0 ≡ (if ltb i n then get_or xs i 0 else 0)
get_or-take zero xs i = ground arith
get_or-take (suc n) [] i = ground arith
get_or-take (suc n) (x ∷ xs) zero = ground arith
get_or-take (suc n) (x ∷ xs) (suc i) = ground (arith, get_or-take n xs i)

pub get_or-drop : (n : ℕ) (xs : Bytes) (i : ℕ) → get_or (drop n xs) i 0 ≡ get_or xs (n + i) 0
get_or-drop zero xs i = ap (λ (t : ℕ). get_or xs t 0) (omega arith)
get_or-drop (suc n) [] i = refl
get_or-drop (suc n) (x ∷ xs) i =
    get_or-drop n xs i
    ∙ ap (λ (t : ℕ). get_or (x ∷ xs) t 0) {x = suc (n + i)} {y = suc n + i} (omega arith)

-- A position in a ring, less than two turns on.
pub mod_turn : (x cap : ℕ) → x < cap + cap → x % cap ≡ (if ltb x cap then x else x - cap)
mod_turn x cap lt = ground (
  arith,
  mod-eq_of_lt {n = x} {m = cap},
  mod-eq-sub-mod {n = x} {m = cap},
  mod-eq_of_lt {n = x - cap} {m = cap},
)

-- What is copied out of a ring is its bytes from `pos` on, round its end.
module _ (bytes : Bytes) (cap pos len : ℕ) (whole : length bytes ≡ cap) (pos_fits : pos < cap)
    (fits : len ≤ cap) where
  pub length-ring_copy : length (ring_copy bytes cap pos len) ≡ len
  length-ring_copy =
      let first = min (cap - pos) len in
      omega (
        arith,
        length-append {0} (take first (drop pos bytes)) (take (len - first) bytes),
        length-take {0} first (drop pos bytes),
        length-drop {0} pos bytes,
        length-take {0} (len - first) bytes,
      )

  pub get_or-ring_copy :
      (i : ℕ)
      → i < len
      → get_or (ring_copy bytes cap pos len) i 0 ≡ get_or bytes ((pos + i) % cap) 0
  get_or-ring_copy i lt =
      let first = min (cap - pos) len in
      rw (mod_turn (pos + i) cap (omega arith)) (
        ground (
          arith,
          get_or-append (take first (drop pos bytes)) (take (len - first) bytes) i,
          length-take {0} first (drop pos bytes),
          length-drop {0} pos bytes,
          get_or-take first (drop pos bytes) i,
          get_or-drop pos bytes i,
          get_or-take (len - first) bytes (i - first),
          ap (λ (t : ℕ). get_or bytes t 0) {x = i - (cap - pos)} {y = pos + i - cap} (omega arith),
        ))
