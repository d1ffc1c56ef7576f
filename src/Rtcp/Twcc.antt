-- ===== src/Rtcp/Twcc.antt =====
-- crates/oxsfud/src/rtcp/core.rs: the transport-wide feedback. The arrivals, a map, are the pairs of
-- a number and a time, in the order of the numbers.
use oxlens_sfu.Base.{
  ℕ, suc, zero, ◌+◌, ◌-◌, ◌%◌, ◌==◌, Bool, true, false, ◌&&◌, ◌||◌, List, [], ◌∷◌, Option, none,
  some, ltb, leb, if◌then◌else◌, length, ℤ, sub_ℕ, ◌+ℤ◌, ◌-ℤ◌, scale, div_euclid, wrap, ltb_ℤ,
  leb_ℤ, eqb_ℤ,
}
pub mod Unwrap
pub mod Reading

abbrev pub sym_none : ℕ
sym_none = 0

abbrev pub sym_small : ℕ
sym_small = 1

abbrev pub sym_large : ℕ
sym_large = 2

abbrev pub keep_us : ℤ
keep_us = ℤ.pos 500000

pub record Feedback : Type 0 where
  pub base_seq : ℕ
  pub status_count : ℕ
  pub reference_time : ℕ
  pub fb_count : ℕ
  pub symbols : List ℕ
  pub deltas_250us : List ℤ

abbrev pub Arrivals : Type 0
Arrivals = List (ℤ × ℤ)

pub record TwccRecv : Type 0 where
  pub arrivals : Arrivals
  pub last_unwrapped : Option ℤ
  pub window_start : Option ℤ
  pub fb_count : ℕ
  pub newest_us : ℤ

unfoldable pub new : TwccRecv
new = record {
  arrivals = [];
  last_unwrapped = none;
  window_start = none;
  fb_count = 0;
  newest_us = ℤ.pos 0;
}

-- `as i16`.
abbrev pub signed16 : ℕ → ℤ
signed16 d = if ltb d 32768 then ℤ.pos d else sub_ℕ d 65536

unfoldable pub unwrapped : Option ℤ → ℕ → ℤ
unwrapped none seq = ℤ.pos seq
unwrapped (some l) seq = l +ℤ signed16 ((seq + 65536 - wrap 65536 l) % 65536)

-- The highest number so far.
unfoldable pub highest : Option ℤ → ℤ → ℤ
highest none u = u
highest (some l) u = if ltb_ℤ l u then u else l

-- `unwrap`: the last number, as it is after it, and the number.
unfoldable pub unwrap : Option ℤ → ℕ → Option ℤ × ℤ
unwrap last seq = let u = unwrapped last seq in (some (highest last u), u)

-- `entry(u).or_insert(arrival_us)`.
unfoldable pub or_insert : ℤ → ℤ → Arrivals → Arrivals
or_insert k t [] = (k, t) ∷ []
or_insert k t ((j, u) ∷ m) =
    if ltb_ℤ k j
    then (k, t) ∷ (j, u) ∷ m
    else if eqb_ℤ k j
    then (j, u) ∷ m
    else (j, u) ∷ or_insert k t m

-- The start of the window after a number.
unfoldable pub window_with : Option ℤ → ℤ → ℤ
window_with none u = u
window_with (some w) u = if ltb_ℤ u w then u else w

unfoldable pub retain : ℤ → ℤ → Arrivals → Arrivals
retain horizon ws [] = []
retain horizon ws ((k, t) ∷ m) =
    let rest = retain horizon ws m in if leb_ℤ horizon t || leb_ℤ ws k then (k, t) ∷ rest else rest

unfoldable pub record_arrival : TwccRecv → ℕ → ℤ → TwccRecv
record_arrival r seq arrival_us =
    let (last, u) = unwrap r.last_unwrapped seq in
    let newest = if ltb_ℤ r.newest_us arrival_us then arrival_us else r.newest_us in
    let ws = window_with r.window_start u in
    record r {
      arrivals = retain (newest -ℤ keep_us) ws (or_insert u arrival_us r.arrivals);
      last_unwrapped = last;
      window_start = some ws;
      newest_us = newest;
    }

-- The first arrival from a number on.
unfoldable pub first_from : ℤ → Arrivals → Option (ℤ × ℤ)
first_from w [] = none
first_from w ((k, t) ∷ m) = if leb_ℤ w k then some (k, t) else first_from w m

unfoldable pub any_from : Option ℤ → Arrivals → Bool
any_from none m = false
any_from (some w) m = elim (first_from w m) [ none ↦ false | some a ↦ true ]

unfoldable pub pending : TwccRecv → Bool
pending r = any_from r.window_start r.arrivals

unfoldable pub get : ℤ → Arrivals → Option ℤ
get s [] = none
get s ((k, t) ∷ m) = if eqb_ℤ k s then some t else get s m

-- The last number, or the one that is given.
unfoldable pub last_key : ℤ → Arrivals → ℤ
last_key d [] = d
last_key d ((k, t) ∷ m) = last_key k m

abbrev pub Statuses : Type 0
Statuses = List ℕ × List ℤ

-- The difference to the last time, in steps of 250 us, to the nearest.
unfoldable pub delta : ℤ → ℤ → ℤ
delta t last = div_euclid (t -ℤ last +ℤ ℤ.pos 125) 250

unfoldable pub in_range : ℤ → Bool
in_range d = leb_ℤ (ℤ.negsuc 32767) d && leb_ℤ d (ℤ.pos 32767)

unfoldable pub size_symbol : ℤ → ℕ
size_symbol d = if leb_ℤ (ℤ.pos 0) d && leb_ℤ d (ℤ.pos 255) then sym_small else sym_large

abbrev pub not_heard : Statuses → Statuses
not_heard p = (sym_none ∷ p.0, p.1)

abbrev pub heard_at : ℤ → Statuses → Statuses
heard_at d p = (size_symbol d ∷ p.0, d ∷ p.1)

-- The loop of `build` from the number `s`, with the rounds that are left before there are 65535.
unfoldable pub status_loop : Arrivals → ℤ → ℕ → ℤ → ℤ → Statuses
status_loop m max_seq zero s last = ([], [])
status_loop m max_seq (suc n) s last =
    let next = s +ℤ ℤ.pos 1 in
    let silent = not_heard (status_loop m max_seq n next last) in
    if leb_ℤ s max_seq
    then (elim (get s m) [
      | none ↦ silent
      | some t ↦
          let d = delta t last in
          let rest = heard_at d (status_loop m max_seq n next (last +ℤ scale 250 d)) in
          if in_range d then rest else ([], [])
    ])
    else ([], [])

abbrev pub is_nil : List ℕ → Bool
is_nil [] = true
is_nil (x ∷ xs) = false

-- What does not arrive at the end is not told.
unfoldable pub trim : List ℕ → List ℕ
trim [] = []
trim (x ∷ xs) = let rest = trim xs in if is_nil rest && x == sym_none then [] else x ∷ rest

unfoldable pub feedback : TwccRecv → ℤ → ℤ → Statuses → Option (Feedback × TwccRecv)
feedback r w reference_time (all, deltas) =
    let symbols = trim all in
    if is_nil symbols
    then none
    else some (
      record {
        base_seq = wrap 65536 w;
        status_count = length symbols % 65536;
        reference_time = wrap 16777216 reference_time;
        fb_count = r.fb_count;
        symbols = symbols;
        deltas_250us = deltas;
      },
      record r {
        fb_count = (r.fb_count + 1) % 256;
        window_start = some (w +ℤ ℤ.pos (length symbols));
      },
    )

unfoldable pub build_from : TwccRecv → ℤ → Option (ℤ × ℤ) → Option (Feedback × TwccRecv)
build_from r w none = none
build_from r w (some (first_seq, first_t)) =
    let reference_time = div_euclid first_t 64000 in
    feedback r w reference_time
      (status_loop r.arrivals (last_key first_seq r.arrivals) 65535 w (scale 64000 reference_time))

unfoldable pub build_window : TwccRecv → Option ℤ → Option (Feedback × TwccRecv)
build_window r none = none
build_window r (some w) = build_from r w (first_from w r.arrivals)

unfoldable pub build : TwccRecv → Option (Feedback × TwccRecv)
build r = build_window r r.window_start
