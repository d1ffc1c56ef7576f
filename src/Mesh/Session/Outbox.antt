-- ===== src/Mesh/Session/Outbox.antt =====
-- crates/oxmesh/src/session.rs: the queues of frames for a peer, one for each lane. The array of
-- the queues is a function of the lane, and the lock around them is not modelled.
use oxlens_sfu.Base.{
  ℕ, zero, suc, ◌+◌, ◌%◌, Bool, false, List, [], ◌∷◌, ◌++◌, Option, none, some, length, ltb, ◌==◌,
  if◌then◌else◌,
}
use oxlens_sfu.Mesh.Wire.Cursor.{Bytes}
use oxlens_sfu.Mesh.Wire.Message.{Lane, CloseReason, Msg}
use oxlens_sfu.Mesh.Wire.Frames.{lane_code, frames}
use oxlens_sfu.Mesh.Wire.Reassembly.{joined}

abbrev pub data_cap : ℕ
data_cap = 8192

abbrev pub req_cap : ℕ
req_cap = 4096

abbrev pub write_batch : ℕ
write_batch = 65536

pub data Push : Type 0 where
  queued dropped full closed : Push

abbrev pub Queues : Type 0
Queues = Lane → List Bytes

pub record Outbox : Type 0 where
  pub q : Queues
  pub closing : Option (Option Bytes)
  pub dropped_count : ℕ
  pub full_count : ℕ
  -- the counter that all outboxes of the node share
  pub total_dropped : ℕ

pub data Pop : Type 0 where
  frames_out : List (Lane × Bytes) → Pop
  empty : Pop
  close_with : Option Bytes → Pop

unfoldable pub new_outbox : ℕ → Outbox
new_outbox total = record {
  q = λ l. [];
  closing = none;
  dropped_count = 0;
  full_count = 0;
  total_dropped = total;
}

unfoldable pub cap : Lane → Option ℕ
cap Lane.data_lane = some data_cap
cap Lane.request = some req_cap
cap _ = none

-- Whether `n` more frames are more than the queue of a lane holds.
unfoldable pub over : Option ℕ → List Bytes → List Bytes → Bool
over none xs ys = false
over (some c) xs ys = ltb c (length xs + length ys)

unfoldable pub set_queue : Lane → List Bytes → Queues → Queues
set_queue l xs q = λ k. if lane_code k == lane_code l then xs else q k

unfoldable pub refuse : Lane → Outbox → Outbox × Push
refuse Lane.data_lane o = (
  record {
    q = o.q;
    closing = o.closing;
    dropped_count = (o.dropped_count + 1) % 18446744073709551616;
    full_count = o.full_count;
    total_dropped = (o.total_dropped + 1) % 18446744073709551616;
  },
  Push.dropped,
)
refuse _ o = (
  record {
    q = o.q;
    closing = o.closing;
    dropped_count = o.dropped_count;
    full_count = (o.full_count + 1) % 18446744073709551616;
    total_dropped = o.total_dropped;
  },
  Push.full,
)

unfoldable pub enqueue : Lane → List Bytes → Outbox → Outbox
enqueue l fs o = record {
  q = set_queue l (o.q l ++ fs) o.q;
  closing = o.closing;
  dropped_count = o.dropped_count;
  full_count = o.full_count;
  total_dropped = o.total_dropped;
}

-- `Outbox::push` of frames of a lane.
unfoldable pub push_frames : Lane → List Bytes → Option (Option Bytes) → Outbox → Outbox × Push
push_frames l fs (some c) o = (o, Push.closed)
push_frames l fs none o =
    if over (cap l) (o.q l) fs then refuse l o else (enqueue l fs o, Push.queued)

unfoldable pub push : Msg → Outbox → Outbox × Push
push m o = let (l, fs) = frames m in push_frames l fs o.closing o

-- `Outbox::close`.
unfoldable pub close_bytes : Option CloseReason → Option Bytes
close_bytes none = none
close_bytes (some r) = some (joined (frames (Msg.close r)).1)

unfoldable pub close_as : Option (Option Bytes) → Option CloseReason → Outbox → Outbox
close_as (some c) reason o = o
close_as none reason o = record {
  q = o.q;
  closing = some (close_bytes reason);
  dropped_count = o.dropped_count;
  full_count = o.full_count;
  total_dropped = o.total_dropped;
}

unfoldable pub close : Option CloseReason → Outbox → Outbox
close reason o = close_as o.closing reason o

-- The first lane that has a frame, with its first frame and the queues after it.
unfoldable pub front :
    Lane → List Bytes → Queues → Option (Lane × Bytes × Queues) → Option (Lane × Bytes × Queues)
front l [] q other = other
front l (f ∷ fs) q other = some (l, f, set_queue l fs q)

unfoldable pub pop_front : Queues → Option (Lane × Bytes × Queues)
pop_front q = front Lane.control (q Lane.control) q (
    front Lane.declare (q Lane.declare) q
      (front Lane.request (q Lane.request) q (front Lane.data_lane (q Lane.data_lane) q none)))

-- A frame that was taken, before the next rounds; `size` is the length of what was taken.
unfoldable pub taken :
    ℕ
    → Queues
    → Option (Lane × Bytes × Queues)
    → (ℕ → Queues → Queues × List (Lane × Bytes))
    → Queues × List (Lane × Bytes)
taken size q none next = (q, [])
taken size q (some (l, f, q')) next =
    let (q'', fs) = next (size + length f) q' in (q'', (l, f) ∷ fs)

-- The loop that fills a batch, in at most as many rounds as frames are queued.
unfoldable pub fill : ℕ → ℕ → Queues → Queues × List (Lane × Bytes)
fill zero size q = (q, [])
fill (suc n) size q = if ltb size write_batch then taken size q (pop_front q) (fill n) else (q, [])

unfoldable pub depth : Queues → ℕ
depth q =
    length (q Lane.control)
    + length (q Lane.declare)
    + length (q Lane.request)
    + length (q Lane.data_lane)

unfoldable pub batch : List (Lane × Bytes) → Pop
batch [] = Pop.empty
batch (f ∷ fs) = Pop.frames_out (f ∷ fs)

-- `pop` of what was told to close.
unfoldable pub pop_as : Option (Option Bytes) → Outbox → Outbox × Pop
pop_as (some c) o = (
  record {
    q = λ l. [];
    closing = some none;
    dropped_count = o.dropped_count;
    full_count = o.full_count;
    total_dropped = o.total_dropped;
  },
  Pop.close_with c,
)
pop_as none o =
    let (q', fs) = fill (depth o.q) 0 o.q in
    (
      record {
        q = q';
        closing = none;
        dropped_count = o.dropped_count;
        full_count = o.full_count;
        total_dropped = o.total_dropped;
      },
      batch fs,
    )

unfoldable pub pop : Outbox → Outbox × Pop
pop o = pop_as o.closing o
