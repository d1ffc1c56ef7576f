-- ===== src/Link/Runs.antt =====
-- crates/oxsfud/src/link: tests, and the properties at concrete inputs.
use oxlens_sfu.Base.{◌≡◌, refl, List, [], ◌∷◌, none, some}
use oxlens_sfu.Link.Tcp.{Bytes, push, next_loop, next_frame, frame, read_all}
use oxlens_sfu.Link.Tcp.Out.{Written, write_loop, send_frame, send, send_all}
use oxlens_sfu.Link.Tcp.Delivery.{read_all-send_all, filled}

-- The test of the code.
partial_and_zero :
    next_frame (push (record { buf = 0 ∷ 0 ∷ 0 ∷ 3 ∷ 1 ∷ [] }) (2 ∷ 3 ∷ []))
    ≡ (record { buf = [] }, some (1 ∷ 2 ∷ 3 ∷ []))
unfolding next_frame push next_loop
partial_and_zero = refl

partial_waits :
    next_frame (record { buf = 0 ∷ 0 ∷ 0 ∷ 3 ∷ 1 ∷ [] }) ≡ (record { buf = 0 ∷ 3 ∷ 1 ∷ [] }, none)
unfolding next_frame next_loop
partial_waits = refl

frame_byte : frame (9 ∷ []) ≡ some (0 ∷ 1 ∷ 9 ∷ [])
unfolding frame
frame_byte = refl

-- Three payloads, the second one empty; the socket takes two bytes, then nothing, then the rest.
abbrev three_sends : List (Bytes × List Written)
three_sends =
    (7 ∷ 8 ∷ [], Written.wrote 2 ∷ Written.would_block ∷ [])
    ∷ ([], [])
    ∷ (9 ∷ [], Written.wrote 7 ∷ Written.wrote 9 ∷ [])
    ∷ []

read_all-send_all_example :
    read_all (record { buf = [] }) ((0 ∷ 2 ∷ 7 ∷ []) ∷ (8 ∷ 0 ∷ 0 ∷ 0 ∷ []) ∷ (1 ∷ 9 ∷ []) ∷ [])
    ≡ (record { buf = [] }, (7 ∷ 8 ∷ []) ∷ (9 ∷ []) ∷ [])
unfolding filled send_all send send_frame write_loop frame
read_all-send_all_example =
    read_all-send_all three_sends ((0 ∷ 2 ∷ 7 ∷ []) ∷ (8 ∷ 0 ∷ 0 ∷ 0 ∷ []) ∷ (1 ∷ 9 ∷ []) ∷ [])
      (((tt, (tt, tt))), (tt, ((tt, (tt, tt)), tt))) refl refl
