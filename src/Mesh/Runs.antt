-- ===== src/Mesh/Runs.antt =====
-- crates/oxmesh/src: tests of the definitions, and concrete instances.
use oxlens_sfu.Base.{ℕ, ◌≡◌, refl, Bool, true, false, List, [], ◌∷◌, map, none, some, arith, All}
use oxlens_sfu.Mesh.Wire.Decode.{get_u32, get_body, decode}
use oxlens_sfu.Mesh.Wire.Cursor.{
  Bytes, put_groups, put_var, put_bytes, done, stop, ◌>>=◌, get_u8, get_groups, get_var, get_len,
  get_bytes, get_str,
}
use oxlens_sfu.Mesh.Wire.Message.{Lane, Role, Hello, Msg, lane, encode}
use oxlens_sfu.Mesh.Wire.RoundTrip.{Fits, decode-encode-Fits}
use oxlens_sfu.Mesh.Wire.Frames.{frame, chunks, flagged, pieces, frames, empty_parts}
use oxlens_sfu.Mesh.Wire.Reassembly.{of_lane}
use oxlens_sfu.Mesh.Session.Outbox.{
  Outbox, new_outbox, cap, over, set_queue, refuse, enqueue, push_frames, push, front, pop_front,
  taken, fill, depth, batch, pop_as, pop,
}
use oxlens_sfu.Mesh.Session.Reading.{Look, read_loop}
use oxlens_sfu.Mesh.Session.Order.{
  Act, frames_of, after_act, after, written_act, written, if_queued, accepted_act, accepted,
}
use oxlens_sfu.Mesh.Session.Delivery.{
  written_bytes, delivered, told_all, Drained, IsSendable, read_loop-written_bytes,
}
use oxlens_sfu.Mesh.Session.Drain.{writes, writes_drain}

abbrev any_utf8 : Bytes → Bool
any_utf8 b = true

abbrev a_hello : Hello
a_hello = record {
  proto = 1;
  role = Role.router;
  node = 110 ∷ 49 ∷ [];
  boot = 1700000000000000;
  sno = 3;
  lease_ms = 10000;
  listen = (97 ∷ []) ∷ [];
  peers = (110 ∷ 50 ∷ [], 98 ∷ []) ∷ [];
}

varint_300 : put_var 300 ≡ 172 ∷ 2 ∷ []
unfolding put_var put_groups
varint_300 = refl

a_hello-Fits : Fits any_utf8 (Msg.hello a_hello)
unfolding Fits
a_hello-Fits = record {
  node = (refl, omega arith);
  boot = omega arith;
  sno = omega arith;
  lease_ms = omega arith;
  listen = (((refl, omega arith), _), omega arith);
  peers = ((((refl, omega arith), (refl, omega arith)), _), omega arith);
}

decode-encode-Fits_example : decode any_utf8 (encode (Msg.hello a_hello)) ≡ some (Msg.hello a_hello)
decode-encode-Fits_example = decode-encode-Fits any_utf8 (Msg.hello a_hello) a_hello-Fits

-- A number past 32 bits is not a time.
timeout_too_long : decode any_utf8 (11 ∷ 1 ∷ 0 ∷ 0 ∷ put_var 4294967296) ≡ none
unfolding decode get_body get_var get_groups get_str get_bytes get_len get_u32 get_u8 ◌>>=◌ done
    stop put_var put_groups
timeout_too_long = refl

abbrev some_acts : List Act
some_acts =
    Act.send (Msg.put (97 ∷ []) (1 ∷ 2 ∷ []))
    ∷ Act.send (Msg.final 7)
    ∷ Act.write
    ∷ Act.send Msg.keep_alive
    ∷ Act.send (Msg.final 8)
    ∷ Act.write
    ∷ []

some_acts-Drained : Drained some_acts 0
unfolding Drained after after_act push push_frames over cap frames lane pieces chunks flagged frame
    encode put_bytes put_var put_groups enqueue refuse set_queue new_outbox pop pop_as fill taken
    front pop_front depth batch
some_acts-Drained Lane.control = refl
some_acts-Drained Lane.declare = refl
some_acts-Drained Lane.request = refl
some_acts-Drained Lane.data_lane = refl

-- The lanes in the order in which they are written.
some_acts-written :
    map (λ p. p.0) (written some_acts (new_outbox 0))
    ≡ Lane.request ∷ Lane.data_lane ∷ Lane.control ∷ Lane.request ∷ []
unfolding written written_act frames_of after_act push push_frames over cap frames lane pieces
    chunks flagged frame encode put_bytes put_var put_groups enqueue refuse set_queue new_outbox pop
    pop_as fill taken front pop_front depth batch
some_acts-written = refl

some_acts-IsSendable : All (IsSendable any_utf8) (accepted some_acts (new_outbox 0))
unfolding Fits accepted accepted_act if_queued after_act push push_frames over cap frames lane
    pieces chunks flagged frame encode put_bytes put_var put_groups enqueue refuse set_queue
    new_outbox pop pop_as fill taken front pop_front depth batch
some_acts-IsSendable = (
  (((refl, omega arith), omega arith), omega arith),
  ((omega arith, omega arith), ((_, omega arith), ((omega arith, omega arith), _))),
)

abbrev at_work : ℕ → Look
at_work i = record { stopped = false; gap_ms = 100; stopped_at_end = false }

read_loop-written_bytes_example :
    (read_loop any_utf8 10000 at_work 5 0 empty_parts (written_bytes some_acts (new_outbox 0))
      ≡ told_all any_utf8 (delivered any_utf8 some_acts (new_outbox 0)))
    × (of_lane Lane.request (delivered any_utf8 some_acts (new_outbox 0))
        ≡ of_lane Lane.request (accepted some_acts (new_outbox 0)))
unfolding written written_act frames_of after_act push push_frames over cap frames lane pieces
    chunks flagged frame encode put_bytes put_var put_groups enqueue refuse set_queue new_outbox pop
    pop_as fill taken front pop_front depth batch
read_loop-written_bytes_example =
    read_loop-written_bytes any_utf8 some_acts 0 10000 at_work 5 Lane.request
      (λ i. (refl, omega arith, refl)) some_acts-Drained some_acts-IsSendable (omega arith)

-- An outbox with three frames.
abbrev laden : Outbox
laden =
    after (Act.send (Msg.final 7) ∷ Act.send Msg.keep_alive ∷ Act.send (Msg.final 8) ∷ [])
      (new_outbox 0)

writes_drain_example : (after (writes 4) laden).q Lane.request ≡ []
unfolding after after_act push push_frames over cap frames lane pieces chunks flagged frame encode
    put_bytes put_var put_groups enqueue refuse set_queue new_outbox pop pop_as fill taken front
    pop_front depth batch
writes_drain_example = writes_drain 4 laden Lane.request refl (omega arith)
