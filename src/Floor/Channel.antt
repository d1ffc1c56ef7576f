-- ===== src/Floor/Channel.antt =====
-- crates/oxsfud/src/ops/floor.rs: `dc_in`, from the bytes of the data channel to the floor. The
-- rooms are a parameter: for a name, whether the room is there and the sender is in it.
use oxlens_sfu.Base.{
  ℕ, ◌+◌, ◌≤◌, ◌==◌, ◌≡◌, refl, ap, ◌∙◌, Bool, true, false, not, ◌&&◌, List, [], ◌∷◌, ◌++◌, Option,
  none, some, arith, length, length-append, if◌then◌else◌,
}
use oxlens_sfu.Floor.Types.{Mt, Msg, msg}
use oxlens_sfu.Floor.Delivery.{from_mbcp, or_0}
use oxlens_sfu.Wire.DataChannel as DataChannel
use oxlens_sfu.Wire.DataChannel.{DcFrame, decode-encode_append}
use oxlens_sfu.Wire.Mbcp.RoundTrip.{encode-delivers, encode-length}
use oxlens_sfu.Wire.Mbcp.Message as Message
use oxlens_sfu.Wire.Mbcp.Build as Build
use oxlens_sfu.Wire.Mbcp.Fields as Fields
use oxlens_sfu.Wire.Mbcp.Kinds as Kinds

abbrev pub svc_floor : ℕ
svc_floor = 1

-- What the floor needs of a request.
record Fine (room : List ℕ) (p : Option ℕ) : Type 0 where
  known : Message.adopted (Build.request room p).msg_type ≡ true
  quiet :
      (Build.request room p).ack && not (Message.ack_allowed (Build.request room p).msg_type)
      ≡ false
  few : length (Build.request room p).tlvs ≤ 255
  short : Message.any_long (Build.request room p).tlvs ≡ false
  small : length (Message.encode_fields (Build.request room p).tlvs) ≤ length room + 6
  names : Build.get (Build.request room p) Fields.room ≡ some room
  asks : (Build.request room p).msg_type ≡ Kinds.request
  says : from_mbcp (Build.request room p) ≡ some (msg Mt.request none (or_0 p) 0)

request-Fine : (room : List ℕ) (p : Option ℕ) → length room ≤ 255 → Fine room p
unfolding Build.request Build.push Build.get Build.find_field Build.priority Message.adopted
    Message.any_long Message.encode_fields from_mbcp
request-Fine room none h = record {
  known = refl;
  quiet = refl;
  few = omega arith;
  short = ground arith;
  small = omega (arith, length-append room []);
  names = refl;
  asks = refl;
  says = refl;
}
request-Fine room (some p) h = record {
  known = refl;
  quiet = refl;
  few = omega arith;
  short = ground arith;
  small = omega (arith, length-append room (0 ∷ 2 ∷ p ∷ 0 ∷ []));
  names = refl;
  asks = refl;
  says = refl;
}

module _ (in_room : List ℕ → Option Bool) where
  -- Who is not in the room is heard only with a request.
  admits : Option Bool → Message.Msg → Option Msg
  admits none m = none
  admits (some joined) m =
      if not joined && not (m.msg_type == Kinds.request) then none else from_mbcp m

  room_of : Option (List ℕ) → Option Bool
  room_of none = none
  room_of (some room) = in_room room

  hear_message : Option Message.Msg → Option Msg
  unfolding admits room_of
  hear_message none = none
  hear_message (some m) = admits (room_of (Build.get m Fields.room)) m

  hear_frame : Option DcFrame → Option Msg
  unfolding hear_message
  hear_frame none = none
  hear_frame (some fr) =
      if fr.svc == svc_floor then hear_message (Message.decode fr.payload) else none

  -- The message that `dc_in` gives to `server_rx`, if any.
  unfoldable pub dc_in : List ℕ → Option Msg
  unfolding hear_frame
  dc_in buf = hear_frame (DataChannel.decode buf)

  admits-request :
      (joined : Bool) (m : Message.Msg)
      → m.msg_type ≡ Kinds.request
      → admits (some joined) m ≡ from_mbcp m
  unfolding admits
  admits-request joined m e =
      let asks : not joined && not (m.msg_type == Kinds.request) ≡ false = ground arith in
      rw asks refl

  -- A request for a room that is there, whose name is of at most 255 bytes, is encoded as a
  -- message and as a frame, and whatever follows the frame, the floor hears the request with its
  -- priority, whether the sender is in the room or not.
  pub dc_in-request :
      (room rest : List ℕ) (p : Option ℕ) (joined : Bool)
      → length room ≤ 255
      → in_room room ≡ some joined
      → (b : List ℕ) × (c : List ℕ) × (Message.encode (Build.request room p) ≡ some b)
        × (DataChannel.encode svc_floor b ≡ some c)
        × (dc_in (c ++ rest) ≡ some (msg Mt.request none (or_0 p) 0))
  unfolding dc_in hear_frame hear_message room_of
  dc_in-request room rest p joined h e =
      let m = Build.request room p in
      let v = request-Fine room p h in
      let (b, x, y) = encode-delivers m v.known v.quiet v.few v.short in
      let l = encode-length m b x in
      let k = v.small in
      let (c, q, z) = decode-encode_append svc_floor b rest (omega arith) in
      (
        b,
        c,
        x,
        q,
        ap hear_frame z
            ∙ ap hear_message y
            ∙ ap (λ o. admits (room_of o) m) v.names
            ∙ ap (λ o. admits o m) e
            ∙ admits-request joined m v.asks
            ∙ v.says,
      )
