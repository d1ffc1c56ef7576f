-- ===== src/Mesh/Wire/Decode.antt =====
-- crates/oxmesh/src/wire.rs: the decoding of the messages.
use oxlens_sfu.Base.{ℕ, ◌==◌, Bool, not, [], Option, none, some, ltb, if◌then◌else◌}
use oxlens_sfu.Mesh.Wire.Cursor.{
  Bytes, Cur, done, stop, ◌>>=◌, get_u8, get_var, get_len, get_bytes, get_str, get_strs, get_pairs,
}
use oxlens_sfu.Mesh.Wire.Message.{DeclKind, Role, TokenEvtKind, CloseReason, Msg}

-- The reading of a kind from its number.
unfoldable pub kind_from : ℕ → Cur DeclKind
kind_from v =
    if v == 0
    then done DeclKind.token
    else if v == 1
    then done DeclKind.sub
    else if v == 2
    then done DeclKind.qabl
    else stop

unfoldable pub get_kind : Cur DeclKind
get_kind = do v ← get_u8; kind_from v

unfoldable pub role_from : ℕ → Cur Role
role_from v = if v == 0 then done Role.router else if v == 1 then done Role.client else stop

unfoldable pub get_role : Cur Role
get_role = do v ← get_u8; role_from v

unfoldable pub evt_from : ℕ → Cur TokenEvtKind
evt_from v =
    if v == 0
    then done TokenEvtKind.put
    else if v == 1
    then done TokenEvtKind.delete
    else if v == 2
    then done TokenEvtKind.batch_end
    else stop

unfoldable pub get_evt : Cur TokenEvtKind
get_evt = do v ← get_u8; evt_from v

-- `CloseReason::from_u8`.
unfoldable pub reason_from : ℕ → CloseReason
reason_from v =
    if v == 0
    then CloseReason.shutdown
    else if v == 1
    then CloseReason.expired
    else if v == 2
    then CloseReason.fenced
    else if v == 3
    then CloseReason.replaced
    else if v == 4
    then CloseReason.refused
    else if v == 5
    then CloseReason.duplicate
    else if v == 6
    then CloseReason.protocol
    else CloseReason.io

-- `c.u8()? != 0`.
unfoldable pub get_bool : Cur Bool
get_bool = do v ← get_u8; done (not (v == 0))

-- `u32::try_from(c.var()?).ok()?`.
unfoldable pub get_u32 : Cur ℕ
get_u32 = do v ← get_var; if ltb v 4294967296 then done v else stop

module _ (utf8 : Bytes → Bool) where
  unfoldable pub get_hello : Cur Msg
  get_hello = do
    proto ← get_u8
    role ← get_role
    node ← get_str utf8
    boot ← get_var
    sno ← get_var
    lease_ms ← get_u32
    n ← get_len
    listen ← get_strs utf8 n
    known ← get_pairs utf8
    done (
        Msg.hello (record {
          proto = proto;
          role = role;
          node = node;
          boot = boot;
          sno = sno;
          lease_ms = lease_ms;
          listen = listen;
          peers = known;
        }))

  -- The message whose number is `t`.
  unfoldable pub get_body : ℕ → Cur Msg
  get_body t =
      if t == 0
      then get_hello
      else if t == 1
      then (do v ← get_u8; done (Msg.close (reason_from v)))
      else if t == 2
      then done Msg.keep_alive
      else if t == 3
      then (do k ← get_kind; i ← get_var; e ← get_str utf8; done (Msg.declare k i e))
      else if t == 4
      then (do k ← get_kind; i ← get_var; done (Msg.undeclare k i))
      else if t == 5
      then done Msg.declare_done
      else if t == 6
      then (do i ← get_var; e ← get_str utf8; h ← get_bool; done (Msg.token_sub i e h))
      else if t == 7
      then (do i ← get_var; done (Msg.token_unsub i))
      else if t == 8
      then (do i ← get_var; k ← get_evt; e ← get_str utf8; done (Msg.token_evt i k e))
      else if t == 9
      then (do p ← get_pairs utf8; done (Msg.peers p))
      else if t == 10
      then (do k ← get_str utf8; p ← get_bytes; done (Msg.put k p))
      else if t == 11
      then (do
        q ← get_var
        e ← get_str utf8
        p ← get_bytes
        w ← get_u32
        done (Msg.request q e p w))
      else if t == 12
      then (do q ← get_var; k ← get_str utf8; o ← get_bool; p ← get_bytes; done (Msg.reply q k o p))
      else if t == 13
      then (do q ← get_var; done (Msg.final q))
      else stop

  -- Nothing may be left over.
  abbrev pub whole : Option (Msg × Bytes) → Option Msg
  whole (some (m, [])) = some m
  whole _ = none

  unfoldable pub decode : Bytes → Option Msg
  decode b = whole ((do t ← get_u8; get_body t) b)
