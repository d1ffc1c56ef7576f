-- ===== src/Mesh/Wire/Message.antt =====
-- crates/oxmesh/src/wire.rs: the messages between the nodes, their lanes and their encoding.
use oxlens_sfu.Base.{ℕ, Bool, true, false, List, [], ◌∷◌, ◌++◌, length}
use oxlens_sfu.Mesh.Wire.Cursor.{Bytes, put_var, put_bytes, put_pairs}

pub data Lane : Type 0 where
  control declare request data_lane : Lane

pub data Role : Type 0 where
  router client : Role

pub data DeclKind : Type 0 where
  token sub qabl : DeclKind

pub data TokenEvtKind : Type 0 where
  put delete batch_end : TokenEvtKind

pub data CloseReason : Type 0 where
  shutdown expired fenced replaced refused duplicate protocol io : CloseReason

pub record Hello : Type 0 where
  pub proto : ℕ
  pub role : Role
  pub node : Bytes
  pub boot : ℕ
  pub sno : ℕ
  pub lease_ms : ℕ
  pub listen : List Bytes
  pub peers : List (Bytes × Bytes)

pub data Msg : Type 0 where
  hello : Hello → Msg
  close : CloseReason → Msg
  keep_alive : Msg
  declare : DeclKind → ℕ → Bytes → Msg
  undeclare : DeclKind → ℕ → Msg
  declare_done : Msg
  token_sub : ℕ → Bytes → Bool → Msg
  token_unsub : ℕ → Msg
  token_evt : ℕ → TokenEvtKind → Bytes → Msg
  peers : List (Bytes × Bytes) → Msg
  put : Bytes → Bytes → Msg
  request : ℕ → Bytes → Bytes → ℕ → Msg
  reply : ℕ → Bytes → Bool → Bytes → Msg
  final : ℕ → Msg

unfoldable pub lane : Msg → Lane
lane (Msg.hello h) = Lane.control
lane (Msg.close r) = Lane.control
lane Msg.keep_alive = Lane.control
lane (Msg.declare k i e) = Lane.declare
lane (Msg.undeclare k i) = Lane.declare
lane Msg.declare_done = Lane.declare
lane (Msg.token_sub i e h) = Lane.declare
lane (Msg.token_unsub i) = Lane.declare
lane (Msg.token_evt i k e) = Lane.declare
lane (Msg.peers p) = Lane.declare
lane (Msg.put k p) = Lane.data_lane
lane (Msg.request q e p t) = Lane.request
lane (Msg.reply q k o p) = Lane.request
lane (Msg.final q) = Lane.request

-- The numbers of the kinds, `as u8`.
abbrev pub role_code : Role → ℕ
role_code Role.router = 0
role_code Role.client = 1

abbrev pub kind_code : DeclKind → ℕ
kind_code DeclKind.token = 0
kind_code DeclKind.sub = 1
kind_code DeclKind.qabl = 2

abbrev pub evt_code : TokenEvtKind → ℕ
evt_code TokenEvtKind.put = 0
evt_code TokenEvtKind.delete = 1
evt_code TokenEvtKind.batch_end = 2

abbrev pub reason_code : CloseReason → ℕ
reason_code CloseReason.shutdown = 0
reason_code CloseReason.expired = 1
reason_code CloseReason.fenced = 2
reason_code CloseReason.replaced = 3
reason_code CloseReason.refused = 4
reason_code CloseReason.duplicate = 5
reason_code CloseReason.protocol = 6
reason_code CloseReason.io = 7

abbrev pub bool_code : Bool → ℕ
bool_code false = 0
bool_code true = 1

unfoldable pub put_strs : List Bytes → Bytes
put_strs [] = []
put_strs (v ∷ vs) = put_bytes v ++ put_strs vs

unfoldable pub encode : Msg → Bytes
encode (Msg.hello h) =
    0
    ∷ h.proto
    ∷ role_code h.role
    ∷ (put_bytes h.node
        ++ (put_var h.boot
            ++ (put_var h.sno
                ++ (put_var h.lease_ms
                    ++ (put_var (length h.listen) ++ (put_strs h.listen ++ put_pairs h.peers))))))
encode (Msg.close r) = 1 ∷ reason_code r ∷ []
encode Msg.keep_alive = 2 ∷ []
encode (Msg.declare k i e) = 3 ∷ kind_code k ∷ (put_var i ++ put_bytes e)
encode (Msg.undeclare k i) = 4 ∷ kind_code k ∷ put_var i
encode Msg.declare_done = 5 ∷ []
encode (Msg.token_sub i e h) = 6 ∷ (put_var i ++ (put_bytes e ++ (bool_code h ∷ [])))
encode (Msg.token_unsub i) = 7 ∷ put_var i
encode (Msg.token_evt i k e) = 8 ∷ (put_var i ++ (evt_code k ∷ put_bytes e))
encode (Msg.peers p) = 9 ∷ put_pairs p
encode (Msg.put k p) = 10 ∷ (put_bytes k ++ put_bytes p)
encode (Msg.request q e p t) = 11 ∷ (put_var q ++ (put_bytes e ++ (put_bytes p ++ put_var t)))
encode (Msg.reply q k o p) = 12 ∷ (put_var q ++ (put_bytes k ++ (bool_code o ∷ put_bytes p)))
encode (Msg.final q) = 13 ∷ put_var q
