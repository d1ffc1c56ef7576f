-- ===== src/Link/BindingRuns.antt =====
-- crates/oxsfud/src/link: the properties of bindings and of connections at concrete inputs. The
-- MAC, the checksum and the reading of text are stand-ins.
use oxlens_sfu.Base.{
  ℕ, ◌+◌, ◌≡◌, refl, true, false, List, [], ◌∷◌, Option, none, some, length, take, drop, arith,
}
use oxlens_sfu.Link.Tcp.{Bytes}
use oxlens_sfu.Link.Stun.{
  Binding, Result, set_len, signed, check, parse, parse_stun, is_stun, attrs_loop, take_attr,
  bind_found, split_once, longer, differ, verify,
}
use oxlens_sfu.Link.Stun.Build.{SocketAddr, pad_loop, attr, header, seal, request}
use oxlens_sfu.Link.Stun.Layout.{cell, zeros}
use oxlens_sfu.Link.Stun.Attributes.{cells, named, candidate}
use oxlens_sfu.Link.Stun.Accepted.{signed_request, check-signed_request}
use oxlens_sfu.Link.Stun.Request.{check-request}
use oxlens_sfu.Link.Stun.Authentic.{check-authentic}
use oxlens_sfu.Link.Paths.{PathKey, same_bytes, same_addr, same_key}
use oxlens_sfu.Link.Creds.{Cred, pwd, pending_pwd, checked, checked_pending}
use oxlens_sfu.Link.Transport.{Transport, new, touch, touch_pair, send_ok, set_state}
use oxlens_sfu.Link.Transport.Liveness.{touch_all, last_heard, send_ok-touch_all}
use oxlens_sfu.Link.Receive.{
  RecvState, Reason, Event, refuse, retire, nominate, media_to, accept, with_pwd, with_transport,
  with_binding, stun_in, datagram, step, run,
}
use oxlens_sfu.Link.Receive.Gate.{WasOpened}
use oxlens_sfu.Link.Receive.Media.{delivers, datagram-WasOpened}
use oxlens_sfu.Link.Receive.Retired.{stun_in-retired}

-- Twenty bytes that depend on the lengths.
abbrev mac : Bytes → Bytes → Bytes
mac key text =
    length key
    ∷ length text
    ∷ 0
    ∷ 0
    ∷ 0
    ∷ 0
    ∷ 0
    ∷ 0
    ∷ 0
    ∷ 0
    ∷ 0
    ∷ 0
    ∷ 0
    ∷ 0
    ∷ 0
    ∷ 0
    ∷ 0
    ∷ 0
    ∷ 0
    ∷ 0
    ∷ []

length-mac : (key text : Bytes) → length (mac key text) ≡ 20
length-mac key text = refl

abbrev plain_text : Bytes → Bytes
plain_text b = b

abbrev id12 : Bytes
id12 = 1 ∷ 2 ∷ 3 ∷ 4 ∷ 5 ∷ 6 ∷ 7 ∷ 8 ∷ 9 ∷ 10 ∷ 11 ∷ 12 ∷ []

abbrev secret : Bytes
secret = 112 ∷ 119 ∷ []

abbrev known : Bytes → Option Bytes
known u = some secret

abbrev raw : Bytes
raw = request mac length (97 ∷ []) (98 ∷ []) secret id12 true

abbrev made : Binding
made = record {
  txid = id12;
  local_ufrag = 97 ∷ [];
  remote_ufrag = 98 ∷ [];
  use_candidate = true;
  mi_offset = 32;
  mi = mac secret (zeros 32);
}

raw-made : check mac plain_text known raw ≡ Result.ok made
unfolding check parse parse_stun is_stun attrs_loop take_attr bind_found split_once longer differ
    verify request header attr pad_loop seal set_len signed zeros
raw-made = refl

check-request_example :
    (b : Binding) × (check mac plain_text known raw ≡ Result.ok b)
    × (b.txid ≡ id12)
    × (b.local_ufrag ≡ 97 ∷ [])
    × (b.remote_ufrag ≡ 98 ∷ [])
    × (b.use_candidate ≡ true)
check-request_example =
    check-request mac length (97 ∷ []) (98 ∷ []) secret id12 plain_text known true refl length-mac
      refl (refl, tt) (omega arith) refl

check-authentic_example :
    (p : Bytes) × (known (97 ∷ []) ≡ some p) × (mac p (signed raw 32) ≡ take 20 (drop 36 raw))
check-authentic_example = check-authentic plain_text mac known raw made length-mac raw-made

-- A name that follows the integrity, and is not signed, is taken.
abbrev appended : ℕ × Bytes
appended = (6, 97 ∷ 58 ∷ 99 ∷ [])

abbrev names : List (ℕ × Bytes)
names = (6, 97 ∷ 58 ∷ 98 ∷ []) ∷ []

abbrev names_mac : Bytes
names_mac = mac secret (zeros 28)

check-signed_request_example :
    check mac plain_text known (signed_request id12 names names_mac appended [])
    ≡ Result.ok (record {
      txid = id12;
      local_ufrag = 97 ∷ [];
      remote_ufrag = 99 ∷ [];
      use_candidate = candidate plain_text names false;
      mi_offset = 20 + length (cells names);
      mi = names_mac;
    })
unfolding cells cell named zeros
check-signed_request_example =
    check-signed_request id12 names names_mac appended [] plain_text mac known (97 ∷ []) (99 ∷ [])
      secret refl ((omega arith, refl, omega arith), tt) (omega arith, refl, omega arith) refl
      (omega arith) refl (refl, tt) refl refl

-- A connection, and the table that leads to it.
abbrev client : PathKey
client = PathKey.udp (SocketAddr.v4 1 5000)

abbrev old_cred : Cred
old_cred = record { ufrag = 122 ∷ []; pwd = secret }

abbrev next_cred : Cred
next_cred = record { ufrag = 97 ∷ []; pwd = secret }

abbrev link : Transport
link = new (record { active = old_cred; pending = some next_cred }) 5

abbrev tables : RecvState
tables = record { transports = λ i. link; by_ufrag = λ u. none; by_addr = λ k. none }

abbrev events : List Event
events = Event.register (97 ∷ []) 3 ∷ Event.heard raw client 0 7 none ∷ []

abbrev server : SocketAddr
server = SocketAddr.v4 9 1000

media_delivered :
    delivers
      (datagram mac plain_text length server
        (run mac plain_text length server tables events)
        (128 ∷ [])
        client
        0
        8
        none).1
    ≡ 3 ∷ []
unfolding delivers datagram run step stun_in with_binding with_transport with_pwd accept retire
    nominate media_to check parse parse_stun is_stun attrs_loop take_attr bind_found split_once
    longer differ verify request header attr pad_loop seal set_len signed zeros pwd pending_pwd
    checked checked_pending touch_pair touch same_bytes same_addr same_key new set_state
media_delivered = refl

datagram-WasOpened_example :
    WasOpened mac plain_text length-mac length server tables events client 3
datagram-WasOpened_example =
    datagram-WasOpened mac plain_text length-mac length server tables events (128 ∷ []) client 0 8
      none 3 (λ k. refl) media_delivered

-- A message of the user who was active before.
abbrev late : Binding
late = record {
  txid = id12;
  local_ufrag = 122 ∷ [];
  remote_ufrag = 98 ∷ [];
  use_candidate = true;
  mi_offset = 32;
  mi = mac secret (zeros 32);
}

late_parsed :
    parse plain_text (request mac length (122 ∷ []) (98 ∷ []) secret id12 true) ≡ Result.ok late
unfolding parse parse_stun is_stun attrs_loop take_attr bind_found split_once longer request header
    attr pad_loop seal set_len zeros
late_parsed = refl

stun_in-retired_example :
    (let s' = (accept mac plain_text length server tables 3 made secret client 7).0 in
      stun_in mac plain_text length server s'
        (request mac length (122 ∷ []) (98 ∷ []) secret id12 true)
        client
        8
      ≡ refuse s' Reason.stun_unverified)
unfolding new
stun_in-retired_example =
    stun_in-retired mac plain_text length server tables 3 made secret client 7 next_cred refl refl
      (request mac length (122 ∷ []) (98 ∷ []) secret id12 true) late client 8 late_parsed refl

send_ok-touch_all_example :
    send_ok
      (λ i. false)
      30007
      (touch_all
        (record link { path = some client })
        ((client, 3) ∷ (PathKey.tcp 4, 9) ∷ (client, 7) ∷ []))
    ≡ some client
unfolding last_heard same_key same_addr new
send_ok-touch_all_example =
    send_ok-touch_all (λ i. false) 30007 (record link { path = some client })
      ((client, 3) ∷ (PathKey.tcp 4, 9) ∷ (client, 7) ∷ []) (SocketAddr.v4 1 5000) refl refl
