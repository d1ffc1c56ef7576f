-- ===== src/Floor/Events.antt =====
-- crates/oxsfud/src/flr/core.rs and crates/oxsfud/src/ops/floor.rs: the entry points of the floor
-- as events. A timer acts only where the code finds it armed.
use oxlens_sfu.Base.{ℕ, ◌==◌, Bool, false, ◌||◌, List, [], ◌∷◌, Option, none, some, if◌then◌else◌}
use oxlens_sfu.Floor.Types.{UserId, Msg, Floor, Run, TimerName, start, or_no_user}
use oxlens_sfu.Floor.Receive.{server_rx, rtp}
use oxlens_sfu.Floor.Membership.{
  ready, perm_down, perm_up, ws_pub_select, ws_pub_away, ws_leave, ws_join,
}
use oxlens_sfu.Floor.Timers.{t1, t2, t3, t7, t8, t9, t20, t21, armed_server, armed_participant}

unfoldable pub fire : Floor → TimerName → UserId → Run
fire f TimerName.t1 u = t1 f
fire f TimerName.t2 u = t2 f
fire f TimerName.t3 u = t3 f
fire f TimerName.t7 u = t7 f
fire f TimerName.t20 u = t20 f
fire f TimerName.t8 u = t8 f u
fire f TimerName.t21 u = t21 f u
fire f TimerName.t9 u = t9 f u

abbrev pub timer_code : TimerName → ℕ
timer_code TimerName.t1 = 1
timer_code TimerName.t2 = 2
timer_code TimerName.t3 = 3
timer_code TimerName.t7 = 7
timer_code TimerName.t8 = 8
timer_code TimerName.t9 = 9
timer_code TimerName.t20 = 20
timer_code TimerName.t21 = 21

abbrev pub armed_among : TimerName → List TimerName → Bool
armed_among t [] = false
armed_among t (s ∷ ss) = timer_code s == timer_code t || armed_among t ss

abbrev pub armed_for : Floor → Option UserId → List TimerName
armed_for f none = armed_server f
armed_for f (some u) = armed_participant f u

-- What `fire_due` does with one due timer.
unfoldable pub fire_due : Floor → TimerName → Option UserId → Run
fire_due f t user = if armed_among t (armed_for f user) then fire f t (or_no_user user) else start f

pub data Event : Type 0 where
  rx : UserId → Msg → Bool → ℕ → Event
  media : UserId → Event
  readied : UserId → Event
  permitted : UserId → Event
  forbidden : UserId → Event
  selected : UserId → Event
  deselected : UserId → Event
  left : UserId → Event
  joined : UserId → Bool → Event
  due : TimerName → Option UserId → Event

unfoldable pub step : Floor → Event → Run
step f (Event.rx u m half t2_left) = server_rx f u m half t2_left
step f (Event.media u) = rtp f u
step f (Event.readied u) = ready f u
step f (Event.permitted u) = perm_up f u
step f (Event.forbidden u) = perm_down f u
step f (Event.selected u) = ws_pub_select f u
step f (Event.deselected u) = ws_pub_away f u
step f (Event.left u) = ws_leave f u
step f (Event.joined u perm) = ws_join f u perm
step f (Event.due t user) = fire_due f t user

-- The floors that a room passes through.
unfoldable pub run : Floor → List Event → Floor
run f [] = f
run f (e ∷ es) = run (step f e).floor es
