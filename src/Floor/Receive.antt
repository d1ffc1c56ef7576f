-- ===== src/Floor/Receive.antt =====
-- crates/oxsfud/src/flr/core.rs: what a participant sends.
use oxlens_sfu.Base.{
  ℕ, ◌==◌, ltb, leb, Bool, true, false, not, ◌&&◌, Option, none, some, length, if◌then◌else◌,
}
use oxlens_sfu.Floor.Types.{
  UserId, P, Mt, Msg, Waiter, Part, Floor, Run, msg, mark, start, get_part, part_of, holder,
  holder_prio,
}
use oxlens_sfu.Floor.Queue.{in_q, pos, qprio, dequeue, pre_q, insert_q, contains}
use oxlens_sfu.Floor.Participant.{set_part, send, send_e}
use oxlens_sfu.Floor.Arbiter.{arb_req_idle, arb_req_permitted, arb_preempt, arb_rel, arb_rtp}
use oxlens_sfu.Floor.Causes

-- `self.dequeue(u)` and `self.insert_q(w)` in the middle of an operation.
abbrev pub drop_waiter : Run → UserId → Run
drop_waiter r u = record r { floor = dequeue r.floor u }

abbrev pub add_waiter : Run → Waiter → Run
add_waiter r w = record r { floor = insert_q r.floor w }

unfoldable pub revoke3 : Run → UserId → Run
revoke3 r u =
    send_e (set_part r u (λ p. record p { rcause = Causes.revoke_no_permission })) u P.np_sends
      (msg Mt.revoke none Causes.revoke_no_permission 0)

unfoldable pub taken_req : Run → UserId → ℕ → Run
taken_req r u p =
    let f = r.floor in
    if (get_part f u).retry
    then send (mark "FLR.S.P.NP_TAKEN.req_retry_after" r) u Mt.deny none Causes.retry_after 0
    else if in_q f u
    then send (mark "FLR.S.P.NP_TAKEN.req_renotify" r) u Mt.qinfo none (pos f u) (qprio f u)
    else if ltb (holder_prio f) p && not (pre_q f)
    then arb_preempt (mark "FLR.S.P.NP_TAKEN.req_preempt" r) u p
    else if ltb (holder_prio f) p
    then mark "FLR.S.P.NP_TAKEN.req_preempt_blocked" r
    else if leb f.qmax (length f.queue)
    then send (mark "FLR.S.P.NP_TAKEN.req_full" r) u Mt.deny none Causes.queue_full 0
    else (let r1 =
          add_waiter (mark "FLR.S.P.NP_TAKEN.req_enqueue" r)
            (record { u = u; p = p; pre = false }) in
        send r1 u Mt.qinfo none (pos r1.floor u) p)

abbrev pub ack_release : Run → UserId → Run
ack_release r u = send r u Mt.ack none Causes.release_type 0

-- The arms of `part_c`, by the participant's state and the kind of the event; `pp` is the
-- participant's record before the event.
unfoldable pub part_c_arm : Option P → Mt → Part → Run → UserId → Msg → ℕ → Run
part_c_arm (some P.np_idle) Mt.request pp r u ev t2 =
    arb_req_idle (mark "FLR.S.P.NP_IDLE.rx_REQUEST" r) u ev.n
part_c_arm (some P.np_idle) Mt.release pp r u ev t2 =
    let r1 = drop_waiter (ack_release (mark "FLR.S.P.NP_IDLE.rx_RELEASE" r) u) u in
    send r1 u Mt.idle r1.floor.prev 0 0
part_c_arm (some P.np_idle) Mt.rtp pp r u ev t2 =
    if pp.released
    then revoke3 (mark "FLR.S.P.NP_IDLE.rx_RTP_after_release" r) u
    else mark "FLR.S.P.NP_IDLE.rx_RTP_drop" r
part_c_arm (some P.np_idle) _ pp r u ev t2 = mark "FLR.S.P.NP_IDLE.rx_other" r
part_c_arm (some P.np_taken) Mt.request pp r u ev t2 =
    taken_req (mark "FLR.S.P.NP_TAKEN.rx_REQUEST" r) u ev.n
part_c_arm (some P.np_taken) Mt.release pp r u ev t2 =
    let r1 = ack_release (mark "FLR.S.P.NP_TAKEN.rx_RELEASE" r) u in
    let r2 = drop_waiter (set_part r1 u (λ p. record p { c21 = 1 })) u in
    send r2 u Mt.taken (holder r2.floor) 0 0
part_c_arm (some P.np_taken) Mt.ack pp r u ev t2 =
    if ev.n == 2
    then set_part (mark "FLR.S.P.NP_TAKEN.rx_ACK_taken" r) u (λ p. record p { c21 = 0 })
    else mark "FLR.S.P.NP_TAKEN.rx_ACK_other" r
part_c_arm (some P.np_taken) Mt.qpos_req pp r u ev t2 =
    send (mark "FLR.S.P.NP_TAKEN.rx_QPOS_REQ" r) u Mt.qinfo none (pos r.floor u) (qprio r.floor u)
part_c_arm (some P.np_taken) Mt.rtp pp r u ev t2 = revoke3 (mark "FLR.S.P.NP_TAKEN.rx_RTP" r) u
part_c_arm (some P.np_taken) _ pp r u ev t2 = mark "FLR.S.P.NP_TAKEN.rx_other" r
part_c_arm (some P.permitted) Mt.release pp r u ev t2 =
    let r1 =
      set_part (mark "FLR.S.P.PERMITTED.rx_RELEASE" r) u (λ p. record p { released = true }) in
    arb_rel (ack_release r1 u) u
part_c_arm (some P.permitted) Mt.request pp r u ev t2 =
    arb_req_permitted (mark "FLR.S.P.PERMITTED.rx_REQUEST" r) u t2
part_c_arm (some P.permitted) Mt.rtp pp r u ev t2 = arb_rtp (mark "FLR.S.P.PERMITTED.rx_RTP" r) u
part_c_arm (some P.permitted) _ pp r u ev t2 = mark "FLR.S.P.PERMITTED.rx_other" r
part_c_arm (some P.prevoke) Mt.release pp r u ev t2 =
    arb_rel (ack_release (mark "FLR.S.P.PREVOKE.rx_RELEASE" r) u) u
part_c_arm (some P.prevoke) Mt.rtp pp r u ev t2 = arb_rtp (mark "FLR.S.P.PREVOKE.rx_RTP" r) u
part_c_arm (some P.prevoke) _ pp r u ev t2 = mark "FLR.S.P.PREVOKE.rx_other" r
part_c_arm _ Mt.release pp r u ev t2 =
    if pp.g_taken
    then (let r1 = ack_release (mark "FLR.S.P.NPSENDS.rx_RELEASE_taken" r) u in
        send_e r1 u P.np_taken (msg Mt.taken (holder r1.floor) 0 0))
    else (let r1 = ack_release (mark "FLR.S.P.NPSENDS.rx_RELEASE_idle" r) u in
        send_e r1 u P.np_idle (msg Mt.idle r1.floor.prev 0 0))
part_c_arm _ Mt.rtp pp r u ev t2 = mark "FLR.S.P.NPSENDS.rx_RTP" r
part_c_arm _ _ pp r u ev t2 = mark "FLR.S.P.NPSENDS.rx_other" r

unfoldable pub part_c : Run → UserId → Msg → ℕ → Run
part_c r u ev t2_left = part_c_arm (part_of r.floor u) ev.t (get_part r.floor u) r u ev t2_left

abbrev pub is_request : Mt → Bool
is_request Mt.request = true
is_request _ = false

abbrev pub is_ack : Mt → Bool
is_ack Mt.ack = true
is_ack _ = false

abbrev pub is_np_taken : Option P → Bool
is_np_taken (some P.np_taken) = true
is_np_taken _ = false

unfoldable pub server_rx : Floor → UserId → Msg → Bool → ℕ → Run
server_rx f u m half t2_left =
    let r = start f in
    let pp = get_part f u in
    if is_ack m.t && not (is_np_taken (part_of f u))
    then mark "FLR.S.gate.ack_drop" r
    else if not (contains f.members u) && is_request m.t
    then send (mark "FLR.S.gate.not_in_room" r) u Mt.deny none Causes.other_reason 0
    else if not (contains f.members u)
    then mark "FLR.S.gate.not_in_room_drop" r
    else if is_request m.t && not half
    then send (mark "FLR.S.gate.recv_only" r) u Mt.deny none Causes.recv_only 0
    else if is_request m.t && not pp.pub_room
    then send (mark "FLR.S.gate.not_pubroom" r) u Mt.deny none Causes.not_pubroom 0
    else if is_request m.t && not pp.perm
    then send (mark "FLR.S.gate.no_permission" r) u Mt.deny none Causes.no_permission 0
    else part_c r u m t2_left

unfoldable pub rtp : Floor → UserId → Run
rtp f u =
    if not (contains f.members u)
    then mark "FLR.S.gate.not_in_room_drop" (start f)
    else part_c (start f) u (msg Mt.rtp none 0 0) 0
