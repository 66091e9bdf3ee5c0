-- ===== src/Udp/Sending.antt =====
-- What an endpoint sends.
use posix_bsp_perf.Prelude.{
  ◌+◌, ◌%◌, ◌^◌, ◌≤◌, ◌≡◌, refl, sym, ap, ◌∙◌, [], ◌∷◌, ◌++◌, ltb, if◌then◌else◌, length,
  Bool-cases, inl, inr, length-append, length-drop, take, drop, take-append, append_assoc, arith,
}
use posix_bsp_perf.Message.{put_le, packet, sizeof_msg_head, msg_length_limit}
use posix_bsp_perf.Message.Codec.{length-packet}
use posix_bsp_perf.Buffers.{Buffer}
use posix_bsp_perf.Connection.{Reply}
use posix_bsp_perf.Udp.{UdpEndpoint, sent, write_message, send_data}

-- The head and the data are a packet.
write_message-eq-packet :
    (r : Reply) (wbuf : Buffer)
    → write_message r wbuf ≡ packet r.padding r.cmd_id r.bytes ++ drop sizeof_msg_head wbuf
unfolding write_message packet
write_message-eq-packet r wbuf =
    let cmd = put_le 8 r.cmd_id in
    let len = put_le 4 (length r.bytes % 2 ^ 32) in
    let pad = put_le 4 r.padding in
    let old = drop sizeof_msg_head wbuf in
    append_assoc cmd (len ++ pad) (r.bytes ++ old)
    ∙ ap (◌++◌ cmd) (append_assoc len pad (r.bytes ++ old))
    ∙ sym (
        append_assoc cmd (len ++ (pad ++ r.bytes)) old
        ∙ ap (◌++◌ cmd)
            (append_assoc len (pad ++ r.bytes) old ∙ ap (◌++◌ len) (append_assoc pad r.bytes old)))

-- A message within the size limit goes out as one datagram, its packet; the write buffer is then
-- longer than before by the size of the message, since the data is inserted and never taken out. A
-- larger message changes nothing.
pub send_data-packet :
    (r : Reply) (u : UdpEndpoint)
    → sizeof_msg_head ≤ length u.wbuf
    → ((send_data r u).actions ≡ (
        if ltb msg_length_limit (length r.bytes)
        then u.actions
        else u.actions ++ sent u.peer (packet r.padding r.cmd_id r.bytes) ∷ []))
      × (length (send_data r u).wbuf ≡ (
          if ltb msg_length_limit (length r.bytes)
          then length u.wbuf
          else length u.wbuf + length r.bytes))
unfolding send_data
send_data-packet r u h =
    let p = packet r.padding r.cmd_id r.bytes in
    let old = drop sizeof_msg_head u.wbuf in
    let same = write_message-eq-packet r u.wbuf in
    let out : take (sizeof_msg_head + length r.bytes) (write_message r u.wbuf) ≡ p =
      ap (take (sizeof_msg_head + length r.bytes)) same
      ∙ take-append p old _ (length-packet r.padding r.cmd_id r.bytes) in
    let grown : length (write_message r u.wbuf) ≡ length u.wbuf + length r.bytes = omega (
      arith,
      ap length same,
      length-append p old,
      length-packet r.padding r.cmd_id r.bytes,
      length-drop sizeof_msg_head u.wbuf,
    ) in
    elim (Bool-cases (ltb msg_length_limit (length r.bytes))) [
      | inl large ↦ rw (large, send_data) (refl, refl)
      | inr small ↦ rw (small, send_data) (ap (λ d. u.actions ++ sent u.peer d ∷ []) out, grown)
    ]
