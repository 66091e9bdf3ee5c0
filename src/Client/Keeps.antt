-- ===== src/Client/Keeps.antt =====
-- TcpClient.cpp: what is queued stays queued over a new connection.
use posix_bsp_perf.Prelude.{
  ◌⊎◌, ℕ, ◌≡◌, ap, sym, subst, OnSome, ◌∙◌, true, false, some, inl, inr, List, [], ◌∷◌, ◌++◌,
  append_assoc, append-nil, arith,
}
use posix_bsp_perf.Message.{packet}
use posix_bsp_perf.Buffers.{IoBufferQueue}
use posix_bsp_perf.Connection.{Reply}
use posix_bsp_perf.Client.{
  TcpClient, Connect, no_socket, refused, connected_at, once_ready_at, on_connect, on_close, report,
  send_data, send_all, drop_socket, close_old, connected, do_connect, clean_connection,
}

-- The queue was only added to.
abbrev pub Extends : IoBufferQueue → TcpClient → Type 0
Extends q c = (more : IoBufferQueue) × (c.out_queue ≡ q ++ more)

send_data_queue :
    (r : Reply) (c : TcpClient)
    → ((send_data r c).1.out_queue ≡ c.out_queue)
      ⊎ ((send_data r c).1.out_queue ≡ c.out_queue ++ packet r.padding r.cmd_id r.bytes ∷ [])
unfolding send_data
send_data_queue r c = ground arith

send_data-Extends :
    (r : Reply) (q : IoBufferQueue) (c : TcpClient) → Extends q c → Extends q (send_data r c).1
send_data-Extends r q c (more, e) = elim (send_data_queue r c) [
  | inl same ↦ (more, same ∙ e)
  | inr longer ↦
      let b = packet r.padding r.cmd_id r.bytes in
      (more ++ b ∷ [], longer ∙ ap (λ l. l ++ b ∷ []) e ∙ append_assoc q more (b ∷ []))
]

send_all-Extends :
    (rs : List Reply) (q : IoBufferQueue) (c : TcpClient) → Extends q c → Extends q (send_all rs c)
unfolding send_all
send_all-Extends [] q c h = h
send_all-Extends (r ∷ rs) q c h =
    send_all-Extends rs q (send_data r c).1 (send_data-Extends r q c h)

drop_socket_queue : (c : TcpClient) → (drop_socket c).out_queue ≡ c.out_queue
unfolding drop_socket
drop_socket_queue c = ground arith

close_old_queue : (c : TcpClient) → (close_old c).out_queue ≡ c.out_queue
unfolding close_old
close_old_queue c = ground arith

connected_queue :
    (greeting : List Reply) (f : ℕ) (c : TcpClient)
    → (connected greeting f c).out_queue
      ≡ (send_all greeting (report on_connect (record c { net_connected = true }))).out_queue
unfolding connected
connected_queue greeting f c = ground arith

do_connect-Extends :
    (greeting : List Reply) (answer : Connect) (q : IoBufferQueue) (c : TcpClient)
    → Extends q c
    → OnSome (Extends q) (do_connect greeting answer c)
unfolding do_connect
do_connect-Extends greeting no_socket q c h = tt
do_connect-Extends greeting refused q c h = tt
do_connect-Extends greeting (once_ready_at f) q c (more, e) = (more, close_old_queue c ∙ e)
do_connect-Extends greeting (connected_at f) q c (more, e) =
    let fresh = record (close_old c) { sockfd = some f } in
    let start = report on_connect (record fresh { net_connected = true }) in
    let (more', e') = send_all-Extends greeting q start (more, close_old_queue c ∙ e) in
    (more', connected_queue greeting f fresh ∙ e')

-- When the connection is closed and made again, at once or later, every buffer that was queued stays
-- queued, in order, in front of what the callbacks add.
pub clean_connection-Extends :
    (greeting farewell : List Reply) (answer : Connect) (c c' : TcpClient)
    → clean_connection greeting farewell answer c ≡ some c'
    → Extends c.out_queue c'
unfolding clean_connection
clean_connection-Extends greeting farewell answer c c' e =
    let closed = report on_close (record (drop_socket c) { net_connected = false }) in
    let left = send_all farewell closed in
    let kept : Extends c.out_queue left =
      send_all-Extends farewell c.out_queue closed
        ([], drop_socket_queue c ∙ sym (append-nil c.out_queue)) in
    subst (OnSome (Extends c.out_queue)) e
      (do_connect-Extends greeting answer c.out_queue left kept)
