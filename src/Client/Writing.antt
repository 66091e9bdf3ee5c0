-- ===== src/Client/Writing.antt =====
-- TcpClient.cpp: the client waits for room in its socket exactly while buffers are queued.
use posix_bsp_perf.Prelude.{ℕ, ◌≡◌, refl, ◌∙◌, true, false, not, some, List, [], ◌∷◌, ◌++◌, arith}
use posix_bsp_perf.Message.{packet}
use posix_bsp_perf.Buffers.{Buffer, IoBufferQueue, is_empty}
use posix_bsp_perf.Registry.{
  interest, epollin, epollout, add_io_event, del_io_event, interest-add_io_event,
  interest-del_io_event,
}
use posix_bsp_perf.Connection.{Reply}
use posix_bsp_perf.Client.{
  TcpClient, on_connect, report, send_data, send_all, connected, connect_event,
}

-- While the client is connected, its loop waits for room in the socket exactly if buffers are
-- queued.
abbrev pub Attends : TcpClient → Type 0
Attends c =
    (f : ℕ)
    → c.net_connected ≡ true
    → c.sockfd ≡ some f
    → (interest c.loop f).writes ≡ not (is_empty c.out_queue)

-- With nothing queued, it does not wait for room.
abbrev Unasked : ℕ → TcpClient → Type 0
Unasked f c = is_empty c.out_queue ≡ true → (interest c.loop f).writes ≡ false

is_empty-append : (q : IoBufferQueue) (b : Buffer) → is_empty (q ++ b ∷ []) ≡ false
is_empty-append [] b = refl
is_empty-append (x ∷ q) b = refl

-- Sending a message, whether it is queued or refused, keeps the write event in step with the queue.
pub send_data-Attends : (r : Reply) (c : TcpClient) → Attends c → Attends (send_data r c).1
unfolding send_data
send_data-Attends r c h f on e = ground (
  arith,
  h f,
  interest-add_io_event f f c.loop epollout,
  is_empty-append c.out_queue (packet r.padding r.cmd_id r.bytes),
)

send_data_socket : (r : Reply) (c : TcpClient) → (send_data r c).1.sockfd ≡ c.sockfd
unfolding send_data
send_data_socket r c = ground arith

send_data-Unasked : (r : Reply) (f : ℕ) (c : TcpClient) → Unasked f c → Unasked f (send_data r c).1
unfolding send_data
send_data-Unasked r f c h idle =
    ground (arith, h, is_empty-append c.out_queue (packet r.padding r.cmd_id r.bytes))

send_all-Unasked :
    (rs : List Reply) (f : ℕ) (c : TcpClient)
    → Unasked f c
    → Unasked f (send_all rs c) × ((send_all rs c).sockfd ≡ c.sockfd)
unfolding send_all
send_all-Unasked [] f c h = (h, refl)
send_all-Unasked (r ∷ rs) f c h =
    let (idle, same) = send_all-Unasked rs f (send_data r c).1 (send_data-Unasked r f c h) in
    (idle, same ∙ send_data_socket r c)

module _ (greeting : List Reply) where
  connected-Attends :
      (f : ℕ) (c : TcpClient)
      → c.sockfd ≡ some f
      → (interest c.loop f).writes ≡ false
      → Attends (connected greeting f c)
  unfolding connected
  connected-Attends f c e quiet g on open_fd =
      let greeted = send_all greeting (report on_connect (record c { net_connected = true })) in
      let (idle, same) =
        send_all-Unasked greeting f (report on_connect (record c { net_connected = true }))
          (λ none_left. quiet) in
      ground (
        arith,
        same,
        idle,
        interest-add_io_event f g greeted.loop epollin,
        interest-add_io_event f g (add_io_event f epollin greeted.loop) epollout,
      )

  -- When a connection that was under way is made, whatever was queued before it and whatever its
  -- first callback sends, the client then waits for room exactly if buffers are queued.
  pub connect_event-Attends :
      (f : ℕ) (c : TcpClient) → c.sockfd ≡ some f → Attends (connect_event greeting true f c)
  unfolding connect_event
  connect_event-Attends f c e =
      connected-Attends f (record c { loop = del_io_event f c.loop }) e
        (ground (arith, interest-del_io_event f f c.loop))
