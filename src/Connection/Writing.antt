-- ===== src/Connection/Writing.antt =====
-- TcpConnection::sendData and handleWrite.
use mathlib.Core.Option.{some-injective}
use posix_bsp_perf.Prelude.{
  ℕ, ◌≡◌, refl, ◌∙◌, subst, ap, true, false, not, some, List, [], ◌∷◌, ◌++◌, arith,
}
use posix_bsp_perf.Syscall.{Attempt}
use posix_bsp_perf.Message.{packet}
use posix_bsp_perf.Buffers.{Buffer, IoBufferQueue, is_empty}
use posix_bsp_perf.Registry.{interest, epollout, interest-add_io_event, interest-del_io_mask}
use posix_bsp_perf.Connection.{
  TcpConnection, send_data, handle_write, write_loop, finish_write, end_write, clean_connection,
  WriteEnd, drained, stopped, broken, waiting,
}

-- While the connection is open, its loop waits for room in the socket exactly if buffers are queued.
abbrev pub Listens : TcpConnection → Type 0
Listens c = (f : ℕ) → c.fd ≡ some f → (interest c.loop f).writes ≡ not (is_empty c.out_queue)

is_empty-append : (q : IoBufferQueue) (b : Buffer) → is_empty (q ++ b ∷ []) ≡ false
is_empty-append [] b = refl
is_empty-append (x ∷ q) b = refl

-- Sending keeps the write event in step with the queue.
pub send_data-Listens :
    (padding cmd_id : ℕ) (bytes : Buffer) (c : TcpConnection)
    → Listens c
    → Listens (send_data padding cmd_id bytes c)
unfolding send_data
send_data-Listens padding cmd_id bytes c h f e = ground (
  arith,
  h f,
  interest-add_io_event f f c.loop epollout,
  is_empty-append c.out_queue (packet padding cmd_id bytes),
)

end_write_all-Listens : (c : TcpConnection) → Listens (end_write [] c)
unfolding end_write
end_write_all-Listens c f e = ground (arith, interest-del_io_mask f f c.loop epollout)

end_write-Listens :
    (q : IoBufferQueue) (c : TcpConnection)
    → ((f : ℕ) → c.fd ≡ some f → (interest c.loop f).writes ≡ true)
    → Listens (end_write q c)
unfolding end_write
end_write-Listens [] c h f e = end_write_all-Listens c f e
end_write-Listens (b ∷ q) c h f e = h f e

clean_connection-Listens : (c : TcpConnection) → Listens (clean_connection c)
unfolding clean_connection
clean_connection-Listens c f e = cc

finish_write-Listens :
    (end : WriteEnd) (c c' : TcpConnection)
    → ((f : ℕ) → c.fd ≡ some f → (interest c.loop f).writes ≡ true)
    → finish_write end c ≡ some c'
    → Listens c'
unfolding finish_write
finish_write-Listens (waiting q) c c' h e = cc
finish_write-Listens (broken q) c c' h e =
    subst Listens (some-injective _ _ e) (clean_connection-Listens (record c { out_queue = q }))
finish_write-Listens (drained q) c c' h e =
    subst Listens (some-injective _ _ e) (end_write-Listens q c h)
finish_write-Listens (stopped q) c c' h e =
    subst Listens (some-injective _ _ e) (end_write-Listens q c h)

-- Writing keeps the write event in step with the queue, on every answer of the kernel that lets
-- the call return.
pub handle_write-Listens :
    (answers : List (List (Attempt ℕ))) (c c' : TcpConnection)
    → Listens c
    → handle_write answers c ≡ some c'
    → Listens c'
unfolding handle_write finish_write
handle_write-Listens answers c c' h e = go c.out_queue refl
  where
    go : (q : IoBufferQueue) → c.out_queue ≡ q → Listens c'
    go [] none_left =
        let returned : finish_write (drained []) c ≡ some c' =
          subst (λ q. finish_write (write_loop q answers) c ≡ some c') none_left e in
        subst Listens (some-injective _ _ returned) (end_write_all-Listens c)
    go (b ∷ q) more =
        finish_write-Listens (write_loop c.out_queue answers) c c'
          (λ f open_fd. h f open_fd ∙ ap (λ r. not (is_empty r)) more) e
