-- ===== src/EchoServer/Echoes.antt =====
-- example/testserver.cc: `onMessage` and the reports of room to write after it.
use head_write_muduo_epoll_c.Base.{
  ℕ, ◌+◌, ◌≤◌, ◌<◌, ◌≡◌, ◌==◌, length-append, ap, ◌∙◌, true, List, [], ◌++◌, length, arith,
  max_size, ◌>>=◌, Returns, Returns-bind, Returns-both,
}
use head_write_muduo_epoll_c.Kernel.{Epoll, EventFd}
use head_write_muduo_epoll_c.Buffer.{Written, retrive_all_string}
use head_write_muduo_epoll_c.Buffer.Bounds.{IsValid}
use head_write_muduo_epoll_c.Buffer.Contents.{contents, retrive_all_string_empties}
use head_write_muduo_epoll_c.Functor.{Functor}
use head_write_muduo_epoll_c.EventLoop.{is_in_loop_thread}
use head_write_muduo_epoll_c.TcpConnection.{
  Session, connected, same_state, send, send_in_loop, shutdown,
}
use head_write_muduo_epoll_c.TcpConnection.Aside.{Aside, send_in_loop-Aside}
use head_write_muduo_epoll_c.TcpConnection.Flow.{Flowing}
use head_write_muduo_epoll_c.TcpConnection.Sending.{Accepts, send_in_loop-Flowing}
use head_write_muduo_epoll_c.TcpConnection.Writing.Flush.{AllPositive, drain}
use head_write_muduo_epoll_c.EchoServer.{on_message}
use head_write_muduo_epoll_c.TcpConnection.Writing.Closing.{
  Closing, shutdown-Closing, drain-Closing,
}

module _ (ep : Epoll) (ef : EventFd) where
  module _ {payload : List ℕ} (tid : ℕ) (result : Written) (s : Session ep ef)
      (v : Flowing ep ef payload s) (input : IsValid s.conn.input)
      (open_ : s.conn.state ≡ connected) (here : is_in_loop_thread ep ef Functor s.loop tid ≡ true)
      (fits : 1032 + length payload + length (contents s.conn.input) < max_size)
      (acc : Accepts (contents s.conn.input) result) where
    on_message-Closing :
        Returns (Closing ep ef (payload ++ contents s.conn.input)) (on_message ep ef tid result s)
    unfolding on_message send is_in_loop_thread
    on_message-Closing =
        let (msg, rest) = retrive_all_string s.conn.input in
        let (same, _) = retrive_all_string_empties input in
        let taken = record s { conn = record s.conn { input = rest } } in
        let flows : Flowing ep ef payload taken = record {
          stream = v.stream;
          valid = v.valid;
          bounded = v.bounded;
          open_state = v.open_state;
          watched = record {
            index_added = v.watched.index_added;
            interest = v.watched.interest;
            reading = v.watched.reading;
            registered = v.watched.registered;
          };
          flushed = v.flushed;
          busy = v.busy;
        } in
        let sent : Returns
            (λ t. Flowing ep ef (payload ++ contents s.conn.input) t × Aside ep ef taken t)
            (send_in_loop ep ef tid result msg taken) =
          rw same (
            Returns-both _ _ (send_in_loop ep ef tid result (contents s.conn.input) taken)
              (send_in_loop-Flowing ep ef tid result (contents s.conn.input) flows fits acc)
              (send_in_loop-Aside ep ef tid result (contents s.conn.input) taken)) in
        rw (ap (λ st. same_state st connected) open_, here)
          (Returns-bind _ (Closing ep ef (payload ++ contents s.conn.input))
            (send_in_loop ep ef tid result msg taken) (shutdown ep ef tid) sent
            λ t q.
              shutdown-Closing ep ef tid t q.0 (q.1.state ∙ open_)
                (ap (λ thread. thread == tid) q.1.thread ∙ here))

    -- The client's bytes come back: in the loop's own thread, on an open connection whose data is in
    -- order (`Flowing`) and whose input buffer is valid, if `write` reports no broken connection and
    -- takes at least one byte at every report of room to write, and the data stay below the largest
    -- vector, then the process does not end, and after `onMessage` and as many reports as there were
    -- bytes to send, the kernel has been handed what it had to be handed before and then exactly the
    -- input; nothing waits, and the write side is shut.
    pub on_message_delivers :
        (errno : ℕ) (counts : List ℕ)
        → AllPositive ep ef counts
        → length payload + length (contents s.conn.input) ≤ length counts
        → Returns
            (λ u.
              (u.conn.socket.wire ≡ payload ++ contents s.conn.input)
              × (contents u.conn.output ≡ [])
              × (u.conn.socket.write_shut ≡ true))
            (on_message ep ef tid result s >>= drain ep ef tid errno counts)
    on_message_delivers errno counts positive enough =
        Returns-bind (Closing ep ef (payload ++ contents s.conn.input)) _
          (on_message ep ef tid result s) (drain ep ef tid errno counts) on_message-Closing
          λ t c.
            drain-Closing ep ef tid errno counts t c positive
              (omega (arith, length-append payload (contents s.conn.input)))
