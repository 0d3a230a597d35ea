-- ===== src/TcpConnection/Closing.antt =====
-- TcpConnection.cc: `handleClose`, and `connectDestoryed` of a connection that is closed.
use head_write_muduo_epoll_c.Base.{
  ◌≡◌, refl, sym, ap, subst, none, [], ◌∷◌, ◌++◌, append_assoc, ok, lookup, nat_key,
}
use head_write_muduo_epoll_c.Kernel.{Epoll, EventFd}
use head_write_muduo_epoll_c.Channel.{new, added, deleted, set_index, without_all}
use head_write_muduo_epoll_c.Poller.Sync.{UnwatchedAs, disable_unregisters, remove_unwatched}
use head_write_muduo_epoll_c.EventLoop.{disable_all, update_channel, remove_channel}
use head_write_muduo_epoll_c.TcpConnection.{
  Session, disconnected, connected, same_state, connection_callback, close_callback, handle_close,
  connect_destroyed, remove, set_state, with_channel, note_call,
}

module _ (ep : Epoll) (ef : EventFd) where
  -- What `handleClose` leaves of a connection, and of its loop.
  pub record Closed (s t : Session ep ef) : Type 0 where
    pub state : t.conn.state ≡ disconnected
    pub index : t.conn.channel.index ≡ deleted
    pub fd : t.conn.channel.fd ≡ s.conn.channel.fd
    pub events : t.conn.channel.events ≡ 0
    pub unwatched : ep.interest t.loop.poller.epoll s.conn.channel.fd ≡ none
    pub calls : t.calls ≡ s.calls ++ connection_callback disconnected ∷ close_callback ∷ []
    pub name : t.conn.name ≡ s.conn.name
    pub thread : t.loop.thread_id ≡ s.loop.thread_id
    pub pending : t.loop.pending_functors ≡ s.loop.pending_functors

  pub handle_close-Closed :
      (s : Session ep ef)
      → s.conn.channel.index ≡ added
      → (t : Session ep ef) × (handle_close ep ef s ≡ ok t) × Closed s t
  unfolding handle_close disable_all update_channel with_channel note_call set_state without_all
      set_index
  handle_close-Closed s i =
      let c = without_all s.conn.channel in
      let (q, went, gone) = disable_unregisters ep s.loop.poller c i refl in
      (
        note_call ep ef close_callback (
            note_call ep ef (connection_callback disconnected) (
              with_channel ep ef (set_state ep ef disconnected s)
                (record s.loop { poller = q }, set_index c deleted))),
        rw went,
        record {
          state = refl;
          index = refl;
          fd = refl;
          events = refl;
          unwatched = gone;
          calls =
              append_assoc s.calls (connection_callback disconnected ∷ []) (close_callback ∷ []);
          name = refl;
          thread = refl;
          pending = refl;
        },
      )

  -- `connectDestoryed` of a closed connection goes through, and the map of channels forgets it too.
  pub destroy_closed :
      (t : Session ep ef)
      → t.conn.state ≡ disconnected
      → t.conn.channel.index ≡ deleted
      → ep.interest t.loop.poller.epoll t.conn.channel.fd ≡ none
      → (u : Session ep ef) × (connect_destroyed ep ef t ≡ ok u)
        × (u.conn.state ≡ disconnected)
        × (u.calls ≡ t.calls)
        × (ep.interest u.loop.poller.epoll t.conn.channel.fd ≡ none)
        × (lookup t.conn.channel.fd u.loop.poller.channels ≡ none)
  unfolding connect_destroyed remove remove_channel with_channel set_index
  destroy_closed t closed index unwatched =
      let d = t.conn.channel in
      let (q, left, forgotten) =
        remove_unwatched ep t.loop.poller d
          (subst (λ i. UnwatchedAs ep i t.loop.poller.epoll d) (sym index) unwatched) in
      (
        with_channel ep ef t (record t.loop { poller = q }, set_index d new),
        rw (ap (λ st. same_state st connected) closed, left),
        closed,
        refl,
        forgotten.0,
        forgotten.1,
      )
