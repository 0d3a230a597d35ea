-- ===== src/Tests/Channels.antt =====
-- The theorems on channels and on the poller, at one channel that is registered with epoll.
use head_write_muduo_epoll_c.Base.{
  ℕ, ◌≡◌, ◌↔◌, refl, true, false, [], ◌∷◌, arith, nat_key, ok, OkUnless,
}
use head_write_muduo_epoll_c.Channel.{
  Channel, added, new, new_channel, close_callback, error_callback, read_callback, write_callback,
  handle_event, is_reading, is_writing, with_reading, with_writing, without_reading,
  without_writing, set_index,
}
use head_write_muduo_epoll_c.Channel.Masks.{masks_independent}
use head_write_muduo_epoll_c.Channel.Dispatch.{runs, handle_event-runs}
use head_write_muduo_epoll_c.Poller.{
  Poller, Store, poll, happened, wait_failed, eintr, update_channel, remove_channel,
}
use head_write_muduo_epoll_c.Poller.Sync.{
  IsRegistered, Refused, Synced, Removed, update_channel-Synced, remove_channel-Removed,
}
use head_write_muduo_epoll_c.Poller.Wait.{reported, poll_hands_over}
use head_write_muduo_epoll_c.Tests.{table_epoll}

-- A hang-up with urgent data, on a connection's channel.
abbrev hung_up : Channel
hung_up = record {
  address = 100;
  fd = 5;
  events = 7;
  revents = 18;
  index = added;
  tied = true;
  has_read = true;
  has_write = true;
  has_close = true;
  has_error = true;
}

handle_event-runs_example :
    (runs close_callback (handle_event hung_up true) ≡ true)
    × (runs error_callback (handle_event hung_up true) ≡ false)
    × (runs read_callback (handle_event hung_up true) ≡ true)
    × (runs write_callback (handle_event hung_up true) ≡ false)
handle_event-runs_example = handle_event-runs hung_up true (omega arith)

masks_independent_example :
    ((is_reading (with_reading hung_up) ≡ true)
      × (is_writing (with_reading hung_up) ≡ is_writing hung_up))
    × ((is_writing (with_writing hung_up) ≡ true)
        × (is_reading (with_writing hung_up) ≡ is_reading hung_up))
    × ((is_reading (without_reading hung_up) ≡ false)
        × (is_writing (without_reading hung_up) ≡ is_writing hung_up))
    × ((is_writing (without_writing hung_up) ≡ false)
        × (is_reading (without_writing hung_up) ≡ is_reading hung_up))
masks_independent_example = masks_independent hung_up (omega arith)

-- Registered for reading, while the channel now asks for both.
abbrev poller_two : Poller table_epoll
poller_two = record {
  epoll = (5, (3, 100)) ∷ (6, (3, 200)) ∷ [];
  channels = (5, 100) ∷ (6, 200) ∷ [];
  events_size = 16;
}

hung_up-IsRegistered : IsRegistered table_epoll poller_two hung_up
hung_up-IsRegistered = (3, refl, refl)

update_channel-Synced_example :
    OkUnless
      (Refused table_epoll poller_two hung_up)
      (Synced table_epoll poller_two hung_up)
      (update_channel table_epoll poller_two hung_up)
update_channel-Synced_example =
    update_channel-Synced table_epoll poller_two hung_up hung_up-IsRegistered

remove_channel-Removed_example :
    (q : Poller table_epoll) × (remove_channel table_epoll poller_two hung_up
      ≡ ok (q, set_index hung_up new))
    × Removed table_epoll poller_two hung_up q
remove_channel-Removed_example =
    remove_channel-Removed table_epoll poller_two hung_up hung_up-IsRegistered

abbrev fresh_channels : Store
fresh_channels a = new_channel a 0

abbrev one_slot : Poller table_epoll
one_slot = record poller_two { events_size = 1 }

poll_hands_over_example :
    let (q, store', active', logged) =
      poll table_epoll one_slot (happened ((100, 1) ∷ [])) fresh_channels (200 ∷ []) in
    (active' ≡ 200 ∷ 100 ∷ [])
    × ((a : ℕ) → (store' a).revents ≡ reported a ((100, 1) ∷ []) (fresh_channels a).revents)
    × ((logged ≡ true) ↔ (happened ((100, 1) ∷ []) ≡ wait_failed eintr))
poll_hands_over_example =
    poll_hands_over table_epoll one_slot (happened ((100, 1) ∷ [])) fresh_channels (200 ∷ [])
