-- ===== src/Poller/Updates.antt =====
-- EPollPoller.cc: what one call of `epoll_ctl` in `update` does, and when it ends the process.
use head_write_muduo_epoll_c.Base.{
  ℕ, ◌≡◌, ◌≢◌, refl, Option, none, some, ok, Returns, OkUnless, nat_key, arith,
}
use head_write_muduo_epoll_c.Kernel.{Epoll, CtlOp, ctl_add, ctl_mod, ctl_del}
use head_write_muduo_epoll_c.Channel.{Channel}
use head_write_muduo_epoll_c.Poller.{Poller, after_ctl, update}

module _ (ep : Epoll) where
  -- What one call of `update` does to the interest list, if the process goes on.
  abbrev pub entry_after : CtlOp → Channel → Option (ℕ × ℕ)
  entry_after ctl_add c = some (c.events, c.address)
  entry_after ctl_mod c = some (c.events, c.address)
  entry_after ctl_del c = none

  abbrev pub Updated : CtlOp → Poller ep → Channel → Poller ep → Type 0
  Updated op p c q =
      (ep.interest q.epoll c.fd ≡ entry_after op c)
      × (q.channels ≡ p.channels)
      × ((j : ℕ) → j ≢ c.fd → ep.interest q.epoll j ≡ ep.interest p.epoll j)

  -- What `epoll_ctl` answers when the process ends.
  abbrev pub Failed : CtlOp → Poller ep → Channel → Type 0
  Failed op p c = ep.ctl p.epoll op c.fd c.events c.address ≡ none

  after_ctl-Updated :
      (op : CtlOp) (p : Poller ep) (c : Channel) (o : Option ep.State)
      → ep.ctl p.epoll op c.fd c.events c.address ≡ o
      → OkUnless (Failed op p c) (Updated op p c) (after_ctl ep p op o)
  unfolding after_ctl
  after_ctl-Updated ctl_add p c (some t) e =
      let laws = ep.add_interest p.epoll c.fd c.events c.address e in
      (ground (arith, laws c.fd), refl, λ j ne. ground (arith, laws j))
  after_ctl-Updated ctl_mod p c (some t) e =
      let laws = ep.mod_interest p.epoll c.fd c.events c.address e in
      (ground (arith, laws c.fd), refl, λ j ne. ground (arith, laws j))
  after_ctl-Updated ctl_del p c (some t) e =
      let laws = ep.del_interest p.epoll c.fd c.events c.address e in
      (ground (arith, laws c.fd), refl, λ j ne. ground (arith, laws j))
  after_ctl-Updated ctl_add p c none e = e
  after_ctl-Updated ctl_mod p c none e = e
  after_ctl-Updated ctl_del p c none e =
      (ep.del_fails p.epoll c.fd c.events c.address e, refl, λ j ne. refl)

  pub update-Updated :
      (op : CtlOp) (p : Poller ep) (c : Channel)
      → OkUnless (Failed op p c) (Updated op p c) (update ep p op c)
  unfolding update
  update-Updated op p c = after_ctl-Updated op p c _ refl

  -- A modification of a registered descriptor never ends the process.
  after_ctl-mod :
      (p : Poller ep) (c : Channel) (o : Option ep.State)
      → ep.ctl p.epoll ctl_mod c.fd c.events c.address ≡ o
      → ep.interest p.epoll c.fd ≢ none
      → Returns (Updated ctl_mod p c) (after_ctl ep p ctl_mod o)
  unfolding after_ctl
  after_ctl-mod p c none e listed = absurd (listed (ep.mod_fails p.epoll c.fd c.events c.address e))
  after_ctl-mod p c (some t) e listed = after_ctl-Updated ctl_mod p c (some t) e

  pub update-mod :
      (p : Poller ep) (c : Channel)
      → ep.interest p.epoll c.fd ≢ none
      → Returns (Updated ctl_mod p c) (update ep p ctl_mod c)
  unfolding update
  update-mod p c listed = after_ctl-mod p c _ refl listed

  after_ctl-deletes :
      (p : Poller ep) (c : Channel) (o : Option ep.State)
      → ep.ctl p.epoll ctl_del c.fd c.events c.address ≡ o
      → Returns (Updated ctl_del p c) (after_ctl ep p ctl_del o)
  unfolding after_ctl
  after_ctl-deletes p c none e = after_ctl-Updated ctl_del p c none e
  after_ctl-deletes p c (some t) e = after_ctl-Updated ctl_del p c (some t) e

  pub update-deletes :
      (p : Poller ep) (c : Channel) → Returns (Updated ctl_del p c) (update ep p ctl_del c)
  unfolding update
  update-deletes p c = after_ctl-deletes p c _ refl

  -- A deletion never ends the process.
  after_ctl-del :
      (p : Poller ep) (c : Channel) (o : Option ep.State)
      → ep.ctl p.epoll ctl_del c.fd c.events c.address ≡ o
      → (q : Poller ep) × (after_ctl ep p ctl_del o ≡ ok q) × Updated ctl_del p c q
  unfolding after_ctl
  after_ctl-del p c none e = (p, refl, after_ctl-Updated ctl_del p c none e)
  after_ctl-del p c (some t) e =
      (record p { epoll = t }, refl, after_ctl-Updated ctl_del p c (some t) e)

  pub update-del :
      (p : Poller ep) (c : Channel)
      → (q : Poller ep) × (update ep p ctl_del c ≡ ok q) × Updated ctl_del p c q
  unfolding update
  update-del p c = after_ctl-del p c _ refl
