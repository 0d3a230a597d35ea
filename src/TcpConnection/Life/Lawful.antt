-- ===== src/TcpConnection/Life/Lawful.antt =====
-- TcpConnection.cc: the invariant of the life of a connection: what the user has been told, the state
-- and the registration of the channel agree.
use head_write_muduo_epoll_c.Base.{
  ◌≤◌, ◌≡◌, ◌≢◌, ◌⊎◌, refl, sym, ◌∙◌, ap, subst, true, false, inl, inr, Option, none, some, List,
  [], ◌∷◌, ◌++◌, arith,
}
use head_write_muduo_epoll_c.Kernel.{Epoll, EventFd}
use head_write_muduo_epoll_c.TcpConnection.{
  State, disconnected, connecting, connected, disconnecting, same_state, Call, Session, note_call,
}
use head_write_muduo_epoll_c.TcpConnection.Life.{
  Phase, unreported, up, down, given_back, next_phase, phase_after, agrees, rank,
}
use head_write_muduo_epoll_c.TcpConnection.Life.Standing.{Standing, IsUp}
use head_write_muduo_epoll_c.TcpConnection.Life.Steady.{Steady}

go_on :
    (o : Option Phase) {f g : Phase → Option Phase} {q : Phase} {end : Option Phase}
    → ((r : Phase) → f r ≡ some q → g r ≡ end)
    → elim o [ none ↦ none | some r ↦ f r ] ≡ some q
    → elim o [ none ↦ none | some r ↦ g r ] ≡ end
go_on none k h = absurd (cc)
go_on (some r) k h = k r h

pub phase_after-append :
    (p : Phase) (cs ds : List Call) {q : Phase}
    → phase_after p cs ≡ some q
    → phase_after p (cs ++ ds) ≡ phase_after q ds
phase_after-append p [] ds e = ground (arith, e)
phase_after-append p (c ∷ cs) ds e = go_on (next_phase p c) (λ r h. phase_after-append r cs ds h) e

module _ (ep : Epoll) (ef : EventFd) where
  -- What the user has been told is in order and agrees with the state, and so does the channel's
  -- registration.
  pub record Lawful (p : Phase) (s : Session ep ef) : Type 0 where
    pub protocol : phase_after unreported s.calls ≡ some p
    pub agreement : agrees s.conn.state p ≡ true
    pub standing : Standing ep ef s.conn.state s.loop s.conn.channel

  -- The same after a call, and the state has not gone back.
  abbrev pub Next : Session ep ef → Session ep ef → Type 0
  Next s t = (q : Phase) × Lawful q t × (rank s.conn.state ≤ rank t.conn.state)

  pub Next-trans :
      (s t u : Session ep ef) → rank s.conn.state ≤ rank t.conn.state → Next t u → Next s u
  Next-trans s t u le (q, h, le') = (q, h, omega (arith, le, le'))

  pub Steady-Next :
      {p : Phase} {s t : Session ep ef}
      → Lawful p s
      → Steady ep ef s.conn.state s.calls t
      → Next s t
  Steady-Next {p} {s} {t} v h = (
    p,
    record {
      protocol = ap (phase_after unreported) h.told ∙ v.protocol;
      agreement = ap (λ st. agrees st p) h.in_state ∙ v.agreement;
      standing = subst (λ st. Standing ep ef st t.loop t.conn.channel) (sym h.in_state) h.standing;
    },
    subst (λ st. rank s.conn.state ≤ rank st) (sym h.in_state) (omega arith),
  )

  pub Lawful-Steady :
      {p : Phase} {s : Session ep ef} → Lawful p s → Steady ep ef s.conn.state s.calls s
  Lawful-Steady v = record { told = refl; in_state = refl; standing = v.standing }

  pub phase_of_up : (state : State) (p : Phase) → IsUp ep ef state → agrees state p ≡ true → p ≡ up
  phase_of_up connected up u h = refl
  phase_of_up disconnecting up u h = refl
  phase_of_up connected unreported u h = absurd (cc)
  phase_of_up connected down u h = absurd (cc)
  phase_of_up connected given_back u h = absurd (cc)
  phase_of_up disconnecting unreported u h = absurd (cc)
  phase_of_up disconnecting down u h = absurd (cc)
  phase_of_up disconnecting given_back u h = absurd (cc)
  phase_of_up connecting p u h = absurd u
  phase_of_up disconnected p u h = absurd u

  pub phase_of_connecting : (p : Phase) → agrees connecting p ≡ true → p ≡ unreported
  phase_of_connecting unreported h = refl
  phase_of_connecting up h = absurd (cc)
  phase_of_connecting down h = absurd (cc)
  phase_of_connecting given_back h = absurd (cc)

  pub connected-cases :
      (state : State)
      → (state ≡ connected) ⊎ ((state ≢ connected) × (same_state state connected ≡ false))
  connected-cases connected = inl refl
  connected-cases disconnected = inr (λ e. absurd (cc), refl)
  connected-cases connecting = inr (λ e. absurd (cc), refl)
  connected-cases disconnecting = inr (λ e. absurd (cc), refl)

  pub rank_most : (state : State) → rank state ≤ 3
  rank_most disconnected = omega arith
  rank_most connecting = omega arith
  rank_most connected = omega arith
  rank_most disconnecting = omega arith

  -- A call that the phase allows, in the same state.
  pub told-Next :
      {p : Phase} {s : Session ep ef} (c : Call)
      → Lawful p s
      → next_phase p c ≡ some p
      → Next s (note_call ep ef c s)
  unfolding note_call
  told-Next {p} {s} c v e = (
    p,
    record {
      protocol =
          phase_after-append unreported s.calls (c ∷ []) v.protocol
          ∙ ap (λ o. elim o [ none ↦ none | some q ↦ some q ]) e;
      agreement = v.agreement;
      standing = v.standing;
    },
    omega arith,
  )
