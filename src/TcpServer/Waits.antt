-- ===== src/TcpServer/Waits.antt =====
-- The event loops of test_epoll/lib/tcp_server.c that wait while another thread accepts.
use cpyu_ze.Base.{
  bind_ok, ℕ, arith, ◌≡◌, ◌≢◌, Bool, refl, sym, ap, ◌∙◌, false, Option, some, List, [], ◌∷◌, ◌++◌,
  take, drop, ◌==◌, zero, suc, ok, ==_iff, true, if◌then◌else◌, append-nil,
}
use native.Mathlib.Decide.{ℕ_discrete}
use cpyu_ze.Channel.{stored, Store, Channel}
use cpyu_ze.Dispatcher.{Dispatcher}
use cpyu_ze.EventLoop.{EventLoop, ChannelElement, event_loop_add_channel_event}
use cpyu_ze.EventLoop.Start.{Queued, do_channel_event-Queued}
use cpyu_ze.ThreadPool.{ThreadPool, EventLoopThread, thread_pool_get_loop}
use cpyu_ze.ThreadPool.RoundRobin.{get_loops, loops_of}
use cpyu_ze.TcpServer.{World, add_channel}

-- The loop of a thread that is not the one that accepts, at an address, between two changes.
pub record Waits {D : Type 0} (self loop : ℕ) (w : World D) : Type 0 where
  pub event_loop : EventLoop D
  pub there : w.loops loop ≡ some event_loop
  pub idle : event_loop.is_handle_pending ≡ false
  pub elsewhere : event_loop.owner_thread_id ≢ self

-- Each of these is the address of such a loop.
unfoldable pub AllWait : {D : Type 0} → ℕ → World D → List (Option ℕ) → Type 0
AllWait self w [] = Unit {0}
AllWait self w (o ∷ os) = ((loop : ℕ) × (o ≡ some loop) × Waits self loop w) × AllWait self w os

-- The thread that accepts runs the main loop.
pub record RunsMain {D : Type 0} (self : ℕ) (pool : ThreadPool) (w : World D) : Type 0 where
  pub event_loop : EventLoop D
  pub there : w.loops pool.main_loop ≡ some event_loop
  pub here : event_loop.owner_thread_id ≡ self

pub get_loops_uncons :
    (self n : ℕ) (pool pool' : ThreadPool) (loops : List (Option ℕ))
    → get_loops self self (suc n) pool ≡ ok (loops, pool')
    → (chosen : Option ℕ) × (pool1 : ThreadPool) × (later : List (Option ℕ)) × (thread_pool_get_loop
          self self pool
        ≡ ok (chosen, pool1))
      × (get_loops self self n pool1 ≡ ok (later, pool'))
      × (loops ≡ chosen ∷ later)
unfolding get_loops
get_loops_uncons self n pool pool' loops got =
    let ((chosen, pool1), first, got1) =
      bind_ok (thread_pool_get_loop self self pool) _ (loops, pool') got in
    let ((later, pool2), second, got2) =
      bind_ok (get_loops self self n pool1) _ (loops, pool') got1 in
    let ends : pool2 ≡ pool' = cc got2 in
    (chosen, pool1, later, first, second ∙ ap (λ p. ok (later, p)) ends, cc got2)

-- A thread's loop is not the main one, so that a change to it leaves the main loop alone.
pub apart :
    {D : Type 0} (self loop : ℕ) (pool : ThreadPool) (w : World D)
    → RunsMain self pool w
    → Waits self loop w
    → (pool.main_loop == loop) ≡ false
apart self loop pool w main waits = elim (ℕ_discrete pool.main_loop loop) [
  | yes same ↦ absurd (
      waits.elsewhere (
        let one : some waits.event_loop ≡ some main.event_loop =
          sym waits.there ∙ ap w.loops (sym same) ∙ main.there in
        cc (one, main.here)))
  | no differ ↦ ground arith
]

pub AllWait-map :
    {D : Type 0} (self : ℕ) (w w' : World D) (os : List (Option ℕ))
    → ((i : ℕ) → Waits self i w → Waits self i w')
    → AllWait self w os
    → AllWait self w' os
unfolding AllWait
AllWait-map self w w' [] keeps all = tt
AllWait-map self w w' (o ∷ os) keeps ((loop, is, waits), all) =
    ((loop, is, keeps loop waits), AllWait-map self w w' os keeps all)

pub AllWait-append :
    {D : Type 0} (self : ℕ) (w : World D) (os ps : List (Option ℕ))
    → AllWait self w os
    → AllWait self w ps
    → AllWait self w (os ++ ps)
unfolding AllWait
AllWait-append self w [] ps all more = more
AllWait-append self w (o ∷ os) ps (this, all) more = (this, AllWait-append self w os ps all more)

pub AllWait-drop :
    {D : Type 0} (self n : ℕ) (w : World D) (ts : List EventLoopThread)
    → AllWait self w (loops_of ts)
    → AllWait self w (loops_of (drop n ts))
unfolding AllWait
AllWait-drop self zero w ts all = all
AllWait-drop self (suc n) w [] all = tt
AllWait-drop self (suc n) w (t ∷ ts) (this, all) = AllWait-drop self n w ts all

pub AllWait-take :
    {D : Type 0} (self n : ℕ) (w : World D) (ts : List EventLoopThread)
    → AllWait self w (loops_of ts)
    → AllWait self w (loops_of (take n ts))
unfolding AllWait
AllWait-take self zero w ts all = tt
AllWait-take self (suc n) w [] all = tt
AllWait-take self (suc n) w (t ∷ ts) (this, all) = (this, AllWait-take self n w ts all)

-- One addition of the channel at an address, or none.
abbrev pub addition_if : Bool → ℕ → List ChannelElement
addition_if asked p = if asked then record { type = 1; channel = p } ∷ [] else []

module _ {D : Type 0} (ops : Dispatcher D) (can_alloc : ℕ → Bool) (self : ℕ) where
  -- A connection is put into the queue of the loop that it is given to; the other loops wait as before. Its
  -- channel is in memory, and no loop's queue changes otherwise.
  pub record Added (sent : Bool) (loop p : ℕ) (c : Channel) (w w' : World D) : Type 0 where
    pub done : add_channel ops can_alloc self sent loop p c w ≡ ok w'
    pub waits : (i : ℕ) → Waits self i w → Waits self i w'
    pub others : (i : ℕ) → (i == loop) ≡ false → w'.loops i ≡ w.loops i
    pub written : w'.channels ≡ stored w.channels p c
    pub queued :
        (i : ℕ) (l : EventLoop D)
        → w.loops i ≡ some l
        → (l' : EventLoop D) × (w'.loops i ≡ some l')
          × (l'.pending ≡ l.pending ++ addition_if (i == loop) p)

  Waits-stored :
      (loop i : ℕ) (w : World D) (channels : Store) (l l' : EventLoop D) (e : ChannelElement)
      (sent : Bool)
      → w.loops loop ≡ some l
      → Queued l e sent l'
      → l.is_handle_pending ≡ false
      → l.owner_thread_id ≢ self
      → Waits self i w
      → Waits self i (record { loops = stored w.loops loop l'; channels = channels })
  Waits-stored loop i w channels l l' e sent there q idle elsewhere old = elim (ℕ_discrete i loop) [
    | yes same ↦ record {
      event_loop = l';
      there = rw ((==_iff i loop).1 same) refl;
      idle = q.flag_same ∙ idle;
      elsewhere = λ own. elsewhere (sym q.owner_same ∙ own);
    }
    | no differ ↦
        (let other : (i == loop) ≡ false = ground arith in
          record {
            event_loop = old.event_loop;
            there = rw other old.there;
            idle = old.idle;
            elsewhere = old.elsewhere;
          })
  ]

  stored-Queued :
      (loop p i : ℕ) (w : World D) (channels : Store) (l l' m : EventLoop D) (sent : Bool)
      → w.loops loop ≡ some l
      → Queued l (record { type = 1; channel = p }) sent l'
      → w.loops i ≡ some m
      → (m' : EventLoop D) × (stored w.loops loop l' i ≡ some m')
        × (m'.pending ≡ m.pending ++ addition_if (i == loop) p)
  stored-Queued loop p i w channels l l' m sent there q at = elim (ℕ_discrete i loop) [
    | yes same ↦
        (let yes_same : (i == loop) ≡ true = (==_iff i loop).1 same in
          let one : l ≡ m =
            let both : some l ≡ some m = sym there ∙ ap w.loops (sym same) ∙ at in cc both in
          (
            l',
            rw yes_same refl,
            rw yes_same (
                q.at_end
                ∙ ap (λ (x : EventLoop D). x.pending ++ record { type = 1; channel = p } ∷ []) one),
          ))
    | no differ ↦
        (let other : (i == loop) ≡ false = ground arith in
          (m, rw other at, rw other (sym (append-nil m.pending))))
  ]

  pub add_channel-Added :
      (sent : Bool) (loop p : ℕ) (c : Channel) (w : World D)
      → Waits self loop w
      → (w' : World D) × Added sent loop p c w w'
  unfolding add_channel event_loop_add_channel_event
  add_channel-Added sent loop p c w waits =
      let channels : Store = stored w.channels p c in
      let (l', queued, q) =
        do_channel_event-Queued ops can_alloc channels self sent waits.event_loop p 1 waits.idle
          waits.elsewhere in
      (
        record { loops = stored w.loops loop l'; channels = channels },
        record {
          done = rw (waits.there, queued);
          waits = λ i.
              Waits-stored loop i w channels waits.event_loop l' _ sent waits.there q waits.idle
                waits.elsewhere;
          others = λ i differ. rw differ refl;
          written = refl;
          queued = λ i l at.
              stored-Queued loop p i w channels waits.event_loop l' l sent waits.there q at;
        },
      )
