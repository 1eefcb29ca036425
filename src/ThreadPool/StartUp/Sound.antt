-- ===== src/ThreadPool/StartUp/Sound.antt =====
-- Where the two threads of event_loop_thread_start of test_epoll/lib/event_loop_thread.c may stand.
use cpyu_ze.Base.{ℕ, ◌+◌, ◌≤◌, ◌≡◌, refl, Bool, true, false, Option, none, some, arith}
use cpyu_ze.ThreadPool.StartUp.{
  Starter, creating, start_locking, testing, waiting, returned, Runner, not_created, run_locking,
  initialising, signalling, unlocking, looping, StartUp, signalled, Advance, create, lock_run,
  init_with_name, signal, unlock_run, lock_start, wait, unlock_start, advance, spurious, Reach,
  begin, later,
}

abbrev pub one_if : Bool → ℕ
one_if true = 1
one_if false = 0

one_if-le : (b : Bool) → one_if b ≤ 1
one_if-le true = omega arith
one_if-le false = omega arith

-- Does the thread hold the mutex?
abbrev pub start_holds : Starter → ℕ
start_holds creating = 0
start_holds start_locking = 0
start_holds testing = 1
start_holds waiting = 0
start_holds (returned p) = 0

abbrev pub run_holds : Runner → ℕ
run_holds not_created = 0
run_holds run_locking = 0
run_holds initialising = 1
run_holds signalling = 1
run_holds unlocking = 1
run_holds looping = 0

-- The loop, by how far the new thread is.
abbrev pub loop_at : ℕ → Runner → Option ℕ
loop_at made not_created = none
loop_at made run_locking = none
loop_at made initialising = none
loop_at made signalling = some made
loop_at made unlocking = some made
loop_at made looping = some made

-- The starter is where it may be: it creates the thread first, does not wait once the signal was given,
-- and returns the loop.
abbrev pub Fits : ℕ → Starter → Runner → Type 0
Fits made creating r = r ≡ not_created
Fits made start_locking not_created = ⊥
Fits made start_locking run_locking = Unit {0}
Fits made start_locking initialising = Unit {0}
Fits made start_locking signalling = Unit {0}
Fits made start_locking unlocking = Unit {0}
Fits made start_locking looping = Unit {0}
Fits made testing not_created = ⊥
Fits made testing run_locking = Unit {0}
Fits made testing initialising = ⊥
Fits made testing signalling = ⊥
Fits made testing unlocking = ⊥
Fits made testing looping = Unit {0}
Fits made waiting not_created = ⊥
Fits made waiting run_locking = Unit {0}
Fits made waiting initialising = Unit {0}
Fits made waiting signalling = Unit {0}
Fits made waiting unlocking = ⊥
Fits made waiting looping = ⊥
Fits made (returned p) r = (p ≡ made) × (r ≡ looping)

pub record IsStarting (made : ℕ) (s : StartUp) : Type 0 where
  pub held : one_if s.locked ≡ start_holds s.starter + run_holds s.runner
  pub loop_is : s.event_loop ≡ loop_at made s.runner
  pub fits : Fits made s.starter s.runner

Fits-locked :
    (made : ℕ) (a : Starter)
    → start_holds a ≡ 0
    → Fits made a run_locking
    → Fits made a initialising
Fits-locked made creating free fits = absurd (cc fits)
Fits-locked made start_locking free fits = tt
Fits-locked made testing free fits = absurd (omega (arith, free))
Fits-locked made waiting free fits = tt
Fits-locked made (returned p) free fits = absurd (cc fits.1)

Fits-made : (made : ℕ) (a : Starter) → Fits made a initialising → Fits made a signalling
Fits-made made creating fits = absurd (cc fits)
Fits-made made start_locking fits = tt
Fits-made made testing fits = fits
Fits-made made waiting fits = tt
Fits-made made (returned p) fits = absurd (cc fits.1)

Fits-signalled :
    (made : ℕ) (a : Starter) → Fits made a signalling → Fits made (signalled a) unlocking
Fits-signalled made creating fits = absurd (cc fits)
Fits-signalled made start_locking fits = tt
Fits-signalled made testing fits = fits
Fits-signalled made waiting fits = tt
Fits-signalled made (returned p) fits = absurd (cc fits.1)

Fits-unlocked : (made : ℕ) (a : Starter) → Fits made a unlocking → Fits made a looping
Fits-unlocked made creating fits = absurd (cc fits)
Fits-unlocked made start_locking fits = tt
Fits-unlocked made testing fits = tt
Fits-unlocked made waiting fits = fits
Fits-unlocked made (returned p) fits = absurd (cc fits.1)

signalled_holds : (a : Starter) → start_holds (signalled a) ≡ start_holds a
signalled_holds creating = refl
signalled_holds start_locking = refl
signalled_holds testing = refl
signalled_holds waiting = refl
signalled_holds (returned p) = refl

Fits-testing :
    (made : ℕ) (r : Runner) → run_holds r ≡ 0 → Fits made start_locking r → Fits made testing r
Fits-testing made not_created free fits = fits
Fits-testing made run_locking free fits = tt
Fits-testing made initialising free fits = absurd (omega (arith, free))
Fits-testing made signalling free fits = absurd (omega (arith, free))
Fits-testing made unlocking free fits = absurd (omega (arith, free))
Fits-testing made looping free fits = tt

Fits-waiting :
    (made : ℕ) (r : Runner) → none ≡ loop_at made r → Fits made testing r → Fits made waiting r
Fits-waiting made not_created unmade fits = fits
Fits-waiting made run_locking unmade fits = tt
Fits-waiting made initialising unmade fits = absurd fits
Fits-waiting made signalling unmade fits = absurd fits
Fits-waiting made unlocking unmade fits = absurd fits
Fits-waiting made looping unmade fits = absurd (cc unmade)

Fits-returned :
    (made p : ℕ) (r : Runner)
    → some p ≡ loop_at made r
    → Fits made testing r
    → (p ≡ made) × (r ≡ looping)
Fits-returned made p not_created is fits = absurd fits
Fits-returned made p run_locking is fits = absurd (cc is)
Fits-returned made p initialising is fits = absurd fits
Fits-returned made p signalling is fits = absurd fits
Fits-returned made p unlocking is fits = absurd fits
Fits-returned made p looping is fits = (cc is, refl)

Fits-again : (made : ℕ) (r : Runner) → Fits made waiting r → Fits made start_locking r
Fits-again made not_created fits = fits
Fits-again made run_locking fits = tt
Fits-again made initialising fits = tt
Fits-again made signalling fits = tt
Fits-again made unlocking fits = tt
Fits-again made looping fits = tt

Advance-IsStarting :
    {made : ℕ} {s t : StartUp} → Advance made s t → IsStarting made s → IsStarting made t
Advance-IsStarting create v = record { held = v.held; loop_is = v.loop_is; fits = tt }
Advance-IsStarting {made} (lock_run {l} {a}) v = record {
  held = omega (arith, v.held);
  loop_is = v.loop_is;
  fits = Fits-locked made a (omega (arith, v.held)) v.fits;
}
Advance-IsStarting {made} (init_with_name {m} {l} {a}) v = record {
  held = v.held;
  loop_is = refl;
  fits = Fits-made made a v.fits;
}
Advance-IsStarting {made} (signal {m} {l} {a}) v = record {
  held = omega (arith, v.held, signalled_holds a);
  loop_is = v.loop_is;
  fits = Fits-signalled made a v.fits;
}
Advance-IsStarting {made} (unlock_run {m} {l} {a}) v = record {
  held = omega (arith, v.held, one_if-le m);
  loop_is = v.loop_is;
  fits = Fits-unlocked made a v.fits;
}
Advance-IsStarting {made} (lock_start {l} {r}) v = record {
  held = omega (arith, v.held);
  loop_is = v.loop_is;
  fits = Fits-testing made r (omega (arith, v.held)) v.fits;
}
Advance-IsStarting {made} (wait {m} {r}) v = record {
  held = omega (arith, v.held, one_if-le m);
  loop_is = v.loop_is;
  fits = Fits-waiting made r v.loop_is v.fits;
}
Advance-IsStarting {made} (unlock_start {m} {p} {r}) v = record {
  held = omega (arith, v.held, one_if-le m);
  loop_is = v.loop_is;
  fits = Fits-returned made p r v.loop_is v.fits;
}

-- Whatever the order of the steps, the mutex is held by at most one of the two threads.
pub Reach-IsStarting : {made : ℕ} {s : StartUp} → Reach made s → IsStarting made s
Reach-IsStarting begin = record { held = refl; loop_is = refl; fits = refl }
Reach-IsStarting (later r (advance st)) = Advance-IsStarting st (Reach-IsStarting r)
Reach-IsStarting {made} (later reached (spurious {m} {l} {r})) =
    let v = Reach-IsStarting reached in
    record { held = v.held; loop_is = v.loop_is; fits = Fits-again made r v.fits }
