-- ===== src/Tests/Threads.antt =====
-- Runs of test_epoll/lib/event_loop_thread.c and of the classes of for_cpp_basis/include.
use cpyu_ze.Base.{ℕ, ◌≤◌, ◌≡◌, ◌≢◌, refl, true, false, none, some, [], ◌∷◌, pos}
use cpyu_ze.ThreadPool.StartUp.{
  StartUp, thread_state, creating, not_created, returned, looping, Advance, create, lock_run,
  init_with_name, signal, unlock_run, lock_start, wait, unlock_start, Advances, none_more, one_more,
}
use cpyu_ze.ThreadPool.StartUp.Returns.{start_returns}
use cpyu_ze.BlockingQueue.{BlockingQueue, push_alone, calls_get, gets, waits, push_wakes}
use cpyu_ze.BlockingQueue.Order.{IsServed, Reach-IsServed}
use cpyu_ze.CustomerData.{
  CustomerData, EntryList, customer_data, get_data, update, query, lookup, find_entry, holds,
  begins, updates,
}
use cpyu_ze.CustomerData.Snapshots.{snapshot_kept, query-update}

-- The starter waits before the new thread comes to the mutex.
started_after :
    Advances 42 9
      (thread_state false none creating not_created)
      (thread_state false (some 42) (returned 42) looping)
started_after = one_more create (
    one_more lock_start (
      one_more wait (
        one_more lock_run (
          one_more init_with_name (
            one_more signal
              (one_more unlock_run (one_more lock_start (one_more unlock_start none_more))))))))

start_returns_example :
    (9 ≤ 13)
    × (((u : StartUp) → Advance 42 (thread_state false (some 42) (returned 42) looping) u → ⊥)
        → (returned 42 ≡ returned 42) × (let made : ℕ = 42 in some made ≡ some made))
start_returns_example = start_returns cpyu_ze.ThreadPool.StartUp.begin started_after

-- One thread waits, one gets an element past it, and another element wakes it.
abbrev served : BlockingQueue
served = record { queue = 8 ∷ []; awake = 1; asleep = 0; pushed = 7 ∷ 8 ∷ []; got = 7 ∷ [] }

served-Reach : cpyu_ze.BlockingQueue.Reach served
served-Reach =
    cpyu_ze.BlockingQueue.later
      (cpyu_ze.BlockingQueue.later
        (cpyu_ze.BlockingQueue.later
          (cpyu_ze.BlockingQueue.later
            (cpyu_ze.BlockingQueue.later
              (cpyu_ze.BlockingQueue.later cpyu_ze.BlockingQueue.begin (push_alone 7 refl))
              calls_get)
            (gets refl refl))
          calls_get)
        (waits refl refl))
      (push_wakes 8 refl)

Reach-IsServed_example : IsServed served
Reach-IsServed_example = Reach-IsServed served-Reach

-- Customer 3 has stock 5; one query runs.
abbrev stocks : EntryList
stocks = (5, pos 10) ∷ []

abbrev queried : CustomerData
queried = get_data (update 3 stocks customer_data)

queried-Reach : cpyu_ze.CustomerData.Reach queried
queried-Reach =
    cpyu_ze.CustomerData.later
      (cpyu_ze.CustomerData.later cpyu_ze.CustomerData.begin (updates 3 stocks)) begins

made_first : holds 0 queried.readers ≡ true
unfolding update
made_first = refl

snapshot_kept_example : lookup ((update 3 [] queried).maps 0) 3 5 ≡ lookup (queried.maps 0) 3 5
snapshot_kept_example = snapshot_kept 0 3 5 queried-Reach (updates 3 []) made_first

query-update_example :
    (query (update 3 [] queried) 3 5 ≡ find_entry [] 5)
    × ((c : ℕ) → c ≢ 3 → query (update 3 [] queried) c 5 ≡ query queried c 5)
    × (lookup ((update 3 [] queried).maps queried.data_at) 3 5 ≡ query queried 3 5)
unfolding update
query-update_example = query-update 3 5 [] queried-Reach made_first
