-- ===== src/Examples/Queue.antt =====
-- src/playback.rs at concrete inputs.
use hifi_api_rust.Base.{
  ℕ, ◌+◌, ◌≤◌, ◌≡◌, refl, List, [], ◌∷◌, none, String, arith, text_eq, false, max,
}
use hifi_api_rust.Base.Dict.{get, insert, remove, modify, retain, map_values}
use hifi_api_rust.Playback.Slots.{capacity, over_capacity, try_acquire, release}
use hifi_api_rust.Playback.Ops.{TrackTiming, track, record_timing}
use hifi_api_rust.Playback.Job.{
  json, prune_sync, expire, is_kept, count_state, pending_position, pending_jobs, sort_by_age,
  insert_by_age, position_of, touch, cancel, clear,
}
use hifi_api_rust.Playback.Queue.{init, prune, dispatch, enqueue, spawn_worker, disconnect, pool_of}
use hifi_api_rust.Playback.Worker.{
  done, finish_direct, worker_check, worker_acquire, worker_begin, worker_end, settle,
}
use hifi_api_rust.Playback.Handlers.{poll, poll_reply, accepted, finished}
use hifi_api_rust.Playback.Events.{Event, arrives, direct_ends, works, disconnects, work, step, run}
use hifi_api_rust.Playback.Permits.{holding, run-permits}
use hifi_api_rust.Playback.Bound.{run-bound}
use hifi_api_rust.Playback.Lifecycle.{Coherent}
use hifi_api_rust.Playback.Lifecycle.Runs.{run-Coherent}

-- What a run of the queue computes with.
program : Unit {0}
unfolding get insert remove modify retain map_values capacity over_capacity try_acquire release
    record_timing prune_sync expire is_kept count_state pending_position pending_jobs sort_by_age
    insert_by_age position_of touch cancel clear init prune dispatch enqueue spawn_worker disconnect
    pool_of finish_direct worker_check worker_acquire worker_begin worker_end settle poll poll_reply
    work step run text_eq holding
program = tt

abbrev no_text : ℕ → ℕ → String
no_text n m = "Playback queue full"

abbrev t : TrackTiming
t = record { wait_ms = 5; total_ms = 40 }

abbrev arrival : ℕ → String → Event ℕ
arrival now id = arrives now none 1 1 id (track 5 "LOSSLESS" false) none

-- One account: the first request runs, the second is queued, runs when the first ends, and is done.
abbrev two_requests : List (Event ℕ)
two_requests =
    arrival 100 "a"
    ∷ arrival 100 "b"
    ∷ works "b" 1 100 t (done (json 7)) []
    ∷ works "b" 1 100 t (done (json 7)) []
    ∷ works "b" 1 100 t (done (json 7)) []
    ∷ direct_ends (track 5 "LOSSLESS" false) none t (done (json 6))
    ∷ works "b" 1 101 t (done (json 7)) []
    ∷ works "b" 1 101 t (done (json 7)) []
    ∷ works "b" 1 101 t (done (json 7)) []
    ∷ []

abbrev finished_run : List (Event ℕ)
finished_run = works "b" 1 102 t (done (json 7)) [] ∷ []

queued_request_is_polled :
    poll_reply 0 "b" (poll 101 "b" (run no_text (arrival 100 "a" ∷ arrival 100 "b" ∷ []) init))
    ≡ accepted 1
unfolding program
queued_request_is_polled = refl

-- A client that is gone before its worker runs leaves a job that waits although a permit is free.
abbrev abandoned : List (Event ℕ)
abandoned =
    arrival 100 "a"
    ∷ arrival 100 "b"
    ∷ disconnects "b"
    ∷ direct_ends (track 5 "LOSSLESS" false) none t (done (json 6))
    ∷ works "b" 1 101 t (done (json 7)) []
    ∷ []

abandoned_job_waits : poll_reply 0 "b" (poll 101 "b" (run no_text abandoned init)) ≡ accepted 1
unfolding program
abandoned_job_waits = refl

queued_request_finishes :
    poll_reply 0 "b" (run no_text finished_run (run no_text two_requests init)) ≡ finished (json 7)
unfolding program
queued_request_finishes = refl

run-permits_example :
    (run no_text two_requests init).inflight
    ≡ (run no_text two_requests init).direct + holding (run no_text two_requests init).workers
unfolding program
run-permits_example =
    run-permits no_text two_requests (refl, (refl, (tt, (tt, (tt, (tt, (tt, (tt, (tt, tt)))))))))

run-bound_example : (run no_text two_requests init).inflight ≤ max 1 1
unfolding program
run-bound_example = run-bound no_text 1 two_requests init (omega arith) (omega arith)

run-Coherent_example : Coherent (run no_text two_requests init)
run-Coherent_example = run-Coherent no_text two_requests
