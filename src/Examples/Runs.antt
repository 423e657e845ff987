-- ===== src/Examples/Runs.antt =====
-- A short session, one that cannot start, and a short life of the master process.
use haa_s_libssh.Common.{
  inr, tabulate, length-tabulate, Bool, leb, ℕ, ◌+◌, ◌≤◌, ◌≡◌, refl, true, false, none, some, [],
  ◌∷◌, arith,
}
use haa_s_libssh.Common.Int.{pos, int32, ◌+ℤ◌, ◌-ℤ◌, ◌*ℤ◌}
use haa_s_libssh.Config.{Bytes, codes, forward_mode_echo}
use haa_s_libssh.World.{Call, World}
use haa_s_libssh.World.Ends.{Ends}
use haa_s_libssh.Proxy.Auth.{trap_auth_pubkey}
use haa_s_libssh.Proxy.Events.{Event, handle}
use haa_s_libssh.Proxy.Events.Sound.{IsSound}
use haa_s_libssh.Proxy.Session.{start_context}
use haa_s_libssh.Proxy.Session.Runs.{Run, done, next_event, start_world, start_context-handle}
use haa_s_libssh.Proxy.Process.{Arrivals, proxy_process}
use haa_s_libssh.Proxy.Process.Expiry.TimesOut.{proxy_process_times_out}
use haa_s_libssh.Proxy.Timers.Exact.{micros}
use haa_s_libssh.Proxy.Process.Ending.{AllReleased}
use haa_s_libssh.Proxy.Setup.{whole_process, elapsed, key_dir}
use haa_s_libssh.Proxy.Setup.Overlong.{whole_process-none}
use haa_s_libssh.Proxy.Setup.Whole.{whole_process-AllReleased}
use haa_s_libssh.Master.{
  Master, Point, Answer, advance, sig_handler, Steps, none_yet, after, goes_on, child_ends, signal,
  start_master,
}
use haa_s_libssh.Master.Count.{uncounted, carried, Steps-limit}
use haa_s_libssh.Examples.{env, config}
use haa_s_libssh.Examples.Requests.{mail, memory}

abbrev first : World
first =
    start_world (start_context (codes "10.0.0.1") 54321 (config forward_mode_echo) (some 3) true) 0
      0 []

abbrev second : World
second = record first {
  ctx = record first.ctx { idle_timer = record { tv_sec = 1600; tv_usec = 500 } };
  tick = 1;
  trace = Call.gettimeofday ∷ [];
}

one_event : Run env first second
unfolding handle trap_auth_pubkey start_context
one_event = next_event Event.auth_pubkey tt refl done

start_context-handle_example :
    Ends (handle env (Event.on_trap_message (some mail)) second) (λ _ w'. IsSound w')
start_context-handle_example =
    start_context-handle env (codes "10.0.0.1") 54321 (config forward_mode_echo) (some 3) 0 0 []
      second (Event.on_trap_message (some mail)) memory one_event tt

-- A child is started, counted and ends; the handler buries it.
abbrev one_buried : Master
one_buried = record {
  curr_tomb = false;
  tomb_0 = 1;
  tomb_1 = 0;
  child_count = pos 1;
  running = 0;
  ended = 0;
}

life : Steps (pos 2) Point.at_select start_master Point.at_select one_buried
unfolding advance sig_handler ◌+ℤ◌
life =
    after
      (after
        (after
          (after
            (after (after none_yet (goes_on Answer.connection refl)) (goes_on Answer.nothing refl))
            (goes_on Answer.child_started refl))
          (goes_on Answer.nothing refl))
        (child_ends (omega arith)))
      (signal 1 (omega arith))

Steps-limit_example :
    (one_buried.running + one_buried.ended ≤ 2)
    × (k : ℕ) × (one_buried.child_count ≡ pos k)
    × (k + uncounted Point.at_select
        ≡ one_buried.running
          + one_buried.ended
          + one_buried.tomb_0
          + one_buried.tomb_1
          + carried Point.at_select)
Steps-limit_example = Steps-limit 2 Point.at_select one_buried life

-- libssh delivers one message, a request for mail, in each wait; the process is told to stop at the
-- third read.
abbrev pub arrivals : Arrivals
arrivals = record { amount = λ n. 1; event_at = λ n w. Event.on_trap_message (some mail) }

abbrev stop : ℕ → Bool
stop k = leb 2 k

stops : (k : ℕ) → 2 ≤ k → stop k ≡ true
stops k h = ground arith

-- The world before `ProxyProcess`, whose context is not filled in yet.
abbrev pub before : World
before = start_world (record first.ctx { trap_session = none; forward_pool = none }) 0 0 []

whole_process-AllReleased_example :
    Ends
      (whole_process env false arrivals stop 3
        (config forward_mode_echo)
        (codes "10.0.0.1")
        54321
        4
        before)
      (λ _ w'. AllReleased w')
whole_process-AllReleased_example =
    whole_process-AllReleased env false arrivals stop 2 memory (λ n w v. tt) stops
      (config forward_mode_echo) (codes "keys") (codes "10.0.0.1") 54321 4 0 before refl
      (omega arith) (omega arith) (refl, refl)

elapsed_test :
    elapsed env false
      (record { tv_sec = 10; tv_usec = 700000 })
      (record { tv_sec = 13; tv_usec = 200000 })
    ≡ pos 2500
unfolding elapsed int32 ◌+ℤ◌ ◌-ℤ◌ ◌*ℤ◌
elapsed_test = refl

key_dir_test : key_dir (codes "/etc/keys") ≡ some (codes "/etc/keys/")
unfolding key_dir
key_dir_test = refl

-- A process that is never told to stop.
abbrev never : ℕ → Bool
never k = false

passes : (s : ℕ) → (t : ℕ) × ((n : ℕ) → t ≤ n → s ≤ micros (env.clock n))
passes s = (s, λ n h. omega arith)

proxy_process_times_out_example :
    (fuel : ℕ) × Ends (proxy_process env arrivals never fuel first) (λ _ w'. AllReleased w')
proxy_process_times_out_example =
    proxy_process_times_out env arrivals never memory (λ n w v. tt) (λ n. omega arith)
      (codes "10.0.0.1") 54321 (config forward_mode_echo) (some 3) 0 0 [] refl passes

-- A directory with a name of 1010 characters.
abbrev long_name : Bytes
long_name = tabulate 1010 (λ i. b'a')

whole_process-none_example :
    whole_process env false arrivals stop 3
      (record (config forward_mode_echo) { keys_dir = some long_name })
      (codes "10.0.0.1")
      54321
      4
      before
    ≡ none
whole_process-none_example =
    whole_process-none env false arrivals stop 3
      (record (config forward_mode_echo) { keys_dir = some long_name }) long_name (codes "10.0.0.1")
      54321 4 before refl (inr (omega (arith, length-tabulate {A = ℕ} 1010 (λ i. b'a'))))
