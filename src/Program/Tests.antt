-- ===== src/Program/Tests.antt =====
-- Runs of what the two `main` functions share.
use aeron_fast.Program.Adding.{Documented}
use aeron_fast.Program.Client.{IsClient, HasOpened, Runs, success, main_after_options-Runs}
use aeron_fast.Program.Samples.{stale, quick, quick-Answers}
use aeron_fast.Base.{
  List, ◌∷◌, [], none, ℕ, ◌+◌, ◌≡◌, refl, inr, true, false, some, arith, Bool, ◌↔◌,
}
use aeron_fast.Base.Int.{ℤ, pos, negsuc}
use aeron_fast.Common.{
  error_success, error_timeout, codes, Config, udp, default_channel, default_stream_id,
  default_message_size, default_message_count, default_target_message_count, default_fragment_limit,
}
use aeron_fast.Config.Parse.{parse_publisher_args, parse_subscriber_args}
use aeron_fast.Config.Getopt.{getopt_long}
use aeron_fast.Config.Settings.{validate_config}
use aeron_fast.Config.Settings.Channel.{is_ipc, host}
use aeron_fast.Program.Requests.{add_publication, add_subscription, set_dir, programs_meet}
use aeron_fast.Program.{
  Exit, Environment, wait_loop, main_after_options, main_with, client_closed, Ready, await_ready,
}
use aeron_fast.Program.Wait.{WaitEnd, wait_for_connection-WaitEnd}

abbrev never_connected : ℕ → Bool
never_connected n = false

abbrev seconds : ℕ → ℕ
seconds n = 100 + n

wait_for_connection-WaitEnd_example :
    (code : ℤ) × (wait_loop 40 30 100 never_connected seconds 0 ≡ some code)
    × WaitEnd 30 100 never_connected seconds 0 code
wait_for_connection-WaitEnd_example =
    wait_for_connection-WaitEnd 40 30 100 never_connected seconds 31 (omega arith)
      (inr (omega arith))

-- No connection in thirty seconds.
too_late : wait_loop 40 30 100 never_connected seconds 0 ≡ some error_timeout
unfolding wait_loop
too_late = refl

-- The client does not start.
abbrev refusing : Environment
refusing = record quick { aeron_start = negsuc 0 }

refused :
    main_with error_success (main_after_options 5 true refusing (some error_success))
    ≡ Exit.exits (pos 1) client_closed
unfolding main_after_options
refused = refl

quick-IsClient : IsClient quick
quick-IsClient = record {
  context_init = success;
  context_set_dir = success;
  aeron_init = success;
  aeron_start = success;
  add_stream = success;
  add_polls = λ n. Documented.completed false;
}

main_after_options-Runs_example :
    Runs (main_after_options 5 false quick (some error_success))
    ↔ (HasOpened quick × (await_ready 5 quick.add_polls 0 ≡ Ready.done true))
main_after_options-Runs_example =
    main_after_options-Runs 5 false quick error_success quick-IsClient
      (quick-Answers 5 (omega arith))

abbrev to_host : List (List ℕ)
to_host = codes "-e" ∷ codes "10.0.0.1" ∷ []

-- What each parser leaves for these arguments.
abbrev for_host : Config
for_host = record {
  transport_type = udp;
  channel = default_channel;
  custom_endpoint = codes "10.0.0.1";
  aeron_dir = codes "/dev/shm/aeron";
  stream_id = default_stream_id;
  message_size = default_message_size;
  message_count = default_message_count;
  target_message_count = default_target_message_count;
  fragment_limit = default_fragment_limit;
}

programs_meet_example :
    ((add_publication for_host).stream_id ≡ (add_subscription for_host).stream_id)
    × (((add_publication for_host).uri ≡ (add_subscription for_host).uri) ↔ (
        (is_ipc udp ≡ is_ipc udp)
        × (is_ipc udp ≡ false → host (codes "10.0.0.1") ≡ host (codes "10.0.0.1"))))
    × ((set_dir for_host).value ≡ codes "/dev/shm/aeron")
    × ((set_dir for_host).value ≡ codes "/dev/shm/aeron")
unfolding parse_publisher_args parse_subscriber_args getopt_long validate_config
programs_meet_example =
    programs_meet none none to_host to_host stale stale for_host for_host refl refl
