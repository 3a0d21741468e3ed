-- ===== src/Program/Samples.antt =====
-- Sample surroundings for runs of the two programs.
use aeron_fast.Base.{ℕ, ◌+◌, ◌<◌, refl, inl, true, false, []}
use aeron_fast.Base.Int.{pos}
use aeron_fast.Common.{Config, ipc, codes}
use aeron_fast.Clock.{Timespec}
use aeron_fast.Program.{Environment}
use aeron_fast.Program.Exits.{Answers}

abbrev pub tick : ℕ → Timespec
tick n = record { tv_sec = 1700000000; tv_nsec = n }

-- What may lie in `config` before it is set.
abbrev pub stale : Config
stale = record {
  transport_type = ipc;
  channel = [];
  custom_endpoint = codes "old";
  aeron_dir = [];
  stream_id = 0;
  message_size = 3;
  message_count = 0;
  target_message_count = 0;
  fragment_limit = 0;
}

-- A client that answers at once.
abbrev pub quick : Environment
quick = record {
  context_init = pos 0;
  context_set_dir = pos 0;
  aeron_init = pos 0;
  aeron_start = pos 0;
  add_stream = pos 0;
  add_polls = λ n. record { result = pos 1; stream_set = true; interrupted = false };
  start_time = 100;
  is_connected = λ n. true;
  time = λ n. 100 + n;
}

pub quick-Answers : (fuel : ℕ) → 0 < fuel → Answers fuel quick
quick-Answers fuel h = record {
  poll = 0;
  poll_in_time = h;
  settled = inl refl;
  look = 0;
  look_in_time = h;
  over = inl refl;
}
