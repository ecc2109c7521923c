-- ===== src/Master/Tests.antt =====
-- Runs of a small multi-user endpoint, and the theorems at inputs that meet their hypotheses.
use func_x.Prelude.Table.{get_at?, put_at, remove_at}
use func_x.Prelude.{
  ℕ, ◌+◌, ◌≡◌, refl, Bool, true, false, Option, none, some, List, [], ◌∷◌, map, if◌then◌else◌, ◌==◌,
  ltb,
}
use func_x.Prelude.Dict.{◌=?◌}
use func_x.Prelude.Decimal.{str}
use func_x.Prelude.Python.{type_error, value_error, attribute_error, os_error, raise}
use func_x.Master.{
  Passwd, Kwargs, dict, falsy, maps_to, World, init_master, find_running, proc_args, join_words,
  fork_child, notice_record, send_failure_notice, is_forbidden, start_new, start_endpoint,
  cmd_start_endpoint,
}
use func_x.Master.Children.{
  stopped_normally, cached_args, revive_child, stopped_child, reap_child, reap_all,
  wait_for_children,
}
use func_x.Master.Commands.{
  Identity, Command, CommandMessage, Found, Occurrence, sigchld, sigterm, finds, look_up,
  local_user, command_func, execute, authorize, check_time, handle_message, reap_if_asked,
  heartbeat_if_due, take_message, master_turn, set_child_died, request_shutdown, event_loop,
  wait_phase, start_master,
}
use func_x.Master.Safe.{IsSafe}
use func_x.Master.Run.{start_master-IsSafe}
use func_x.Master.Survival.{Cause, handle_message_raises}

abbrev root : Passwd
root = record { pw_name = "root"; pw_uid = 0; pw_gid = 0 }

abbrev alice : Passwd
alice = record { pw_name = "alice"; pw_uid = 1000; pw_gid = 1000 }

abbrev world : (ℕ → Option ℕ) → World
world fork = record {
  fork = fork;
  getpwnam = λ now name. if name =? "alice" then some alice else none;
  getpwuid = λ now uid. if uid == 1000 then some alice else none;
  identity_mapper = some (λ now ids. maps_to (some "alice"));
  parent_identities = [];
  mu_user = root;
  uid = 0;
  allow_same_user = false;
  grace_period = 30;
  heartbeat_period = 30;
  has_date = λ t. ltb t 1000000;
}

abbrev forking : World
forking = world (λ n. some (n + 100))

abbrev failing : World
failing = world (λ n. none)

abbrev kwargs : Kwargs
kwargs = record { name = "ep"; amqp_creds = "c"; user_opts = "" }

abbrev by_alice : Identity
by_alice = record {
  effective_identity = "a1";
  identities = some ("a1" ∷ []);
  globus_username = "alice@example.org";
}

abbrev start_ep : Command
start_ep = record {
  command = "cmd_start_endpoint";
  args = [];
  kwargs = dict kwargs;
  identity = some by_alice;
}

abbrev message : CommandMessage
message = record { timestamp = some 1000; content_type = "application/json"; body = some start_ep }

abbrev arrival : Found
arrival = record { dead = []; message = some message; command_stop_event = false; now = 1010 }

abbrev death : Found
death = record {
  dead = (100, stopped_normally) ∷ [];
  message = none;
  command_stop_event = false;
  now = 1020;
}

-- The same command comes twice; then the child stops, and is started again.
abbrev life : List Occurrence
life = finds arrival ∷ finds arrival ∷ sigchld ∷ finds death ∷ sigterm ∷ []

program : Unit {0}
unfolding init_master get_at? put_at remove_at find_running proc_args join_words fork_child
    notice_record send_failure_notice is_forbidden start_new start_endpoint cmd_start_endpoint
    cached_args revive_child stopped_child reap_child reap_all wait_for_children look_up local_user
    command_func execute authorize check_time handle_message reap_if_asked heartbeat_if_due
    take_message master_turn set_child_died request_shutdown event_loop wait_phase start_master str
program = tt

revived : map (λ e. e.0) (start_master forking life [] [] 1021 init_master).children ≡ 101 ∷ []
unfolding program
revived = refl

abbrev IsAlice : Passwd → Type 0
IsAlice u = u ≡ alice

alice_only : (u : Passwd) → ◌≡◌ {A = Option Passwd} (some alice) (some u) → u ≡ alice
alice_only u e = cc (e)

alice_if :
    (b : Bool) (v : Passwd)
    → ◌≡◌ {A = Option Passwd} (if b then some alice else none) (some v)
    → v ≡ alice
alice_if true v e = alice_only v e
alice_if false v e = absurd (cc (e))

IsAlice-again :
    (u v : Passwd) (now : ℕ) → IsAlice u → forking.getpwuid now u.pw_uid ≡ some v → IsAlice v
IsAlice-again u v now a e = alice_if (u.pw_uid == 1000) v e

start_master-IsSafe_example :
    IsSafe forking IsAlice (start_master forking life [] [] 1021 init_master)
unfolding local_user look_up
start_master-IsSafe_example =
    start_master-IsSafe forking IsAlice life [] [] 1021 IsAlice-again
      ((λ c q i u r e. alice_only u e), ((λ c q i u r e. alice_only u e), (tt, (tt, (tt, tt)))))

-- What ends the loop: no timestamp, a time that has no date, null for the keyword arguments of a
-- command that fails, and a fork that fails.
abbrev null_kwargs : CommandMessage
null_kwargs = record message { body = some (record start_ep { kwargs = falsy }) }

no_timestamp_raises :
    (handle_message forking (record message { timestamp = none }) 1010 init_master).0
    ≡ raise type_error
unfolding program
no_timestamp_raises = refl

no_date_raises :
    (handle_message forking (record message { timestamp = some 9999999 }) 1010 init_master).0
    ≡ raise value_error
unfolding program
no_date_raises = refl

null_kwargs_raises : (handle_message forking null_kwargs 1010 init_master).0 ≡ raise attribute_error
unfolding program
null_kwargs_raises = refl

handle_message_raises_example :
    let s' = (handle_message failing message 1010 init_master).1 in
    (s'.children ≡ init_master.children)
    × (s'.time_to_stop ≡ init_master.time_to_stop)
    × Cause failing message 1010 init_master os_error
handle_message_raises_example =
    handle_message_raises failing message 1010 init_master os_error (unfold program in refl)
